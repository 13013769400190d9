-- ===== src/Core/Rings/Numbers.antt =====
-- The numbers of the events in the ring, and the account of what was lost.
use aegis_hv.Common.{
  ℕ, zero, suc, ◌+◌, ◌-◌, ◌%◌, ◌<◌, true, false, Option, none, some, List, [], ◌∷◌, ◌++◌, length,
  length-replicate, ◌==◌, ltb, err, ◌≡◌, refl, arith, ap, ◌∙◌, subst, Bool-cases, inl, inr,
}
use aegis_hv.Common.Word.{u64_max}
use aegis_hv.Core.Errors.{invalid_state}
use aegis_hv.Core.Rings.{
  EventKind, EventRecord, EventRing, empty_event, new_event_ring, push_lossy, pop_event,
}
use aegis_hv.Core.Rings.Events.{
  contents, IsReady, without_first, event, pushed, push_lossy_lem, pop_event_lem,
}
use aegis_hv.Core.Window.{window}

-- The events are numbered from `n` on without a gap.
abbrev pub Consecutive : ℕ → List EventRecord → Type 0
Consecutive n [] = Unit
Consecutive n (e ∷ es) = (e.sequence ≡ n) × Consecutive (suc n) es

Consecutive-snoc :
    (n : ℕ) (es : List EventRecord) (e : EventRecord)
    → Consecutive n es
    → e.sequence ≡ n + length es
    → Consecutive n (es ++ (e ∷ []))
Consecutive-snoc n [] e h k = (omega (arith, k), tt)
Consecutive-snoc n (x ∷ es) e h k = (h.0, Consecutive-snoc (suc n) es e h.1 (omega (arith, k)))

length-window :
    (d : EventRecord) (xs : List EventRecord) (head n : ℕ) → length (window d xs head n) ≡ n
unfolding window
length-window d xs head zero = refl
length-window d xs head (suc n) = ap suc (length-window d xs ((head + 1) % length xs) n)

-- `taken` events have been popped.
pub record IsCounted (r : EventRing) (taken : ℕ) : Type 0 where
  pub ready : IsReady r
  pub numbered : Consecutive (taken + r.dropped + 1) (contents r)
  pub account : taken + r.dropped + r.len + 1 ≡ r.next_sequence

-- What the users of the ring do.
pub data Use : Type 0 where
  pushes : EventKind → Option ℕ → Option ℕ → ℕ → ℕ → Use
  pops : Use

-- The ring and the number of events that were taken out of it.
unfoldable pub use_ring : EventRing × ℕ → Use → EventRing × ℕ
use_ring (r, taken) (pushes kind vm_id vcpu_id arg0 arg1) =
    ((push_lossy kind vm_id vcpu_id arg0 arg1 r).1, taken)
use_ring (r, taken) pops =
    let (popped, r') = pop_event r in elim popped [ none ↦ (r', taken) | some _ ↦ (r', taken + 1) ]

unfoldable pub run_ring : EventRing × ℕ → List Use → EventRing × ℕ
unfolding use_ring
run_ring s [] = s
run_ring s (u ∷ us) = run_ring (use_ring s u) us

push_lossy-worn :
    (kind : EventKind) (vm_id vcpu_id : Option ℕ) (arg0 arg1 : ℕ) (r : EventRing)
    → IsReady r
    → ltb r.next_sequence u64_max ≡ false
    → push_lossy kind vm_id vcpu_id arg0 arg1 r ≡ (err invalid_state, r)
unfolding push_lossy
push_lossy-worn kind vm_id vcpu_id arg0 arg1 r h worn = ground (arith, h.placed)

Consecutive-without :
    (n : ℕ) (r : EventRing) (e : EventRecord)
    → IsReady r
    → (r.len == length r.entries) ≡ true
    → Consecutive n (contents r)
    → e.sequence ≡ n + r.len
    → Consecutive (suc n) (without_first (contents r) ++ (e ∷ []))
unfolding window
Consecutive-without n r e h full numbered next =
    let k = r.len - 1 in
    let some_len : r.len ≡ suc k = ground (arith, h.placed) in
    let head = (r.head + 1) % length r.entries in
    let numbered' : Consecutive n (window empty_event r.entries r.head (suc k)) =
      subst (λ l. Consecutive n (window empty_event r.entries r.head l)) some_len numbered in
    rw some_len (
      Consecutive-snoc (suc n) (window empty_event r.entries head k) e numbered'.1
        (omega (arith, next, some_len, length-window empty_event r.entries head k)))

IsCounted-push :
    (kind : EventKind) (vm_id vcpu_id : Option ℕ) (arg0 arg1 taken : ℕ) (r : EventRing)
    → IsCounted r taken
    → IsCounted (push_lossy kind vm_id vcpu_id arg0 arg1 r).1 taken
IsCounted-push kind vm_id vcpu_id arg0 arg1 taken r h =
    elim (Bool-cases (ltb r.next_sequence u64_max)) [
      | inr worn ↦ rw (push_lossy-worn kind vm_id vcpu_id arg0 arg1 r h.ready worn) h
      | inl small ↦
          let (_, ready, after, next, lost, len) =
            push_lossy_lem kind vm_id vcpu_id arg0 arg1 r h.ready (ground arith) in
          let r' = (push_lossy kind vm_id vcpu_id arg0 arg1 r).1 in
          let e = event kind vm_id vcpu_id arg0 arg1 r in
          elim (Bool-cases (r.len == length r.entries)) [
            | inl full ↦
                let lost' : r'.dropped ≡ r.dropped + 1 = lost ∙ rw full refl in
                let len' : r'.len ≡ r.len = len ∙ rw full refl in
                let shift : suc (taken + r.dropped + 1) ≡ taken + r'.dropped + 1 =
                  omega (arith, lost') in
                record {
                  ready = ready;
                  numbered = rw after (
                      subst (λ n. Consecutive n (pushed e r)) shift
                        (rw full (
                          Consecutive-without (taken + r.dropped + 1) r e h.ready full h.numbered
                            (omega (arith, h.account)))));
                  account = omega (arith, h.account, next, lost', len');
                }
            | inr room ↦
                let lost' : r'.dropped ≡ r.dropped = lost ∙ rw room refl in
                let len' : r'.len ≡ r.len + 1 = len ∙ rw room refl in
                let shift : taken + r.dropped + 1 ≡ taken + r'.dropped + 1 = omega (arith, lost') in
                record {
                  ready = ready;
                  numbered = rw after (
                      subst (λ n. Consecutive n (pushed e r)) shift
                        (rw room (
                          Consecutive-snoc (taken + r.dropped + 1) (contents r) e h.numbered (
                            omega (
                              arith,
                              h.account,
                              length-window empty_event r.entries r.head r.len,
                            )))));
                  account = omega (arith, h.account, next, lost', len');
                }
          ]
    ]

pop_event-rest :
    (r : EventRing)
    → ((pop_event r).1.dropped ≡ r.dropped) × ((pop_event r).1.next_sequence ≡ r.next_sequence)
unfolding pop_event
pop_event-rest r = ground arith

use_ring-none :
    (taken : ℕ) (r : EventRing) → pop_event r ≡ (none, r) → use_ring (r, taken) pops ≡ (r, taken)
unfolding use_ring
use_ring-none taken r h =
    rw (ap (λ (q : Option EventRecord × EventRing). q.0) h, use_ring)
      (ap (λ (q : Option EventRecord × EventRing). (q.1, taken)) h)

use_ring-some :
    (taken : ℕ) (r : EventRing) (e : EventRecord)
    → (pop_event r).0 ≡ some e
    → use_ring (r, taken) pops ≡ ((pop_event r).1, taken + 1)
unfolding use_ring
use_ring-some taken r e h = rw (h, use_ring) refl

IsCounted-pop :
    (taken : ℕ) (r : EventRing)
    → IsCounted r taken
    → IsCounted (use_ring (r, taken) pops).0 (use_ring (r, taken) pops).1
IsCounted-pop taken r h = elim (pop_event_lem r h.ready) [
  | inl (_, same) ↦ rw (use_ring-none taken r same) h
  | inr (e, found, before, ready, len) ↦
      let (lost, next) = pop_event-rest r in
      let numbered : Consecutive (taken + r.dropped + 1) (e ∷ contents (pop_event r).1) =
        subst (Consecutive (taken + r.dropped + 1)) before h.numbered in
      let shift : suc (taken + r.dropped + 1) ≡ taken + 1 + (pop_event r).1.dropped + 1 =
        omega (arith, lost) in
      rw (use_ring-some taken r e found) (record {
        ready = ready;
        numbered = subst (λ n. Consecutive n (contents (pop_event r).1)) shift numbered.1;
        account = omega (arith, h.account, lost, next, len);
      })
]

IsCounted-use :
    (u : Use) (taken : ℕ) (r : EventRing)
    → IsCounted r taken
    → IsCounted (use_ring (r, taken) u).0 (use_ring (r, taken) u).1
IsCounted-use (pushes kind vm_id vcpu_id arg0 arg1) taken r h =
    unfold use_ring in IsCounted-push kind vm_id vcpu_id arg0 arg1 taken r h
IsCounted-use pops taken r h = IsCounted-pop taken r h

IsCounted-run :
    (us : List Use) (taken : ℕ) (r : EventRing)
    → IsCounted r taken
    → IsCounted (run_ring (r, taken) us).0 (run_ring (r, taken) us).1
unfolding run_ring
IsCounted-run [] taken r h = h
IsCounted-run (u ∷ us) taken r h =
    let (r', taken') = use_ring (r, taken) u in
    IsCounted-run us taken' r' (IsCounted-use u taken r h)

-- After any use of a new ring of events that has a slot, the events that wait are numbered without
-- a gap, the first of them comes right after those that were taken and dropped, and the taken, the
-- dropped and the waiting ones together are all that were numbered.
pub run_ring-new :
    (n : ℕ) (us : List Use)
    → 0 < n
    → let (r, taken) = run_ring (new_event_ring n, 0) us in
      Consecutive (taken + r.dropped + 1) (contents r)
      × (length (contents r) ≡ r.len)
      × (taken + r.dropped + r.len + 1 ≡ r.next_sequence)
run_ring-new n us h =
    let size = length-replicate n empty_event in
    let start : IsCounted (new_event_ring n) 0 = record {
      ready = record { placed = omega (arith, size); fits = omega arith };
      numbered = unfold window in tt;
      account = refl;
    } in
    let (r, taken) = run_ring (new_event_ring n, 0) us in
    let done = IsCounted-run us 0 (new_event_ring n) start in
    (done.numbered, length-window empty_event r.entries r.head r.len, done.account)
