-- ===== src/Core/Allocator/Trim.antt =====
-- The trimming of the free list by `reserve_range`.
use aegis_hv.Common.{
  ℕ, zero, suc, ◌+◌, ◌-◌, ◌*◌, ◌/◌, ◌%◌, ◌<◌, ◌≤◌, Bool, true, ◌&&◌, not, List, [], ◌∷◌, ◌++◌, ltb,
  leb, if◌then◌else◌, Result, ok, ◌>>=◌, ◌≡◌, refl, arith, Bool-cases, inl, inr, >>=-eq-ok, subst,
  min, max, fail_if,
}
use aegis_hv.Core.Errors.{CoreErrorKind, capacity_exceeded}
use aegis_hv.Core.Allocator.FreeList.{PageRun, left_over, trim, check_split, run_end, page_size_4k}
use aegis_hv.Core.Allocator.Runs.{
  limit, covers, IsRun, Ordered, run_end-eq, Ordered-weaken, covers-below,
}

abbrev pub in_range : ℕ → ℕ → ℕ → Bool
in_range start stop a = leb start a && ltb a stop

abbrev pub left_count : ℕ → PageRun → ℕ
left_count start run = if ltb run.start start then (start - run.start) / 4096 else 0

abbrev pub right_count : ℕ → PageRun → ℕ
right_count stop run = if ltb stop (limit run) then (limit run - stop) / 4096 else 0

abbrev pub keep : PageRun → List PageRun → Result (List PageRun) CoreErrorKind
keep run out = ok (run ∷ out)

abbrev pub put : List PageRun → List PageRun → Result (List PageRun) CoreErrorKind
put new out = ok (new ++ out)

-- One round of the loop.
pub trim-step :
    (start stop : ℕ) (run : PageRun) (runs : List PageRun)
    → IsRun run
    → trim start stop (run ∷ runs) ≡ (
        if leb stop run.start
        then ok (run ∷ runs)
        else if leb (limit run) start
        then (trim start stop runs >>= keep run)
        else (trim start stop runs
            >>= put (left_over run stop (left_count start run) (right_count stop run))))
unfolding trim
trim-step start stop run runs is = rw (run_end-eq run is) refl

-- Nothing is trimmed behind the reservation.
pub trim-past :
    (start stop lo : ℕ) (runs : List PageRun)
    → stop ≤ lo
    → Ordered lo runs
    → trim start stop runs ≡ ok runs
trim-past start stop lo [] past h = unfold trim in refl
trim-past start stop lo (run ∷ runs) past (low, is, h) =
    let before : leb stop run.start ≡ true = ground arith in
    rw (trim-step start stop run runs is, before) refl

-- The pages of the run before `start` and behind `stop`.
abbrev pub Leaves : ℕ → ℕ → PageRun → ℕ → ℕ → Type 0
Leaves start stop run left right =
    (max run.start start ≡ run.start + left * 4096)
    × (limit run ≡ min stop (limit run) + right * 4096)

pub leaves :
    (start stop : ℕ) (run : PageRun)
    → IsRun run
    → start % 4096 ≡ 0
    → stop % 4096 ≡ 0
    → run.start < stop
    → start < limit run
    → Leaves start stop run (left_count start run) (right_count stop run)
leaves start stop run is a b c d = (ground arith, ground arith)

abbrev pub Trims : ℕ → ℕ → ℕ → List PageRun → List PageRun → Type 0
Trims lo start stop runs out =
    Ordered lo out × ((a : ℕ) → covers a out ≡ (covers a runs && not (in_range start stop a)))

left_over_lem :
    (start stop left right lo : ℕ) (run : PageRun) (runs out : List PageRun)
    → Leaves start stop run left right
    → run.start < stop
    → start < limit run
    → start < stop
    → lo ≤ run.start
    → IsRun run
    → Trims (suc (limit run)) start stop runs out
    → Trims lo start stop (run ∷ runs) (left_over run stop left right ++ out)
unfolding left_over covers
left_over_lem start stop zero zero lo run runs out (l, r) from until some_bytes low is
      (ordered, same) =
    (Ordered-weaken _ lo out (omega arith) ordered, λ a. ground (arith, same a))
left_over_lem start stop zero (suc right) lo run runs out (l, r) from until some_bytes low is
      (ordered, same) =
    (
      (
        omega arith,
        (omega arith, omega arith, omega arith),
        Ordered-weaken _ _ out (omega arith) ordered,
      ),
      λ a. ground (arith, same a),
    )
left_over_lem start stop (suc left) zero lo run runs out (l, r) from until some_bytes low is
      (ordered, same) =
    (
      (low, (omega arith, omega arith, omega arith), Ordered-weaken _ _ out (omega arith) ordered),
      λ a. ground (arith, same a),
    )
left_over_lem start stop (suc left) (suc right) lo run runs out (l, r) from until some_bytes low is
      (ordered, same) =
    (
      (
        low,
        (omega arith, omega arith, omega arith),
        (
          omega arith,
          (omega arith, omega arith, omega arith),
          Ordered-weaken _ _ out (omega arith) ordered,
        ),
      ),
      λ a. ground (arith, same a),
    )

-- Nothing behind the reservation lies in it.
past_range :
    (start stop lo a : ℕ) (runs : List PageRun)
    → stop ≤ lo
    → Ordered lo runs
    → covers a runs ≡ (covers a runs && not (in_range start stop a))
past_range start stop lo a runs past h = ground (arith, covers-below lo a runs h)

-- A run before the reservation stays.
skip :
    (start stop a : ℕ) (run : PageRun) (runs rest : List PageRun)
    → limit run ≤ start
    → covers a rest ≡ (covers a runs && not (in_range start stop a))
    → covers a (run ∷ rest) ≡ (covers a (run ∷ runs) && not (in_range start stop a))
unfolding covers
skip start stop a run runs rest before same = ground (arith, same)

-- The trimming takes the reservation out of the list.
pub trim_lem :
    (start stop lo : ℕ) (runs out : List PageRun)
    → start % 4096 ≡ 0
    → stop % 4096 ≡ 0
    → start < stop
    → Ordered lo runs
    → trim start stop runs ≡ ok out
    → Trims lo start stop runs out
trim_lem start stop lo [] out b c some_bytes h done =
    let e : [] ≡ out = unfold trim in ground (arith, done) in
    subst (Trims lo start stop []) e (tt, λ a. unfold covers in refl)
trim_lem start stop lo (run ∷ runs) out b c some_bytes (low, is, h) done =
    let step = trim-step start stop run runs is in
    elim (Bool-cases (leb stop run.start)) [
      | inl past ↦
          let done' : keep run runs ≡ ok out = rw (step, past) at done in
          let e : run ∷ runs ≡ out = ground (arith, done') in
          subst (Trims lo start stop (run ∷ runs)) e (
            (low, is, h),
            λ a. past_range start stop run.start a (run ∷ runs) (ground arith) (omega arith, is, h),
          )
      | inr from ↦ elim (Bool-cases (leb (limit run) start)) [
        | inl before ↦
            let done' : (trim start stop runs >>= keep run) ≡ ok out =
              rw (step, from, before) at done in
            let (rest, trimmed, e) = >>=-eq-ok (trim start stop runs) (keep run) done' in
            let e' : run ∷ rest ≡ out = ground (arith, e) in
            let (ordered, same) =
              trim_lem start stop (suc (limit run)) runs rest b c some_bytes h trimmed in
            subst (Trims lo start stop (run ∷ runs)) e'
              ((low, is, ordered), λ a. skip start stop a run runs rest (ground arith) (same a))
        | inr until ↦
            let new = left_over run stop (left_count start run) (right_count stop run) in
            let done' : (trim start stop runs >>= put new) ≡ ok out =
              rw (step, from, until) at done in
            let (rest, trimmed, e) = >>=-eq-ok (trim start stop runs) (put new) done' in
            let e' : new ++ rest ≡ out = ground (arith, e) in
            let from' : run.start < stop = ground (arith, from) in
            let until' : start < limit run = ground (arith, until) in
            subst (Trims lo start stop (run ∷ runs)) e' (
              left_over_lem start stop (left_count start run) (right_count stop run) lo run runs
                rest (leaves start stop run is b c from' until') from' until' some_bytes low is
                (trim_lem start stop (suc (limit run)) runs rest b c some_bytes h trimmed))
      ]
    ]

-- When the second loop of `reserve_range` has passed, the third one does not fail: it reads the ends
-- of the same runs.
pub check_split-trim :
    (full : Bool) (start stop : ℕ) (runs : List PageRun)
    → check_split full start stop runs ≡ ok tt
    → (out : List PageRun) × (trim start stop runs ≡ ok out)
unfolding check_split trim
check_split-trim full start stop [] checked = ([], refl)
check_split-trim full start stop (run ∷ runs) checked =
    let (end_of_run, e, checked') = >>=-eq-ok (run_end run) _ checked in
    let splits = ltb run.start start && ltb stop end_of_run && full in
    let (_, _, rest) = >>=-eq-ok (fail_if splits capacity_exceeded) _ checked' in
    let (out, trimmed) = check_split-trim full start stop runs rest in
    elim (Bool-cases (leb stop run.start)) [
      | inl past ↦ (run ∷ runs, rw (trim, e, past) refl)
      | inr here ↦ elim (Bool-cases (leb end_of_run start)) [
        | inl before ↦ (run ∷ out, rw (trim, e, here, before, trimmed) refl)
        | inr hit ↦
            let left = if ltb run.start start then (start - run.start) / page_size_4k else 0 in
            let right = if ltb stop end_of_run then (end_of_run - stop) / page_size_4k else 0 in
            (left_over run stop left right ++ out, rw (trim, e, here, hit, trimmed) refl)
      ]
    ]
