-- ===== src/Core/Allocator/Allocate.antt =====
-- What `allocate_within` returns, and when it finds no page.
use aegis_hv.Common.{
  ℕ, zero, suc, ◌+◌, ◌-◌, ◌/◌, ◌%◌, Bool, true, false, ◌&&◌, not, Option, none, some, List, [], ◌∷◌,
  ◌++◌, length, get_or, leb, if◌then◌else◌, Result, ok, err, fail_if, ◌>>=◌, ◌≡◌, refl, arith,
  Bool-cases, inl, inr, sym, Result-cases, Option-cases, ap, subst, ◌∙◌, max, ◌⊎◌, min,
}
use aegis_hv.Common.Word.{checked_add}
use aegis_hv.Core.Errors.{CoreErrorKind, invalid_address, capacity_exceeded, out_of_memory}
use aegis_hv.Core.Ids.{new_host_physical}
use aegis_hv.Core.Allocator.{
  PageAllocationConstraint, PhysicalPageAllocator, select, take_page, allocate_within,
}
use aegis_hv.Core.Allocator.FreeList.{
  PageRun, run_end, align_up, cut, empty_run, take_page_from_run,
}
use aegis_hv.Core.Allocator.Runs.{in_page, covers}
use aegis_hv.Core.Allocator.Select.{Within, select-none}
use aegis_hv.Core.Allocator.Inv.{
  IsWellFormed, SameMemory, handed_out, handed_out_lem, take_page_lem,
}

-- An allocation that succeeds has taken a page out of the free list.
pub allocate_within-take_page :
    (c : PageAllocationConstraint) (a a' : PhysicalPageAllocator) (page : ℕ)
    → allocate_within c a ≡ (ok page, a')
    → (runs : List PageRun) × (take_page c a ≡ ok (page, runs)) × (handed_out a page runs ≡ a')
unfolding allocate_within
allocate_within-take_page c a a' page done = elim (Result-cases (take_page c a)) [
  | inl ((page', runs), e) ↦
      let done' : (new_host_physical page', handed_out a page' runs) ≡ (ok page, a') =
        rw (e, allocate_within) at done in
      let made : new_host_physical page' ≡ ok page = ap (λ p. p.0) done' in
      let same : page' ≡ page = ground (arith, made) in
      (
        runs,
        e ∙ ap (λ p. ok (p, runs)) same,
        ap (λ p. handed_out a p runs) (sym same) ∙ ap (λ p. p.1) done',
      )
  | inr (_, e) ↦ absurd (ground (arith, rw (e, allocate_within) at done))
]

-- Whatever `allocate_within` returns, the memory that the allocator holds stays the same.
pub allocate_within-IsWellFormed :
    (c : PageAllocationConstraint) (a : PhysicalPageAllocator)
    → IsWellFormed a
    → IsWellFormed (allocate_within c a).1 × SameMemory a (allocate_within c a).1
unfolding allocate_within
allocate_within-IsWellFormed c a wf = elim (Result-cases (take_page c a)) [
  | inl ((page, runs), e) ↦ rw (e, allocate_within) (handed_out_lem c a page runs wf e)
  | inr (_, e) ↦ rw (e, allocate_within) (wf, λ x. refl)
]

-- The page that is handed out.
abbrev pub HandsOut :
    PageAllocationConstraint → ℕ → PhysicalPageAllocator → PhysicalPageAllocator → Type 0
HandsOut c page a a' =
    (page % 4096 ≡ 0)
    × Within c page
    × ((x : ℕ) → in_page page x ≡ true → covers x a.free_runs ≡ true)
    × ((x : ℕ) → covers x a'.free_runs ≡ (covers x a.free_runs && not (in_page page x)))
    × (a'.allocated ≡ a.allocated ++ (page ∷ []))

-- A page that `allocate_within` returns is aligned, lies within the constraint and was free.
-- Afterwards exactly its addresses are free no longer, and it is the last of the allocated pages.
pub allocate_within_lem :
    (c : PageAllocationConstraint) (page : ℕ) (a a' : PhysicalPageAllocator)
    → IsWellFormed a
    → allocate_within c a ≡ (ok page, a')
    → HandsOut c page a a'
allocate_within_lem c page a a' wf done =
    let (runs, e, e') = allocate_within-take_page c a a' page done in
    let ((aligned, _, within, free), removes, _, _) = take_page_lem c a page runs wf e in
    subst (HandsOut c page a) e' (aligned, within, free, removes.1, refl)

cut-err :
    (full : Bool) (run : PageRun) (page_end before after : ℕ) {e : CoreErrorKind}
    → cut full run page_end before after ≡ err e
    → capacity_exceeded ≡ e
unfolding cut
cut-err full run page_end zero zero h = ground (arith, h)
cut-err full run page_end zero (suc after) h = ground (arith, h)
cut-err full run page_end (suc before) zero h = ground (arith, h)
cut-err full run page_end (suc before) (suc after) h = ground (arith, h)

-- What a `?` went through when the whole failed.
>>=-eq-err :
    {A B : Type 0} (r : Result A CoreErrorKind) (next : A → Result B CoreErrorKind)
    {e : CoreErrorKind}
    → (r >>= next) ≡ err e
    → (r ≡ err e) ⊎ ((value : A) × (r ≡ ok value) × (next value ≡ err e))
>>=-eq-err r next done = elim (Result-cases r) [
  | inl (value, e) ↦ inr (value, e, cc)
  | inr (e, bad) ↦ inl cc
]

-- What the search does with the end of a candidate.
go_on-err :
    (c : PageAllocationConstraint) (stop : ℕ) (candidate_end : Option ℕ)
    (found next : Result (Option (ℕ × ℕ × ℕ)) CoreErrorKind) {e : CoreErrorKind}
    → (next ≡ err e → invalid_address ≡ e)
    → (found ≡ err e → invalid_address ≡ e)
    → elim candidate_end [
      | none ↦ next
      | some bound ↦ if leb bound (min stop c.max_address_exclusive) then found else next
    ]
      ≡ err e
    → invalid_address ≡ e
go_on-err c stop none found next rest here h = rest h
go_on-err c stop (some bound) found next rest here h =
    elim (Bool-cases (leb bound (min stop c.max_address_exclusive))) [
      | inl fits ↦ here (rw fits at h)
      | inr past ↦ rest (rw past at h)
    ]

select-err :
    (c : PageAllocationConstraint) (index : ℕ) (runs : List PageRun) {e : CoreErrorKind}
    → select c index runs ≡ err e
    → invalid_address ≡ e
unfolding select
select-err c index [] h = absurd (ground (arith, h))
select-err c index (run ∷ runs) {e} h = elim (>>=-eq-err (run_end run) _ h) [
  | inl bad ↦ unfold run_end in ground (arith, bad)
  | inr (stop, _, h') ↦ elim (>>=-eq-err (align_up (max run.start c.min_address) 4096) _ h') [
    | inl bad ↦ unfold align_up in ground (arith, bad)
    | inr (candidate, _, h'') ↦
        go_on-err c stop (checked_add candidate 4096) (ok (some (index, candidate, stop)))
          (select c (suc index) runs) (select-err c (suc index) runs)
          (λ bad. absurd (ground (arith, bad))) h''
  ]
]

abbrev takes : Result (ℕ × List PageRun) CoreErrorKind → Result (ℕ × List PageRun) CoreErrorKind
takes r = r

take_page_from_run-err :
    (capacity index page stop : ℕ) (runs : List PageRun) (p : ℕ)
    → (take_page_from_run capacity index page stop runs >>= λ out. takes (ok (p, out)))
      ≡ err out_of_memory
    → ⊥
unfolding take_page_from_run
take_page_from_run-err capacity index page stop runs p h =
    elim (>>=-eq-err (take_page_from_run capacity index page stop runs) _ h) [
      | inl bad ↦
          let run = get_or runs index empty_run in
          let new =
            cut (leb capacity (length runs)) run (page + 4096) ((page - run.start) / 4096)
              ((stop - (page + 4096)) / 4096) in
          elim (>>=-eq-err new _ bad) [
            | inl bad' ↦ ground (arith, cut-err _ run (page + 4096) _ _ bad')
            | inr (_, _, bad') ↦ ground (arith, bad')
          ]
      | inr (_, _, bad) ↦ ground (arith, bad)
    ]

-- An allocation that runs out of memory has found no page.
take_page-out_of_memory :
    (c : PageAllocationConstraint) (a : PhysicalPageAllocator)
    → take_page c a ≡ err out_of_memory
    → select c 0 a.free_runs ≡ ok none
unfolding take_page
take_page-out_of_memory c a h =
    elim (>>=-eq-err (fail_if (leb c.max_address_exclusive c.min_address) invalid_address) _ h) [
      | inl bad ↦ absurd (ground (arith, bad))
      | inr (_, _, h1) ↦
          elim (>>=-eq-err (fail_if (leb a.pages_capacity (length a.allocated)) capacity_exceeded) _
            h1) [
              | inl bad ↦ absurd (ground (arith, bad))
              | inr (_, _, h2) ↦ elim (>>=-eq-err (select c 0 a.free_runs) _ h2) [
                | inl bad ↦ absurd (ground (arith, select-err c 0 a.free_runs bad))
                | inr (selected, found, h3) ↦ elim (Option-cases selected) [
                  | inl e ↦ found ∙ ap ok e
                  | inr ((index, page, stop), e) ↦
                      let h4 : (take_page_from_run a.runs_capacity index page stop a.free_runs
                            >>= λ runs. takes (ok (page, runs)))
                          ≡ err out_of_memory =
                        rw e at h3 in
                      absurd
                        (take_page_from_run-err a.runs_capacity index page stop a.free_runs page h4)
                ]
              ]
            ]
    ]

-- If `allocate_within` is out of memory, then no page that lies within the constraint is free.
pub allocate_within-out_of_memory :
    (c : PageAllocationConstraint) (a : PhysicalPageAllocator)
    → IsWellFormed a
    → (allocate_within c a).0 ≡ err out_of_memory
    → (page : ℕ) → page % 4096 ≡ 0
    → Within c page
    → covers page a.free_runs ≡ false
unfolding allocate_within
allocate_within-out_of_memory c a (ordered, _, _, _, _) h page aligned within =
    elim (Result-cases (take_page c a)) [
      | inl ((page', runs), e) ↦ absurd (ground (arith, rw (e, allocate_within) at h))
      | inr (kind, e) ↦
          let e' : kind ≡ out_of_memory = ground (arith, rw (e, allocate_within) at h) in
          select-none c 0 a.free_runs 0 ordered (take_page-out_of_memory c a (e ∙ ap err e')) page
            aligned within
    ]
