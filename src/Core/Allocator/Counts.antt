-- ===== src/Core/Allocator/Counts.antt =====
-- How many runs and pages a reservation leaves.
use aegis_hv.Common.{
  ℕ, zero, suc, ◌+◌, ◌*◌, ◌%◌, ◌<◌, ◌≤◌, Bool, true, false, ◌&&◌, List, [], ◌∷◌, ◌++◌, length, ltb,
  leb, Result, ok, fail_if, ◌>>=◌, ◌≡◌, arith, Bool-cases, inl, inr, >>=-eq-ok, subst,
  length-append, min,
}
use aegis_hv.Common.Word.{u64_mod}
use aegis_hv.Core.Errors.{CoreErrorKind, capacity_exceeded}
use aegis_hv.Core.Allocator.FreeList.{PageRun, left_over, trim, check_split, count_pages}
use aegis_hv.Core.Allocator.Runs.{limit, IsRun, Ordered, run_end-eq}
use aegis_hv.Core.Allocator.Insert.{room}
use aegis_hv.Core.Allocator.Trim.{
  left_count, right_count, keep, put, trim-step, trim-past, Leaves, leaves,
}

-- A list in order counts only pages below 2^64.
pub count_pages-bound :
    (lo : ℕ) (runs : List PageRun)
    → Ordered lo runs
    → lo ≤ u64_mod
    → lo + count_pages runs * 4096 ≤ u64_mod
unfolding count_pages
count_pages-bound lo [] h small = omega arith
count_pages-bound lo (run ∷ runs) (low, is, h) small =
    omega (arith, count_pages-bound (suc (limit run)) runs h (omega arith))

count_pages-append :
    (rs ss : List PageRun) → count_pages (rs ++ ss) ≡ count_pages rs + count_pages ss
unfolding count_pages
count_pages-append [] ss = omega arith
count_pages-append (r ∷ rs) ss = omega (arith, count_pages-append rs ss)

left_over-count :
    (start stop left right : ℕ) (run : PageRun)
    → Leaves start stop run left right
    → run.start < stop
    → start < limit run
    → start < stop
    → count_pages (left_over run stop left right) ≤ run.count
unfolding left_over count_pages
left_over-count start stop zero zero run (l, r) from until some_bytes = omega arith
left_over-count start stop zero (suc right) run (l, r) from until some_bytes = omega arith
left_over-count start stop (suc left) zero run (l, r) from until some_bytes = omega arith
left_over-count start stop (suc left) (suc right) run (l, r) from until some_bytes = omega arith

left_over-length :
    (run : PageRun) (stop left right : ℕ)
    → length (left_over run stop left right) ≤ suc (min right (min left 1))
unfolding left_over
left_over-length run stop zero zero = omega arith
left_over-length run stop zero (suc right) = omega arith
left_over-length run stop (suc left) zero = omega arith
left_over-length run stop (suc left) (suc right) = omega arith

-- The check on one run.
check_split-step :
    (full : Bool) (start stop : ℕ) (run : PageRun) (runs : List PageRun)
    → IsRun run
    → check_split full start stop (run ∷ runs) ≡ ok tt
    → ((ltb run.start start && ltb stop (limit run) && full) ≡ false)
      × (check_split full start stop runs ≡ ok tt)
unfolding check_split
check_split-step full start stop run runs is checked =
    let splits = ltb run.start start && ltb stop (limit run) && full in
    let checked' : (fail_if splits capacity_exceeded >>= λ _. check_split full start stop runs)
        ≡ ok tt =
      rw (run_end-eq run is, check_split) at checked in
    let (_, fine, rest) = >>=-eq-ok (fail_if splits capacity_exceeded) _ checked' in
    (ground (arith, fine), rest)

-- The runs that the two lists need and the pages that they hold.
abbrev Shrinks : Bool → List PageRun → List PageRun → Type 0
Shrinks full runs out =
    (count_pages out ≤ count_pages runs) × (length out ≤ length runs + room full)

abbrev found : List PageRun → Result (List PageRun) CoreErrorKind
found = ok

unchanged :
    (start stop lo : ℕ) (runs out : List PageRun)
    → stop ≤ lo
    → Ordered lo runs
    → trim start stop runs ≡ ok out
    → length out ≡ length runs
unchanged start stop lo runs out past h trimmed =
    let kept : found runs ≡ ok out = rw (trim-past start stop lo runs past h) at trimmed in
    ground (arith, kept)

-- Only one run can be split, and only when there is room.
trimmed-length :
    (full : Bool) (start stop n m : ℕ) (run : PageRun)
    → (ltb run.start start && ltb stop (limit run) && full) ≡ false
    → (stop < limit run → m ≡ n)
    → m ≤ n + room full
    → suc (min (right_count stop run) (min (left_count start run) 1)) + m ≤ suc n + room full
trimmed-length true start stop n m run fine same bound = elim (Bool-cases (ltb stop (limit run))) [
  | inl inside ↦
      let e : m ≡ n = same (ground arith) in
      let e' : left_count start run ≡ 0 = ground arith in omega (arith, e, e')
  | inr outside ↦ let e : right_count stop run ≡ 0 = ground arith in omega (arith, e, bound)
]
trimmed-length false start stop n m run fine same bound = elim (Bool-cases (ltb stop (limit run))) [
  | inl inside ↦ let e : m ≡ n = same (ground arith) in omega (arith, e)
  | inr outside ↦ let e : right_count stop run ≡ 0 = ground arith in omega (arith, e, bound)
]

pub trim-Shrinks :
    (full : Bool) (start stop lo : ℕ) (runs out : List PageRun)
    → start % 4096 ≡ 0
    → stop % 4096 ≡ 0
    → start < stop
    → Ordered lo runs
    → check_split full start stop runs ≡ ok tt
    → trim start stop runs ≡ ok out
    → Shrinks full runs out
unfolding count_pages
trim-Shrinks full start stop lo [] out b c some_bytes h checked done =
    let e : [] ≡ out = unfold trim in ground (arith, done) in
    subst (Shrinks full []) e (omega arith, omega arith)
trim-Shrinks full start stop lo (run ∷ runs) out b c some_bytes (low, is, h) checked done =
    let step = trim-step start stop run runs is in
    let (fine, checked') = check_split-step full start stop run runs is checked in
    elim (Bool-cases (leb stop run.start)) [
      | inl past ↦
          let done' : keep run runs ≡ ok out = rw (step, past) at done in
          let e : run ∷ runs ≡ out = ground (arith, done') in
          subst (Shrinks full (run ∷ runs)) e (omega arith, omega arith)
      | inr from ↦ elim (Bool-cases (leb (limit run) start)) [
        | inl before ↦
            let done' : (trim start stop runs >>= keep run) ≡ ok out =
              rw (step, from, before) at done in
            let (rest, trimmed, e) = >>=-eq-ok (trim start stop runs) (keep run) done' in
            let e' : run ∷ rest ≡ out = ground (arith, e) in
            let (pages, runs') =
              trim-Shrinks full start stop (suc (limit run)) runs rest b c some_bytes h checked'
                trimmed in
            subst (Shrinks full (run ∷ runs)) e' (omega (arith, pages), omega (arith, runs'))
        | inr until ↦
            let left = left_count start run in
            let right = right_count stop run in
            let new = left_over run stop left right in
            let done' : (trim start stop runs >>= put new) ≡ ok out =
              rw (step, from, until) at done in
            let (rest, trimmed, e) = >>=-eq-ok (trim start stop runs) (put new) done' in
            let e' : new ++ rest ≡ out = ground (arith, e) in
            let from' : run.start < stop = ground (arith, from) in
            let until' : start < limit run = ground (arith, until) in
            let l = leaves start stop run is b c from' until' in
            let (pages, runs') =
              trim-Shrinks full start stop (suc (limit run)) runs rest b c some_bytes h checked'
                trimmed in
            let same : stop < limit run → length rest ≡ length runs = λ inside.
              unchanged start stop (suc (limit run)) runs rest (omega (arith, inside)) h trimmed in
            let few =
              trimmed-length full start stop (length runs) (length rest) run fine same runs' in
            subst (Shrinks full (run ∷ runs)) e' (
              omega (
                arith,
                pages,
                left_over-count start stop left right run l from' until' some_bytes,
                count_pages-append new rest,
              ),
              omega (arith, length-append new rest, left_over-length run stop left right, few),
            )
      ]
    ]
