-- ===== src/Core/Allocator/Insert.antt =====
-- An insertion into the free list adds the run's addresses and keeps the list in order.
use aegis_hv.Common.{
  ℕ, ◌+◌, ◌≤◌, Bool, true, false, ◌||◌, Option, none, some, List, [], ◌∷◌, ◌++◌, length, ltb, leb,
  ◌==◌, ok, ◌>>=◌, ◌≡◌, arith, Bool-cases, inl, inr, >>=-eq-ok, subst, sym, length-append,
}
use aegis_hv.Core.Allocator.FreeList.{
  PageRun, optional, join, touches_left, touches_right, place, insert_from, insert_free_run,
}
use aegis_hv.Core.Allocator.Runs.{limit, in_run, covers, IsRun, Ordered, run_end-eq}
use aegis_hv.Core.Allocator.Join.{
  Adds, floor, under, behind, touches_left_lem, touches_right_lem, join_lem,
}

place_lem :
    (full : Bool) (run : PageRun) (previous : Option PageRun) (next out : List PageRun) (lo : ℕ)
    → IsRun run
    → lo ≤ run.start
    → Ordered lo (optional previous ++ next)
    → place full run (limit run) previous next ≡ ok out
    → Adds lo run (optional previous ++ next) out
unfolding place
place_lem full run previous next out lo is low h placed =
    let (left, l, placed') = >>=-eq-ok (touches_left run previous) _ placed in
    let (right, r, made) = >>=-eq-ok (touches_right (limit run) next) _ placed' in
    join_lem full run previous next out left right lo is h
      (touches_left_lem lo run previous next left low h l)
      (touches_right_lem (floor lo previous) run next right (behind lo previous next h) r) made

insert_from_lem :
    (full : Bool) (run : PageRun) (previous : Option PageRun) (next out : List PageRun) (lo : ℕ)
    → IsRun run
    → lo ≤ run.start
    → Ordered lo (optional previous ++ next)
    → insert_from full run (limit run) previous next ≡ ok out
    → Adds lo run (optional previous ++ next) out
unfolding insert_from
insert_from_lem full run previous [] out lo is low h placed =
    place_lem full run previous [] out lo is low h placed
insert_from_lem full run previous (n ∷ rest) out lo is low h placed =
    let further = insert_from full run (limit run) (some n) rest in
    elim (Bool-cases (ltb n.start run.start)) [
      | inl later ↦
          let placed' : (further >>= λ tail. ok (optional previous ++ tail)) ≡ ok out =
            rw (later, insert_from) at placed in
          let (tail, found, e) = >>=-eq-ok further _ placed' in
          let e' : optional previous ++ tail ≡ out = ground (arith, e) in
          let (low', _, _) = behind lo previous (n ∷ rest) h in
          subst (Adds lo run (optional previous ++ (n ∷ rest))) e' (
            under lo run previous (n ∷ rest) tail h (
              insert_from_lem full run (some n) rest tail (floor lo previous) is (ground arith)
                (behind lo previous (n ∷ rest) h) found))
      | inr here ↦
          place_lem full run previous (n ∷ rest) out lo is low h (rw (here, insert_from) at placed)
    ]

-- How many runs may be added.
abbrev pub room : Bool → ℕ
room true = 0
room false = 1

join-length :
    (full : Bool) (run : PageRun) (previous : Option PageRun) (next out : List PageRun)
    (left right : Bool)
    → join full run previous next left right ≡ ok out
    → length out ≤ length (optional previous ++ next) + room full
unfolding join
join-length full run (some p) (n ∷ rest) out true true made = ground (arith, made)
join-length full run (some p) [] out true right made = ground (arith, made)
join-length full run (some p) (n ∷ rest) out true false made = ground (arith, made)
join-length full run none (n ∷ rest) out left true made = ground (arith, made)
join-length full run (some p) (n ∷ rest) out false true made = ground (arith, made)
join-length full run (some p) [] out false right made = ground (arith, made)
join-length full run none [] out left right made = ground (arith, made)
join-length full run (some p) (n ∷ rest) out false false made = ground (arith, made)
join-length full run none (n ∷ rest) out left false made = ground (arith, made)

place-length :
    (full : Bool) (run : PageRun) (stop : ℕ) (previous : Option PageRun) (next out : List PageRun)
    → place full run stop previous next ≡ ok out
    → length out ≤ length (optional previous ++ next) + room full
unfolding place
place-length full run stop previous next out placed =
    let (left, _, placed') = >>=-eq-ok (touches_left run previous) _ placed in
    let (right, _, made) = >>=-eq-ok (touches_right stop next) _ placed' in
    join-length full run previous next out left right made

insert_from-length :
    (full : Bool) (run : PageRun) (stop : ℕ) (previous : Option PageRun) (next out : List PageRun)
    → insert_from full run stop previous next ≡ ok out
    → length out ≤ length (optional previous ++ next) + room full
unfolding insert_from
insert_from-length full run stop previous [] out placed =
    place-length full run stop previous [] out placed
insert_from-length full run stop previous (n ∷ rest) out placed =
    let further = insert_from full run stop (some n) rest in
    elim (Bool-cases (ltb n.start run.start)) [
      | inl later ↦
          let placed' : (further >>= λ tail. ok (optional previous ++ tail)) ≡ ok out =
            rw (later, insert_from) at placed in
          let (tail, found, e) = >>=-eq-ok further _ placed' in
          let e' : optional previous ++ tail ≡ out = ground (arith, e) in
          rw (sym e') (
            omega (
              arith,
              insert_from-length full run stop (some n) rest tail found,
              length-append (optional previous) tail,
              length-append (optional previous) (n ∷ rest),
            ))
      | inr here ↦
          place-length full run stop previous (n ∷ rest) out (rw (here, insert_from) at placed)
    ]

pub room_lem : (capacity n : ℕ) → n ≤ capacity → n + room (leb capacity n) ≤ capacity
room_lem capacity n fits = ground arith

-- What an insertion into a list in order leaves.
pub insert_free_run_lem :
    (capacity : ℕ) (run : PageRun) (runs out : List PageRun)
    → IsRun run
    → Ordered 0 runs
    → length runs ≤ capacity
    → insert_free_run capacity run runs ≡ ok out
    → Ordered 0 out
      × ((a : ℕ) → covers a out ≡ (in_run run a || covers a runs))
      × (length out ≤ capacity)
unfolding insert_free_run
insert_free_run_lem capacity run runs out is h fits inserted =
    let full = leb capacity (length runs) in
    let inserted' : insert_from full run (limit run) none runs ≡ ok out =
      let some_pages : (run.count == 0) ≡ false = ground arith in
      rw (some_pages, run_end-eq run is, insert_free_run) at inserted in
    let (ordered, same) = insert_from_lem full run none runs out 0 is (omega arith) h inserted' in
    let added : length out ≤ length runs + room full =
      insert_from-length full run (limit run) none runs out inserted' in
    (ordered, same, omega (arith, added, room_lem capacity (length runs) fits))
