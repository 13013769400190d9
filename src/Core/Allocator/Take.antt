-- ===== src/Core/Allocator/Take.antt =====
-- Taking a page out of the free list.
use aegis_hv.Common.{
  ℕ, zero, suc, ◌+◌, ◌-◌, ◌*◌, ◌/◌, ◌%◌, ◌<◌, ◌≤◌, Bool, true, ◌&&◌, not, List, [], ◌∷◌, ◌++◌,
  length, get_or, leb, ok, ◌≡◌, refl, arith, >>=-eq-ok, subst, sym, length-append,
}
use aegis_hv.Common.Word.{u64_mod}
use aegis_hv.Core.Allocator.FreeList.{PageRun, empty_run, cut, splice, take_page_from_run}
use aegis_hv.Core.Allocator.Runs.{
  limit, in_page, covers, IsRun, Ordered, Ordered-weaken, covers-below,
}
use aegis_hv.Core.Allocator.Insert.{room, room_lem}

-- The page lies in the run, and the run has `before` pages in front of it and `after` behind it.
abbrev pub Splits : PageRun → ℕ → ℕ → ℕ → Type 0
Splits run page before after =
    (page ≡ run.start + before * 4096) × (limit run ≡ page + 4096 + after * 4096)

abbrev pub Removes : ℕ → ℕ → List PageRun → List PageRun → Type 0
Removes lo page runs out =
    Ordered lo out × ((a : ℕ) → covers a out ≡ (covers a runs && not (in_page page a)))

cut_lem :
    (full : Bool) (run : PageRun) (page before after : ℕ) (rest new : List PageRun) (lo : ℕ)
    → Splits run page before after
    → Ordered lo (run ∷ rest)
    → cut full run (page + 4096) before after ≡ ok new
    → Removes lo page (run ∷ rest) (new ++ rest)
unfolding cut
cut_lem full run page zero zero rest new lo (e, e') (low, is, ordered) h =
    let made : [] ≡ new = ground (arith, h) in
    subst (λ new. Removes lo page (run ∷ rest) (new ++ rest)) made
      (
        Ordered-weaken _ lo rest (omega arith) ordered,
        λ a. unfold covers in ground (arith, covers-below (suc (limit run)) a rest ordered),
      )
cut_lem full run page zero (suc after) rest new lo (e, e') (low, is, ordered) h =
    let made : record { start = page + 4096; count = suc after } ∷ [] ≡ new = ground (arith, h) in
    subst (λ new. Removes lo page (run ∷ rest) (new ++ rest)) made
      (
        (
          omega arith,
          (omega arith, omega arith, omega arith),
          Ordered-weaken _ _ rest (omega arith) ordered,
        ),
        λ a. unfold covers in ground (arith, covers-below (suc (limit run)) a rest ordered),
      )
cut_lem full run page (suc before) zero rest new lo (e, e') (low, is, ordered) h =
    let made : record run { count = suc before } ∷ [] ≡ new = ground (arith, h) in
    subst (λ new. Removes lo page (run ∷ rest) (new ++ rest)) made
      (
        (
          low,
          (omega arith, omega arith, omega arith),
          Ordered-weaken _ _ rest (omega arith) ordered,
        ),
        λ a. unfold covers in ground (arith, covers-below (suc (limit run)) a rest ordered),
      )
cut_lem full run page (suc before) (suc after) rest new lo (e, e') (low, is, ordered) h =
    let made : record run { count = suc before }
          ∷ (record { start = page + 4096; count = suc after } ∷ [])
        ≡ new =
      ground (arith, h) in
    subst (λ new. Removes lo page (run ∷ rest) (new ++ rest)) made
      (
        (
          low,
          (omega arith, omega arith, omega arith),
          (
            omega arith,
            (omega arith, omega arith, omega arith),
            Ordered-weaken _ _ rest (omega arith) ordered,
          ),
        ),
        λ a. unfold covers in ground (arith, covers-below (suc (limit run)) a rest ordered),
      )

-- The page lies in the run at the index, which ends at `stop`.
abbrev pub IsAt : ℕ → ℕ → ℕ → List PageRun → Type 0
IsAt index page stop [] = ⊥
IsAt zero page stop (run ∷ runs) =
    (run.start ≤ page) × (page % 4096 ≡ 0) × (page + 4096 ≤ stop) × (stop ≡ limit run)
IsAt (suc index) page stop (run ∷ runs) = IsAt index page stop runs

pub splits :
    (run : PageRun) (page stop : ℕ)
    → IsRun run
    → (run.start ≤ page) × (page % 4096 ≡ 0) × (page + 4096 ≤ stop) × (stop ≡ limit run)
    → Splits run page ((page - run.start) / 4096) ((stop - (page + 4096)) / 4096)
splits run page stop is (from, aligned, until, e) = (omega arith, omega arith)

IsAt-above :
    (index page stop : ℕ) (runs : List PageRun) (lo : ℕ)
    → Ordered lo runs
    → IsAt index page stop runs
    → lo ≤ page
IsAt-above zero page stop [] lo h at = absurd at
IsAt-above (suc index) page stop [] lo h at = absurd at
IsAt-above zero page stop (run ∷ runs) lo (low, _, _) (from, _, _, _) = omega arith
IsAt-above (suc index) page stop (run ∷ runs) lo (low, _, h) at =
    omega (arith, IsAt-above index page stop runs (suc (limit run)) h at)

-- The page is free.
pub IsAt-covers :
    (index page stop : ℕ) (runs : List PageRun)
    → IsAt index page stop runs
    → (a : ℕ) → in_page page a ≡ true
    → covers a runs ≡ true
unfolding covers
IsAt-covers zero page stop [] at a h = absurd at
IsAt-covers (suc index) page stop [] at a h = absurd at
IsAt-covers zero page stop (run ∷ runs) (from, _, until, e) a h = ground arith
IsAt-covers (suc index) page stop (run ∷ runs) at a h =
    ground (arith, IsAt-covers index page stop runs at a h)

splice_lem :
    (full : Bool) (index page stop before after : ℕ) (runs new : List PageRun) (lo : ℕ)
    → Ordered lo runs
    → IsAt index page stop runs
    → before ≡ (page - (get_or runs index empty_run).start) / 4096
    → after ≡ (stop - (page + 4096)) / 4096
    → cut full (get_or runs index empty_run) (page + 4096) before after ≡ ok new
    → Removes lo page runs (splice index new runs)
unfolding splice covers
splice_lem full zero page stop before after [] new lo h at b a made = absurd at
splice_lem full (suc index) page stop before after [] new lo h at b a made = absurd at
splice_lem full zero page stop before after (run ∷ runs) new lo h at b a made =
    let (_, is, _) = h in
    let s = splits run page stop is at in
    cut_lem full run page before after runs new lo (rw (b, a) s) h made
splice_lem full (suc index) page stop before after (run ∷ runs) new lo (low, is, h) at b a made =
    let (ordered, same) =
      splice_lem full index page stop before after runs new (suc (limit run)) h at b a made in
    (
      (low, is, ordered),
      λ x. ground (arith, same x, IsAt-above index page stop runs (suc (limit run)) h at),
    )

cut-length :
    (full : Bool) (run : PageRun) (page_end before after : ℕ) (new : List PageRun)
    → cut full run page_end before after ≡ ok new
    → length new ≤ suc (room full)
unfolding cut
cut-length full run page_end zero zero new h = ground (arith, h)
cut-length full run page_end zero (suc after) new h = ground (arith, h)
cut-length full run page_end (suc before) zero new h = ground (arith, h)
cut-length full run page_end (suc before) (suc after) new h = ground (arith, h)

pub splice-length {ℓ} :
    {A : Type ℓ} (index : ℕ) (new xs : List A)
    → index < length xs
    → suc (length (splice index new xs)) ≡ length xs + length new
unfolding splice
splice-length index new [] h = absurd (omega arith)
splice-length zero new (x ∷ xs) h = omega (arith, length-append new xs)
splice-length (suc index) new (x ∷ xs) h = omega (arith, splice-length index new xs (omega arith))

pub IsAt-length :
    (index page stop : ℕ) (runs : List PageRun) → IsAt index page stop runs → index < length runs
IsAt-length zero page stop [] at = absurd at
IsAt-length (suc index) page stop [] at = absurd at
IsAt-length zero page stop (run ∷ runs) at = omega arith
IsAt-length (suc index) page stop (run ∷ runs) at =
    omega (arith, IsAt-length index page stop runs at)

pub take_page_from_run_lem :
    (capacity index page stop : ℕ) (runs out : List PageRun)
    → Ordered 0 runs
    → length runs ≤ capacity
    → IsAt index page stop runs
    → take_page_from_run capacity index page stop runs ≡ ok out
    → Removes 0 page runs out × (length out ≤ capacity)
unfolding take_page_from_run
take_page_from_run_lem capacity index page stop runs out h fits at taken =
    let run = get_or runs index empty_run in
    let full = leb capacity (length runs) in
    let before = (page - run.start) / 4096 in
    let after = (stop - (page + 4096)) / 4096 in
    let (new, made, e) = >>=-eq-ok (cut full run (page + 4096) before after) _ taken in
    let e' : splice index new runs ≡ out = ground (arith, e) in
    rw (sym e') (
      splice_lem full index page stop before after runs new 0 h at refl refl made,
      omega (
        arith,
        splice-length index new runs (IsAt-length index page stop runs at),
        cut-length full run (page + 4096) before after new made,
        room_lem capacity (length runs) fits,
      ),
    )

pub IsAt-page :
    (index page stop : ℕ) (runs : List PageRun) (lo : ℕ)
    → Ordered lo runs
    → IsAt index page stop runs
    → (page % 4096 ≡ 0) × (page + 4096 < u64_mod)
IsAt-page zero page stop [] lo h at = absurd at
IsAt-page (suc index) page stop [] lo h at = absurd at
IsAt-page zero page stop (run ∷ runs) lo (_, (_, _, small), _) (_, aligned, until, e) =
    (aligned, omega arith)
IsAt-page (suc index) page stop (run ∷ runs) lo (_, _, h) at =
    IsAt-page index page stop runs (suc (limit run)) h at
