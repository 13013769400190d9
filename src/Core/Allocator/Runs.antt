-- ===== src/Core/Allocator/Runs.antt =====
-- What a list of free runs covers, and when it is in order.
use aegis_hv.Common.{
  ℕ, suc, ◌+◌, ◌*◌, ◌%◌, ◌<◌, ◌≤◌, Bool, false, ◌&&◌, ◌||◌, List, [], ◌∷◌, ◌++◌, ltb, leb, ok, ◌≡◌,
  refl, arith,
}
use aegis_hv.Common.Word.{u64_mod}
use aegis_hv.Core.Allocator.FreeList.{PageRun, run_end}

-- The first address behind the run.
abbrev pub limit : PageRun → ℕ
limit run = run.start + run.count * 4096

abbrev pub in_run : PageRun → ℕ → Bool
in_run run a = leb run.start a && ltb a (limit run)

-- The address lies in the page.
abbrev pub in_page : ℕ → ℕ → Bool
in_page page a = leb page a && ltb a (page + 4096)

-- Some run covers the address: it is free.
unfoldable pub covers : ℕ → List PageRun → Bool
covers a [] = false
covers a (run ∷ runs) = in_run run a || covers a runs

abbrev pub IsRun : PageRun → Type 0
IsRun run = (0 < run.count) × (run.start % 4096 ≡ 0) × (limit run < u64_mod)

-- The runs stand in the order of their addresses from `lo` on, and no two of them touch.
abbrev pub Ordered : ℕ → List PageRun → Type 0
Ordered lo [] = Unit
Ordered lo (run ∷ runs) = (lo ≤ run.start) × IsRun run × Ordered (suc (limit run)) runs

pub run_end-eq : (run : PageRun) → IsRun run → run_end run ≡ ok (limit run)
unfolding run_end
run_end-eq run h = ground arith

pub Ordered-weaken :
    (lo lo' : ℕ) (runs : List PageRun) → lo' ≤ lo → Ordered lo runs → Ordered lo' runs
Ordered-weaken lo lo' [] below h = tt
Ordered-weaken lo lo' (run ∷ runs) below (h, is, rest) = (omega arith, is, rest)

-- Nothing below `lo` is free.
pub covers-below :
    (lo a : ℕ) (runs : List PageRun) → Ordered lo runs → a < lo → covers a runs ≡ false
unfolding covers
covers-below lo a [] h below = refl
covers-below lo a (run ∷ runs) (first, is, rest) below =
    ground (arith, covers-below (suc (limit run)) a runs rest (omega arith))

pub covers-append :
    (a : ℕ) (rs ss : List PageRun) → covers a (rs ++ ss) ≡ (covers a rs || covers a ss)
unfolding covers
covers-append a [] ss = refl
covers-append a (r ∷ rs) ss = ground (arith, covers-append a rs ss)
