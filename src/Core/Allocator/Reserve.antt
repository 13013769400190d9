-- ===== src/Core/Allocator/Reserve.antt =====
-- The reservation of a range of memory.
use aegis_hv.Common.{
  ℕ, ◌+◌, ◌-◌, ◌*◌, ◌/◌, ◌<◌, ◌≤◌, true, false, ◌&&◌, not, List, [], ◌∷◌, length, ltb, leb, ◌==◌,
  ok, ok_or, fail_if, ◌≡◌, refl, arith, Bool-cases, inl, inr, All-imp, ap, >>=-eq-ok, subst, ◌∙◌,
}
use aegis_hv.Common.Word.{checked_add, align_down}
use aegis_hv.Core.Errors.{invalid_address, overlap}
use aegis_hv.Core.Hugepage.Runs.{fail_if-ok}
use aegis_hv.Core.Allocator.{PhysicalPageAllocator, free_pages, hits_allocated, reserve_range}
use aegis_hv.Core.Allocator.FreeList.{PageRun, align_up, check_split, trim}
use aegis_hv.Core.Allocator.Runs.{covers}
use aegis_hv.Core.Allocator.Select.{align_up-eq}
use aegis_hv.Core.Allocator.Trim.{in_range, trim_lem}
use aegis_hv.Core.Allocator.Counts.{trim-Shrinks}
use aegis_hv.Core.Allocator.Insert.{room_lem}
use aegis_hv.Core.Allocator.Inv.{IsWellFormed, holds}
use aegis_hv.Core.Allocator.Pages.{in_pages}

hits_allocated-none :
    (start stop : ℕ) (pages : List ℕ)
    → hits_allocated start stop pages ≡ false
    → (x : ℕ) → in_range start stop x ≡ true
    → in_pages x pages ≡ false
unfolding hits_allocated in_pages
hits_allocated-none start stop [] h x inside = refl
hits_allocated-none start stop (p ∷ pages) h x inside =
    elim (Bool-cases (ltb p stop && ltb start (p + 4096))) [
      | inl hit ↦ absurd (ground (arith, rw (hit, hits_allocated) at h))
      | inr miss ↦
          let h' : hits_allocated start stop pages ≡ false = rw (miss, hits_allocated) at h in
          ground (arith, miss, hits_allocated-none start stop pages h' x inside)
    ]

-- The pages that the range touches, from its first to behind its last one.
abbrev pub first_page : ℕ → ℕ
first_page base = base / 4096 * 4096

abbrev pub last_page : ℕ → ℕ → ℕ
last_page base size = (base + size + 4095) / 4096 * 4096

-- What `reserve_range` leaves: the pages that the range touches are neither free nor allocated, no
-- other page changes, and the returned number is that of the pages that are free no longer.
abbrev pub Reserves : ℕ → ℕ → ℕ → PhysicalPageAllocator → PhysicalPageAllocator → Type 0
Reserves base size n a a' =
    IsWellFormed a'
    × (a'.allocated ≡ a.allocated)
    × ((x : ℕ)
        → covers x a'.free_runs
          ≡ (covers x a.free_runs && not (in_range (first_page base) (last_page base size) x)))
    × ((x : ℕ) → in_range base (base + size) x ≡ true → holds a' x ≡ false)
    × (n + free_pages a' ≡ free_pages a)

inner :
    (base size x : ℕ)
    → in_range base (base + size) x ≡ true
    → in_range (first_page base) (last_page base size) x ≡ true
inner base size x inside =
    let bounds : (base ≤ x) × (x < base + size) = ground (arith, inside) in
    let bounds' : (first_page base ≤ x) × (x < last_page base size) =
      (omega (arith, bounds.0), omega (arith, bounds.1)) in
    ground (arith, bounds')

sum_eq :
    (base size : ℕ) {raw_end : ℕ}
    → ok_or (checked_add base size) invalid_address ≡ ok raw_end
    → raw_end ≡ base + size
sum_eq base size h = ground (arith, h)

-- The allocator with the free list that the reservation leaves.
abbrev reserved : PhysicalPageAllocator → List PageRun → PhysicalPageAllocator
reserved a runs = record a { free_runs = runs }

reserved_lem :
    (base size : ℕ) (a : PhysicalPageAllocator) (runs : List PageRun)
    → IsWellFormed a
    → 0 < size
    → hits_allocated (first_page base) (last_page base size) a.allocated ≡ false
    → check_split
        (leb a.runs_capacity (length a.free_runs))
        (first_page base)
        (last_page base size)
        a.free_runs
      ≡ ok tt
    → trim (first_page base) (last_page base size) a.free_runs ≡ ok runs
    → Reserves base size (free_pages a - free_pages (reserved a runs)) a (reserved a runs)
unfolding free_pages
reserved_lem base size a runs (ordered, fits, entries, pages, apart) some_bytes miss checked
      trimmed =
    let start = first_page base in
    let stop = last_page base size in
    let before : start < stop = omega arith in
    let (ordered', same) =
      trim_lem start stop 0 a.free_runs runs (omega arith) (omega arith) before ordered trimmed in
    let (fewer, few) =
      trim-Shrinks (leb a.runs_capacity (length a.free_runs)) start stop 0 a.free_runs runs
        (omega arith) (omega arith) before ordered checked trimmed in
    (
      (
        ordered',
        omega (arith, few, room_lem a.runs_capacity (length a.free_runs) fits),
        entries,
        All-imp (λ q (aligned, small, used). (aligned, small, ground (arith, same q, used)))
            a.allocated pages,
        apart,
      ),
      refl,
      same,
      λ x inside.
          let inside' : in_range start stop x ≡ true = inner base size x inside in
          ground
            (arith, same x, inside', hits_allocated-none start stop a.allocated miss x inside'),
      omega (arith, fewer),
    )

-- A reservation that succeeds keeps the invariant and leaves no address of its range free or
-- allocated. No allocated page changes, no other page than those that the range touches is taken
-- out of the free list, and the returned number is that of the pages that are free no longer.
pub reserve_range_lem :
    (base size n : ℕ) (a a' : PhysicalPageAllocator)
    → IsWellFormed a
    → reserve_range base size a ≡ ok (n, a')
    → Reserves base size n a a'
unfolding reserve_range
reserve_range_lem base size n a a' (ordered, fits, entries, pages, apart) done =
    let (_, some_bytes, h1) = >>=-eq-ok (fail_if (size == 0) invalid_address) _ done in
    let (raw_end, sum, h2) = >>=-eq-ok (ok_or (checked_add base size) invalid_address) _ h1 in
    let start = align_down base 4096 in
    let (stop, up, h3) = >>=-eq-ok (align_up raw_end 4096) _ h2 in
    let (_, miss, h4) = >>=-eq-ok (fail_if (hits_allocated start stop a.allocated) overlap) _ h3 in
    let full = leb a.runs_capacity (length a.free_runs) in
    let (_, checked, h5) = >>=-eq-ok (check_split full start stop a.free_runs) _ h4 in
    let (runs, trimmed, h6) = >>=-eq-ok (trim start stop a.free_runs) _ h5 in
    let e : (free_pages a - free_pages (record a { free_runs = runs }) ≡ n)
        × (record a { free_runs = runs } ≡ a') =
      ground (arith, h6) in
    let stop_e : stop ≡ last_page base size =
      align_up-eq raw_end up ∙ ap (λ r. (r + 4095) / 4096 * 4096) (sum_eq base size sum) in
    let r =
      reserved_lem base size a runs (ordered, fits, entries, pages, apart)
        (ground (arith, fail_if-ok (size == 0) invalid_address some_bytes))
        (subst (λ s. hits_allocated start s a.allocated ≡ false) stop_e (fail_if-ok _ overlap miss))
        (subst (λ s. check_split full start s a.free_runs ≡ ok tt) stop_e checked)
        (subst (λ s. trim start s a.free_runs ≡ ok runs) stop_e trimmed) in
    subst (λ m. Reserves base size m a a') e.0
      (subst (Reserves base size (free_pages a - free_pages (reserved a runs)) a) e.1 r)
