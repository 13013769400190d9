-- ===== src/Core/Allocator/FreeList.antt =====
-- crates/aegishv-hypervisor-core/src/allocator.rs: runs of free pages and the list of them. An
-- operation that fails has not written to the list yet, so it returns the list only when it
-- succeeds.
use aegis_hv.Common.{
  ℕ, zero, suc, ◌+◌, ◌-◌, ◌/◌, Bool, true, false, ◌&&◌, Option, none, some, List, [], ◌∷◌, ◌++◌,
  length, get_or, ltb, leb, ◌==◌, if◌then◌else◌, Result, ok, err, ok_or, fail_if, ◌>>=◌, ◌>>◌,
}
use aegis_hv.Common.Word.{checked_add, saturating_mul, align_down}
use aegis_hv.Core.Errors.{CoreErrorKind, invalid_address, capacity_exceeded, overlap}

abbrev pub page_size_4k : ℕ
page_size_4k = 4096

pub record PageRun : Type 0 where
  pub start : ℕ
  pub count : ℕ

abbrev pub empty_run : PageRun
empty_run = record { start = 0; count = 0 }

-- `PageRun::end`
unfoldable pub run_end : PageRun → Result ℕ CoreErrorKind
run_end run = ok_or (checked_add run.start (saturating_mul run.count page_size_4k)) invalid_address

unfoldable pub align_up : ℕ → ℕ → Result ℕ CoreErrorKind
align_up value align = elim (checked_add value (align - 1)) [
  | some v ↦ ok (align_down v align)
  | none ↦ err invalid_address
]

-- `free_pages`
unfoldable pub count_pages : List PageRun → ℕ
count_pages [] = 0
count_pages (run ∷ runs) = run.count + count_pages runs

-- The loops that shift the entries behind `index`: the new entries stand in its place.
unfoldable pub splice {ℓ} : {A : Type ℓ} → ℕ → List A → List A → List A
splice index new [] = []
splice zero new (x ∷ xs) = new ++ xs
splice (suc index) new (x ∷ xs) = x ∷ splice index new xs

-- `remove_run`, `remove_allocated`
unfoldable pub remove_at {ℓ} : {A : Type ℓ} → ℕ → List A → List A
unfolding splice
remove_at index xs = splice index [] xs

abbrev pub merged_count : ℕ → ℕ → Result ℕ CoreErrorKind
merged_count left right = ok_or (checked_add left right) invalid_address

abbrev pub optional {ℓ} : {A : Type ℓ} → Option A → List A
optional none = []
optional (some a) = a ∷ []

-- The four cases of `insert_free_run`, between the run `previous` and the runs `next`. The result
-- takes the place of `previous` as well. `full` tells that no entry of the array is left.
unfoldable pub join :
    Bool
    → PageRun
    → Option PageRun
    → List PageRun
    → Bool
    → Bool
    → Result (List PageRun) CoreErrorKind
join full run (some p) (n ∷ rest) true true = do
  count ← merged_count p.count run.count
  count' ← merged_count count n.count
  ok (record p { count = count' } ∷ rest)
join full run (some p) next true right = do
  count ← merged_count p.count run.count
  ok (record p { count = count } ∷ next)
join full run previous (n ∷ rest) left true = do
  count ← merged_count run.count n.count
  ok (optional previous ++ (record { start = run.start; count = count } ∷ rest))
join full run previous next left right = do
  fail_if full capacity_exceeded
  ok (optional previous ++ (run ∷ next))

unfoldable pub touches_left : PageRun → Option PageRun → Result Bool CoreErrorKind
unfolding run_end
touches_left run none = ok false
touches_left run (some p) = do
  previous_end ← run_end p
  fail_if (ltb run.start previous_end) overlap
  ok (previous_end == run.start)

unfoldable pub touches_right : ℕ → List PageRun → Result Bool CoreErrorKind
touches_right stop [] = ok false
touches_right stop (n ∷ rest) = do fail_if (ltb n.start stop) overlap; ok (stop == n.start)

unfoldable pub place :
    Bool → PageRun → ℕ → Option PageRun → List PageRun → Result (List PageRun) CoreErrorKind
unfolding join touches_left touches_right
place full run stop previous next = do
  left ← touches_left run previous
  right ← touches_right stop next
  join full run previous next left right

-- The search for the place: `previous` is the run before `next`.
unfoldable pub insert_from :
    Bool → PageRun → ℕ → Option PageRun → List PageRun → Result (List PageRun) CoreErrorKind
unfolding place
insert_from full run stop previous [] = place full run stop previous []
insert_from full run stop previous (n ∷ rest) =
    let further = insert_from full run stop (some n) rest in
    if ltb n.start run.start
    then (further >>= λ out. ok (optional previous ++ out))
    else place full run stop previous (n ∷ rest)

unfoldable pub insert_free_run : ℕ → PageRun → List PageRun → Result (List PageRun) CoreErrorKind
unfolding run_end insert_from
insert_free_run capacity run runs =
    let inserted =
      run_end run >>= λ stop. insert_from (leb capacity (length runs)) run stop none runs in
    if run.count == 0 then ok runs else inserted

-- The four cases of `take_page_from_run`: what takes the place of the run.
unfoldable pub cut : Bool → PageRun → ℕ → ℕ → ℕ → Result (List PageRun) CoreErrorKind
cut full run page_end zero zero = ok []
cut full run page_end zero after = ok (record { start = page_end; count = after } ∷ [])
cut full run page_end before zero = ok (record run { count = before } ∷ [])
cut full run page_end before after = do
  fail_if full capacity_exceeded
  ok (record run { count = before } ∷ (record { start = page_end; count = after } ∷ []))

unfoldable pub take_page_from_run :
    ℕ → ℕ → ℕ → ℕ → List PageRun → Result (List PageRun) CoreErrorKind
unfolding cut splice
take_page_from_run capacity index page stop runs =
    let run = get_or runs index empty_run in
    let page_end = page + page_size_4k in
    let before_count = (page - run.start) / page_size_4k in
    let after_count = (stop - page_end) / page_size_4k in
    cut (leb capacity (length runs)) run page_end before_count after_count >>= λ new.
    ok (splice index new runs)

-- The second loop of `reserve_range`: no run must be split when the array is full.
unfoldable pub check_split : Bool → ℕ → ℕ → List PageRun → Result (Unit {0}) CoreErrorKind
unfolding run_end
check_split full start stop [] = ok tt
check_split full start stop (run ∷ runs) = do
  end_of_run ← run_end run
  fail_if (ltb run.start start && ltb stop end_of_run && full) capacity_exceeded
  check_split full start stop runs

-- The third one, from `run` on; the four cases are what is left of the run.
unfoldable pub left_over : PageRun → ℕ → ℕ → ℕ → List PageRun
left_over run stop zero zero = []
left_over run stop zero right = record { start = stop; count = right } ∷ []
left_over run stop left zero = record run { count = left } ∷ []
left_over run stop left right =
    record run { count = left } ∷ (record { start = stop; count = right } ∷ [])

unfoldable pub trim : ℕ → ℕ → List PageRun → Result (List PageRun) CoreErrorKind
unfolding run_end left_over
trim start stop [] = ok []
trim start stop (run ∷ runs) = do
  end_of_run ← run_end run
  let left = if ltb run.start start then (start - run.start) / page_size_4k else 0
  let right = if ltb stop end_of_run then (end_of_run - stop) / page_size_4k else 0
  let rest = trim start stop runs
  let kept = rest >>= λ out. ok (run ∷ out)
  let trimmed = rest >>= λ out. ok (left_over run stop left right ++ out)
  if leb stop run.start then ok (run ∷ runs) else if leb end_of_run start then kept else trimmed
