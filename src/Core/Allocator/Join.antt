-- ===== src/Core/Allocator/Join.antt =====
-- The cases of an insertion into the free list.
use aegis_hv.Common.{
  ℕ, suc, ◌+◌, ◌<◌, ◌≤◌, Bool, true, false, ◌||◌, Option, none, some, List, [], ◌∷◌, ◌++◌, ltb,
  ◌==◌, ok, ok_or, fail_if, ◌>>=◌, ◌≡◌, refl, arith, subst,
}
use aegis_hv.Common.Word.{checked_add}
use aegis_hv.Core.Errors.{overlap}
use aegis_hv.Core.Allocator.FreeList.{PageRun, optional, join, touches_left, touches_right}
use aegis_hv.Core.Allocator.Runs.{limit, in_run, covers, IsRun, Ordered, run_end-eq, Ordered-weaken}

-- The list `out` is `runs` with the addresses of `run`.
abbrev pub Adds : ℕ → PageRun → List PageRun → List PageRun → Type 0
Adds lo run runs out = Ordered lo out × ((a : ℕ) → covers a out ≡ (in_run run a || covers a runs))

abbrev pub IsBefore : PageRun → Option PageRun → Type 0
IsBefore run none = Unit
IsBefore run (some p) = p.start < run.start

abbrev pub IsBehind : PageRun → List PageRun → Type 0
IsBehind run [] = Unit
IsBehind run (n ∷ rest) = run.start ≤ n.start

touches_left-some :
    (run p : PageRun) (left : Bool)
    → IsRun p
    → touches_left run (some p) ≡ ok left
    → (limit p ≤ run.start) × ((limit p == run.start) ≡ left)
unfolding touches_left
touches_left-some run p left is h =
    let h' : (fail_if (ltb run.start (limit p)) overlap >>= λ _. ok (limit p == run.start))
        ≡ ok left =
      rw (run_end-eq p is) at h in
    ground arith

touches_right-cons :
    (stop : ℕ) (n : PageRun) (rest : List PageRun) (right : Bool)
    → touches_right stop (n ∷ rest) ≡ ok right
    → (stop ≤ n.start) × ((stop == n.start) ≡ right)
unfolding touches_right
touches_right-cons stop n rest right h = ground arith

-- Where the runs behind `previous` may start.
abbrev pub floor : ℕ → Option PageRun → ℕ
floor lo none = lo
floor lo (some p) = suc (limit p)

pub under :
    (lo : ℕ) (run : PageRun) (previous : Option PageRun) (next out : List PageRun)
    → Ordered lo (optional previous ++ next)
    → Adds (floor lo previous) run next out
    → Adds lo run (optional previous ++ next) (optional previous ++ out)
under lo run none next out h adds = adds
under lo run (some p) next out (low, is, _) (ordered, same) =
    ((low, is, ordered), λ a. unfold covers in ground (arith, same a))

pub behind :
    (lo : ℕ) (previous : Option PageRun) (next : List PageRun)
    → Ordered lo (optional previous ++ next)
    → Ordered (floor lo previous) next
behind lo none next h = h
behind lo (some p) next (_, _, ordered) = ordered

-- The two runs as one.
abbrev pub joined : PageRun → PageRun → PageRun
joined r s = record r { count = r.count + s.count }

pub joined-IsRun : (r s : PageRun) → IsRun r → IsRun s → limit r ≡ s.start → IsRun (joined r s)
joined-IsRun r s (some_pages, aligned, _) (_, _, fits) e =
    (omega arith, aligned, omega (arith, fits, e))

pub in_run-joined :
    (r s : PageRun) (a : ℕ)
    → IsRun r
    → IsRun s
    → limit r ≡ s.start
    → in_run (joined r s) a ≡ (in_run r a || in_run s a)
in_run-joined r s a h k e = ground arith

merged_count-eq :
    (r s : PageRun) {E : Type 0} (e : E) {count : ℕ}
    → ok_or (checked_add r.count s.count) e ≡ ok count
    → count ≡ r.count + s.count
merged_count-eq r s e h = ground arith

join_both :
    (full : Bool) (run p n : PageRun) (rest out : List PageRun) (lo : ℕ)
    → IsRun run
    → Ordered lo (p ∷ (n ∷ rest))
    → limit p ≡ run.start
    → limit run ≡ n.start
    → join full run (some p) (n ∷ rest) true true ≡ ok out
    → Adds lo run (p ∷ (n ∷ rest)) out
unfolding join
join_both full run p n rest out lo is (low, is_p, (gap, is_n, ordered)) l r h =
    let is' = joined-IsRun p run is_p is l in
    let is'' = joined-IsRun (joined p run) n is' is_n (omega (arith, l, r)) in
    let e : joined (joined p run) n ∷ rest ≡ out = ground arith in
    subst (Adds lo run (p ∷ (n ∷ rest))) e (
      (low, is'', Ordered-weaken (suc (limit n)) _ rest (omega (arith, l, r)) ordered),
      λ a.
          unfold covers in
          ground (
            arith,
            in_run-joined p run a is_p is l,
            in_run-joined (joined p run) n a is' is_n (omega (arith, l, r)),
          ),
    )

-- `run` grows the run before it.
join_left :
    (run p : PageRun) (next : List PageRun) (lo : ℕ)
    → IsRun run
    → Ordered lo (p ∷ next)
    → limit p ≡ run.start
    → Ordered (suc (limit run)) next
    → Adds lo run (p ∷ next) (joined p run ∷ next)
join_left run p next lo is (low, is_p, _) l above = (
  (
    low,
    joined-IsRun p run is_p is l,
    Ordered-weaken (suc (limit run)) _ next (omega (arith, l)) above,
  ),
  λ a. unfold covers in ground (arith, in_run-joined p run a is_p is l),
)

-- The run behind `run` grows.
join_right :
    (run n : PageRun) (rest : List PageRun) (lo : ℕ)
    → IsRun run
    → Ordered lo (n ∷ rest)
    → lo ≤ run.start
    → limit run ≡ n.start
    → Adds lo run (n ∷ rest) (joined run n ∷ rest)
join_right run n rest lo is (_, is_n, ordered) low r = (
  (
    low,
    joined-IsRun run n is is_n r,
    Ordered-weaken (suc (limit n)) _ rest (omega (arith, r)) ordered,
  ),
  λ a. unfold covers in ground (arith, in_run-joined run n a is is_n r),
)

-- `run` touches no other run.
join_none :
    (run : PageRun) (next : List PageRun) (lo : ℕ)
    → IsRun run
    → lo ≤ run.start
    → Ordered (suc (limit run)) next
    → Adds lo run next (run ∷ next)
join_none run next lo is low above = ((low, is, above), λ a. unfold covers in refl)

-- What the two tests of the neighbours have found.
abbrev pub Left : ℕ → PageRun → Option PageRun → Bool → Type 0
Left lo run previous true = (p : PageRun) × (previous ≡ some p) × (limit p ≡ run.start)
Left lo run previous false = floor lo previous ≤ run.start

abbrev pub Right : PageRun → List PageRun → Bool → Type 0
Right run next true =
    (n : PageRun) × (rest : List PageRun) × (next ≡ n ∷ rest) × (limit run ≡ n.start)
Right run next false = Ordered (suc (limit run)) next

pub touches_left_lem :
    (lo : ℕ) (run : PageRun) (previous : Option PageRun) (next : List PageRun) (left : Bool)
    → lo ≤ run.start
    → Ordered lo (optional previous ++ next)
    → touches_left run previous ≡ ok left
    → Left lo run previous left
touches_left_lem lo run none next true low h t = absurd (unfold touches_left in ground (arith, t))
touches_left_lem lo run none next false low h t = low
touches_left_lem lo run (some p) next true low (_, is, _) t =
    (p, refl, ground (arith, touches_left-some run p true is t))
touches_left_lem lo run (some p) next false low (_, is, _) t =
    ground (arith, touches_left-some run p false is t)

pub touches_right_lem :
    (lo : ℕ) (run : PageRun) (next : List PageRun) (right : Bool)
    → Ordered lo next
    → touches_right (limit run) next ≡ ok right
    → Right run next right
touches_right_lem lo run [] true h t = absurd (unfold touches_right in ground (arith, t))
touches_right_lem lo run [] false h t = tt
touches_right_lem lo run (n ∷ rest) true h t =
    (n, rest, refl, ground (arith, touches_right-cons (limit run) n rest true t))
touches_right_lem lo run (n ∷ rest) false (_, is, ordered) t =
    (ground (arith, touches_right-cons (limit run) n rest false t), is, ordered)

pub join_lem :
    (full : Bool) (run : PageRun) (previous : Option PageRun) (next out : List PageRun)
    (left right : Bool) (lo : ℕ)
    → IsRun run
    → Ordered lo (optional previous ++ next)
    → Left lo run previous left
    → Right run next right
    → join full run previous next left right ≡ ok out
    → Adds lo run (optional previous ++ next) out
unfolding join
join_lem full run (some p) (n ∷ rest) out true true lo is h (p', e, l) (n', rest', e', r) made =
    join_both full run p n rest out lo is h (ground (arith, e, l)) (ground (arith, e', r)) made
join_lem full run (some p) next out true false lo is h (p', e, l) r made =
    let made' : joined p run ∷ next ≡ out = ground (arith, made) in
    subst (Adds lo run (p ∷ next)) made' (join_left run p next lo is h (ground (arith, e, l)) r)
join_lem full run none next out true right lo is h (p', e, l) r made = absurd (ground (arith, e))
join_lem full run previous (n ∷ rest) out false true lo is h l (n', rest', e, r) made =
    let made' : optional previous ++ (joined run n ∷ rest) ≡ out = ground (arith, made) in
    subst (Adds lo run (optional previous ++ (n ∷ rest))) made' (
      under lo run previous (n ∷ rest) _ h (
        join_right run n rest (floor lo previous) is (behind lo previous (n ∷ rest) h) l
          (ground (arith, e, r))))
join_lem full run previous [] out left true lo is h l (n', rest', e, r) made =
    absurd (ground (arith, e))
join_lem full run previous next out false false lo is h l r made =
    let made' : optional previous ++ (run ∷ next) ≡ out = ground (arith, made) in
    subst (Adds lo run (optional previous ++ next)) made'
      (under lo run previous next _ h (join_none run next (floor lo previous) is l r))
