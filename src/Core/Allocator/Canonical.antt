-- ===== src/Core/Allocator/Canonical.antt =====
-- A free list in order is determined by the addresses that it covers.
use aegis_hv.Common.{
  ℕ, suc, ◌≤◌, true, false, List, [], ◌∷◌, ltb, ◌≡◌, refl, arith, Bool-cases, inl, inr, sym, ap,
  ◌∙◌, subst,
}
use aegis_hv.Core.Allocator.FreeList.{PageRun}
use aegis_hv.Core.Allocator.Runs.{limit, covers, IsRun, Ordered, covers-below}

abbrev SameCover : List PageRun → List PageRun → Type 0
SameCover rs ss = (x : ℕ) → covers x rs ≡ covers x ss

covers-start :
    (run : PageRun) (runs : List PageRun) → IsRun run → covers run.start (run ∷ runs) ≡ true
unfolding covers
covers-start run runs is = ground (arith, is.0)

-- The first run starts where the other one does.
start_le :
    (lo : ℕ) (r s : PageRun) (rs ss : List PageRun)
    → Ordered lo (r ∷ rs)
    → Ordered lo (s ∷ ss)
    → SameCover (r ∷ rs) (s ∷ ss)
    → s.start ≤ r.start
start_le lo r s rs ss (_, is, _) (_, is', h) same = elim (Bool-cases (ltb r.start s.start)) [
  | inl before ↦
      let no : covers r.start (s ∷ ss) ≡ false =
        covers-below s.start r.start (s ∷ ss) (omega arith, is', h) (ground arith) in
      absurd (ground (arith, no, same r.start, covers-start r rs is))
  | inr after ↦ ground arith
]

-- It ends there as well.
limit_le :
    (lo : ℕ) (r s : PageRun) (rs ss : List PageRun)
    → Ordered lo (r ∷ rs)
    → Ordered lo (s ∷ ss)
    → r.start ≡ s.start
    → SameCover (r ∷ rs) (s ∷ ss)
    → limit s ≤ limit r
unfolding covers
limit_le lo r s rs ss (_, is, h) (_, is', _) e same = elim (Bool-cases (ltb (limit r) (limit s))) [
  | inl before ↦
      let no : covers (limit r) rs ≡ false =
        covers-below (suc (limit r)) (limit r) rs h (omega arith) in
      absurd (ground (arith, no, same (limit r), before, e, is.0))
  | inr after ↦ ground arith
]

rest_same :
    (r : PageRun) (rs ss : List PageRun)
    → Ordered (suc (limit r)) rs
    → Ordered (suc (limit r)) ss
    → SameCover (r ∷ rs) (r ∷ ss)
    → SameCover rs ss
unfolding covers
rest_same r rs ss h k same x = elim (Bool-cases (ltb x (suc (limit r)))) [
  | inl below ↦
      covers-below (suc (limit r)) x rs h (ground arith)
      ∙ sym (covers-below (suc (limit r)) x ss k (ground arith))
  | inr above ↦ ground (arith, same x)
]

pub Ordered-unique :
    (lo : ℕ) (rs ss : List PageRun) → Ordered lo rs → Ordered lo ss → SameCover rs ss → rs ≡ ss
Ordered-unique lo [] [] h k same = refl
Ordered-unique lo [] (s ∷ ss) h (_, is, _) same =
    absurd (unfold covers in ground (arith, same s.start, covers-start s ss is))
Ordered-unique lo (r ∷ rs) [] (_, is, _) k same =
    absurd (unfold covers in ground (arith, same r.start, covers-start r rs is))
Ordered-unique lo (r ∷ rs) (s ∷ ss) h k same =
    let e : r.start ≡ s.start =
      omega
        (arith, start_le lo r s rs ss h k same, start_le lo s r ss rs k h (λ x. sym (same x))) in
    let e' : limit r ≡ limit s = omega (
      arith,
      limit_le lo r s rs ss h k e same,
      limit_le lo s r ss rs k h (sym e) (λ x. sym (same x)),
    ) in
    let count : r.count ≡ s.count = omega (arith, e, e') in
    let run : r ≡ s = λ i. record { start = e i; count = count i } in
    let (_, _, h') = h in
    let (_, _, k') = k in
    let k'' : Ordered (suc (limit r)) ss = subst (λ l. Ordered (suc l) ss) (sym e') k' in
    let same' : SameCover (r ∷ rs) (r ∷ ss) =
      subst (λ q. SameCover (r ∷ rs) (q ∷ ss)) (sym run) same in
    let rest = Ordered-unique (suc (limit r)) rs ss h' k'' (rest_same r rs ss h' k'' same') in
    ap (λ xs. r ∷ xs) rest ∙ ap (λ q. q ∷ ss) run
