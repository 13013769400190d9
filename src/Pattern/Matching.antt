-- ===== src/Pattern/Matching.antt =====
-- The greedy search for the parts of an alternative finds them wherever they can be found.
use aegis_hv.Common.{
  ◌≤◌, Bool, true, false, some, List, [], ◌∷◌, ◌++◌, length, length-append, append_assoc, ◌==◌, ◌≡◌,
  ◌↔◌, refl, arith, ap, sym, ◌∙◌, Bool-cases, Option-cases, inl, inr,
}
use aegis_hv.Common.Text.{Text}
use aegis_hv.Pattern.{strip_prefix, find_after, match_parts}

-- The parts stand in `hay` one after the other, with anything between them.
abbrev pub Splits : List Text → Text → Type 0
Splits [] hay = Unit
Splits (p ∷ ps) hay = (gap : Text) × (rest : Text) × (hay ≡ gap ++ (p ++ rest)) × Splits ps rest

pub strip_prefix-ok : (p hay rest : Text) → strip_prefix p hay ≡ some rest → hay ≡ p ++ rest
unfolding strip_prefix
strip_prefix-ok [] hay rest h = ground arith
strip_prefix-ok (c ∷ p) [] rest h = absurd (ground arith)
strip_prefix-ok (c ∷ p) (d ∷ hay) rest h = elim (Bool-cases (c == d)) [
  | inl same ↦
      let e : c ≡ d = ground arith in
      let h' : strip_prefix p hay ≡ some rest = rw same at h in
      rw e (ap (λ s. d ∷ s) (strip_prefix-ok p hay rest h'))
  | inr other ↦ absurd (ground arith)
]

pub strip_prefix-append : (p rest : Text) → strip_prefix p (p ++ rest) ≡ some rest
unfolding strip_prefix
strip_prefix-append [] rest = refl
strip_prefix-append (c ∷ p) rest =
    let e : (c == c) ≡ true = ground arith in rw e (strip_prefix-append p rest)

pub find_after-ok :
    (p hay rest : Text) → find_after p hay ≡ some rest → (gap : Text) × (hay ≡ gap ++ (p ++ rest))
unfolding find_after
find_after-ok p [] rest h = ([], strip_prefix-ok p [] rest h)
find_after-ok p (c ∷ hay) rest h = elim (Option-cases (strip_prefix p (c ∷ hay))) [
  | inr (r, here) ↦
      let e : some r ≡ some rest = rw (here, find_after) at h in
      let e' : r ≡ rest = ground arith in ([], strip_prefix-ok p (c ∷ hay) rest (here ∙ e))
  | inl gone ↦
      let h' : find_after p hay ≡ some rest = rw (gone, find_after) at h in
      let (gap, later) = find_after-ok p hay rest h' in (c ∷ gap, ap (λ s. c ∷ s) later)
]

find_after-here :
    (p hay rest : Text) → strip_prefix p hay ≡ some rest → find_after p hay ≡ some rest
unfolding find_after
find_after-here p [] rest h = h
find_after-here p (c ∷ hay) rest h = rw (h, find_after) refl

-- Of two ends of a text, the longer one ends with the shorter one.
pub longer_end :
    (a x b y : Text) → a ++ x ≡ b ++ y → length a ≤ length b → (ext : Text) × (x ≡ ext ++ y)
longer_end [] x b y h k = (b, h)
longer_end (c ∷ a) x [] y h k = absurd (omega arith)
longer_end (c ∷ a) x (d ∷ b) y h k =
    let h' : a ++ x ≡ b ++ y = cc in longer_end a x b y h' (omega arith)

-- The search finds the first occurrence, so it leaves at least what any occurrence leaves.
pub find_after-first :
    (p gap rest : Text)
    → (r : Text) × (ext : Text) × (find_after p (gap ++ (p ++ rest)) ≡ some r) × (r ≡ ext ++ rest)
unfolding find_after
find_after-first p [] rest =
    (rest, [], find_after-here p (p ++ rest) rest (strip_prefix-append p rest), refl)
find_after-first p (c ∷ gap) rest =
    elim (Option-cases (strip_prefix p (c ∷ (gap ++ (p ++ rest))))) [
      | inr (r, here) ↦
          let whole : p ++ r ≡ ((c ∷ gap) ++ p) ++ rest =
            sym (strip_prefix-ok p (c ∷ (gap ++ (p ++ rest))) r here)
            ∙ sym (append_assoc (c ∷ gap) p rest) in
          let (ext, e) =
            longer_end p r ((c ∷ gap) ++ p) rest whole (omega (arith, length-append (c ∷ gap) p)) in
          (r, ext, find_after-here p (c ∷ (gap ++ (p ++ rest))) r here, e)
      | inl gone ↦
          let (r, ext, found, e) = find_after-first p gap rest in
          (r, ext, rw (gone, find_after) found, e)
    ]

Splits-extend : (ps : List Text) (ext hay : Text) → Splits ps hay → Splits ps (ext ++ hay)
Splits-extend [] ext hay h = tt
Splits-extend (p ∷ ps) ext hay (gap, rest, e, more) =
    (ext ++ gap, rest, ap (λ s. ext ++ s) e ∙ sym (append_assoc ext gap (p ++ rest)), more)

pub match_parts-Splits :
    (anchor : Bool) (ps : List Text) (hay : Text)
    → (match_parts false anchor ps hay ≡ true) ↔ Splits ps hay
unfolding match_parts
match_parts-Splits anchor [] hay = (λ _. tt, λ _. refl)
match_parts-Splits anchor (p ∷ ps) hay = (
  (λ h. elim (Option-cases (find_after p hay)) [
    | inl gone ↦ absurd (let f : false ≡ true = rw (gone, match_parts) at h in ground arith)
    | inr (rest, found) ↦
        let h' : match_parts false anchor ps rest ≡ true = rw (found, match_parts) at h in
        let (gap, e) = find_after-ok p hay rest found in
        (gap, rest, e, (match_parts-Splits anchor ps rest).0 h')
  ]),
  (λ (gap, rest, e, more).
      let (r, ext, found, longer) = find_after-first p gap rest in
      rw (e, found, match_parts)
        ((match_parts-Splits anchor ps r).1 (rw longer (Splits-extend ps ext rest more)))),
)
