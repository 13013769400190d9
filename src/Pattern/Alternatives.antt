-- ===== src/Pattern/Alternatives.antt =====
-- What an alternative matches, said without a search.
use aegis_hv.Common.{
  ◌≤◌, Bool, true, false, ◌&&◌, none, some, List, [], ◌∷◌, ◌++◌, length, length-append, append-nil,
  append_assoc, if◌then◌else◌, ◌≡◌, ◌↔◌, refl, arith, ap, sym, ◌∙◌, Bool-cases, Option-cases, inl,
  inr,
}
use aegis_hv.Common.Text.{Text, text_eq, text_eq_iff}
use aegis_hv.Pattern.{
  strip_prefix, starts_with, ends_with, find_after, contains, match_parts, last_of, match_single,
  alt_matches,
}
use aegis_hv.Pattern.Matching.{
  Splits, strip_prefix-ok, strip_prefix-append, find_after-ok, find_after-first, longer_end,
  match_parts-Splits,
}

-- What may follow the last part: nothing, if the alternative is anchored at the end.
abbrev pub Closed : Bool → Text → Type 0
Closed true rest = rest ≡ []
Closed false rest = Unit

-- The parts stand in `hay` one after the other, with anything between them.
abbrev pub Placed : Bool → List Text → Text → Type 0
Placed finish [] hay = Closed finish hay
Placed finish (p ∷ ps) hay =
    (gap : Text) × (rest : Text) × (hay ≡ gap ++ (p ++ rest)) × Placed finish ps rest

-- The first part stands at the start, if the alternative is anchored there.
abbrev pub IsMatch : Bool → Bool → Text → List Text → Text → Type 0
IsMatch true finish p ps hay = (rest : Text) × (hay ≡ p ++ rest) × Placed finish ps rest
IsMatch false finish p ps hay = Placed finish (p ∷ ps) hay

Placed-Splits : (finish : Bool) (ps : List Text) (hay : Text) → Placed finish ps hay → Splits ps hay
Placed-Splits finish [] hay h = tt
Placed-Splits finish (p ∷ ps) hay (gap, rest, e, more) =
    (gap, rest, e, Placed-Splits finish ps rest more)

Splits-Placed : (ps : List Text) (hay : Text) → Splits ps hay → Placed false ps hay
Splits-Placed [] hay h = tt
Splits-Placed (p ∷ ps) hay (gap, rest, e, more) = (gap, rest, e, Splits-Placed ps rest more)

Splits-last :
    (p : Text) (ps : List Text) (hay : Text)
    → Splits (p ∷ ps) hay
    → length (last_of (p ∷ ps)) ≤ length hay
Splits-last p [] hay (gap, rest, e, _) =
    omega (arith, ap length e, length-append gap (p ++ rest), length-append p rest)
Splits-last p (q ∷ qs) hay (gap, rest, e, more) = omega (
  arith,
  ap length e,
  length-append gap (p ++ rest),
  length-append p rest,
  Splits-last q qs rest more,
)

-- The end of what follows `a` is the end of the whole, if it is not longer.
end_within :
    (a rest x last : Text)
    → a ++ rest ≡ x ++ last
    → length last ≤ length rest
    → (ext : Text) × (rest ≡ ext ++ last)
end_within a rest x last e h =
    longer_end a rest x last e
      (omega (arith, ap length e, length-append a rest, length-append x last, h))

Splits-Placed_end :
    (p : Text) (ps : List Text) (hay x : Text)
    → Splits (p ∷ ps) hay
    → hay ≡ x ++ last_of (p ∷ ps)
    → Placed true (p ∷ ps) hay
Splits-Placed_end p [] hay x h e = (x, [], e ∙ ap (λ s. x ++ s) (sym (append-nil p)), refl)
Splits-Placed_end p (q ∷ qs) hay x (gap, rest, e, more) at =
    let (ext, ends) =
      end_within (gap ++ p) rest x (last_of (q ∷ qs)) (append_assoc gap p rest ∙ sym e ∙ at)
        (Splits-last q qs rest more) in
    (gap, rest, e, Splits-Placed_end q qs rest ext more ends)

Placed-last :
    (p : Text) (ps : List Text) (hay : Text)
    → Placed true (p ∷ ps) hay
    → (x : Text) × (hay ≡ x ++ last_of (p ∷ ps))
Placed-last p [] hay (gap, rest, e, empty) =
    (gap, e ∙ ap (λ s. gap ++ (p ++ s)) empty ∙ ap (λ s. gap ++ s) (append-nil p))
Placed-last p (q ∷ qs) hay (gap, rest, e, more) =
    let (x, ends) = Placed-last q qs rest more in
    let last = last_of (q ∷ qs) in
    (
      gap ++ (p ++ x),
      e
          ∙ ap (λ s. gap ++ (p ++ s)) ends
          ∙ ap (λ s. gap ++ s) (sym (append_assoc p x last))
          ∙ sym (append_assoc gap (p ++ x) last),
    )

ends_with-ok : (p hay : Text) → ends_with p hay ≡ true → (x : Text) × (hay ≡ x ++ p)
unfolding ends_with
ends_with-ok p [] h = ([], (text_eq_iff [] p).0 h)
ends_with-ok p (c ∷ hay) h = elim (Bool-cases (text_eq (c ∷ hay) p)) [
  | inl whole ↦ ([], (text_eq_iff (c ∷ hay) p).0 whole)
  | inr part ↦
      let h' : ends_with p hay ≡ true = rw (part, ends_with) at h in
      let (x, e) = ends_with-ok p hay h' in (c ∷ x, ap (λ s. c ∷ s) e)
]

ends_with-append : (x p : Text) → ends_with p (x ++ p) ≡ true
unfolding ends_with
ends_with-append [] [] = (text_eq_iff [] []).1 refl
ends_with-append [] (c ∷ p) = rw ((text_eq_iff (c ∷ p) (c ∷ p)).1 refl, ends_with) refl
ends_with-append (c ∷ x) p = elim (Bool-cases (text_eq (c ∷ (x ++ p)) p)) [
  | inl whole ↦ rw (whole, ends_with) refl
  | inr part ↦ rw (part, ends_with) (ends_with-append x p)
]

-- A text that ends `finish` asks for.
abbrev ends_if : Bool → Text → Text → Bool
ends_if finish last hay = if finish then ends_with last hay else true

-- The search for the parts, and the test of the end, place the parts.
match_parts-Placed :
    (anchor finish : Bool) (a rest p : Text) (ps : List Text)
    → ((match_parts false anchor (p ∷ ps) rest && ends_if finish (last_of (p ∷ ps)) (a ++ rest))
        ≡ true)
      ↔ Placed finish (p ∷ ps) rest
match_parts-Placed anchor false a rest p ps = (
  (λ h.
      let found : match_parts false anchor (p ∷ ps) rest ≡ true = ground arith in
      Splits-Placed (p ∷ ps) rest ((match_parts-Splits anchor (p ∷ ps) rest).0 found)),
  (λ h.
      let found =
        (match_parts-Splits anchor (p ∷ ps) rest).1 (Placed-Splits false (p ∷ ps) rest h) in
      ground (arith, found)),
)
match_parts-Placed anchor true a rest p ps = (
  (λ h.
      let found : match_parts false anchor (p ∷ ps) rest ≡ true = ground arith in
      let closed : ends_with (last_of (p ∷ ps)) (a ++ rest) ≡ true = ground arith in
      let splits = (match_parts-Splits anchor (p ∷ ps) rest).0 found in
      let (x, e) = ends_with-ok (last_of (p ∷ ps)) (a ++ rest) closed in
      let (ext, ends) = end_within a rest x (last_of (p ∷ ps)) e (Splits-last p ps rest splits) in
      Splits-Placed_end p ps rest ext splits ends),
  (λ h.
      let found =
        (match_parts-Splits anchor (p ∷ ps) rest).1 (Placed-Splits true (p ∷ ps) rest h) in
      let (x, e) = Placed-last p ps rest h in
      let whole : a ++ rest ≡ (a ++ x) ++ last_of (p ∷ ps) =
        ap (λ s. a ++ s) e ∙ sym (append_assoc a x (last_of (p ∷ ps))) in
      let closed : ends_with (last_of (p ∷ ps)) (a ++ rest) ≡ true =
        rw whole (ends_with-append (a ++ x) (last_of (p ∷ ps))) in
      ground (arith, found, closed)),
)

match_parts-start :
    (p : Text) (ps : List Text) (hay : Text)
    → match_parts true false (p ∷ ps) hay ≡ match_parts false false (p ∷ ps) hay
unfolding match_parts
match_parts-start p ps hay = refl

match_parts-anchored :
    (p : Text) (ps : List Text) (hay rest : Text)
    → strip_prefix p hay ≡ some rest
    → match_parts true true (p ∷ ps) hay ≡ match_parts false true ps rest
unfolding match_parts
match_parts-anchored p ps hay rest h = rw (h, match_parts) refl

match_parts-astray :
    (p : Text) (ps : List Text) (hay : Text)
    → strip_prefix p hay ≡ none
    → match_parts true true (p ∷ ps) hay ≡ false
unfolding match_parts
match_parts-astray p ps hay h = rw (h, match_parts) refl

match_single-IsMatch :
    (start finish : Bool) (p hay : Text)
    → (match_single start finish p hay ≡ true) ↔ IsMatch start finish p [] hay
unfolding starts_with contains
match_single-IsMatch true true p hay = (
  (λ h. ([], (text_eq_iff hay p).0 h ∙ sym (append-nil p), refl)),
  (λ (rest, e, empty). (text_eq_iff hay p).1 (e ∙ ap (λ s. p ++ s) empty ∙ append-nil p)),
)
match_single-IsMatch true false p hay = (
  (λ h. elim (Option-cases (strip_prefix p hay)) [
    | inl gone ↦ absurd (ground arith)
    | inr (rest, found) ↦ (rest, strip_prefix-ok p hay rest found, tt)
  ]),
  (λ (rest, e, _). rw (e, strip_prefix-append p rest, starts_with) refl),
)
match_single-IsMatch false true p hay = (
  (λ h.
      let (x, e) = ends_with-ok p hay h in
      (x, [], e ∙ ap (λ s. x ++ s) (sym (append-nil p)), refl)),
  (λ placed. let (x, e) = Placed-last p [] hay placed in rw e (ends_with-append x p)),
)
match_single-IsMatch false false p hay = (
  (λ h. elim (Option-cases (find_after p hay)) [
    | inl gone ↦ absurd (ground arith)
    | inr (rest, found) ↦ let (gap, e) = find_after-ok p hay rest found in (gap, rest, e, tt)
  ]),
  (λ (gap, rest, e, _).
      let (r, ext, found, _) = find_after-first p gap rest in rw (e, found, contains) refl),
)

-- An alternative with at least one part matches a text exactly if its parts stand in the text one
-- after the other, the first one at the start and the last one at the end where it is anchored.
pub alt_matches-IsMatch :
    (start finish : Bool) (p : Text) (ps : List Text) (hay : Text)
    → (alt_matches (record { anchor_start = start; anchor_end = finish; parts = p ∷ ps }) hay
        ≡ true)
      ↔ IsMatch start finish p ps hay
unfolding alt_matches
alt_matches-IsMatch start finish p [] hay = match_single-IsMatch start finish p hay
alt_matches-IsMatch false finish p (q ∷ qs) hay =
    rw (match_parts-start p (q ∷ qs) hay) (match_parts-Placed false finish [] hay p (q ∷ qs))
alt_matches-IsMatch true finish p (q ∷ qs) hay = (
  (λ h. elim (Option-cases (strip_prefix p hay)) [
    | inl gone ↦ absurd (ground (arith, h, match_parts-astray p (q ∷ qs) hay gone))
    | inr (rest, found) ↦
        let e = strip_prefix-ok p hay rest found in
        let h' : (match_parts false true (q ∷ qs) rest && ends_if finish (last_of (q ∷ qs)) hay)
            ≡ true =
          ap (λ b. b && ends_if finish (last_of (q ∷ qs)) hay)
            (sym (match_parts-anchored p (q ∷ qs) hay rest found))
          ∙ h in
        let h'' : (match_parts false true (q ∷ qs) rest
              && ends_if finish (last_of (q ∷ qs)) (p ++ rest))
            ≡ true =
          ap (λ s. match_parts false true (q ∷ qs) rest && ends_if finish (last_of (q ∷ qs)) s)
            (sym e)
          ∙ h' in
        (rest, e, (match_parts-Placed true finish p rest q qs).0 h'')
  ]),
  (λ (rest, e, placed).
      rw (e, match_parts-anchored p (q ∷ qs) (p ++ rest) rest (strip_prefix-append p rest))
        ((match_parts-Placed true finish p rest q qs).1 placed)),
)
