-- ===== src/Vmi/X86/Same.antt =====
-- Two addresses of one page are translated alike.
use aegis_hv.Common.{
  ℕ, ◌/◌, ◌^◌, Bool, true, false, not, Option, none, some, Result, ok, ok_or, fail_if, ◌≡◌, refl,
  subst, ◌∙◌, arith, >>=-eq-ok,
}
use aegis_hv.Vmi.Errors.{TranslationError, invalid_address, missing_context, TranslationResult}
use aegis_hv.Vmi.X86.{
  X86PagingMode, four_level, la57, Reader, page_4k, base_of, default_permissions, is_canonical,
  is_canonical_with_sign_bit, walk_pml4, walk_pml5, translate,
}
use aegis_hv.Vmi.X86.Levels.{
  Alike, SamePage, at_address, walk_pml4-Alike, walk_pml5-Alike, SamePage-grow,
}

-- The stretch of addresses under the root table.
abbrev reach : X86PagingMode → ℕ
reach four_level = 2 ^ 39
reach la57 = 2 ^ 48

-- Addresses that differ below the root table only are canonical together.
is_canonical-SamePage :
    (g g' : ℕ) (mode : X86PagingMode)
    → SamePage (reach mode) g g'
    → is_canonical g' mode ≡ is_canonical g mode
unfolding is_canonical is_canonical_with_sign_bit
is_canonical-SamePage g g' four_level same =
    let e = SamePage-grow (2 ^ 39) (2 ^ 8) g g' same in
    let e' = SamePage-grow (2 ^ 39) (2 ^ 9) g g' same in rw (e, e') refl
is_canonical-SamePage g g' la57 same =
    let e = SamePage-grow (2 ^ 48) (2 ^ 8) g g' same in
    let e' = SamePage-grow (2 ^ 48) (2 ^ 9) g g' same in rw (e, e') refl

abbrev root_walk : Reader → ℕ → ℕ → X86PagingMode → ℕ → Result TranslationResult TranslationError
root_walk memory vm cr3 mode g = elim mode [
  | four_level ↦ walk_pml4 memory vm g (base_of cr3 page_4k) default_permissions
  | la57 ↦ walk_pml5 memory vm g (base_of cr3 page_4k) default_permissions
]

root_walk-Alike :
    (memory : Reader) (vm cr3 g : ℕ) (mode : X86PagingMode) (r : TranslationResult)
    → root_walk memory vm cr3 mode g ≡ ok r
    → Alike (reach mode) g (root_walk memory vm cr3 mode) r
root_walk-Alike memory vm cr3 g four_level r h =
    walk_pml4-Alike memory vm g (base_of cr3 page_4k) default_permissions r h
root_walk-Alike memory vm cr3 g la57 r h =
    walk_pml5-Alike memory vm g (base_of cr3 page_4k) default_permissions r h

some_root : (o : Option ℕ) {cr3 : ℕ} → ok_or o missing_context ≡ ok cr3 → o ≡ some cr3
some_root none h = absurd (ground (arith, h))
some_root (some a) h = ground (arith, h)

passed : (b : Bool) (e : TranslationError) → fail_if (not b) e ≡ ok tt → b ≡ true
passed true e h = refl
passed false e h = absurd (ground (arith, h))

-- What `translate` went through when it succeeded.
translate-parts :
    (memory : Reader) (vm g : ℕ) (cr3? : Option ℕ) (mode : X86PagingMode) (r : TranslationResult)
    → translate memory vm cr3? g mode ≡ ok r
    → (cr3 : ℕ) × (cr3? ≡ some cr3)
      × (is_canonical g mode ≡ true)
      × (root_walk memory vm cr3 mode g ≡ ok r)
unfolding translate
translate-parts memory vm g cr3? mode r h =
    let (_, fine, h1) = >>=-eq-ok (fail_if (not (is_canonical g mode)) (invalid_address g)) _ h in
    let (cr3, e, h2) = >>=-eq-ok (ok_or cr3? missing_context) _ h1 in
    (cr3, some_root cr3? e, passed (is_canonical g mode) (invalid_address g) fine, h2)

-- If an address is translated, then every other address of its page, which may be a large one, is
-- translated as well: to the same page, with the same permissions, at its own offset in the page.
pub translate-SamePage :
    (memory : Reader) (vm g g' : ℕ) (cr3? : Option ℕ) (mode : X86PagingMode) (r : TranslationResult)
    → translate memory vm cr3? g mode ≡ ok r
    → g' / r.page_size ≡ g / r.page_size
    → translate memory vm cr3? g' mode ≡ ok (at_address r g')
unfolding translate
translate-SamePage memory vm g g' cr3? mode r h same =
    let (cr3, e, fine, walked) = translate-parts memory vm g cr3? mode r h in
    let (parts, whole, alike) = root_walk-Alike memory vm cr3 g mode r walked in
    let same' : SamePage (reach mode) g g' =
      subst (λ s. SamePage s g g') whole (SamePage-grow r.page_size parts g g' same) in
    let fine' : is_canonical g' mode ≡ true = is_canonical-SamePage g g' mode same' ∙ fine in
    rw (translate, fine', e) (alike g' same)
