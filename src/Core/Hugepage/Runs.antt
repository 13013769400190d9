-- ===== src/Core/Hugepage/Runs.antt =====
-- A merge and a split leave the translation of every guest address as it was.
use aegis_hv.Common.{
  ℕ, suc, ◌+◌, ◌-◌, ◌*◌, ◌/◌, ◌%◌, Bool, true, false, ◌&&◌, ◌||◌, not, Option, none, some, List, [],
  ◌∷◌, length, ltb, leb, ◌==◌, if◌then◌else◌, ok, ok_or, ◌≡◌, refl, arith, ap, sym, ◌∙◌, fail_if,
  >>=-eq-ok,
}
use aegis_hv.Core.Errors.{
  CoreErrorKind, permission_violation, invalid_address, invalid_argument, unsupported,
}
use aegis_hv.Core.Hugepage.{
  TranslationPageSize, size_4k, size_2m, size_1g, bytes, parent, size_eq, TranslationPermissions,
  permissions_eq, is_wx, TranslationMapping, new_mapping, end_gpa, end_hpa, check_run, plan_merge,
}

abbrev pub maps : TranslationMapping → ℕ → Bool
maps m g = leb m.guest_physical g && ltb g (m.guest_physical + bytes m.page_size)

-- The host address and the permissions of a guest address under a list of mappings.
unfoldable pub translate : ℕ → List TranslationMapping → Option (ℕ × TranslationPermissions)
translate g [] = none
translate g (m ∷ ms) =
    if maps m g
    then some (m.host_physical + (g - m.guest_physical), m.permissions)
    else translate g ms

-- The translation by one contiguous stretch of `size` bytes.
abbrev pub stretch : ℕ → ℕ → ℕ → TranslationPermissions → ℕ → Option (ℕ × TranslationPermissions)
stretch gpa hpa size p g =
    if leb gpa g && ltb g (gpa + size) then some (hpa + (g - gpa), p) else none

size_eq-eq : (s t : TranslationPageSize) → size_eq s t ≡ true → s ≡ t
size_eq-eq s t h = ground arith

permissions_eq-eq : (p q : TranslationPermissions) → permissions_eq p q ≡ true → p ≡ q
permissions_eq-eq p q h = ground arith

pub fail_if-ok : (b : Bool) (e : CoreErrorKind) → fail_if b e ≡ ok tt → b ≡ false
fail_if-ok true e h = absurd (ground arith)
fail_if-ok false e h = refl

or_false : (b c : Bool) → (not b || not c) ≡ false → (b ≡ true) × (c ≡ true)
or_false b c h = ground arith

end_gpa-eq :
    (m : TranslationMapping) {n : ℕ} → end_gpa m ≡ ok n → n ≡ m.guest_physical + bytes m.page_size
unfolding end_gpa
end_gpa-eq m h = ground arith

end_hpa-eq :
    (m : TranslationMapping) {n : ℕ} → end_hpa m ≡ ok n → n ≡ m.host_physical + bytes m.page_size
unfolding end_hpa
end_hpa-eq m h = ground arith

-- One round of the loop: what it has checked, and where the next one starts.
check_run-step :
    (first m : TranslationMapping) (gpa hpa : ℕ) (ms : List TranslationMapping)
    → check_run first gpa hpa (m ∷ ms) ≡ ok tt
    → (m.page_size ≡ first.page_size)
      × (m.permissions ≡ first.permissions)
      × (m.guest_physical ≡ gpa)
      × (m.host_physical ≡ hpa)
      × (check_run first (gpa + bytes m.page_size) (hpa + bytes m.page_size) ms ≡ ok tt)
unfolding check_run
check_run-step first m gpa hpa ms h =
    let kinds =
      not (size_eq m.page_size first.page_size)
      || not (permissions_eq m.permissions first.permissions) in
    let places = not (m.guest_physical == gpa) || not (m.host_physical == hpa) in
    let (_, alike, h1) = >>=-eq-ok (fail_if kinds permission_violation) _ h in
    let (_, placed, h2) = >>=-eq-ok (fail_if places invalid_address) _ h1 in
    let (next_gpa, g, h3) = >>=-eq-ok (end_gpa m) _ h2 in
    let (next_hpa, p, h4) = >>=-eq-ok (end_hpa m) _ h3 in
    let alike' : kinds ≡ false = fail_if-ok kinds permission_violation alike in
    let placed' : places ≡ false = fail_if-ok places invalid_address placed in
    let at : (m.guest_physical ≡ gpa) × (m.host_physical ≡ hpa) = ground arith in
    let g' : next_gpa ≡ gpa + bytes m.page_size =
      end_gpa-eq m g ∙ ap (λ n. n + bytes m.page_size) at.0 in
    let p' : next_hpa ≡ hpa + bytes m.page_size =
      end_hpa-eq m p ∙ ap (λ n. n + bytes m.page_size) at.1 in
    let both =
      or_false (size_eq m.page_size first.page_size)
        (permissions_eq m.permissions first.permissions) alike' in
    (
      size_eq-eq m.page_size first.page_size both.0,
      permissions_eq-eq m.permissions first.permissions both.1,
      at.0,
      at.1,
      rw (sym g', sym p') h4,
    )

stretch-split :
    (gpa hpa size rest g : ℕ) (p : TranslationPermissions)
    → stretch gpa hpa (size + rest) p g ≡ (
        if leb gpa g && ltb g (gpa + size)
        then some (hpa + (g - gpa), p)
        else stretch (gpa + size) (hpa + size) rest p g)
stretch-split gpa hpa size rest g p = ground arith

check_run-translate :
    (first : TranslationMapping) (gpa hpa : ℕ) (ms : List TranslationMapping)
    → check_run first gpa hpa ms ≡ ok tt
    → (g : ℕ)
    → translate g ms ≡ stretch gpa hpa (length ms * bytes first.page_size) first.permissions g
unfolding translate
check_run-translate first gpa hpa [] h g = ground arith
check_run-translate first gpa hpa (m ∷ ms) h g =
    let (size, perms, at, to, h') = check_run-step first m gpa hpa ms h in
    let rest =
      check_run-translate first (gpa + bytes m.page_size) (hpa + bytes m.page_size) ms h' g in
    let b = bytes first.page_size in
    let total : suc (length ms) * b ≡ b + length ms * b = omega arith in
    rw
      (
        total,
        stretch-split gpa hpa b (length ms * b) g first.permissions,
        rest,
        size,
        perms,
        at,
        to,
      )
      refl

parent-bytes :
    (s t : TranslationPageSize) → parent s ≡ some t → (bytes t / bytes s) * bytes s ≡ bytes t
parent-bytes size_4k t h = ground arith
parent-bytes size_2m t h = ground arith
parent-bytes size_1g t h = ground arith

pub new_mapping-ok :
    (g h : ℕ) (s : TranslationPageSize) (p : TranslationPermissions) {m : TranslationMapping}
    → new_mapping g h s p ≡ ok m
    → (m ≡ record { guest_physical = g; host_physical = h; page_size = s; permissions = p })
      × (is_wx p ≡ false)
unfolding new_mapping
new_mapping-ok g h s p made =
    let (_, _, made') =
      >>=-eq-ok (fail_if (not (g % bytes s == 0) || not (h % bytes s == 0)) invalid_address) _
        made in
    let (_, wx, made'') = >>=-eq-ok (fail_if (is_wx p) permission_violation) _ made' in
    (ground (arith, made''), fail_if-ok (is_wx p) permission_violation wx)

pub ok_or-ok :
    {A : Type 0} (o : Option A) (e : CoreErrorKind) {a : A} → ok_or o e ≡ ok a → o ≡ some a
ok_or-ok none e h = absurd (ground arith)
ok_or-ok (some a) e h = ground arith

-- A merge that succeeds translates every guest address to the same host address with the same
-- permissions as the mappings it replaces, and is not both writable and executable.
pub plan_merge-translate :
    (ms : List TranslationMapping) (m : TranslationMapping)
    → plan_merge ms ≡ ok m
    → ((g : ℕ) → translate g (m ∷ []) ≡ translate g ms) × (is_wx m.permissions ≡ false)
unfolding plan_merge translate
plan_merge-translate [] m h = absurd (ground arith)
plan_merge-translate (first ∷ others) m h =
    let (size, larger, h1) = >>=-eq-ok (ok_or (parent first.page_size) unsupported) _ h in
    let (_, counts, h2) =
      >>=-eq-ok
        (fail_if (not (length (first ∷ others) == bytes size / bytes first.page_size))
          invalid_argument)
        _ h1 in
    let (_, _, h3) =
      >>=-eq-ok
        (fail_if
          (not (first.guest_physical % bytes size == 0)
            || not (first.host_physical % bytes size == 0))
          invalid_address)
        _ h2 in
    let (_, run, made) =
      >>=-eq-ok (check_run first first.guest_physical first.host_physical (first ∷ others)) _ h3 in
    let (same, wx) =
      new_mapping-ok first.guest_physical first.host_physical size first.permissions made in
    let larger' : parent first.page_size ≡ some size =
      ok_or-ok (parent first.page_size) unsupported larger in
    let count' =
      fail_if-ok (not (length (first ∷ others) == bytes size / bytes first.page_size))
        invalid_argument counts in
    let count : length (first ∷ others) ≡ bytes size / bytes first.page_size = ground arith in
    let total : length (first ∷ others) * bytes first.page_size ≡ bytes size =
      ap (λ n. n * bytes first.page_size) count ∙ parent-bytes first.page_size size larger' in
    (
      λ g. sym (
          check_run-translate first first.guest_physical first.host_physical (first ∷ others) run g
          ∙ rw (total, same) refl),
      rw same wx,
    )
