-- ===== src/Core/Hugepage/RoundTrip.antt =====
-- The children of a split merge back into the mapping that was split.
use aegis_hv.Common.{
  ℕ, zero, suc, ◌+◌, ◌*◌, ◌/◌, ◌%◌, ◌<◌, true, false, ◌||◌, not, some, List, [], ◌∷◌, length, ◌==◌,
  ok, ok_or, fail_if, ◌≡◌, refl, arith, ap, sym, ◌∙◌, >>=-eq-ok,
}
use aegis_hv.Common.Word.{u64_mod}
use aegis_hv.Core.Errors.{unsupported, invalid_address}
use aegis_hv.Core.Hugepage.{
  TranslationPageSize, size_4k, size_2m, size_1g, bytes, parent, child, size_eq,
  TranslationPermissions, permissions_eq, is_wx, TranslationMapping, new_mapping, end_gpa, end_hpa,
  SplitPlan, plan_split, check_run, plan_merge,
}
use aegis_hv.Core.Hugepage.Runs.{fail_if-ok, ok_or-ok, new_mapping-ok}

-- `n` neighbouring pages from the guest address `g` and the host address `h` on.
unfoldable pub pages :
    TranslationPageSize → TranslationPermissions → ℕ → ℕ → ℕ → List TranslationMapping
pages s p zero g h = []
pages s p (suc n) g h =
    record { guest_physical = g; host_physical = h; page_size = s; permissions = p }
    ∷ pages s p n (g + bytes s) (h + bytes s)

size_eq_refl : (s : TranslationPageSize) → size_eq s s ≡ true
size_eq_refl s = ground arith

permissions_eq_refl : (p : TranslationPermissions) → permissions_eq p p ≡ true
permissions_eq_refl p = ground arith

length-pages :
    (s : TranslationPageSize) (p : TranslationPermissions) (n g h : ℕ)
    → length (pages s p n g h) ≡ n
unfolding pages
length-pages s p zero g h = refl
length-pages s p (suc n) g h = ap suc (length-pages s p n (g + bytes s) (h + bytes s))

end_gpa-ok :
    (m : TranslationMapping)
    → m.guest_physical + bytes m.page_size < u64_mod
    → end_gpa m ≡ ok (m.guest_physical + bytes m.page_size)
unfolding end_gpa
end_gpa-ok m h = ground arith

end_hpa-ok :
    (m : TranslationMapping)
    → m.host_physical + bytes m.page_size < u64_mod
    → end_hpa m ≡ ok (m.host_physical + bytes m.page_size)
unfolding end_hpa
end_hpa-ok m h = ground arith

eq_refl : (n : ℕ) → (n == n) ≡ true
eq_refl n = ground arith

check_run-pages :
    (first : TranslationMapping) (n g h : ℕ)
    → g + n * bytes first.page_size < u64_mod
    → h + n * bytes first.page_size < u64_mod
    → check_run first g h (pages first.page_size first.permissions n g h) ≡ ok tt
unfolding check_run pages
check_run-pages first zero g h k l = refl
check_run-pages first (suc n) g h k l =
    let b = bytes first.page_size in
    let total : suc n * b ≡ b + n * b = omega arith in
    let m : TranslationMapping = record {
      guest_physical = g;
      host_physical = h;
      page_size = first.page_size;
      permissions = first.permissions;
    } in
    rw
      (
        size_eq_refl first.page_size,
        permissions_eq_refl first.permissions,
        eq_refl g,
        eq_refl h,
        end_gpa-ok m (omega (arith, k, total)),
        end_hpa-ok m (omega (arith, l, total)),
      )
      (check_run-pages first n (g + b) (h + b) (omega (arith, k, total)) (omega (arith, l, total)))

-- A complete run of aligned children merges.
plan_merge-ok :
    (first : TranslationMapping) (others : List TranslationMapping) (t : TranslationPageSize)
    → parent first.page_size ≡ some t
    → (length (first ∷ others) == bytes t / bytes first.page_size) ≡ true
    → (first.guest_physical % bytes t == 0) ≡ true
    → (first.host_physical % bytes t == 0) ≡ true
    → check_run first first.guest_physical first.host_physical (first ∷ others) ≡ ok tt
    → is_wx first.permissions ≡ false
    → plan_merge (first ∷ others) ≡ ok (record first { page_size = t })
unfolding plan_merge new_mapping
plan_merge-ok first others t larger count ag ah run wx = rw (larger, count, ag, ah, run, wx) refl

eq_intro : (a b : ℕ) → a ≡ b → (a == b) ≡ true
eq_intro a b h = ground arith

plan_merge-pages :
    (s t : TranslationPageSize) (p : TranslationPermissions) (n g h : ℕ)
    → parent s ≡ some t
    → suc n ≡ bytes t / bytes s
    → (bytes t / bytes s) * bytes s ≡ bytes t
    → g % bytes t ≡ 0
    → h % bytes t ≡ 0
    → g + bytes t < u64_mod
    → h + bytes t < u64_mod
    → is_wx p ≡ false
    → plan_merge (pages s p (suc n) g h)
      ≡ ok (record { guest_physical = g; host_physical = h; page_size = t; permissions = p })
unfolding pages
plan_merge-pages s t p n g h larger count fill ag ah eg eh wx =
    let first : TranslationMapping = record {
      guest_physical = g;
      host_physical = h;
      page_size = s;
      permissions = p;
    } in
    let total : suc n * bytes s ≡ bytes t = ap (λ k. k * bytes s) count ∙ fill in
    plan_merge-ok first (pages s p n (g + bytes s) (h + bytes s)) t larger
      (eq_intro _ _ (ap suc (length-pages s p n (g + bytes s) (h + bytes s)) ∙ count))
      (eq_intro _ _ ag) (eq_intro _ _ ah)
      (check_run-pages first (suc n) g h (omega (arith, total, eg)) (omega (arith, total, eh))) wx

-- How the children of a size fill it.
child_sizes :
    (t s : TranslationPageSize)
    → child t ≡ some s
    → (parent s ≡ some t)
      × ((n : ℕ) × (suc n ≡ bytes t / bytes s))
      × ((bytes t / bytes s) * bytes s ≡ bytes t)
child_sizes size_1g size_2m e = (refl, (511, refl), refl)
child_sizes size_2m size_4k e = (refl, (511, refl), refl)
child_sizes size_1g size_1g e = absurd (ground arith)
child_sizes size_1g size_4k e = absurd (ground arith)
child_sizes size_2m size_1g e = absurd (ground arith)
child_sizes size_2m size_2m e = absurd (ground arith)
child_sizes size_4k s e = absurd (ground arith)

plan_split-ok :
    (m : TranslationMapping) (plan : SplitPlan)
    → plan_split m ≡ ok plan
    → (child m.page_size ≡ some plan.child_size)
      × (plan.child_count ≡ bytes m.page_size / bytes plan.child_size)
unfolding plan_split
plan_split-ok m plan h =
    let (size, smaller, made) = >>=-eq-ok (ok_or (child m.page_size) unsupported) _ h in
    let e : child m.page_size ≡ some size = ok_or-ok (child m.page_size) unsupported smaller in
    let f : size ≡ plan.child_size = ground (arith, made) in
    let g : bytes m.page_size / bytes size ≡ plan.child_count = ground (arith, made) in
    (e ∙ ap some f, sym g ∙ ap (λ z. bytes m.page_size / bytes z) f)

-- A mapping that `new` accepts is aligned, and not both writable and executable.
new_mapping-aligned :
    (g h : ℕ) (s : TranslationPageSize) (p : TranslationPermissions) {m : TranslationMapping}
    → new_mapping g h s p ≡ ok m
    → (g % bytes s ≡ 0) × (h % bytes s ≡ 0)
unfolding new_mapping
new_mapping-aligned g h s p made =
    let off = not (g % bytes s == 0) || not (h % bytes s == 0) in
    let (_, fine, _) = >>=-eq-ok (fail_if off invalid_address) _ made in
    let fine' : off ≡ false = fail_if-ok off invalid_address fine in ground arith

-- For a mapping that `new` accepts and whose two ends, in guest and in host memory, are below
-- 2 ^ 64: merging the children that a split plans for gives the mapping back.
pub plan_merge-plan_split :
    (m : TranslationMapping) (plan : SplitPlan)
    → new_mapping m.guest_physical m.host_physical m.page_size m.permissions ≡ ok m
    → m.guest_physical + bytes m.page_size < u64_mod
    → m.host_physical + bytes m.page_size < u64_mod
    → plan_split m ≡ ok plan
    → plan_merge
        (pages plan.child_size m.permissions plan.child_count m.guest_physical m.host_physical)
      ≡ ok m
plan_merge-plan_split m plan made eg eh split =
    let (smaller, count) = plan_split-ok m plan split in
    let (larger, (n, suc_n), fill) = child_sizes m.page_size plan.child_size smaller in
    let (ag, ah) =
      new_mapping-aligned m.guest_physical m.host_physical m.page_size m.permissions made in
    let wx = (new_mapping-ok m.guest_physical m.host_physical m.page_size m.permissions made).1 in
    rw (count, sym suc_n)
      (plan_merge-pages plan.child_size m.page_size m.permissions n m.guest_physical m.host_physical
        larger suc_n fill ag ah eg eh wx)
