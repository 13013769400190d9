-- ===== src/Vmi/X86/Levels.antt =====
-- Two addresses of one page take the same way from each level of the tables on.
use aegis_hv.Common.{
  ℕ, ◌+◌, ◌*◌, ◌/◌, ◌%◌, ◌^◌, Bool, true, false, not, if◌then◌else◌, Result, ok, fail_if, ◌>>=◌,
  ◌>>◌, ◌≡◌, sym, ap, subst, ◌∙◌, arith, >>=-eq-ok,
}
use native.Mathlib.Nat.{div-div-eq-div-mul, mul_assoc}
use aegis_hv.Vmi.Errors.{
  Level, pml5e, pml4e, pdpte, pde, pte, TranslationError, malformed_page_tables, TranslationResult,
  not_present,
}
use aegis_hv.Vmi.X86.{
  Reader, X86PagePermissions, page_4k, page_2m, page_1g, base_of, apply, result, large_page,
  table_index, validate_present, reject_reserved_high_bits, reject_reserved_large_page_bits,
  read_table_entry, read_entry, walk_pt, walk_pd, walk_pdpt, walk_pml4, walk_pml5, has_bit,
}

-- The address `gva` of the page that the result is about.
abbrev pub at_address : TranslationResult → ℕ → TranslationResult
at_address r gva = record r { gpa = r.gpa / r.page_size * r.page_size + gva % r.page_size }

-- The two addresses agree from the bit on that stands for `size`.
abbrev pub SamePage : ℕ → ℕ → ℕ → Type 0
SamePage size g g' = g' / size ≡ g / size

pub SamePage-grow : (size more g g' : ℕ) → SamePage size g g' → SamePage (size * more) g g'
SamePage-grow size more g g' h =
    sym (div-div-eq-div-mul g' size more) ∙ ap (λ q. q / more) h ∙ div-div-eq-div-mul g size more

-- A walk below a table that stands for `size` bytes: it finds a page that is a part of them, and
-- every other address of the page is translated like the first one.
abbrev pub Alike :
    ℕ → ℕ → (ℕ → Result TranslationResult TranslationError) → TranslationResult → Type 0
Alike size g walk r =
    (parts : ℕ) × (r.page_size * parts ≡ size)
    × ((g' : ℕ) → SamePage r.page_size g g' → walk g' ≡ ok (at_address r g'))

-- The result for the page that the entry stands for.
abbrev found_page : ℕ → ℕ → ℕ → X86PagePermissions → TranslationResult
found_page entry size g p = result (base_of entry size + g % size) size p

base-4k : (q g : ℕ) → q * page_4k ≡ (q * page_4k + g % page_4k) / page_4k * page_4k
base-4k q g = omega arith

base-2m : (q g : ℕ) → q * page_2m ≡ (q * page_2m + g % page_2m) / page_2m * page_2m
base-2m q g = omega arith

base-1g : (q g : ℕ) → q * page_1g ≡ (q * page_1g + g % page_1g) / page_1g * page_1g
base-1g q g = omega arith

-- The error of a test that is passed does not matter.
other_error :
    {A : Type 0} (b : Bool) (e e' : TranslationError) (rest : Result A TranslationError) {a : A}
    → (fail_if b e >> rest) ≡ ok a
    → (fail_if b e' >> rest) ≡ ok a
other_error true e e' rest h = absurd (ground (arith, h))
other_error false e e' rest h = h

read_entry-SamePage :
    (memory : Reader) (vm base index index' g g' : ℕ) (level : Level) {entry : ℕ}
    → index' ≡ index
    → read_entry memory vm base index level g ≡ ok entry
    → read_entry memory vm base index' level g' ≡ ok entry
unfolding read_entry validate_present
read_entry-SamePage memory vm base index index' g g' level {entry} e h =
    let (entry', read, h1) = >>=-eq-ok (read_table_entry memory vm base index level) _ h in
    let h2 =
      other_error (not (has_bit entry' 0)) (not_present level g) (not_present level g')
        (reject_reserved_high_bits level entry' >> ok entry') h1 in
    rw (read_entry, e, read) h2

abbrev found_as : TranslationResult → Result TranslationResult TranslationError
found_as = ok

-- A large page that the entry stands for, when its reserved bits are clear.
abbrev large_at : Level → ℕ → ℕ → X86PagePermissions → ℕ → Result TranslationResult TranslationError
large_at level entry size p g =
    reject_reserved_large_page_bits level entry size >> ok (found_page entry size g p)

large_at-Alike :
    (level : Level) (entry size g : ℕ) (p : X86PagePermissions) (r : TranslationResult)
    → ((q g : ℕ) → q * size ≡ (q * size + g % size) / size * size)
    → large_at level entry size p g ≡ ok r
    → Alike size g (large_at level entry size p) r
large_at-Alike level entry size g p r base h =
    let (_, clear, made) =
      >>=-eq-ok (reject_reserved_large_page_bits level entry size)
        (λ _. found_as (found_page entry size g p)) h in
    let e : found_page entry size g p ≡ r = ground (arith, made) in
    subst (Alike size g (large_at level entry size p)) e (
      1,
      omega arith,
      λ g' same.
          rw clear (ap (λ b. ok (result (b + g' % size) size p)) (base (entry % 2 ^ 52 / size) g)),
    )

-- A smaller page lies within the stretch of a larger table.
Alike-grow :
    (size more g : ℕ) (walk : ℕ → Result TranslationResult TranslationError) (r : TranslationResult)
    → Alike size g walk r
    → Alike (size * more) g walk r
Alike-grow size more g walk r (parts, e, alike) =
    (parts * more, sym (mul_assoc r.page_size parts more) ∙ ap (λ n. n * more) e, alike)

-- One level of the walk: it reads an entry and goes on by it.
descend-Alike :
    (memory : Reader) (vm g base n : ℕ) (level : Level)
    (next : ℕ → ℕ → Result TranslationResult TranslationError) (r : TranslationResult)
    → ((entry : ℕ) → next entry g ≡ ok r → Alike (2 ^ n) g (next entry) r)
    → (read_entry memory vm base (table_index n g) level g >>= λ entry. next entry g) ≡ ok r
    → Alike
        (2 ^ n)
        g
        (λ g'. read_entry memory vm base (table_index n g') level g' >>= λ entry. next entry g')
        r
descend-Alike memory vm g base n level next r below h =
    let (entry, read, h') =
      >>=-eq-ok (read_entry memory vm base (table_index n g) level g) (λ e. next e g) h in
    let (parts, e, alike) = below entry h' in
    (
      parts,
      e,
      λ g' same.
          let same' : SamePage (2 ^ n) g g' =
            subst (λ s. SamePage s g g') e (SamePage-grow r.page_size parts g g' same) in
          let read' =
            read_entry-SamePage memory vm base (table_index n g) (table_index n g') g g' level
              (ap (λ q. q % 512) same') read in
          rw read' (alike g' same),
    )

walk_pt-Alike :
    (memory : Reader) (vm g base : ℕ) (p : X86PagePermissions) (r : TranslationResult)
    → walk_pt memory vm g base p ≡ ok r
    → Alike page_4k g (λ g'. walk_pt memory vm g' base p) r
unfolding walk_pt
walk_pt-Alike memory vm g base p r h =
    descend-Alike memory vm g base 12 pte
      (λ entry g'. found_as (found_page entry page_4k g' (apply entry p))) r
      (λ entry made.
        let e : found_page entry page_4k g (apply entry p) ≡ r = ground (arith, made) in
        subst (Alike page_4k g (λ g'. found_as (found_page entry page_4k g' (apply entry p)))) e (
          1,
          omega arith,
          λ g' same.
              ap (λ b. found_as (result (b + g' % page_4k) page_4k (apply entry p)))
                (base-4k (entry % 2 ^ 52 / page_4k) g),
        ))
      h

-- A level at which an entry is a large page or leads to a table.
fork-Alike :
    (size g : ℕ) (large : Bool) (here below : ℕ → Result TranslationResult TranslationError)
    (r : TranslationResult)
    → (here g ≡ ok r → Alike size g here r)
    → (below g ≡ ok r → Alike size g below r)
    → (if large then here g else below g) ≡ ok r
    → Alike size g (λ g'. if large then here g' else below g') r
fork-Alike size g true here below r a b h = a h
fork-Alike size g false here below r a b h = b h

walk_pd-Alike :
    (memory : Reader) (vm g base : ℕ) (p : X86PagePermissions) (r : TranslationResult)
    → walk_pd memory vm g base p ≡ ok r
    → Alike page_2m g (λ g'. walk_pd memory vm g' base p) r
unfolding walk_pd
walk_pd-Alike memory vm g base p r h =
    let here : ℕ → ℕ → Result TranslationResult TranslationError =
      λ entry. large_at pde entry page_2m (apply entry p) in
    let below : ℕ → ℕ → Result TranslationResult TranslationError =
      λ entry g'. walk_pt memory vm g' (base_of entry page_4k) (apply entry p) in
    descend-Alike memory vm g base 21 pde
      (λ entry g'. if large_page entry then here entry g' else below entry g') r
      (λ entry.
        fork-Alike page_2m g (large_page entry) (here entry) (below entry) r
          (large_at-Alike pde entry page_2m g (apply entry p) r base-2m)
          (λ found.
            Alike-grow page_4k 512 g (below entry) r
              (walk_pt-Alike memory vm g (base_of entry page_4k) (apply entry p) r found)))
      h

walk_pdpt-Alike :
    (memory : Reader) (vm g base : ℕ) (p : X86PagePermissions) (r : TranslationResult)
    → walk_pdpt memory vm g base p ≡ ok r
    → Alike page_1g g (λ g'. walk_pdpt memory vm g' base p) r
unfolding walk_pdpt
walk_pdpt-Alike memory vm g base p r h =
    let here : ℕ → ℕ → Result TranslationResult TranslationError =
      λ entry. large_at pdpte entry page_1g (apply entry p) in
    let below : ℕ → ℕ → Result TranslationResult TranslationError =
      λ entry g'. walk_pd memory vm g' (base_of entry page_4k) (apply entry p) in
    descend-Alike memory vm g base 30 pdpte
      (λ entry g'. if large_page entry then here entry g' else below entry g') r
      (λ entry.
        fork-Alike page_1g g (large_page entry) (here entry) (below entry) r
          (large_at-Alike pdpte entry page_1g g (apply entry p) r base-1g)
          (λ found.
            Alike-grow page_2m 512 g (below entry) r
              (walk_pd-Alike memory vm g (base_of entry page_4k) (apply entry p) r found)))
      h

-- A level whose entries lead to tables only.
tables_only-Alike :
    (size g : ℕ) (level : Level) (large : Bool)
    (below : ℕ → Result TranslationResult TranslationError) (r : TranslationResult)
    → (below g ≡ ok r → Alike size g below r)
    → (fail_if large (malformed_page_tables level) >> below g) ≡ ok r
    → Alike size g (λ g'. fail_if large (malformed_page_tables level) >> below g') r
tables_only-Alike size g level true below r a h = absurd (ground (arith, h))
tables_only-Alike size g level false below r a h = a h

pub walk_pml4-Alike :
    (memory : Reader) (vm g base : ℕ) (p : X86PagePermissions) (r : TranslationResult)
    → walk_pml4 memory vm g base p ≡ ok r
    → Alike (2 ^ 39) g (λ g'. walk_pml4 memory vm g' base p) r
unfolding walk_pml4
walk_pml4-Alike memory vm g base p r h =
    let below : ℕ → ℕ → Result TranslationResult TranslationError =
      λ entry g'. walk_pdpt memory vm g' (base_of entry page_4k) (apply entry p) in
    descend-Alike memory vm g base 39 pml4e
      (λ entry g'. fail_if (large_page entry) (malformed_page_tables pml4e) >> below entry g') r
      (λ entry. tables_only-Alike (2 ^ 39) g pml4e (large_page entry) (below entry) r (λ found.
        Alike-grow page_1g 512 g (below entry) r
          (walk_pdpt-Alike memory vm g (base_of entry page_4k) (apply entry p) r found)))
      h

pub walk_pml5-Alike :
    (memory : Reader) (vm g base : ℕ) (p : X86PagePermissions) (r : TranslationResult)
    → walk_pml5 memory vm g base p ≡ ok r
    → Alike (2 ^ 48) g (λ g'. walk_pml5 memory vm g' base p) r
unfolding walk_pml5
walk_pml5-Alike memory vm g base p r h =
    let below : ℕ → ℕ → Result TranslationResult TranslationError =
      λ entry g'. walk_pml4 memory vm g' (base_of entry page_4k) (apply entry p) in
    descend-Alike memory vm g base 48 pml5e
      (λ entry g'. fail_if (large_page entry) (malformed_page_tables pml5e) >> below entry g') r
      (λ entry. tables_only-Alike (2 ^ 48) g pml5e (large_page entry) (below entry) r (λ found.
        Alike-grow (2 ^ 39) 512 g (below entry) r
          (walk_pml4-Alike memory vm g (base_of entry page_4k) (apply entry p) r found)))
      h
