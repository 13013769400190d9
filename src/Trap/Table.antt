-- ===== src/Trap/Table.antt =====
-- src/trap/stage2_model.rs: the table of stage-2 mappings.
pub mod Apart
pub mod Lookup
pub mod Tiles
pub mod Split
pub mod Unique
use aegis_hv.Common.{
  ℕ, zero, suc, ◌+◌, ◌*◌, Bool, true, false, ◌&&◌, ◌||◌, not, Option, none, some, List, [], ◌∷◌,
  ltb, ◌==◌, if◌then◌else◌, Result, ok, err, length, ◌≡◌, ◌>>=◌, Method, arith, ◌↔◌, ◌++◌,
}
use aegis_hv.Common.BTreeMap.{BTreeMap, Key, get, insert, remove, values}
use aegis_hv.Common.Text.{Text, text_eq, text_eq_iff, text_lt}
use aegis_hv.Trap.Errors.{TrapErrorKind, not_mapped, overlap}
use aegis_hv.Trap.Stage2.{
  PageSize, bytes, split_count, Stage2Permissions, Stage2Mapping, new_mapping, end, contains,
  write_back,
}

pub record MappingKey : Type 0 where
  pub owner_vm : Text
  pub address_space : Text
  pub base : ℕ

-- `MappingKey::new`
abbrev pub key_of : Stage2Mapping → MappingKey
key_of m = record { owner_vm = m.owner_vm; address_space = m.address_space; base = m.base }

unfoldable pub key_eq : MappingKey → MappingKey → Bool
key_eq a b =
    text_eq a.owner_vm b.owner_vm && text_eq a.address_space b.address_space && a.base == b.base

-- The derived order: field by field.
unfoldable pub key_lt : MappingKey → MappingKey → Bool
key_lt a b =
    text_lt a.owner_vm b.owner_vm
    || (text_eq a.owner_vm b.owner_vm
        && (text_lt a.address_space b.address_space
            || (text_eq a.address_space b.address_space && ltb a.base b.base)))

pub key_eq_iff : (a b : MappingKey) → (key_eq a b ≡ true) ↔ (a ≡ b)
unfolding key_eq
key_eq_iff a b =
    ground (arith, text_eq_iff a.owner_vm b.owner_vm, text_eq_iff a.address_space b.address_space)

instance abbrev pub mapping_key : Key MappingKey
mapping_key = record { beq = key_eq; before = key_lt; beq_iff = key_eq_iff }

pub record Stage2Table : Type 0 where
  pub mappings : BTreeMap MappingKey Stage2Mapping

abbrev pub empty_table : Stage2Table
empty_table = record { mappings = [] }

abbrev pub len : Stage2Table → ℕ
len t = length t.mappings

abbrev pub same_space : Stage2Mapping → Text → Text → Bool
same_space m owner_vm address_space =
    text_eq m.owner_vm owner_vm && text_eq m.address_space address_space

-- The test of `lookup` and `lookup_mut`.
unfoldable pub covers : Text → Text → ℕ → Stage2Mapping → Bool
covers owner_vm address_space gpa m = same_space m owner_vm address_space && contains m gpa

-- `iter().find(test)`
unfoldable pub find : (Stage2Mapping → Bool) → List Stage2Mapping → Option Stage2Mapping
find test [] = none
find test (m ∷ ms) = if test m then some m else find test ms

unfoldable pub lookup : Text → Text → ℕ → Stage2Table → Option Stage2Mapping
lookup owner_vm address_space gpa t = find (covers owner_vm address_space gpa) (values t.mappings)

-- The loop of `reject_overlap` over the mappings.
unfoldable pub overlap_check :
    Stage2Mapping → ℕ → List Stage2Mapping → Result (Unit {0}) TrapErrorKind
overlap_check candidate candidate_end [] = ok tt
overlap_check candidate candidate_end (existing ∷ rest) =
    let continue = overlap_check candidate candidate_end rest in
    if not (same_space existing candidate.owner_vm candidate.address_space)
    then continue
    else end existing >>= λ existing_end.
        if ltb candidate.base existing_end && ltb existing.base candidate_end
        then err overlap
        else continue

unfoldable pub reject_overlap : Stage2Mapping → Stage2Table → Result (Unit {0}) TrapErrorKind
unfolding overlap_check
reject_overlap candidate t = do
  candidate_end ← end candidate
  overlap_check candidate candidate_end (values t.mappings)

abbrev pub add : Stage2Mapping → Stage2Table → Stage2Table
add m t = record { mappings = insert (key_of m) m t.mappings }

-- `Stage2Table::map`
unfoldable pub map : Stage2Mapping → Method Stage2Table TrapErrorKind (Unit {0})
map m t = elim (reject_overlap m t) [ ok _ ↦ (ok tt, add m t) | err e ↦ (err e, t) ]

-- A write through the reference that `lookup_mut` returns.
unfoldable pub set_first :
    (Stage2Mapping → Bool)
    → Stage2Permissions
    → BTreeMap MappingKey Stage2Mapping
    → BTreeMap MappingKey Stage2Mapping
set_first test p [] = []
set_first test p ((k, m) ∷ ms) =
    if test m then (k, record m { permissions = p }) ∷ ms else (k, m) ∷ set_first test p ms

unfoldable pub set_permissions :
    Text → Text → ℕ → Stage2Permissions → Method Stage2Table TrapErrorKind Stage2Permissions
unfolding set_first
set_permissions owner_vm address_space gpa permissions t =
    elim (lookup owner_vm address_space gpa t) [
      | none ↦ (err not_mapped, t)
      | some m ↦ (
        ok m.permissions,
        record { mappings = set_first (covers owner_vm address_space gpa) permissions t.mappings },
      )
    ]

-- `Stage2Mapping::new` for the child at `index` of the loop in `split`.
abbrev pub child_of : Stage2Mapping → ℕ → PageSize → ℕ → Result Stage2Mapping TrapErrorKind
child_of parent base target index =
    new_mapping parent.owner_vm parent.address_space (base + index * bytes target) target
      parent.memory_type parent.permissions

-- The loop of `split`, with `left` children to go: each child is inserted and collected.
unfoldable pub split_loop :
    ℕ → Stage2Mapping → ℕ → PageSize → ℕ → Method Stage2Table TrapErrorKind (List Stage2Mapping)
split_loop zero parent base target index t = (ok [], t)
split_loop (suc left) parent base target index t = elim (child_of parent base target index) [
  | err e ↦ (err e, t)
  | ok child ↦
      let (rest, t') = split_loop left parent base target (index + 1) (add child t) in
      (rest >>= (λ children. ok (child ∷ children)), t')
]

-- `Stage2Table::split`: the parent is taken out before the target size is checked.
unfoldable pub split :
    Text → Text → ℕ → PageSize → Method Stage2Table TrapErrorKind (List Stage2Mapping)
unfolding split_loop
split owner_vm address_space base target t =
    let key : MappingKey = record {
      owner_vm = owner_vm;
      address_space = address_space;
      base = base;
    } in
    elim (get key t.mappings) [
      | none ↦ (err not_mapped, t)
      | some parent ↦
          let taken : Stage2Table = record { mappings = remove key t.mappings } in
          elim (split_count parent.page_size target) [
            | err e ↦ (err e, taken)
            | ok count ↦ split_loop count parent base target 0 taken
          ]
    ]

-- `synthetic_mapping`
abbrev pub synthetic_mapping :
    Text → Text → ℕ → PageSize → Stage2Permissions → Result Stage2Mapping TrapErrorKind
synthetic_mapping owner_vm address_space base page_size permissions =
    new_mapping owner_vm address_space base page_size write_back permissions
