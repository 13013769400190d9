-- ===== src/Core/Ownership.antt =====
-- crates/aegishv-hypervisor-core/src/ownership.rs: who owns which pages of host memory. The array
-- of a table up to `len` is a list, and its size `N` is the field `capacity`.
pub mod Apart
pub mod Assign
pub mod Guests
use aegis_hv.Common.{
  ℕ, zero, suc, ◌%◌, ◌-◌, min, Bool, true, false, ◌&&◌, ◌||◌, not, Option, none, some, List, [],
  ◌∷◌, ◌++◌, length, ltb, leb, ◌==◌, if◌then◌else◌, Result, ok, err, fail_if, ◌>>=◌, ◌>>◌, Method,
}
use aegis_hv.Core.Errors.{
  CoreErrorKind, invalid_address, capacity_exceeded, overlap, permission_violation,
}
use aegis_hv.Core.Ids.{host_add}

abbrev pub owner_page_size : ℕ
owner_page_size = 4096

pub data PageOwner : Type 0 where
  free reserved hypervisor : PageOwner
  vm device : ℕ → PageOwner

abbrev pub owner_eq : PageOwner → PageOwner → Bool
owner_eq free free = true
owner_eq reserved reserved = true
owner_eq hypervisor hypervisor = true
owner_eq (vm a) (vm b) = a == b
owner_eq (device a) (device b) = a == b
owner_eq _ _ = false

pub record PageRange : Type 0 where
  pub start : ℕ
  pub length : ℕ

-- `PageRange::new`
unfoldable pub new_range : ℕ → ℕ → Result PageRange CoreErrorKind
new_range start length = do
  fail_if (length == 0 || not (start % owner_page_size == 0) || not (length % owner_page_size == 0))
      invalid_address
  _ ← host_add start length
  ok (record { start = start; length = length })

-- `PageRange::end`
unfoldable pub end : PageRange → Result ℕ CoreErrorKind
end r = host_add r.start r.length

-- The end is computed only if the address does not lie before the range.
unfoldable pub contains : PageRange → ℕ → Result Bool CoreErrorKind
unfolding end
contains r address =
    let below = end r >>= (λ stop. ok (ltb address stop)) in
    if leb r.start address then below else ok false

unfoldable pub overlaps : PageRange → PageRange → Result Bool CoreErrorKind
unfolding end
overlaps r other = end other >>= λ other_end.
    let rest = end r >>= (λ stop. ok (ltb other.start stop)) in
    if ltb r.start other_end then rest else ok false

pub record PageOwnership : Type 0 where
  pub range : PageRange
  pub owner : PageOwner

pub record PageOwnershipTable : Type 0 where
  pub capacity : ℕ
  pub entries : List PageOwnership

-- `PageOwnershipTable::new`
abbrev pub new_table : ℕ → PageOwnershipTable
new_table capacity = record { capacity = capacity; entries = [] }

-- The loop of `assign` over the entries.
unfoldable pub check_overlaps : PageRange → List PageOwnership → Result (Unit {0}) CoreErrorKind
unfolding overlaps
check_overlaps range [] = ok tt
check_overlaps range (entry ∷ entries) = do
  hit ← overlaps entry.range range
  fail_if hit overlap
  check_overlaps range entries

-- `PageOwnershipTable::assign`
unfoldable pub assign : PageRange → PageOwner → Method PageOwnershipTable CoreErrorKind (Unit {0})
unfolding check_overlaps
assign range owner t =
    let stored = record t {
      entries = t.entries ++ (record { range = range; owner = owner } ∷ []);
    } in
    let checked : Result (Unit {0}) CoreErrorKind × PageOwnershipTable =
      elim (check_overlaps range t.entries) [ ok _ ↦ (ok tt, stored) | err e ↦ (err e, t) ] in
    if leb t.capacity (length t.entries) then (err capacity_exceeded, t) else checked

-- The loop of `owner_at`.
unfoldable pub owner_in : ℕ → List PageOwnership → Result (Option PageOwner) CoreErrorKind
unfolding contains
owner_in address [] = ok none
owner_in address (entry ∷ entries) =
    let rest = owner_in address entries in
    contains entry.range address >>= λ hit. if hit then ok (some entry.owner) else rest

-- `PageOwnershipTable::owner_at`
unfoldable pub owner_at : ℕ → PageOwnershipTable → Result (Option PageOwner) CoreErrorKind
unfolding owner_in
owner_at address t = owner_in address t.entries

-- The inner loop of `validate_guest_host_mapping`: `covered_until`.
unfoldable pub covered_until : ℕ → ℕ → ℕ → List PageOwnership → Result (Option ℕ) CoreErrorKind
unfolding contains end
covered_until vm_id cursor stop [] = ok none
covered_until vm_id cursor stop (entry ∷ entries) =
    let rest = covered_until vm_id cursor stop entries in
    let here : Result (Option ℕ) CoreErrorKind = do
      fail_if (not (owner_eq entry.owner (vm vm_id))) permission_violation
      until ← end entry.range
      ok (some (min until stop))
    in contains entry.range cursor >>= λ hit. if hit then here else rest

-- The outer loop. Each round moves the cursor on, so as many rounds as bytes are enough.
unfoldable pub walk : ℕ → ℕ → ℕ → ℕ → List PageOwnership → Result (Unit {0}) CoreErrorKind
unfolding covered_until
walk zero vm_id cursor stop entries = fail_if (ltb cursor stop) permission_violation
walk (suc rounds) vm_id cursor stop entries =
    let round = covered_until vm_id cursor stop entries >>= λ until. elim until [
      | none ↦ err permission_violation
      | some next ↦
          let later = walk rounds vm_id next stop entries in
          if ltb cursor next then later else err permission_violation
    ] in
    if ltb cursor stop then round else ok tt

-- `PageOwnershipTable::validate_guest_host_mapping`
unfoldable pub validate_guest_host_mapping :
    ℕ → ℕ → ℕ → PageOwnershipTable → Result (Unit {0}) CoreErrorKind
unfolding new_range end walk
validate_guest_host_mapping vm_id host_start length t = do
  requested ← new_range host_start length
  stop ← end requested
  walk length vm_id host_start stop t.entries
