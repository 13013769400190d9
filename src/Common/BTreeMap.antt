-- ===== src/Common/BTreeMap.antt =====
-- `std::collections::BTreeMap` as an association list that is kept in the order of its keys, so
-- that `values()` runs in the order of the source.
use mathlib.Core.Bool.{Bool, true}
use mathlib.Core.List.{List, [], ◌∷◌}
use mathlib.Core.Logic.{◌↔◌, inl, inr}
use mathlib.Core.Option.{Option, none, some}
use mathlib.Core.Path.{◌≡◌, refl, subst}
use native.Mathlib.Omega.{arith}
use aegis_hv.Common.Tests.{if◌then◌else◌, Bool-cases}
use aegis_hv.Common.Lists.{All}

-- A type of keys: equality, and the order that only decides where an entry stands.
pub record Key (K : Type 0) : Type 0 where
  pub beq : K → K → Bool
  pub before : K → K → Bool
  pub beq_iff : (a b : K) → (beq a b ≡ true) ↔ (a ≡ b)

abbrev pub BTreeMap : Type 0 → Type 0 → Type 0
BTreeMap K V = List (K × V)

-- `values()`
abbrev pub values : {K V : Type 0} → BTreeMap K V → List V
values [] = []
values ((k, v) ∷ m) = v ∷ values m

module _ {K V : Type 0} ⦃o : Key K⦄ where
  unfoldable pub get : K → BTreeMap K V → Option V
  get k [] = none
  get k ((j, v) ∷ m) = if o.beq j k then some v else get k m

  unfoldable pub insert : K → V → BTreeMap K V → BTreeMap K V
  insert k v [] = (k, v) ∷ []
  insert k v ((j, w) ∷ m) =
      if o.beq j k
      then (k, v) ∷ m
      else if o.before k j
      then (k, v) ∷ (j, w) ∷ m
      else (j, w) ∷ insert k v m

  unfoldable pub remove : K → BTreeMap K V → BTreeMap K V
  remove k [] = []
  remove k ((j, v) ∷ m) = if o.beq j k then remove k m else (j, v) ∷ remove k m

  pub get-insert :
      (k j : K) (v : V) (m : BTreeMap K V)
      → get j (insert k v m) ≡ (if o.beq k j then some v else get j m)
  unfolding get insert
  get-insert k j v [] = refl
  get-insert k j v ((i, w) ∷ m) =
      ground (arith, o.beq_iff k j, o.beq_iff i k, o.beq_iff i j, get-insert k j v m)

  pub get-remove :
      (k j : K) (m : BTreeMap K V) → get j (remove k m) ≡ (if o.beq k j then none else get j m)
  unfolding get remove
  get-remove k j [] = ground arith
  get-remove k j ((i, w) ∷ m) =
      ground (arith, o.beq_iff k j, o.beq_iff i k, o.beq_iff i j, get-remove k j m)

  pub get-insert_self : (k : K) (v : V) (m : BTreeMap K V) → get k (insert k v m) ≡ some v
  get-insert_self k v m = ground (arith, get-insert k k v m, o.beq_iff k k)

  pub All-insert {κ} :
      (P : V → Type κ) (k : K) (v : V) (m : BTreeMap K V)
      → P v
      → All P (values m)
      → All P (values (insert k v m))
  unfolding insert
  All-insert P k v [] p h = (p, tt)
  All-insert P k v ((j, w) ∷ m) p h = ground (arith, All-insert P k v m)

  pub All-remove {κ} :
      (P : V → Type κ) (k : K) (m : BTreeMap K V) → All P (values m) → All P (values (remove k m))
  unfolding remove
  All-remove P k [] h = tt
  All-remove P k ((j, w) ∷ m) h = ground (arith, All-remove P k m)

  pub get-All {κ} :
      (P : V → Type κ) (k : K) (v : V) (m : BTreeMap K V)
      → get k m ≡ some v
      → All P (values m)
      → P v
  unfolding get
  get-All P k v [] e h = absurd (cc)
  get-All P k v ((j, w) ∷ m) e h = elim (Bool-cases (o.beq j k)) [
    | inl hit ↦ let e' : some w ≡ some v = rw hit at e in subst P (cc) h.0
    | inr miss ↦ get-All P k v m (rw miss at e) h.1
  ]

  -- The same for a predicate of keys and values.
  pub All-insert_entry {κ} :
      (P : K × V → Type κ) (k : K) (v : V) (m : BTreeMap K V)
      → P (k, v)
      → All P m
      → All P (insert k v m)
  unfolding insert
  All-insert_entry P k v [] p h = (p, tt)
  All-insert_entry P k v ((j, w) ∷ m) p h = ground (arith, All-insert_entry P k v m)

  pub get-All_entry {κ} :
      (P : K × V → Type κ) (k : K) (v : V) (m : BTreeMap K V)
      → get k m ≡ some v
      → All P m
      → P (k, v)
  unfolding get
  get-All_entry P k v [] e h = absurd (cc)
  get-All_entry P k v ((j, w) ∷ m) e h = elim (Bool-cases (o.beq j k)) [
    | inl hit ↦
        let e' : some w ≡ some v = rw hit at e in
        let same : j ≡ k = (o.beq_iff j k).0 hit in subst P (cc) h.0
    | inr miss ↦ get-All_entry P k v m (rw miss at e) h.1
  ]

  -- A second write to a key replaces the first.
  pub insert-insert :
      (k : K) (v w : V) (m : BTreeMap K V) → insert k v (insert k w m) ≡ insert k v m
  unfolding insert
  insert-insert k v w [] = ground (arith, o.beq_iff k k)
  insert-insert k v w ((j, x) ∷ m) = ground (arith, o.beq_iff k k, insert-insert k v w m)
