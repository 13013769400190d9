-- ===== src/Common/Results.antt =====
-- `Result<T, E>`, and methods on `&mut self` that may fail: they return their result and the
-- state that they leave behind, also when they fail.
use mathlib.Core.Path.{◌≡◌, refl, ap}
use mathlib.Core.Logic.{◌⊎◌, inl, inr}
use mathlib.Core.Bool.{Bool, true, false}
use mathlib.Core.Option.{Option, none, some}

pub data Result {ℓ} (A : Type ℓ) (E : Type 0) : Type ℓ where
  ok : A → Result A E
  err : E → Result A E

-- `Option::ok_or`.
abbrev pub ok_or {ℓ} : {A : Type ℓ} {E : Type 0} → Option A → E → Result A E
ok_or none e = err e
ok_or (some a) e = ok a

-- `if test { return Err(e) }`.
abbrev pub fail_if : {E : Type 0} → Bool → E → Result (Unit {0}) E
fail_if true e = err e
fail_if false e = ok tt

-- The `?` operator.
infixl 5 ◌>>=◌ ◌>>◌
abbrev pub ◌>>=◌ {ℓ κ} :
    {A : Type ℓ} {B : Type κ} {E : Type 0} → Result A E → (A → Result B E) → Result B E
ok a >>= f = f a
err e >>= f = err e

abbrev pub ◌>>◌ {ℓ} : {B : Type ℓ} {E : Type 0} → Result (Unit {0}) E → Result B E → Result B E
m >> k = m >>= λ _. k

abbrev pub IsOk {ℓ} : {A : Type ℓ} {E : Type 0} → Result A E → Type 0
IsOk (ok a) = Unit
IsOk (err e) = ⊥

-- A method that may fail, over the state `S`.
abbrev pub Method : Type 0 → Type 0 → Type 0 → Type 0
Method S E A = S → Result A E × S

-- `m?; k`: the state of `m` is kept when `m` fails.
abbrev pub resume : {S E A B : Type 0} → Result A E → S → (A → Method S E B) → Result B E × S
resume (ok a) s k = k a s
resume (err e) s k = (err e, s)

abbrev pub bind : {S E A B : Type 0} → Method S E A → (A → Method S E B) → Method S E B
bind m k s = resume (m s).0 (m s).1 k

pub bind-ok :
    {S E A B : Type 0} (m : Method S E A) (k : A → Method S E B) (s : S) {a : A} {s' : S}
    → m s ≡ (ok a, s')
    → bind m k s ≡ k a s'
bind-ok {S} {E} {A} m k s e = ap (λ (p : Result A E × S). resume p.0 p.1 k) e

-- A step that reads the state only.
abbrev pub reads : {S E A : Type 0} → (S → Result A E) → Method S E A
reads f s = (f s, s)

pub Result-cases {ℓ} :
    {A : Type ℓ} {E : Type 0} (r : Result A E) → ((a : A) × (r ≡ ok a)) ⊎ ((e : E) × (r ≡ err e))
Result-cases (ok a) = inl (a, refl)
Result-cases (err e) = inr (e, refl)

-- What a `?` went through when the whole succeeded.
pub >>=-eq-ok {ℓ κ} :
    {A : Type ℓ} {E : Type 0} {B : Type κ} (r : Result A E) (next : A → Result B E) {out : B}
    → (r >>= next) ≡ ok out
    → (value : A) × (r ≡ ok value) × (next value ≡ ok out)
>>=-eq-ok r next done = elim (Result-cases r) [
  | inl (value, e) ↦ (value, e, cc)
  | inr (e, bad) ↦ cc
]
