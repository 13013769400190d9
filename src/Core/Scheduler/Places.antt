-- ===== src/Core/Scheduler/Places.antt =====
-- How often a vCPU stands in a list, and what the writes to a list do to that.
use aegis_hv.Common.{
  ℕ, zero, suc, ◌+◌, ◌%◌, ◌<◌, Bool, true, false, Option, none, some, List, [], ◌∷◌, ◌++◌, length,
  get_or, set, replicate, ◌≡◌, refl, arith, Bool-cases, inl, inr,
}
use aegis_hv.Core.Scheduler.{VcpuRef, holds, any_holds, remove_first}
use aegis_hv.Core.Window.{window}

abbrev pub one : Bool → ℕ
one true = 1
one false = 0

unfoldable pub count : VcpuRef → List (Option VcpuRef) → ℕ
count v [] = 0
count v (x ∷ xs) = one (holds v x) + count v xs

pub count-append :
    (v : VcpuRef) (xs ys : List (Option VcpuRef)) → count v (xs ++ ys) ≡ count v xs + count v ys
unfolding count
count-append v [] ys = omega arith
count-append v (x ∷ xs) ys = omega (arith, count-append v xs ys)

holds-none : (v : VcpuRef) → holds v none ≡ false
unfolding holds
holds-none v = refl

pub holds-some : (v : VcpuRef) (x : Option VcpuRef) → holds v x ≡ true → x ≡ some v
unfolding holds
holds-some v none h = absurd (ground arith)
holds-some v (some w) h = ground arith

-- A vCPU written to an empty slot.
pub count-fill :
    (v w : VcpuRef) (i : ℕ) (xs : List (Option VcpuRef))
    → i < length xs
    → get_or xs i none ≡ none
    → count v (set xs i (some w)) ≡ count v xs + one (holds v (some w))
unfolding count
count-fill v w i [] h e = absurd (omega arith)
count-fill v w zero (x ∷ xs) h e = rw (e, holds-none v) (omega arith)
count-fill v w (suc i) (x ∷ xs) h e = omega (arith, count-fill v w i xs (omega arith) e)

-- A slot emptied.
pub count-clear :
    (v w : VcpuRef) (i : ℕ) (xs : List (Option VcpuRef))
    → get_or xs i none ≡ some w
    → count v (set xs i none) + one (holds v (some w)) ≡ count v xs
unfolding count
count-clear v w i [] e = absurd (ground arith)
count-clear v w zero (x ∷ xs) e = rw (e, holds-none v) (omega arith)
count-clear v w (suc i) (x ∷ xs) e = omega (arith, count-clear v w i xs e)

pub count-remove :
    (v w : VcpuRef) (xs : List (Option VcpuRef))
    → any_holds w xs ≡ true
    → count v (remove_first w xs) + one (holds v (some w)) ≡ count v xs
unfolding count any_holds remove_first
count-remove v w [] h = absurd (ground arith)
count-remove v w (x ∷ xs) h = elim (Bool-cases (holds w x)) [
  | inl here ↦ rw (here, holds-some w x here) (omega arith)
  | inr there ↦
      let later : any_holds w xs ≡ true = ground arith in
      rw there (omega (arith, count-remove v w xs later))
]

pub count-absent :
    (v : VcpuRef) (xs : List (Option VcpuRef)) → any_holds v xs ≡ false → count v xs ≡ 0
unfolding count any_holds
count-absent v [] h = refl
count-absent v (x ∷ xs) h =
    let here : holds v x ≡ false = ground arith in
    let later : any_holds v xs ≡ false = ground arith in
    rw here (omega (arith, count-absent v xs later))

holds-get_or :
    (v : VcpuRef) (i : ℕ) (xs : List (Option VcpuRef))
    → any_holds v xs ≡ false
    → holds v (get_or xs i none) ≡ false
unfolding any_holds
holds-get_or v i [] h = holds-none v
holds-get_or v zero (x ∷ xs) h = ground arith
holds-get_or v (suc i) (x ∷ xs) h =
    let later : any_holds v xs ≡ false = ground arith in holds-get_or v i xs later

pub count-window :
    (v : VcpuRef) (n head : ℕ) (xs : List (Option VcpuRef))
    → any_holds v xs ≡ false
    → count v (window none xs head n) ≡ 0
unfolding count window
count-window v zero head xs h = refl
count-window v (suc n) head xs h =
    rw (holds-get_or v head xs h) (omega (arith, count-window v n ((head + 1) % length xs) xs h))

pub count-replicate : (v : VcpuRef) (n : ℕ) → count v (replicate n none) ≡ 0
unfolding count
count-replicate v zero = refl
count-replicate v (suc n) = rw (holds-none v) (omega (arith, count-replicate v n))

pub count-one : (v w : VcpuRef) → count v (some w ∷ []) ≡ one (holds v (some w))
unfolding count
count-one v w = omega arith

pub count-cons :
    (v : VcpuRef) (x : Option VcpuRef) (xs : List (Option VcpuRef))
    → count v (x ∷ xs) ≡ one (holds v x) + count v xs
unfolding count
count-cons v x xs = refl
