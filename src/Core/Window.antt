-- ===== src/Core/Window.antt =====
-- The live entries of a ring buffer: `len` slots from `head` on, around the end of the array.
use aegis_hv.Common.{
  ℕ, zero, suc, ◌+◌, ◌-◌, ◌%◌, ◌<◌, ◌≤◌, List, [], ◌∷◌, ◌++◌, length, get_or, set, length-set,
  get_or-set_self, get_or-set_ne, ◌≡◌, ◌≢◌, refl, arith, ap, sym, ◌∙◌,
}
use native.Mathlib.Decide.{dec_lt}
use native.Mathlib.Nat.{mod-lt, mod-eq_of_lt, mod-add-mod, mod-eq-sub-mod, add-mod_right}

pub wrap_far : (h k n : ℕ) → n ≤ h + k → h < n → k < n → (h + k) % n ≡ h + k - n
wrap_far h k n far hl kl = mod-eq-sub-mod far ∙ mod-eq_of_lt (omega arith)

-- A slot further on is another slot.
slot-ne : (h k n : ℕ) → h < n → 0 < k → k < n → (h + k) % n ≢ h
slot-ne h k n hl kp kl e = elim (dec_lt (h + k) n) [
  | yes near ↦ omega (arith, e, mod-eq_of_lt near)
  | no far ↦ omega (arith, e, wrap_far h k n (omega arith) hl kl)
]

slot-next : (h k n : ℕ) → ((h + 1) % n + k) % n ≡ (h + suc k) % n
slot-next h k n = mod-add-mod (h + 1) n k ∙ ap (λ m. m % n) (omega arith)

module _ {A : Type 0} (d : A) where
  unfoldable pub window : List A → ℕ → ℕ → List A
  window xs head zero = []
  window xs head (suc n) = get_or xs head d ∷ window xs ((head + 1) % length xs) n

  cons_step :
      (ys xs zs : List A) (head n : ℕ)
      → length ys ≡ length xs
      → get_or ys head d ≡ get_or xs head d
      → window ys ((head + 1) % length xs) n ≡ zs
      → window ys head (suc n) ≡ get_or xs head d ∷ zs
  unfolding window
  cons_step ys xs zs head n size first rest = rw (size, first, rest) refl

  -- A write to the slot `j`, which lies `k` slots after the head, leaves the first `n` alone.
  pub window-set_away :
      (n k j head : ℕ) (xs : List A) (v : A)
      → (head + k) % length xs ≡ j
      → n ≤ k
      → k < length xs
      → head < length xs
      → window (set xs j v) head n ≡ window xs head n
  unfolding window
  window-set_away zero k j head xs v at h kl hl = refl
  window-set_away (suc n) zero j head xs v at h kl hl = absurd (omega arith)
  window-set_away (suc n) (suc k) j head xs v at h kl hl =
      let l = length xs in
      let next = (head + 1) % l in
      let apart : j ≢ head = λ e. slot-ne head (suc k) l hl (omega arith) kl (at ∙ e) in
      rw
        (
          length-set xs j v,
          get_or-set_ne xs j head v d apart,
          window-set_away n k j next xs v (slot-next head k l ∙ at) (omega arith) (omega arith)
              (mod-lt (head + 1) (omega arith)),
        )
        refl

  -- A write to the first free slot adds an entry at the end.
  pub window-push :
      (n j head : ℕ) (xs : List A) (v : A)
      → (head + n) % length xs ≡ j
      → n < length xs
      → head < length xs
      → window (set xs j v) head (suc n) ≡ window xs head n ++ (v ∷ [])
  unfolding window
  window-push zero j head xs v at h hl =
      let here : head ≡ j = sym (mod-eq_of_lt hl) ∙ ap (λ m. m % length xs) (omega arith) ∙ at in
      rw (sym here, get_or-set_self xs head v d hl) refl
  window-push (suc n) j head xs v at h hl =
      let l = length xs in
      let next = (head + 1) % l in
      let apart : j ≢ head = λ e. slot-ne head (suc n) l hl (omega arith) h (at ∙ e) in
      let rest =
        window-push n j next xs v (slot-next head n l ∙ at) (omega arith)
          (mod-lt (head + 1) (omega arith)) in
      cons_step (set xs j v) xs (window xs next n ++ (v ∷ [])) head (suc n) (length-set xs j v)
        (get_or-set_ne xs j head v d apart) rest

  -- A write over the first entry of a full window, which then starts at the second one.
  pub window-overwrite :
      (n head : ℕ) (xs : List A) (v : A)
      → length xs ≡ suc n
      → head < length xs
      → window (set xs head v) ((head + 1) % length xs) (suc n)
        ≡ window xs ((head + 1) % length xs) n ++ (v ∷ [])
  window-overwrite n head xs v full hl =
      let l = length xs in
      let next = (head + 1) % l in
      let around : (next + n) % l ≡ head =
        mod-add-mod (head + 1) l n
        ∙ ap (λ m. m % l) (omega (arith, full))
        ∙ add-mod_right head l
        ∙ mod-eq_of_lt hl in
      window-push n head next xs v around (omega (arith, full))
        (mod-lt (head + 1) (omega (arith, full)))
