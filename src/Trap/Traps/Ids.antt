-- ===== src/Trap/Traps/Ids.antt =====
-- Trap ids tell traps apart, as long as no name holds a colon.
use native.Mathlib.Nat.{pow-suc}
use aegis_hv.Common.{
  ℕ, zero, suc, ◌+◌, ◌-◌, ◌*◌, ◌/◌, ◌%◌, ◌^◌, ◌<◌, false, [], ◌∷◌, ◌++◌, ltb, ◌==◌, if◌then◌else◌,
  ◌≡◌, refl, sym, ap, ◌∙◌, arith, All, append_assoc, subst, Bool-cases, inl, inr,
}
use aegis_hv.Common.Text.{Text, hex, hex_from, hex_digit}
use aegis_hv.Common.Word.{u64_mod}
use aegis_hv.Trap.Traps.{TrapKind, read, write, execute, kind_str, trap_id}

abbrev pub NoColon : Text → Type 0
NoColon = All (λ c. (c == b':') ≡ false)

abbrev digit_value : ℕ → ℕ
digit_value c = if ltb c 58 then c - 48 else c - 87

-- The number that hexadecimal digits stand for, after `acc`.
decode : ℕ → Text → ℕ
decode acc [] = acc
decode acc (c ∷ s) = decode (acc * 16 + digit_value c) s

digit_value-hex_digit : (d : ℕ) → d < 16 → digit_value (hex_digit d) ≡ d
unfolding hex_digit
digit_value-hex_digit d h = ground arith

hex_digit-ne-colon : (d : ℕ) → d < 16 → (hex_digit d == b':') ≡ false
unfolding hex_digit
hex_digit-ne-colon d h = ground arith

-- The last digit of `n`, put in front of what follows it.
decode_digit : (n : ℕ) (rest : Text) → decode (n / 16) (hex_digit (n % 16) ∷ rest) ≡ decode n rest
unfolding decode
decode_digit n rest =
    ap (λ acc. decode acc rest) (omega (arith, digit_value-hex_digit (n % 16) (omega arith)))

fuel_left : (fuel q : ℕ) → q < 16 ^ fuel → 0 < q → 0 < fuel
fuel_left zero q h p = absurd (omega arith)
fuel_left (suc fuel) q h p = omega arith

decode-hex_from :
    (fuel n : ℕ) (rest : Text)
    → n < 16 ^ fuel
    → 0 < fuel
    → decode 0 (hex_from fuel n rest) ≡ decode n rest
unfolding hex_from
decode-hex_from zero n rest h p = absurd (omega arith)
decode-hex_from (suc fuel) n rest h p = elim (Bool-cases (n / 16 == 0)) [
  | inl small ↦
      let e : n / 16 ≡ 0 = ground arith in
      rw small
        (subst (λ k. decode k (hex_digit (n % 16) ∷ rest) ≡ decode n rest) e (decode_digit n rest))
  | inr large ↦
      let fits : n / 16 < 16 ^ fuel = omega (arith, pow-suc 16 fuel) in
      let left : 0 < fuel = fuel_left fuel (n / 16) fits (ground arith) in
      rw large
        (decode-hex_from fuel (n / 16) (hex_digit (n % 16) ∷ rest) fits left ∙ decode_digit n rest)
]

hex_from-NoColon : (fuel n : ℕ) (rest : Text) → NoColon rest → NoColon (hex_from fuel n rest)
unfolding hex_from
hex_from-NoColon zero n rest h = h
hex_from-NoColon (suc fuel) n rest h =
    ground (
      arith,
      hex_digit-ne-colon (n % 16),
      hex_from-NoColon fuel (n / 16) (hex_digit (n % 16) ∷ rest),
    )

split_colon :
    (a b x y : Text) → NoColon a → NoColon b → a ++ (b':' ∷ x) ≡ b ++ (b':' ∷ y) → (a ≡ b) × (x ≡ y)
split_colon [] [] x y h k e = (refl, cc)
split_colon [] (d ∷ b) x y h k e = ground arith
split_colon (c ∷ a) [] x y h k e = ground arith
split_colon (c ∷ a) (d ∷ b) x y h k e =
    let rest : a ++ (b':' ∷ x) ≡ b ++ (b':' ∷ y) = cc in
    let (same, after) = split_colon a b x y h.1 k.1 rest in (cc, after)

kind_str-injective : (k k' : TrapKind) → kind_str k ≡ kind_str k' → k ≡ k'
kind_str-injective read read e = refl
kind_str-injective read write e = ground arith
kind_str-injective read execute e = ground arith
kind_str-injective write read e = ground arith
kind_str-injective write write e = refl
kind_str-injective write execute e = ground arith
kind_str-injective execute read e = ground arith
kind_str-injective execute write e = ground arith
kind_str-injective execute execute e = refl

hex-NoColon : (n : ℕ) → NoColon (hex n)
unfolding hex
hex-NoColon n = (refl, (refl, hex_from-NoColon 16 n [] tt))

hex-injective : (n m : ℕ) → n < u64_mod → m < u64_mod → hex n ≡ hex m → n ≡ m
unfolding hex decode
hex-injective n m hn hm e =
    let digits : hex_from 16 n [] ≡ hex_from 16 m [] = cc in
    sym (decode-hex_from 16 n [] hn (omega arith))
    ∙ ap (decode 0) digits
    ∙ decode-hex_from 16 m [] hm (omega arith)

-- Two traps with one id stand on the same page of the same address space of the same VM and trap
-- the same kind of access, if no name holds a colon and the pages are 64-bit numbers.
pub trap_id-injective :
    (o o' s s' : Text) (p p' : ℕ) (k k' : TrapKind)
    → NoColon o
    → NoColon o'
    → NoColon s
    → NoColon s'
    → p < u64_mod
    → p' < u64_mod
    → trap_id o s p k ≡ trap_id o' s' p' k'
    → (o ≡ o') × (s ≡ s') × (p ≡ p') × (k ≡ k')
unfolding trap_id
trap_id-injective o o' s s' p p' k k' ho ho' hs hs' hp hp' e =
    let body : o ++ (b':' ∷ (s ++ (b':' ∷ (hex p ++ (b':' ∷ kind_str k)))))
        ≡ o' ++ (b':' ∷ (s' ++ (b':' ∷ (hex p' ++ (b':' ∷ kind_str k'))))) =
      cc in
    let (vm, after_vm) = split_colon o o' _ _ ho ho' body in
    let (space, after_space) = split_colon s s' _ _ hs hs' after_vm in
    let (page, after_page) =
      split_colon (hex p) (hex p') _ _ (hex-NoColon p) (hex-NoColon p') after_space in
    (vm, space, hex-injective p p' hp hp' page, kind_str-injective k k' after_page)

-- With a colon in a name, two different address spaces share their trap ids: the colon may end the
-- VM's name or belong to it.
pub trap_id_collides :
    (o x s : Text) (p : ℕ) (k : TrapKind)
    → trap_id (o ++ (b':' ∷ x)) s p k ≡ trap_id o (x ++ (b':' ∷ s)) p k
unfolding trap_id
trap_id_collides o x s p k = simp append_assoc
