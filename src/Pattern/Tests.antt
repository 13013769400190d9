-- ===== src/Pattern/Tests.antt =====
-- Patterns at concrete inputs.
use aegis_hv.Common.{Bool, true, false, [], ◌∷◌, Result, ok, ◌>>=◌, ◌≡◌, ◌↔◌, refl}
use aegis_hv.Common.Text.{Text, codes, text_eq}
use aegis_hv.Pattern.{PatternError, compile, is_match, alt_matches}
use aegis_hv.Pattern.Alternatives.{IsMatch, alt_matches-IsMatch}

-- `compile` and then `is_match`.
abbrev matched : Text → Text → Result Bool PatternError
matched pattern hay = compile pattern >>= (λ p. ok (is_match p hay))

runs :
    (matched (codes "^a.*b|c") (codes "axxb-") ≡ ok true)
    × (matched (codes "^a.*b$|c") (codes "axxb-") ≡ ok false)
    × (matched (codes "(?i)JIT") (codes "v8-jit") ≡ ok true)
unfolding compile is_match text_eq
runs = (refl, refl, refl)

-- The empty parts around `.*` are dropped, so that the anchor binds the part behind it.
anchored : matched (codes "^.*foo") (codes "a foo") ≡ ok false
unfolding compile is_match text_eq
anchored = refl

-- `is_match` looks for the flag in the text before it was trimmed.
flag : matched (codes " (?i)foo") (codes "FOO") ≡ ok false
unfolding compile is_match text_eq
flag = refl

alt_matches-IsMatch_example :
    (alt_matches
        (record { anchor_start = true; anchor_end = true; parts = codes "a" ∷ (codes "b" ∷ []) })
        (codes "axxb")
      ≡ true)
    ↔ IsMatch true true (codes "a") (codes "b" ∷ []) (codes "axxb")
alt_matches-IsMatch_example =
    alt_matches-IsMatch true true (codes "a") (codes "b" ∷ []) (codes "axxb")
