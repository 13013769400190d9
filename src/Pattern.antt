-- ===== src/Pattern.antt =====
-- src/pattern.rs: the small regular expressions of the policies. A hay is the list of its
-- characters, so a position in it is the list of what follows.
pub mod Matching
pub mod Alternatives
mod Tests
use aegis_hv.Common.{
  ℕ, ◌+◌, ◌-◌, Bool, true, false, ◌&&◌, ◌||◌, not, Option, none, some, List, [], ◌∷◌, reverse, leb,
  ◌==◌, if◌then◌else◌, Result, ok, err, ◌>>=◌, ◌>>◌, fail_if,
}
use aegis_hv.Common.Text.{Text, codes, is_whitespace, text_eq}

-- One alternative: its literal parts are separated by `.*`.
pub record Alt : Type 0 where
  pub anchor_start : Bool
  pub anchor_end : Bool
  pub parts : List Text

pub record Pattern : Type 0 where
  pub raw : Text
  pub alts : List Alt

-- The causes that the messages of `compile` name.
pub data PatternError : Type 0 where
  empty_pattern empty_alternation empty_expression : PatternError
  unmatched_paren unmatched_bracket trailing_escape unsupported_operator : PatternError

-- `str::strip_prefix`
unfoldable pub strip_prefix : Text → Text → Option Text
strip_prefix [] hay = some hay
strip_prefix (c ∷ needle) [] = none
strip_prefix (c ∷ needle) (d ∷ hay) = if c == d then strip_prefix needle hay else none

-- `hay.starts_with(needle)`
unfoldable pub starts_with : Text → Text → Bool
unfolding strip_prefix
starts_with needle hay = elim (strip_prefix needle hay) [ some _ ↦ true | none ↦ false ]

-- `hay.ends_with(needle)`
unfoldable pub ends_with : Text → Text → Bool
ends_with needle [] = text_eq [] needle
ends_with needle (c ∷ hay) = text_eq (c ∷ hay) needle || ends_with needle hay

-- `hay.find(needle)`: what follows the first occurrence.
unfoldable pub find_after : Text → Text → Option Text
unfolding strip_prefix
find_after needle [] = strip_prefix needle []
find_after needle (c ∷ hay) =
    let later = find_after needle hay in
    elim (strip_prefix needle (c ∷ hay)) [ some rest ↦ some rest | none ↦ later ]

-- `hay.contains(needle)`
unfoldable pub contains : Text → Text → Bool
unfolding find_after
contains needle hay = elim (find_after needle hay) [ some _ ↦ true | none ↦ false ]

-- `str::trim`
unfoldable pub trim_start : Text → Text
unfolding is_whitespace
trim_start [] = []
trim_start (c ∷ s) = if is_whitespace c then trim_start s else c ∷ s

unfoldable pub trim : Text → Text
unfolding trim_start
trim s = reverse (trim_start (reverse (trim_start s)))

-- `to_ascii_lowercase`
unfoldable pub to_ascii_lowercase : Text → Text
to_ascii_lowercase [] = []
to_ascii_lowercase (c ∷ s) = (if leb b'A' c && leb c b'Z' then c + 32 else c) ∷ to_ascii_lowercase s

-- The first piece and the others.
abbrev pub cons_first : ℕ → List Text → List Text
cons_first c [] = (c ∷ []) ∷ []
cons_first c (piece ∷ pieces) = (c ∷ piece) ∷ pieces

-- `s.split('|')`
unfoldable pub split_bar : Text → List Text
split_bar [] = [] ∷ []
split_bar (c ∷ s) = let rest = split_bar s in if c == b'|' then [] ∷ rest else cons_first c rest

-- `s.split(".*")`
unfoldable pub split_dot_star : Text → List Text
split_dot_star [] = [] ∷ []
split_dot_star (c ∷ []) = (c ∷ []) ∷ []
split_dot_star (c ∷ (d ∷ s)) =
    let after = split_dot_star s in
    let next = split_dot_star (d ∷ s) in
    if c == b'.' && d == b'*' then [] ∷ after else cons_first c next

-- The loop of `validate_balanced`: the open parentheses and brackets, and the escape.
unfoldable pub balanced_from : ℕ → ℕ → Bool → Text → Result (Unit {0}) PatternError
balanced_from paren bracket escape [] = do
  fail_if escape trailing_escape
  fail_if (not (paren == 0)) unmatched_paren
  fail_if (not (bracket == 0)) unmatched_bracket
  ok tt
balanced_from paren bracket true (c ∷ s) = balanced_from paren bracket false s
balanced_from paren bracket false (c ∷ s) =
    let escaped = balanced_from paren bracket true s in
    let opened = balanced_from (paren + 1) bracket false s in
    let closed = balanced_from (paren - 1) bracket false s in
    let opened_bracket = balanced_from paren (bracket + 1) false s in
    let closed_bracket = balanced_from paren (bracket - 1) false s in
    let plain = balanced_from paren bracket false s in
    if c == b'\\'
    then escaped
    else if c == b'('
    then opened
    else if c == b')'
    then (if paren == 0 then err unmatched_paren else closed)
    else if c == b'['
    then opened_bracket
    else if c == b']'
    then (if bracket == 0 then err unmatched_bracket else closed_bracket)
    else plain

unfoldable pub validate_balanced : Text → Result (Unit {0}) PatternError
unfolding balanced_from
validate_balanced s = balanced_from 0 0 false s

abbrev pub is_unsupported : ℕ → Bool
is_unsupported c =
    c == b'+'
    || c == b'?'
    || c == b'{'
    || c == b'}'
    || c == b'['
    || c == b']'
    || c == b'('
    || c == b')'

-- The loop of `reject_unsupported`.
unfoldable pub unsupported_from : Bool → Text → Result (Unit {0}) PatternError
unsupported_from escape [] = ok tt
unsupported_from true (c ∷ s) = unsupported_from false s
unsupported_from false (c ∷ s) =
    let escaped = unsupported_from true s in
    let plain = unsupported_from false s in
    if c == b'\\' then escaped else if is_unsupported c then err unsupported_operator else plain

-- The loop of `unescape_regex_literal`.
unfoldable pub unescape_from : Bool → Text → Result Text PatternError
unescape_from true [] = err trailing_escape
unescape_from false [] = ok []
unescape_from true (c ∷ s) = unescape_from false s >>= λ out. ok (c ∷ out)
unescape_from false (c ∷ s) =
    let escaped = unescape_from true s in
    let plain = unescape_from false s >>= λ out. ok (c ∷ out) in
    if c == b'\\' then escaped else plain

-- The loop over the parts of one alternative; empty parts are left out.
unfoldable pub compile_parts : Bool → List Text → Result (List Text) PatternError
unfolding unescape_from to_ascii_lowercase
compile_parts case_insensitive [] = ok []
compile_parts case_insensitive (part ∷ rest) = do
  p ← unescape_from false part
  let p' = if case_insensitive then to_ascii_lowercase p else p
  ps ← compile_parts case_insensitive rest
  ok (if text_eq p' [] then ps else p' ∷ ps)

-- `strip_prefix('^')` and `strip_suffix('$')`.
abbrev pub strip_start : Text → Bool × Text
strip_start [] = (false, [])
strip_start (c ∷ s) = if c == b'^' then (true, s) else (false, c ∷ s)

abbrev pub strip_last : Text → Bool × Text
strip_last [] = (false, [])
strip_last (c ∷ s) = if c == b'$' then (true, s) else (false, c ∷ s)

unfoldable pub strip_end : Text → Bool × Text
strip_end s = let (found, rest) = strip_last (reverse s) in (found, reverse rest)

unfoldable pub compile_alt : Bool → Text → Result Alt PatternError
unfolding trim strip_end split_dot_star compile_parts
compile_alt case_insensitive piece =
    let alt = trim piece in
    let (start, body) = strip_start alt in
    let (finish, body') = strip_end body in
    do
      fail_if (text_eq alt []) empty_alternation
      parts ← compile_parts case_insensitive (split_dot_star body')
      elim parts [
        | [] ↦ err empty_expression
        | p ∷ ps ↦ ok (record { anchor_start = start; anchor_end = finish; parts = p ∷ ps })
      ]

unfoldable pub compile_alts : Bool → List Text → Result (List Alt) PatternError
unfolding compile_alt
compile_alts case_insensitive [] = ok []
compile_alts case_insensitive (piece ∷ rest) = do
  alt ← compile_alt case_insensitive piece
  alts ← compile_alts case_insensitive rest
  ok (alt ∷ alts)

-- The `(?i)` prefix, and what follows it.
abbrev pub strip_flag : Text → Bool × Text
strip_flag raw = elim (strip_prefix (codes "(?i)") raw) [
  | some rest ↦ (true, rest)
  | none ↦ (false, raw)
]

-- `Pattern::compile`
unfoldable pub compile : Text → Result Pattern PatternError
unfolding trim strip_prefix validate_balanced unsupported_from split_bar compile_alts
compile input =
    let (case_insensitive, raw) = strip_flag (trim input) in
    do
      fail_if (text_eq (trim input) []) empty_pattern
      validate_balanced raw
      unsupported_from false raw
      alts ← compile_alts case_insensitive (split_bar raw)
      ok (record { raw = input; alts = alts })

-- The loop of `alt_matches` over the parts from `hay[pos..]` on; `first` holds for index 0.
unfoldable pub match_parts : Bool → Bool → List Text → Text → Bool
unfolding strip_prefix find_after
match_parts first anchor_start [] hay = true
match_parts first anchor_start (part ∷ parts) hay =
    elim (if first && anchor_start then strip_prefix part hay else find_after part hay) [
      | none ↦ false
      | some rest ↦ match_parts false anchor_start parts rest
    ]

abbrev pub last_of : List Text → Text
last_of [] = []
last_of (p ∷ []) = p
last_of (p ∷ (q ∷ ps)) = last_of (q ∷ ps)

-- The single part of an alternative, by its anchors.
abbrev pub match_single : Bool → Bool → Text → Text → Bool
match_single true true needle hay = text_eq hay needle
match_single true false needle hay = starts_with needle hay
match_single false true needle hay = ends_with needle hay
match_single false false needle hay = contains needle hay

-- Two parts or more, or none.
abbrev pub match_many : Alt → Text → Bool
match_many alt hay =
    match_parts true alt.anchor_start alt.parts hay
    && (if alt.anchor_end then ends_with (last_of alt.parts) hay else true)

abbrev pub alt_dispatch : List Text → Alt → Text → Bool
alt_dispatch (needle ∷ []) alt hay = match_single alt.anchor_start alt.anchor_end needle hay
alt_dispatch [] alt hay = match_many alt hay
alt_dispatch (p ∷ (q ∷ ps)) alt hay = match_many alt hay

unfoldable pub alt_matches : Alt → Text → Bool
unfolding match_parts starts_with ends_with contains
alt_matches alt hay = alt_dispatch alt.parts alt hay

unfoldable pub any_alt : List Alt → Text → Bool
unfolding alt_matches
any_alt [] hay = false
any_alt (alt ∷ alts) hay = alt_matches alt hay || any_alt alts hay

-- `Pattern::is_match`
unfoldable pub is_match : Pattern → Text → Bool
unfolding any_alt to_ascii_lowercase starts_with
is_match p value =
    let hay = if starts_with (codes "(?i)") p.raw then to_ascii_lowercase value else value in
    any_alt p.alts hay
