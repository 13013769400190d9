-- ===== src/Trap/Jit/Windows.antt =====
-- Which requests for a temporary window the policy grants.
use aegis_hv.Common.{
  ℕ, ◌≤◌, ◌<◌, Bool, true, false, not, ◌&&◌, ◌||◌, some, List, [], ◌∷◌, leb, ◌==◌, ◌≡◌, ◌↔◌, ◌⊎◌,
  refl, arith, Bool-cases, Option-cases, inl, inr, ap, sym, ◌∙◌,
}
use aegis_hv.Common.Text.{Text, is_blank}
use aegis_hv.Pattern.{is_match}
use aegis_hv.Trap.Jit.{
  JitTrapRule, JitTrapContext, JitTrapPolicy, matches, admits, any_rule, evaluate, text_or_empty,
}

-- Some rule of the list satisfies `P`.
abbrev pub Any : (JitTrapRule → Type 0) → List JitTrapRule → Type 0
Any P [] = ⊥
Any P (rule ∷ rules) = P rule ⊎ Any P rules

-- The rule's patterns match, and the request stays within its limits.
abbrev pub Grants : Text → JitTrapContext → JitTrapRule → Type 0
Grants process ctx rule =
    (admits rule.vm (some ctx.vm) ≡ true)
    × (is_match rule.process process ≡ true)
    × (admits rule.module_pattern ctx.module_name ≡ true)
    × (ctx.page_count ≤ rule.max_pages)
    × (ctx.requested_window_ms ≤ rule.max_window_ms)

and_five :
    (a b c : Bool) (n n' m m' : ℕ)
    → ((a && b && c && leb n n' && leb m m') ≡ true)
      ↔ ((a ≡ true) × (b ≡ true) × (c ≡ true) × (n ≤ n') × (m ≤ m'))
and_five a b c n n' m m' = ground arith

matches-Grants :
    (process : Text) (ctx : JitTrapContext) (rule : JitTrapRule)
    → ctx.process ≡ some process
    → (matches rule ctx ≡ true) ↔ Grants process ctx rule
unfolding matches
matches-Grants process ctx rule e = rw e (
    and_five (admits rule.vm (some ctx.vm)) (is_match rule.process process)
      (admits rule.module_pattern ctx.module_name) ctx.page_count rule.max_pages
      ctx.requested_window_ms rule.max_window_ms)

any_rule-Any :
    (process : Text) (ctx : JitTrapContext) (rules : List JitTrapRule)
    → ctx.process ≡ some process
    → (any_rule rules ctx ≡ true) ↔ Any (Grants process ctx) rules
unfolding any_rule
any_rule-Any process ctx [] e = ((λ h. ground arith), (λ h. absurd h))
any_rule-Any process ctx (rule ∷ rules) e = (
  (λ h. elim (Bool-cases (matches rule ctx)) [
    | inl here ↦ inl ((matches-Grants process ctx rule e).0 here)
    | inr not_here ↦
        let later : any_rule rules ctx ≡ true = ground arith in
        inr ((any_rule-Any process ctx rules e).0 later)
  ]),
  (λ h. elim h [
    | inl here ↦ let now = (matches-Grants process ctx rule e).1 here in ground (arith, now)
    | inr later ↦ let after = (any_rule-Any process ctx rules e).1 later in ground (arith, after)
  ]),
)

evaluate-allowed :
    (policy : JitTrapPolicy) (ctx : JitTrapContext)
    → (evaluate policy ctx).allowed ≡ (
        not (is_blank (text_or_empty ctx.process))
        && not (ctx.page_count == 0 || ctx.requested_window_ms == 0)
        && any_rule policy.rules ctx)
unfolding evaluate
evaluate-allowed policy ctx = elim (Bool-cases (is_blank (text_or_empty ctx.process))) [
  | inl blank ↦ rw blank refl
  | inr named ↦ elim (Bool-cases (ctx.page_count == 0 || ctx.requested_window_ms == 0)) [
    | inl idle ↦ rw (named, idle) refl
    | inr asked ↦ elim (Bool-cases (any_rule policy.rules ctx)) [
      | inl granted ↦ rw (named, asked, granted) refl
      | inr refused ↦ rw (named, asked, refused) refl
    ]
  ]
]

blank_none : is_blank [] ≡ true
unfolding is_blank
blank_none = refl

-- A temporary window is granted exactly if the process is named, pages and time are asked for, and
-- some rule matches the request and its limits.
pub evaluate-Any :
    (policy : JitTrapPolicy) (ctx : JitTrapContext)
    → ((evaluate policy ctx).allowed ≡ true) ↔ (
        (process : Text) × (ctx.process ≡ some process)
        × (is_blank process ≡ false)
        × (0 < ctx.page_count)
        × (0 < ctx.requested_window_ms)
        × Any (Grants process ctx) policy.rules)
evaluate-Any policy ctx = (
  (λ h.
      let h' = sym (evaluate-allowed policy ctx) ∙ h in
      elim (Option-cases ctx.process) [
        | inl anonymous ↦
            let blank : is_blank (text_or_empty ctx.process) ≡ true =
              ap (λ o. is_blank (text_or_empty o)) anonymous ∙ blank_none in
            absurd (ground (arith, h', blank))
        | inr (process, e) ↦
            let same : is_blank (text_or_empty ctx.process) ≡ is_blank process =
              ap (λ o. is_blank (text_or_empty o)) e in
            let granted : any_rule policy.rules ctx ≡ true = ground (arith, h') in
            (
              process,
              e,
              ground (arith, h', same),
              ground (arith, h'),
              ground (arith, h'),
              (any_rule-Any process ctx policy.rules e).0 granted,
            )
      ]),
  (λ (process, e, named, pages, time, some_rule).
      let same : is_blank (text_or_empty ctx.process) ≡ is_blank process =
        ap (λ o. is_blank (text_or_empty o)) e in
      let granted = (any_rule-Any process ctx policy.rules e).1 some_rule in
      evaluate-allowed policy ctx ∙ ground (arith, same, named, pages, time, granted)),
)
