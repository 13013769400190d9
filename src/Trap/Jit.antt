-- ===== src/Trap/Jit.antt =====
-- src/trap/jit.rs: the policy that opens a page for a known JIT compiler.
pub mod Windows
use aegis_hv.Common.{
  ℕ, Bool, true, false, ◌&&◌, ◌||◌, Option, none, some, List, [], ◌∷◌, leb, ◌==◌, if◌then◌else◌,
  Result, ok, err, ◌>>=◌, ◌>>◌, fail_if,
}
use aegis_hv.Common.Text.{Text, codes, is_blank}
use aegis_hv.Pattern.{Pattern, PatternError, compile, is_match}
use aegis_hv.Trap.Errors.{TrapErrorKind, malformed_input}

pub record JitTrapRule : Type 0 where
  pub vm : Option Pattern
  pub process : Pattern
  pub module_pattern : Option Pattern
  pub max_pages : ℕ
  pub max_window_ms : ℕ

-- `map_err` to a malformed input.
abbrev pub or_malformed : Result Pattern PatternError → Result Pattern TrapErrorKind
or_malformed (ok p) = ok p
or_malformed (err _) = err malformed_input

unfoldable pub compile_optional : Option Text → Result (Option Pattern) TrapErrorKind
compile_optional none = ok none
compile_optional (some raw) =
    if is_blank raw then ok none else (or_malformed (compile raw) >>= λ p. ok (some p))

-- `JitTrapRule::new`
unfoldable pub new_rule :
    Option Text → Text → Option Text → ℕ → ℕ → Result JitTrapRule TrapErrorKind
unfolding compile_optional
new_rule vm_regex process_regex module_regex max_pages max_window_ms = do
  fail_if (is_blank process_regex) malformed_input
  fail_if (max_pages == 0 || max_window_ms == 0) malformed_input
  vm ← compile_optional vm_regex
  process ← or_malformed (compile process_regex)
  module_pattern ← compile_optional module_regex
  ok (record {
    vm = vm;
    process = process;
    module_pattern = module_pattern;
    max_pages = max_pages;
    max_window_ms = max_window_ms;
  })

pub record JitTrapContext : Type 0 where
  pub vm : Text
  pub process : Option Text
  pub module_name : Option Text
  pub symbol : Option Text
  pub page_count : ℕ
  pub requested_window_ms : ℕ

-- A pattern that is absent admits everything; a present one needs a text.
abbrev pub admits : Option Pattern → Option Text → Bool
admits none value = true
admits (some p) none = false
admits (some p) (some value) = is_match p value

abbrev pub admits_process : Pattern → Option Text → Bool
admits_process p none = false
admits_process p (some process) = is_match p process

-- `JitTrapRule::matches`
unfoldable pub matches : JitTrapRule → JitTrapContext → Bool
matches rule ctx =
    admits rule.vm (some ctx.vm)
    && admits_process rule.process ctx.process
    && admits rule.module_pattern ctx.module_name
    && leb ctx.page_count rule.max_pages
    && leb ctx.requested_window_ms rule.max_window_ms

pub record JitTrapDecision : Type 0 where
  pub allowed : Bool
  pub reason : Text

pub record JitTrapPolicy : Type 0 where
  pub rules : List JitTrapRule

unfoldable pub any_rule : List JitTrapRule → JitTrapContext → Bool
unfolding matches
any_rule [] ctx = false
any_rule (rule ∷ rules) ctx = matches rule ctx || any_rule rules ctx

abbrev pub text_or_empty : Option Text → Text
text_or_empty none = []
text_or_empty (some s) = s

-- `JitTrapPolicy::evaluate`
unfoldable pub evaluate : JitTrapPolicy → JitTrapContext → JitTrapDecision
unfolding any_rule
evaluate policy ctx =
    if is_blank (text_or_empty ctx.process)
    then record { allowed = false; reason = codes "missing guest process attribution" }
    else if ctx.page_count == 0 || ctx.requested_window_ms == 0
    then record { allowed = false; reason = codes "invalid JIT temporary window request" }
    else if any_rule policy.rules ctx
    then record { allowed = true; reason = codes "matched JIT trap allow rule" }
    else record {
      allowed = false;
      reason = codes "no JIT trap allow rule matched attribution and limits";
    }
