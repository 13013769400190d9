-- ===== src/Trap/Tests/Policies.antt =====
-- The JIT policy at concrete inputs.
use aegis_hv.Common.{◌<◌, true, false, none, some, [], ◌∷◌, ◌≡◌, ◌↔◌}
use aegis_hv.Common.Text.{Text, codes, is_blank}
use aegis_hv.Pattern.{Pattern}
use aegis_hv.Trap.Jit.{JitTrapContext, JitTrapPolicy, evaluate}
use aegis_hv.Trap.Jit.Windows.{Any, Grants, evaluate-Any}

abbrev browser : Pattern
browser = record {
  raw = codes "v8";
  alts = record { anchor_start = false; anchor_end = false; parts = codes "v8" ∷ [] } ∷ [];
}

abbrev policy : JitTrapPolicy
policy = record {
  rules =
      record {
        vm = none;
        process = browser;
        module_pattern = none;
        max_pages = 4;
        max_window_ms = 50;
      }
      ∷ [];
}

abbrev request : JitTrapContext
request = record {
  vm = codes "vm0";
  process = some (codes "v8-worker");
  module_name = none;
  symbol = none;
  page_count = 2;
  requested_window_ms = 50;
}

evaluate-Any_example : ((evaluate policy request).allowed ≡ true) ↔ (
    (process : Text) × (request.process ≡ some process)
    × (is_blank process ≡ false)
    × (0 < request.page_count)
    × (0 < request.requested_window_ms)
    × Any (Grants process request) policy.rules)
evaluate-Any_example = evaluate-Any policy request
