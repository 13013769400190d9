-- ===== src/Devices/Net.antt =====
-- crates/aegishv-devices/src/net.rs: which packets a quarantined network device lets pass.
use aegis_hv.Common.{Bool, true}

pub data LinkState : Type 0 where
  down up : LinkState

pub data QuarantineState : Type 0 where
  normal quarantined : QuarantineState

pub data PacketClass : Type 0 where
  guest_data management : PacketClass

pub data NetDecision : Type 0 where
  allow drop_link_down drop_quarantined : NetDecision

pub record VirtioNetQuarantine : Type 0 where
  pub link : LinkState
  pub quarantine : QuarantineState
  pub allow_management_traffic : Bool

-- The inner match of `decide`.
unfoldable pub decide_up : QuarantineState → PacketClass → Bool → NetDecision
decide_up normal _ _ = allow
decide_up quarantined management true = allow
decide_up quarantined _ _ = drop_quarantined

unfoldable pub decide : PacketClass → VirtioNetQuarantine → NetDecision
unfolding decide_up
decide packet q = elim q.link [
  | down ↦ drop_link_down
  | up ↦ decide_up q.quarantine packet q.allow_management_traffic
]
