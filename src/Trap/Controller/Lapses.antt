-- ===== src/Trap/Controller/Lapses.antt =====
-- Where a protection lapses: a page trapped twice, two traps on one page, a storm on a trap that
-- was disabled.
use aegis_hv.Common.{ℕ, Bool, true, false, some, ok, ◌≡◌, refl, arith, ap, ◌∙◌, ◌≢◌}
use aegis_hv.Common.BTreeMap.{get, get-insert, get-insert_self}
use aegis_hv.Common.Text.{Text, text_eq_iff, codes}
use aegis_hv.Trap.Stage2.{Stage2Mapping, align_down, allows, without_access}
use aegis_hv.Trap.Storm.{
  TrapStormKey, TrapStormDecision, TrapStormMode, fail_open, fail_closed, new_key, observe,
  throttle, allow, throttle_fail_open, throttle_fail_closed,
}
use aegis_hv.Trap.Table.{lookup}
use aegis_hv.Trap.Traps.{
  TrapKind, TrapRecord, TrapClassification, TrapDecision, TrapHit, access, armed, rearmed, disabled,
  storm_throttled, can_rearm, text_key, trap_id,
}
use aegis_hv.Trap.Controller.{
  TrapController, arm_trap, handle_hit, rearm, disable, resolve, storm_page, trap_state,
}
use aegis_hv.Trap.Controller.Arm.{disable-arm_trap, arm_trap-eq, arm-effect, at_page}
use aegis_hv.Trap.Controller.Effects.{with_state, finished, finish_hit_lem, rearm_lem}
use aegis_hv.Trap.Controller.Inv.{Inv, get-IsPlaced}
use aegis_hv.Trap.Controller.Runs.{lookup-opened, finished-Inv, arm_trap-Inv}
use aegis_hv.Trap.Controller.States.{Inv-with_storm, with_storm}

-- When a trap is re-armed, the page gets that trap's permissions, whatever other traps stand on
-- it: if these permissions allow what another armed trap of the page is there to deny, then the
-- other trap still counts as armed and the access is allowed.
pub rearm_uncovers :
    (id other : Text) (trap watch : TrapRecord) (c : TrapController)
    → Inv c
    → get id c.traps ≡ some trap
    → can_rearm trap.state ≡ true
    → get other c.traps ≡ some watch
    → id ≢ other
    → watch.state ≡ armed
    → (watch.owner_vm ≡ trap.owner_vm)
      × (watch.address_space ≡ trap.address_space)
      × (watch.page ≡ trap.page)
    → allows trap.trapped_permissions (access watch.kind) ≡ true
    → let c' = (rearm id c).1 in
      (trap_state other c' ≡ some armed)
      × ((m : Stage2Mapping) × (lookup watch.owner_vm watch.address_space watch.page c'.table
            ≡ some m)
          × (allows m.permissions (access watch.kind) ≡ true))
unfolding trap_state
rearm_uncovers id other trap watch c v e can e' ne ready (eo, es, ep) permits =
    let (m, at) = (get-IsPlaced id trap c v e).mapped in
    rw (rearm_lem id trap c v e can, eo, es, ep)
      (
        ground (arith, get-insert id other (with_state trap rearmed) c.traps, text_eq_iff id other),
        (
          record m { permissions = trap.trapped_permissions },
          lookup-opened trap trap.trapped_permissions c.table v.sound m at,
          permits,
        ),
      )

-- Whether the guard of this mode opens the page of a throttled hit.
abbrev lets_through : TrapStormMode → Bool
lets_through fail_open = true
lets_through fail_closed = false

throttle-cases : (d : TrapStormDecision) → d ≢ allow → (mode : TrapStormMode) × (d ≡ throttle mode)
throttle-cases allow stop = absurd (stop refl)
throttle-cases throttle_fail_open stop = (fail_open, refl)
throttle-cases throttle_fail_closed stop = (fail_closed, refl)

module _ (h : TrapHit) (classification : TrapClassification) (now : ℕ) (id : Text)
    (trap : TrapRecord) (key : TrapStormKey) (c : TrapController) (v : Inv c)
    (found : resolve h c ≡ ok id) (e : get id c.traps ≡ some trap)
    (named : new_key h.owner_vm h.address_space (storm_page id h c) h.vcpu_id ≡ ok key) where
  counted : TrapController
  counted = with_storm c (observe key now c.storm).1

  -- A throttled hit does not look at the trap's state.
  throttled_hit :
      (mode : TrapStormMode)
      → (observe key now c.storm).0 ≡ throttle mode
      → (handle_hit h classification now c).1
        ≡ finished id trap storm_throttled (lets_through mode) counted
  unfolding handle_hit counted
  throttled_hit fail_open stop =
      rw (found, handle_hit, named, stop)
        (ap (λ r. r.1)
          (finish_hit_lem id trap storm_throttled TrapDecision.fail_open true
            (codes "trap storm throttled page; policy is fail-open")
            (with_storm c (observe key now c.storm).1)
            (Inv-with_storm c (observe key now c.storm).1 v) e))
  throttled_hit fail_closed stop =
      rw (found, handle_hit, named, stop)
        (ap (λ r. r.1)
          (finish_hit_lem id trap storm_throttled TrapDecision.fail_closed false
            (codes "trap storm throttled page; policy is fail-closed")
            (with_storm c (observe key now c.storm).1)
            (Inv-with_storm c (observe key now c.storm).1 v) e))

  revived :
      (opening : Bool)
      → let c' = finished id trap storm_throttled opening counted in
        (trap_state id c' ≡ some storm_throttled) × (trap_state id (rearm id c').1 ≡ some rearmed)
  unfolding trap_state counted can_rearm
  revived opening =
      let trap' = with_state trap storm_throttled in
      let c' = finished id trap storm_throttled opening counted in
      let there = get-insert_self id trap' c.traps in
      let v' =
        finished-Inv id trap storm_throttled opening counted
          (Inv-with_storm c (observe key now c.storm).1 v) e in
      (
        rw (there, trap_state),
        rw (rearm_lem id trap' c' v' there refl)
            (rw (get-insert_self id (with_state trap' rearmed) c'.traps, trap_state)),
      )

-- While the invariant of the controller holds: a hit on a disabled trap that the storm guard
-- throttles, whether it fails open or closed, takes the trap out of that state: it becomes
-- throttled, and from there `rearm` brings it back.
pub storm_revives :
    (h : TrapHit) (classification : TrapClassification) (now : ℕ) (id : Text) (trap : TrapRecord)
    (key : TrapStormKey) (c : TrapController)
    → Inv c
    → resolve h c ≡ ok id
    → get id c.traps ≡ some trap
    → trap.state ≡ disabled
    → new_key h.owner_vm h.address_space (storm_page id h c) h.vcpu_id ≡ ok key
    → (observe key now c.storm).0 ≢ allow
    → let c' = (handle_hit h classification now c).1 in
      (trap_state id c ≡ some disabled)
      × ((trap_state id c' ≡ some storm_throttled) × (trap_state id (rearm id c').1 ≡ some rearmed))
storm_revives h classification now id trap key c v found e off named stop =
    let (mode, e') = throttle-cases (observe key now c.storm).0 stop in
    (
      unfold trap_state in rw (e, trap_state, off),
      rw (throttled_hit h classification now id trap key c v found e named mode e')
          (revived h classification now id trap key c v found e named (lets_through mode)),
    )

-- Arming a trap twice stores the trapped permissions as the original ones: disabling it then
-- succeeds, but the page keeps the permissions without the trapped access, whatever it had before.
pub arm_twice_keeps :
    (o s : Text) (g : ℕ) (kind : TrapKind) (c : TrapController) (m : Stage2Mapping)
    → Inv c
    → lookup o s g c.table ≡ some m
    → let id = trap_id o s (align_down m.page_size g) kind in
      let (r, c') = disable id (arm_trap o s g kind (arm_trap o s g kind c).1).1 in
      (r ≡ ok tt)
      × (trap_state id c' ≡ some disabled)
      × (lookup o s g c'.table
          ≡ some (record m { permissions = without_access m.permissions (access kind) }))
arm_twice_keeps o s g kind c m v found =
    let m' = record m { permissions = without_access m.permissions (access kind) } in
    let once : lookup o s g (arm_trap o s g kind c).1.table ≡ some m' =
      rw (arm_trap-eq o s g kind c v m found) (
        (arm-effect o s g kind c v m found).1 o s g
        ∙ rw (found, (at_page o s g kind c v m found).1)) in
    let (r, state, same) =
      disable-arm_trap o s g kind (arm_trap o s g kind c).1 m' (arm_trap-Inv o s g kind c v) once in
    (r, state, same o s g ∙ once)
