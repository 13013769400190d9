-- ===== src/Trap/Controller/Runs.antt =====
-- Any sequence of calls keeps the invariant, and re-arming protects the page again.
use aegis_hv.Common.{
  ℕ, Bool, true, false, none, some, List, [], ◌∷◌, Result, ok, err, ◌≡◌, arith, All, Option-cases,
  Bool-cases, inl, inr, ◌∙◌,
}
use aegis_hv.Common.BTreeMap.{get, insert, values, get-insert_self}
use aegis_hv.Common.Text.{Text}
use aegis_hv.Trap.Errors.{TrapErrorKind, not_mapped}
use aegis_hv.Trap.Jit.{JitTrapPolicy}
use aegis_hv.Trap.SingleStep.{SingleStepStrategy}
use aegis_hv.Trap.Stage2.{Stage2BackendKind, Stage2Mapping, Stage2Permissions, allows}
use aegis_hv.Trap.Storm.{TrapStormDecision, observe, TrapStormGuard}
use aegis_hv.Trap.Table.{Stage2Table, lookup}
use aegis_hv.Trap.Table.Apart.{IsSound}
use aegis_hv.Trap.Table.Lookup.{set_permissions_lem}
use aegis_hv.Trap.Table.Unique.{lookup-covers_self}
use aegis_hv.Trap.Table.Tiles.{IsMade}
use aegis_hv.Trap.Traps.{
  TrapKind, TrapRecord, TrapOutcome, TrapClassification, TrapHit, TrapState, rearmed, disabled,
  can_rearm, text_key, access,
}
use aegis_hv.Trap.Controller.{
  TrapController, new_controller, arm_trap, handle_hit, rearm, disable, trap_state,
}
use aegis_hv.Trap.Controller.Arm.{arm_trap_lem}
use aegis_hv.Trap.Controller.Effects.{
  opened, with_state, finished, rearm_lem, rearm_refused, disable_lem, with_state-IsPlaced,
}
use aegis_hv.Trap.Controller.Inv.{Inv, get-IsPlaced, Inv-store, Inv-regrant}
use aegis_hv.Trap.Controller.States.{
  HitEffect, lost, not_ready, done, handle_hit_lem, Inv-with_storm, with_storm,
}

-- A trap's page gets new permissions, and the trap a new state.
moved-Inv :
    (id : Text) (trap : TrapRecord) (state : TrapState) (p : Stage2Permissions) (c : TrapController)
    → Inv c
    → get id c.traps ≡ some trap
    → Inv (record c {
      table = opened trap p c.table;
      traps = insert id (with_state trap state) c.traps;
    })
moved-Inv id trap state p c v e =
    let c' = record c { table = opened trap p c.table } in
    let v' = Inv-regrant trap.owner_vm trap.address_space trap.page p c v in
    Inv-store id (with_state trap state) c' v'
      (with_state-IsPlaced id trap state c'.table (get-IsPlaced id trap c' v' e))

pub finished-Inv :
    (id : Text) (trap : TrapRecord) (state : TrapState) (allow_window : Bool) (c : TrapController)
    → Inv c
    → get id c.traps ≡ some trap
    → Inv (finished id trap state allow_window c)
finished-Inv id trap state true c v e = moved-Inv id trap state trap.original_permissions c v e
finished-Inv id trap state false c v e =
    Inv-store id (with_state trap state) c v
      (with_state-IsPlaced id trap state c.table (get-IsPlaced id trap c v e))

HitEffect-Inv :
    (id : Text) (answer : TrapStormDecision) (classification : TrapClassification)
    (c : TrapController) (r : Result TrapOutcome TrapErrorKind × TrapController)
    → Inv c
    → HitEffect id answer classification c r
    → Inv r.1
HitEffect-Inv id answer classification c r v (lost missing same) = rw same v
HitEffect-Inv id answer classification c r v (not_ready trap e free unready same) = rw same v
HitEffect-Inv id answer classification c r v
      (done trap state decision out e move told made after same) =
    rw same (finished-Inv id trap state _ c v e)

pub handle_hit-Inv :
    (h : TrapHit) (classification : TrapClassification) (now : ℕ) (c : TrapController)
    → Inv c
    → Inv (handle_hit h classification now c).1
handle_hit-Inv h classification now c v = elim (handle_hit_lem h classification now c v) [
  | inl (e, _, same) ↦ rw same v
  | inr rest ↦ elim rest [
    | inl (id, e, _, _, same) ↦ rw same v
    | inr (id, key, _, _, effect) ↦
        let (answer, storm) = observe key now c.storm in
        HitEffect-Inv id answer classification (with_storm c storm) _ (Inv-with_storm c storm v)
          effect
  ]
]

pub rearm-Inv : (id : Text) (c : TrapController) → Inv c → Inv (rearm id c).1
rearm-Inv id c v = elim (Option-cases (get id c.traps)) [
  | inl gone ↦ unfold rearm in rw (gone, rearm) v
  | inr (trap, e) ↦ elim (Bool-cases (can_rearm trap.state)) [
    | inl can ↦
        rw (rearm_lem id trap c v e can) (moved-Inv id trap rearmed trap.trapped_permissions c v e)
    | inr cannot ↦ rw (rearm_refused id trap c e cannot) v
  ]
]

pub disable-Inv : (id : Text) (c : TrapController) → Inv c → Inv (disable id c).1
disable-Inv id c v = elim (Option-cases (get id c.traps)) [
  | inl gone ↦ unfold disable in rw (gone, disable) v
  | inr (trap, e) ↦
      rw (disable_lem id trap c v e) (moved-Inv id trap disabled trap.original_permissions c v e)
]

pub arm_trap-Inv :
    (o s : Text) (g : ℕ) (kind : TrapKind) (c : TrapController)
    → Inv c
    → Inv (arm_trap o s g kind c).1
arm_trap-Inv o s g kind c v = elim (arm_trap_lem o s g kind c v) [
  | inl (_, same) ↦ rw same v
  | inr (_, _, (_, _, v', _, _)) ↦ v'
]

-- The calls of a controller's client.
pub data Call : Type 0 where
  arms : Text → Text → ℕ → TrapKind → Call
  hits : TrapHit → TrapClassification → ℕ → Call
  rearms : Text → Call
  disables : Text → Call

unfoldable pub step : TrapController → Call → TrapController
unfolding arm_trap handle_hit rearm disable
step c (arms o s g kind) = (arm_trap o s g kind c).1
step c (hits h classification now) = (handle_hit h classification now c).1
step c (rearms id) = (rearm id c).1
step c (disables id) = (disable id c).1

unfoldable pub run : TrapController → List Call → TrapController
run c [] = c
run c (call ∷ calls) = run (step c call) calls

step-Inv : (c : TrapController) (call : Call) → Inv c → Inv (step c call)
unfolding step
step-Inv c (arms o s g kind) v = arm_trap-Inv o s g kind c v
step-Inv c (hits h classification now) v = handle_hit-Inv h classification now c v
step-Inv c (rearms id) v = rearm-Inv id c v
step-Inv c (disables id) v = disable-Inv id c v

run-Inv : (c : TrapController) (calls : List Call) → Inv c → Inv (run c calls)
unfolding run
run-Inv c [] v = v
run-Inv c (call ∷ calls) v = run-Inv (step c call) calls (step-Inv c call v)

-- From a new controller over a sound table of well-made mappings, every sequence of calls, failed
-- ones included, keeps the invariant: the mappings never overlap, and every trap stands on a
-- mapped and aligned page of a named address space, with trapped permissions that deny its kind
-- of access.
pub run-new_controller :
    (backend : Stage2BackendKind) (table : Stage2Table) (storm : TrapStormGuard)
    (policy : JitTrapPolicy) (strategy : SingleStepStrategy) (calls : List Call)
    → IsSound table
    → All IsMade (values table.mappings)
    → Inv (run (new_controller backend table storm policy strategy) calls)
run-new_controller backend table storm policy strategy calls d made =
    run-Inv (new_controller backend table storm policy strategy) calls
      (record { sound = d; made = made; placed = tt })

-- Setting permissions on a mapped page gives its mapping exactly those.
pub lookup-opened :
    (trap : TrapRecord) (p : Stage2Permissions) (t : Stage2Table)
    → IsSound t
    → (m : Stage2Mapping) → lookup trap.owner_vm trap.address_space trap.page t ≡ some m
    → lookup trap.owner_vm trap.address_space trap.page (opened trap p t)
      ≡ some (record m { permissions = p })
lookup-opened trap p t d m e =
    elim (set_permissions_lem trap.owner_vm trap.address_space trap.page p t d) [
      | inl (gone, _) ↦ absurd (cc (gone, e))
      | inr (_, _, _, every) ↦
          every trap.owner_vm trap.address_space trap.page
          ∙ rw (e, lookup-covers_self t d trap.owner_vm trap.address_space trap.page m e)
    ]

rearm_missing :
    (id : Text) (c : TrapController) → get id c.traps ≡ none → rearm id c ≡ (err not_mapped, c)
unfolding rearm
rearm_missing id c gone = rw (gone, rearm)

-- Whenever `rearm` succeeds, the trap is re-armed and its page is protected again: the mapping of
-- the page has the permissions that the outcome reports, and they deny the trap's kind of access.
pub rearm_protects :
    (id : Text) (c c' : TrapController) (out : TrapOutcome)
    → Inv c
    → rearm id c ≡ (ok out, c')
    → (trap : TrapRecord) × (m : Stage2Mapping) × (get id c.traps ≡ some trap)
      × (trap_state id c' ≡ some rearmed)
      × (lookup trap.owner_vm trap.address_space trap.page c'.table ≡ some m)
      × (m.permissions ≡ out.permissions_after)
      × (allows m.permissions (access trap.kind) ≡ false)
unfolding trap_state
rearm_protects id c c' out v h = elim (Option-cases (get id c.traps)) [
  | inl gone ↦ absurd (cc (h, rearm_missing id c gone))
  | inr (trap, e) ↦ elim (Bool-cases (can_rearm trap.state)) [
    | inr cannot ↦ absurd (cc (h, rearm_refused id trap c e cannot))
    | inl can ↦
        let p = get-IsPlaced id trap c v e in
        let (m, at) = p.mapped in
        let done = rearm_lem id trap c v e can in
        (
          trap,
          record m { permissions = trap.trapped_permissions },
          e,
          ground (arith, done, h, get-insert_self id (with_state trap rearmed) c.traps),
          ground (arith, done, h, lookup-opened trap trap.trapped_permissions c.table v.sound m at),
          ground (arith, done, h),
          p.guarded,
        )
  ]
]
