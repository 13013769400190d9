-- ===== src/Trap/Controller/States.antt =====
-- The life of a trap: which state a hit, a re-arming or a disabling leads to, and from where.
use aegis_hv.Common.{
  ℕ, Bool, true, false, none, some, if◌then◌else◌, Result, ok, err, ◌≡◌, refl, ap, Option-cases,
  Bool-cases, Result-cases, inl, inr, ◌⊎◌, ◌∙◌,
}
use aegis_hv.Common.BTreeMap.{get, get-insert_self, insert-insert, BTreeMap}
use aegis_hv.Common.Text.{Text}
use aegis_hv.Trap.Errors.{TrapErrorKind, invalid_state, not_mapped}
use aegis_hv.Trap.Jit.{evaluate, JitTrapPolicy, JitTrapContext}
use aegis_hv.Trap.Storm.{
  TrapStormGuard, TrapStormDecision, TrapStormKey, observe, new_key, allow, throttle_fail_open,
  throttle_fail_closed,
}
use aegis_hv.Trap.Traps.{
  TrapRecord, TrapOutcome, TrapDecision, TrapClassification, TrapHit, TrapState, allowed_step,
  denied, storm_throttled, classifying, accepts_hit, text_key,
}
use aegis_hv.Trap.Controller.{
  TrapController, set_state, finish_hit, classify, admit, after_storm, handle_hit, resolve,
  storm_page,
}
use aegis_hv.Trap.Controller.Inv.{Inv, get-IsPlaced, Inv-store}
use aegis_hv.Trap.Controller.Effects.{
  with_state, finished, outcome, finish_hit_lem, with_state-IsPlaced,
}

-- The moves that a hit makes a trap do, from the answer of the storm guard and the classification
-- to the new state and the decision: the storm guard throttles from any state.
pub data HitMove (policy : JitTrapPolicy) (from : TrapState)
    : TrapStormDecision → TrapClassification → TrapState → TrapDecision → Type 0 where
  stepped :
      accepts_hit from ≡ true
      → HitMove policy from allow TrapClassification.allow_step allowed_step TrapDecision.allow_step
  refused :
      (reason : Text)
      → accepts_hit from ≡ true
      → HitMove policy from allow (TrapClassification.deny reason) denied TrapDecision.deny
  in_window :
      (ctx : JitTrapContext)
      → accepts_hit from ≡ true
      → (evaluate policy ctx).allowed ≡ true
      → HitMove policy from allow
          (TrapClassification.jit_temporary_window ctx)
          allowed_step
          TrapDecision.allow_temporary_write
  out_of_window :
      (ctx : JitTrapContext)
      → accepts_hit from ≡ true
      → (evaluate policy ctx).allowed ≡ false
      → HitMove policy from allow
          (TrapClassification.jit_temporary_window ctx)
          denied
          TrapDecision.deny
  throttled_open :
      (classification : TrapClassification)
      → HitMove policy from throttle_fail_open classification storm_throttled TrapDecision.fail_open
  throttled_closed :
      (classification : TrapClassification)
      → HitMove policy from throttle_fail_closed classification storm_throttled
          TrapDecision.fail_closed

-- The decisions that open the page.
abbrev pub opens : TrapDecision → Bool
opens TrapDecision.allow_step = true
opens TrapDecision.allow_temporary_write = true
opens TrapDecision.fail_open = true
opens TrapDecision.deny = false
opens TrapDecision.fail_closed = false

-- What a hit on the trap `id` does to the controller, after the storm guard has answered: fail and
-- change nothing, because the trap is gone or because the guard lets the hit through and the trap's
-- state accepts none, or finish with the move, where the page is opened exactly when the decision
-- opens it.
pub data HitEffect (id : Text) (answer : TrapStormDecision) (classification : TrapClassification)
    (c : TrapController) (r : Result TrapOutcome TrapErrorKind × TrapController) : Type 0 where
  lost : get id c.traps ≡ none → r ≡ (err not_mapped, c) → HitEffect id answer classification c r
  not_ready :
      (trap : TrapRecord)
      → get id c.traps ≡ some trap
      → answer ≡ allow
      → accepts_hit trap.state ≡ false
      → r ≡ (err invalid_state, c)
      → HitEffect id answer classification c r
  done :
      (trap : TrapRecord) (state : TrapState) (decision : TrapDecision) (out : TrapOutcome)
      → get id c.traps ≡ some trap
      → HitMove c.jit_policy trap.state answer classification state decision
      → out.state ≡ state
      → out.decision ≡ decision
      → out.permissions_after
        ≡ (if opens decision then trap.original_permissions else trap.trapped_permissions)
      → r ≡ (ok out, finished id trap state (opens decision) c)
      → HitEffect id answer classification c r

module _ (id : Text) (trap : TrapRecord) (answer : TrapStormDecision)
    (classification : TrapClassification) (state : TrapState) (decision : TrapDecision)
    (note : Text) (c : TrapController) (v : Inv c) (e : get id c.traps ≡ some trap)
    (move : HitMove c.jit_policy trap.state answer classification state decision) where
  reported : TrapOutcome
  reported =
      outcome c.backend (with_state trap state) decision trap.trapped_permissions
        (if opens decision then trap.original_permissions else trap.trapped_permissions) note

  finish_hit-HitEffect :
      HitEffect id answer classification c (finish_hit id state decision (opens decision) note c)
  unfolding reported
  finish_hit-HitEffect =
      done trap state decision reported e move refl refl refl
        (finish_hit_lem id trap state decision (opens decision) note c v e)

  -- The passing state `classifying` leaves no trace.
  finish_hit-classifying :
      HitEffect id answer classification c
        (finish_hit id state decision (opens decision) note (set_state id trap classifying c))
  unfolding reported
  finish_hit-classifying =
      let result : Result TrapOutcome TrapErrorKind = ok reported in
      let trap' = with_state trap classifying in
      let c' = set_state id trap classifying c in
      let v' : Inv c' =
        Inv-store id trap' c v
          (with_state-IsPlaced id trap classifying c.table (get-IsPlaced id trap c v e)) in
      done trap state decision reported e move refl refl refl (
        finish_hit_lem id trap' state decision (opens decision) note c' v'
          (get-insert_self id trap' c.traps)
        ∙ ap
            (λ (traps : BTreeMap Text TrapRecord). (
              result,
              record c { table = (finished id trap state (opens decision) c).table; traps = traps },
            ))
            (insert-insert id (with_state trap state) trap' c.traps))

classify-HitEffect :
    (id : Text) (trap : TrapRecord) (classification : TrapClassification) (c : TrapController)
    → Inv c
    → get id c.traps ≡ some trap
    → accepts_hit trap.state ≡ true
    → HitEffect id allow classification c
        (classify id classification (set_state id trap classifying c))
unfolding classify
classify-HitEffect id trap TrapClassification.allow_step c v e ready =
    finish_hit-classifying id trap allow _ allowed_step TrapDecision.allow_step _ c v e
      (stepped ready)
classify-HitEffect id trap (TrapClassification.deny reason) c v e ready =
    finish_hit-classifying id trap allow _ denied TrapDecision.deny reason c v e
      (refused reason ready)
classify-HitEffect id trap (TrapClassification.jit_temporary_window ctx) c v e ready =
    elim (Bool-cases (evaluate c.jit_policy ctx).allowed) [
      | inl fits ↦ rw fits (
          finish_hit-classifying id trap allow _ allowed_step TrapDecision.allow_temporary_write
            (evaluate c.jit_policy ctx).reason c v e (in_window ctx ready fits))
      | inr unfit ↦ rw unfit (
          finish_hit-classifying id trap allow _ denied TrapDecision.deny
            (evaluate c.jit_policy ctx).reason c v e (out_of_window ctx ready unfit))
    ]

admit-HitEffect :
    (id : Text) (classification : TrapClassification) (c : TrapController)
    → Inv c
    → HitEffect id allow classification c (admit id classification c)
unfolding admit
admit-HitEffect id classification c v = elim (Option-cases (get id c.traps)) [
  | inl missing ↦ lost missing (rw (missing, admit))
  | inr (trap, e) ↦ elim (Bool-cases (accepts_hit trap.state)) [
    | inl ready ↦ rw (e, admit, ready) (classify-HitEffect id trap classification c v e ready)
    | inr unready ↦ not_ready trap e refl unready (rw (e, admit, unready))
  ]
]

throttle-HitEffect :
    (id : Text) (answer : TrapStormDecision) (classification : TrapClassification)
    (decision : TrapDecision) (note : Text) (c : TrapController)
    → Inv c
    → ((from : TrapState)
        → HitMove c.jit_policy from answer classification storm_throttled decision)
    → HitEffect id answer classification c
        (finish_hit id storm_throttled decision (opens decision) note c)
throttle-HitEffect id answer classification decision note c v move =
    elim (Option-cases (get id c.traps)) [
      | inl missing ↦ lost missing (unfold finish_hit in rw (missing, finish_hit))
      | inr (trap, e) ↦
          finish_hit-HitEffect id trap answer classification storm_throttled decision note c v e
            (move trap.state)
    ]

after_storm-HitEffect :
    (id : Text) (classification : TrapClassification) (answer : TrapStormDecision)
    (c : TrapController)
    → Inv c
    → HitEffect id answer classification c (after_storm id classification answer c)
unfolding after_storm
after_storm-HitEffect id classification allow c v = admit-HitEffect id classification c v
after_storm-HitEffect id classification throttle_fail_open c v =
    throttle-HitEffect id throttle_fail_open classification TrapDecision.fail_open _ c v
      (λ from. throttled_open classification)
after_storm-HitEffect id classification throttle_fail_closed c v =
    throttle-HitEffect id throttle_fail_closed classification TrapDecision.fail_closed _ c v
      (λ from. throttled_closed classification)

abbrev pub with_storm : TrapController → TrapStormGuard → TrapController
with_storm c storm = record c { storm = storm }

pub Inv-with_storm :
    (c : TrapController) (storm : TrapStormGuard) → Inv c → Inv (with_storm c storm)
Inv-with_storm c storm v = record { sound = v.sound; made = v.made; placed = v.placed }

-- What a hit does: no trap is found for it, or no storm bucket can be named for it, and it fails
-- with the controller as it was; or the storm guard counts it and answers, and with the guard so
-- changed the hit has its effect on the trap.
abbrev pub HandlesHit :
    TrapHit
    → TrapClassification
    → ℕ
    → TrapController
    → Result TrapOutcome TrapErrorKind × TrapController
    → Type 0
HandlesHit h classification now c r =
    ((e : TrapErrorKind) × (resolve h c ≡ err e) × (r ≡ (err e, c)))
    ⊎ ((id : Text) × (e : TrapErrorKind) × (resolve h c ≡ ok id)
        × (new_key h.owner_vm h.address_space (storm_page id h c) h.vcpu_id ≡ err e)
        × (r ≡ (err e, c)))
    ⊎ ((id : Text) × (key : TrapStormKey) × (resolve h c ≡ ok id)
        × (new_key h.owner_vm h.address_space (storm_page id h c) h.vcpu_id ≡ ok key)
        × HitEffect id (observe key now c.storm).0 classification
            (with_storm c (observe key now c.storm).1) r)

-- While the invariant of the controller holds: a hit for which no trap is found, or no storm bucket
-- can be named, fails with the controller as it was. Every other hit is counted by the storm guard
-- in its bucket, whose answer and the classification fix the rest. A throttled hit makes the trap
-- throttled and opens the page exactly if the guard fails open. A hit that is let through fails
-- with nothing else changed if the trap's state accepts no hit; otherwise a step is allowed and
-- opens the page, a denial does not, and a JIT window does so exactly if the policy allows it. In
-- each case, a trap that is gone makes the hit fail with nothing else changed.
pub handle_hit_lem :
    (h : TrapHit) (classification : TrapClassification) (now : ℕ) (c : TrapController)
    → Inv c
    → HandlesHit h classification now c (handle_hit h classification now c)
unfolding handle_hit
handle_hit_lem h classification now c v = elim (Result-cases (resolve h c)) [
  | inr (e, bad) ↦ inl (e, bad, rw (bad, handle_hit))
  | inl (id, found) ↦
      elim (Result-cases (new_key h.owner_vm h.address_space (storm_page id h c) h.vcpu_id)) [
        | inr (e, bad) ↦ inr (inl (id, e, found, bad, rw (found, handle_hit, bad)))
        | inl (key, named) ↦
            let counted = with_storm c (observe key now c.storm).1 in
            let effect =
              after_storm-HitEffect id classification (observe key now c.storm).0 counted
                (Inv-with_storm c (observe key now c.storm).1 v) in
            inr (inr (id, key, found, named, rw (found, handle_hit, named) effect))
      ]
]
