-- ===== src/Trap/Controller/Effects.antt =====
-- What each method of the controller does to its table and traps, when the invariant holds.
use aegis_hv.Common.{
  Bool, true, false, some, if◌then◌else◌, Result, ok, err, ◌≡◌, ap, ◌∙◌, bind, reads, bind-ok,
}
use aegis_hv.Common.BTreeMap.{get, insert, get-insert_self}
use aegis_hv.Common.Text.{Text, codes}
use aegis_hv.Trap.Errors.{TrapErrorKind, invalid_state}
use aegis_hv.Trap.Invalidation.{
  InvalidationPlan, InvalidationScope, ScopeKind, plan_invalidation, primitive_for, status_for,
}
use aegis_hv.Trap.Stage2.{Stage2BackendKind, Stage2Permissions}
use aegis_hv.Trap.Table.{Stage2Table, set_permissions}
use aegis_hv.Trap.Traps.{
  TrapRecord, TrapOutcome, TrapDecision, TrapState, rearmed, disabled, can_rearm, text_key,
}
use aegis_hv.Trap.Controller.{
  TrapController, set_state, regrant_page, report, finish_hit, rearm, disable,
}
use aegis_hv.Trap.Controller.Inv.{IsPlaced, Inv, get-IsPlaced, set_permissions-IsOk}

-- The table after the page of a trap is given the permissions `p`.
abbrev pub opened : TrapRecord → Stage2Permissions → Stage2Table → Stage2Table
opened trap p t = (set_permissions trap.owner_vm trap.address_space trap.page p t).1

abbrev pub with_state : TrapRecord → TrapState → TrapRecord
with_state trap state = record trap { state = state }

-- The invalidation of a trap's page.
abbrev pub page_plan : Stage2BackendKind → TrapRecord → InvalidationPlan
page_plan backend trap =
    let scope =
      InvalidationScope.single_page trap.owner_vm trap.address_space trap.page trap.page_size in
    record {
      backend = backend;
      scope_kind = ScopeKind.single_page;
      primitive = primitive_for backend scope;
      status = status_for backend;
    }

abbrev pub outcome :
    Stage2BackendKind
    → TrapRecord
    → TrapDecision
    → Stage2Permissions
    → Stage2Permissions
    → Text
    → TrapOutcome
outcome backend trap decision before after note = record {
  trap_id = trap.id;
  trap_kind = trap.kind;
  state = trap.state;
  decision = decision;
  backend = backend;
  page = trap.page;
  page_size = trap.page_size;
  permissions_before = before;
  permissions_after = after;
  invalidation = page_plan backend trap;
  note = note;
}

page_plan-ok :
    (backend : Stage2BackendKind) (trap : TrapRecord) {t : Stage2Table} (id : Text)
    → IsPlaced t (id, trap)
    → plan_invalidation backend
        (InvalidationScope.single_page trap.owner_vm trap.address_space trap.page trap.page_size)
      ≡ ok (page_plan backend trap)
unfolding plan_invalidation
page_plan-ok backend trap id v = rw (v.owned, v.spaced, v.aligned)

report-ok :
    (id : Text) (trap : TrapRecord) (decision : TrapDecision) (before after : Stage2Permissions)
    (note : Text) (c : TrapController) {t : Stage2Table}
    → get id c.traps ≡ some trap
    → IsPlaced t (id, trap)
    → report id decision before after note c
      ≡ ok (outcome c.backend trap decision before after note)
unfolding report
report-ok id trap decision before after note c e v =
    rw (e, report, page_plan-ok c.backend trap id v)

-- `regrant_page` on a placed trap succeeds.
regrant_page-ok :
    (id : Text) (trap : TrapRecord) (p : Stage2Permissions) (c : TrapController)
    → IsPlaced c.table (id, trap)
    → (old : Stage2Permissions) × (regrant_page trap p c
        ≡ (ok old, record c { table = opened trap p c.table }))
regrant_page-ok id trap p c v =
    let (old, e) =
      set_permissions-IsOk trap.owner_vm trap.address_space trap.page p c.table v.mapped in
    (old, ap (λ r. (r, record c { table = opened trap p c.table })) e)

-- A placed trap stays placed whatever its state.
pub with_state-IsPlaced :
    (id : Text) (trap : TrapRecord) (state : TrapState) (t : Stage2Table)
    → IsPlaced t (id, trap)
    → IsPlaced t (id, with_state trap state)
with_state-IsPlaced id trap state t v = record {
  named = v.named;
  owned = v.owned;
  spaced = v.spaced;
  aligned = v.aligned;
  guarded = v.guarded;
  mapped = v.mapped;
}

-- Where `finish_hit` leaves the controller.
abbrev pub finished : Text → TrapRecord → TrapState → Bool → TrapController → TrapController
finished id trap state allow_window c = record c {
  table = if allow_window then opened trap trap.original_permissions c.table else c.table;
  traps = insert id (with_state trap state) c.traps;
}

-- Setting a page's permissions and reporting it.
regrant-report :
    (id : Text) (trap : TrapRecord) (decision : TrapDecision) (before after : Stage2Permissions)
    (note : Text) (c : TrapController)
    → get id c.traps ≡ some trap
    → IsPlaced c.table (id, trap)
    → bind (regrant_page trap after) (λ _. reads (report id decision before after note)) c ≡ (
      ok (outcome c.backend trap decision before after note),
      record c { table = opened trap after c.table },
    )
regrant-report id trap decision before after note c e v =
    let c' = record c { table = opened trap after c.table } in
    let (old, done) = regrant_page-ok id trap after c v in
    bind-ok (regrant_page trap after) (λ _. reads (report id decision before after note)) c done
    ∙ ap (λ (r : Result TrapOutcome TrapErrorKind). (r, c'))
        (report-ok id trap decision before after note c' e v)

-- A hit on a placed trap is finished without an error. The outcome names the trap, its page, the
-- permissions before and after, and the invalidation of the page.
pub finish_hit_lem :
    (id : Text) (trap : TrapRecord) (state : TrapState) (decision : TrapDecision)
    (allow_window : Bool) (note : Text) (c : TrapController)
    → Inv c
    → get id c.traps ≡ some trap
    → finish_hit id state decision allow_window note c ≡ (
      ok (
          outcome c.backend
            (with_state trap state)
            decision
            trap.trapped_permissions
            (if allow_window then trap.original_permissions else trap.trapped_permissions)
            note),
      finished id trap state allow_window c,
    )
unfolding finish_hit
finish_hit_lem id trap state decision true note c v e =
    let trap' = with_state trap state in
    rw (e, finish_hit)
      (regrant-report id trap' decision trap.trapped_permissions trap.original_permissions note
        (set_state id trap state c) (get-insert_self id trap' c.traps)
        (with_state-IsPlaced id trap state c.table (get-IsPlaced id trap c v e)))
finish_hit_lem id trap state decision false note c v e =
    let trap' = with_state trap state in
    rw (e, finish_hit)
      (ap (λ (r : Result TrapOutcome TrapErrorKind). (r, set_state id trap state c))
        (report-ok id trap' decision trap.trapped_permissions trap.trapped_permissions note
          (set_state id trap state c) (get-insert_self id trap' c.traps)
          (with_state-IsPlaced id trap state c.table (get-IsPlaced id trap c v e))))

-- `rearm` on a trap whose window is open or throttled gives the page its trapped permissions.
pub rearm_lem :
    (id : Text) (trap : TrapRecord) (c : TrapController)
    → Inv c
    → get id c.traps ≡ some trap
    → can_rearm trap.state ≡ true
    → rearm id c ≡ (
      ok (
          outcome c.backend
            (with_state trap rearmed)
            TrapDecision.allow_step
            trap.original_permissions
            trap.trapped_permissions
            (codes "trap re-armed after temporary window")),
      record c {
        table = opened trap trap.trapped_permissions c.table;
        traps = insert id (with_state trap rearmed) c.traps;
      },
    )
unfolding rearm
rearm_lem id trap c v e can =
    let trap' = with_state trap rearmed in
    rw (e, rearm, can)
      (regrant-report id trap' TrapDecision.allow_step trap.original_permissions
        trap.trapped_permissions (codes "trap re-armed after temporary window")
        (set_state id trap rearmed c) (get-insert_self id trap' c.traps)
        (with_state-IsPlaced id trap rearmed c.table (get-IsPlaced id trap c v e)))

-- In every other state it fails and changes nothing.
pub rearm_refused :
    (id : Text) (trap : TrapRecord) (c : TrapController)
    → get id c.traps ≡ some trap
    → can_rearm trap.state ≡ false
    → rearm id c ≡ (err invalid_state, c)
unfolding rearm
rearm_refused id trap c e can = rw (e, rearm, can)

pub disable_lem :
    (id : Text) (trap : TrapRecord) (c : TrapController)
    → Inv c
    → get id c.traps ≡ some trap
    → disable id c ≡ (
      ok tt,
      record c {
        table = opened trap trap.original_permissions c.table;
        traps = insert id (with_state trap disabled) c.traps;
      },
    )
unfolding disable
disable_lem id trap c v e =
    let (old, done) =
      regrant_page-ok id trap trap.original_permissions c (get-IsPlaced id trap c v e) in
    rw (e, disable)
      (bind-ok (regrant_page trap trap.original_permissions)
        (λ _ c'. (ok tt, set_state id trap disabled c')) c done)
