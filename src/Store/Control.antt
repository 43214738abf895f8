-- ===== src/Store/Control.antt =====
-- src/store.ts, the control requests: creation, delivery, claim, completion, failure and recovery.
pub mod Outcome
pub mod Invariant
use mazzy_command_center.Prelude.{
  ℕ, zero, suc, Bool, true, false, List, [], ◌∷◌, ◌++◌, Option, none, some, ◌&&◌, ◌||◌, not, ltb,
  leb, ◌==◌, if◌then◌else◌, Text, codes, text_eq, trim, is_empty, length, Result, ok, err, ◌>>=◌,
  ◌>>◌, guard, some_or, is_some, is_ok, trim_or_none, find, filter_where, update_where, count_where,
  any_where, first_by, same_text?,
}
use mazzy_command_center.Types.{
  backlog, ready, blocked, running, state_eq, RunRole, worker, role_eq, ControlCommand, go, pause,
  stop, is_go, ControlRequestState, requested, delivered, claimed, request_state_eq,
}
use mazzy_command_center.Store.Rows.{
  role, role, role, role, role, role, Json, obj, end, field, field?, str, str?, num, num?, Env,
  Task, RunBinding, ControlRequest, EventBody, orchestration_requested, orchestration_delivered,
  orchestration_claimed, orchestration_completed, orchestration_failed, orchestration_requeued, Db,
  Error, key_required, session_required, error_required, outcome_required, bad_request,
  instructions_too_long, key_conflict, go_not_applicable, go_active_worker, needs_active_worker,
  request_not_found, request_state, go_needs_worker, task_not_found, constraint, missing_row,
  concurrent_update,
}
use mazzy_command_center.Store.Queries.{
  clean, require_revision, get_task, event, by_run, active_worker,
}
use mazzy_command_center.Store.Runs.{fingerprint}

pub record CreateControlRequestInput : Type 0 where
  pub task_id : ℕ
  pub expected_task_revision : ℕ
  pub command : ControlCommand
  pub idempotency_key : Text
  pub approved_agent : Option Text
  pub instructions : Option Text
  pub max_cycles : Option ℕ
  pub target_run_id : Option Text
  pub parent_session_id : Option Text

abbrev pub max_control_instructions_length : ℕ
max_control_instructions_length = 4000

unfoldable pub get_control_request : Db → ℕ → Option ControlRequest
get_control_request db id = find (λ r. r.id == id) db.requests

unfoldable pub by_request_key : Db → Text → Option ControlRequest
by_request_key db key = find (λ r. text_eq r.idempotency_key key) db.requests

-- The current active worker that PAUSE and STOP act on.
abbrev pub is_target : Task → Option Text → RunBinding → Bool
is_target t target b =
    (b.task_id == t.id)
    && same_text? (some b.run_id) target
    && (b.acceptance_revision == t.acceptance_revision)
    && text_eq b.acceptance_digest t.acceptance_digest

abbrev pub is_target? : Task → Option Text → Option RunBinding → Bool
is_target? t target none = false
is_target? t target (some b) = is_target t target b

abbrev pub is_go_state : Task → Bool
is_go_state t = state_eq t.state backlog || state_eq t.state ready || state_eq t.state blocked

-- `!target`: the text is missing or empty.
abbrev pub is_given : Option Text → Bool
is_given none = false
is_given (some s) = not (is_empty s)

unfoldable pub control_applicable :
    Db → Task → ControlCommand → Option Text → Result Error (Unit {0})
control_applicable db t command target =
    if is_go command
    then guard (is_go_state t) go_not_applicable
      >> guard (not (is_some (active_worker db t.id))) go_active_worker
    else guard
        (state_eq t.state running && is_given target && is_target? t target (active_worker db t.id))
        needs_active_worker

abbrev pub is_outstanding_go : ℕ → ℕ → ControlRequest → Bool
is_outstanding_go task_id revision r =
    (r.task_id == task_id)
    && (r.expected_task_revision == revision)
    && is_go r.command
    && (request_state_eq r.state requested
        || request_state_eq r.state delivered
        || request_state_eq r.state claimed)

-- `ORDER BY requested_at,id`: whether `b` stands before `a`.
abbrev pub earlier_request : ControlRequest → ControlRequest → Bool
earlier_request b a =
    ltb b.requested_at a.requested_at || (b.requested_at == a.requested_at) && ltb b.id a.id

unfoldable pub outstanding_go : Db → ℕ → ℕ → Option ControlRequest
outstanding_go db task_id revision =
    first_by earlier_request (filter_where (is_outstanding_go task_id revision) db.requests)

-- A request as it is returned, and whether a second GO joined it.
pub record RequestReply : Type 0 where
  pub request : ControlRequest
  pub coalesced : Bool

abbrev pub command_text : ControlCommand → Text
command_text go = codes "GO"
command_text pause = codes "PAUSE"
command_text stop = codes "STOP"

abbrev pub default_cycles : Option ℕ → ℕ
default_cycles none = 1
default_cycles (some n) = n

abbrev pub trim? : Option Text → Option Text
trim? none = none
trim? (some s) = some (trim s)

-- `input.command === "GO" ? null : input.targetRunId ?? null`
abbrev pub target_of : ControlCommand → Option Text → Option Text
target_of go target = none
target_of _ target = target

abbrev pub new_request : Env → Text → Text → Task → CreateControlRequestInput → ControlRequest
new_request env key fp t input = record {
  id = env.random_uuid 0;
  idempotency_key = key;
  operation_fingerprint = fp;
  task_id = t.id;
  expected_task_revision = t.revision;
  command = input.command;
  state = requested;
  approved_agent = trim_or_none input.approved_agent;
  instructions = trim_or_none input.instructions;
  max_cycles = default_cycles input.max_cycles;
  target_run_id = target_of input.command input.target_run_id;
  parent_session_id = trim_or_none input.parent_session_id;
  child_session_id = none;
  child_run_id = none;
  requested_at = env.clock 0;
  delivered_at = none;
  claimed_at = none;
  completed_at = none;
  failed_at = none;
  recovered_at = none;
  recovery_reason = none;
  error = none;
}

abbrev pub request_clashes : ControlRequest → ControlRequest → Bool
request_clashes r old = (old.id == r.id) || text_eq old.idempotency_key r.idempotency_key

unfoldable pub insert_request : Db → ControlRequest → Result Error Db
insert_request db r = do
  guard (not (any_where (request_clashes r) db.requests)) constraint
  ok (record db { requests = db.requests ++ r ∷ [] })

unfoldable pub add_request :
    Db → Env → Text → Text → Task → CreateControlRequestInput → Result Error (RequestReply × Db)
add_request db env key fp t input = do
  let r = new_request env key fp t input
  inserted ← insert_request db r
  let logged =
      event inserted t.id (orchestration_requested r.id input.command) (codes "web") (env.clock 1)
  row ← some_or (get_control_request logged r.id) missing_row
  ok (record { request = row; coalesced = false }, logged)

-- A GO joins the request that is outstanding for the same revision, if there is one.
unfoldable pub coalesce : Db → ControlCommand → ℕ → ℕ → Option ControlRequest
coalesce db command task_id revision =
    if is_go command then outstanding_go db task_id revision else none

abbrev pub join_or :
    Db → Option ControlRequest → Result Error (RequestReply × Db) → Result Error (RequestReply × Db)
join_or db none fresh = fresh
join_or db (some r) fresh = ok (record { request = r; coalesced = true }, db)

abbrev pub replay_request_or :
    Db
    → Option ControlRequest
    → Text
    → Result Error (RequestReply × Db)
    → Result Error (RequestReply × Db)
replay_request_or db none fp fresh = fresh
replay_request_or db (some old) fp fresh =
    guard (text_eq old.operation_fingerprint fp) key_conflict
    >> ok (record { request = old; coalesced = false }, db)

abbrev pub control_payload : CreateControlRequestInput → Json
control_payload input = obj (
    field? "instructions" (str? (trim? input.instructions)) (
      field "maxCycles" (num (default_cycles input.max_cycles))
        (field? "parentSessionId" (str? input.parent_session_id) end)))

unfoldable pub create_fresh_request :
    Db → Env → Text → Text → CreateControlRequestInput → Result Error (RequestReply × Db)
create_fresh_request db env key fp input = do
  t ← require_revision db input.task_id (some input.expected_task_revision)
  control_applicable db t input.command input.target_run_id
  join_or db (coalesce db input.command input.task_id input.expected_task_revision)
      (add_request db env key fp t input)

unfoldable pub create_control_request :
    Db → Env → CreateControlRequestInput → Result Error (RequestReply × Db)
create_control_request db env input = do
  key ← clean input.idempotency_key key_required
  guard (leb 1 (default_cycles input.max_cycles) && leb (default_cycles input.max_cycles) 10)
      bad_request
  guard
      (elim (trim? input.instructions) [
        | none ↦ true
        | some s ↦ not (ltb max_control_instructions_length (length s))
      ])
      instructions_too_long
  let fp =
      fingerprint env (codes "control") input.task_id input.expected_task_revision
        (str (command_text input.command)) input.target_run_id input.approved_agent
        (some (control_payload input))
  replay_request_or db (by_request_key db key) fp (create_fresh_request db env key fp input)

-- `UPDATE orchestration_requests SET f WHERE id=? AND p`
unfoldable pub update_request :
    Db → ℕ → (ControlRequest → Bool) → (ControlRequest → ControlRequest) → Db
update_request db id p f = record db {
  requests = update_where (λ r. (r.id == id) && p r) f db.requests;
}

abbrev pub is_open : ControlRequest → Bool
is_open r =
    request_state_eq r.state requested
    || request_state_eq r.state delivered
    || request_state_eq r.state claimed

-- `markDelivered`: a request that is not REQUESTED stays as it is.
unfoldable pub mark_delivered : Db → Env → ℕ → Result Error (ControlRequest × Db)
mark_delivered db env id = do
  r ← some_or (get_control_request db id) request_not_found
  if not (request_state_eq r.state requested) then ok (r, db) else do
    let marked =
        update_request db id (λ x. request_state_eq x.state requested)
          (λ x. record x { state = delivered; delivered_at = some (env.clock 0) })
    let logged = event marked r.task_id (orchestration_delivered id) (codes "bridge") (env.clock 1)
    row ← some_or (get_control_request logged id) missing_row
    ok (row, logged)

-- A GO is claimed at the revision that it was requested for.
unfoldable pub claim_task : Db → ControlRequest → Result Error Task
claim_task db r =
    if is_go r.command
    then require_revision db r.task_id (some r.expected_task_revision)
    else some_or (get_task db r.task_id) task_not_found

unfoldable pub claim_control_request : Db → Env → ℕ → Text → Result Error (ControlRequest × Db)
claim_control_request db env id session = do
  parent ← clean session session_required
  r ← some_or (get_control_request db id) request_not_found
  t ← claim_task db r
  control_applicable db t r.command r.target_run_id
  if request_state_eq r.state claimed then ok (r, db) else do
    guard (request_state_eq r.state requested || request_state_eq r.state delivered) request_state
    let marked =
        update_request db r.id (λ x. true)
          (λ x. record x {
            state = claimed;
            claimed_at = some (env.clock 0);
            parent_session_id = some parent;
          })
    let logged =
        event marked r.task_id (orchestration_claimed r.id) (codes "pi-parent") (env.clock 1)
    row ← some_or (get_control_request logged r.id) missing_row
    ok (row, logged)

pub record CompleteControlRequestInput : Type 0 where
  pub id : ℕ
  pub child_session_id : Option Text
  pub child_run_id : Option Text
  pub outcome : Option Text

-- `row.x ? String(row.x) : undefined`
abbrev pub text_or_none : Option Text → Option Text
text_or_none none = none
text_or_none (some s) = if is_empty s then none else some s

-- The worker binding that a completed GO must name.
abbrev pub completes_go : ControlRequest → CompleteControlRequestInput → RunBinding → Bool
completes_go r input b =
    is_given input.child_session_id
    && (b.task_id == r.task_id)
    && role_eq b.role worker
    && same_text? (text_or_none b.child_session_id) input.child_session_id
    && same_text? (text_or_none b.parent_session_id) (text_or_none r.parent_session_id)
    && leb r.expected_task_revision b.task_revision

-- `input.childRunId ? this.byRun(input.childRunId) : undefined`
unfoldable pub child_run : Db → Option Text → Option RunBinding
child_run db none = none
child_run db (some run_id) = if is_empty run_id then none else by_run db run_id

abbrev pub or_blank : Option Text → Text
or_blank none = []
or_blank (some s) = s

unfoldable pub check_completion :
    Db → ControlRequest → CompleteControlRequestInput → Result Error (Unit {0})
check_completion db r input =
    if is_go r.command
    then guard
        (elim (child_run db input.child_run_id) [ none ↦ false | some b ↦ completes_go r input b ])
        go_needs_worker
    else guard (not (is_empty (trim (or_blank input.outcome)))) outcome_required

unfoldable pub complete_control_request :
    Db → Env → CompleteControlRequestInput → Result Error (ControlRequest × Db)
complete_control_request db env input = do
  r ← some_or (get_control_request db input.id) request_not_found
  if request_state_eq r.state ControlRequestState.completed then ok (r, db) else do
    guard (request_state_eq r.state claimed) request_state
    check_completion db r input
    guard (count_where (λ x. (x.id == r.id) && request_state_eq x.state claimed) db.requests == 1)
        concurrent_update
    let marked =
        update_request db r.id (λ x. request_state_eq x.state claimed)
          (λ x. record x {
            state = ControlRequestState.completed;
            completed_at = some (env.clock 0);
            child_session_id = input.child_session_id;
            child_run_id = input.child_run_id;
          })
    let logged =
        event marked r.task_id (orchestration_completed r.id input.outcome) (codes "pi-parent")
          (env.clock 1)
    row ← some_or (get_control_request logged r.id) missing_row
    ok (row, logged)

abbrev pub is_closed : ControlRequest → Bool
is_closed r = not (is_open r)

-- `clean(error).slice(0, 1000)`
abbrev pub take : ℕ → Text → Text
take zero s = []
take (suc n) [] = []
take (suc n) (c ∷ s) = c ∷ take n s

unfoldable pub fail_open_request :
    Db → Env → ControlRequest → Text → Result Error (ControlRequest × Db)
fail_open_request db env r error = do
  cleaned ← clean error error_required
  guard (count_where (λ x. (x.id == r.id) && is_open x) db.requests == 1) concurrent_update
  let marked = update_request db r.id is_open (λ x. record x {
    state = ControlRequestState.failed;
    failed_at = some (env.clock 0);
    error = some (take 1000 cleaned);
  })
  let logged =
      event marked r.task_id (orchestration_failed r.id none) (codes "pi-parent") (env.clock 1)
  row ← some_or (get_control_request logged r.id) missing_row
  ok (row, logged)

-- A request that is closed is returned as it is, whatever the error text.
unfoldable pub fail_control_request : Db → Env → ℕ → Text → Result Error (ControlRequest × Db)
fail_control_request db env id error = do
  r ← some_or (get_control_request db id) request_not_found
  if is_closed r then ok (r, db) else fail_open_request db env r error

-- The claimed request that has waited longest.
abbrev pub earlier_claim : ControlRequest → ControlRequest → Bool
earlier_claim b a = elim b.claimed_at [
  | none ↦ elim a.claimed_at [ none ↦ ltb b.id a.id | some y ↦ true ]
  | some x ↦ elim a.claimed_at [ none ↦ false | some y ↦ ltb x y || (x == y) && ltb b.id a.id ]
]

unfoldable pub oldest_claim : Db → Option ControlRequest
oldest_claim db =
    first_by earlier_claim (filter_where (λ r. request_state_eq r.state claimed) db.requests)

-- `requestHasMatchingRun`
unfoldable pub request_has_matching_run : Db → ControlRequest → Bool
request_has_matching_run db r =
    if is_go r.command
    then any_where
        (λ b.
          (b.task_id == r.task_id)
          && same_text? b.parent_session_id (some (or_blank (text_or_none r.parent_session_id)))
          && leb r.expected_task_revision b.task_revision)
        db.bindings
    else elim (get_task db r.task_id) [
      | none ↦ false
      | some t ↦ is_ok (control_applicable db t r.command r.target_run_id)
    ]

abbrev pub owner_is_available : (Text → Bool) → ControlRequest → Bool
owner_is_available available r = elim (text_or_none r.parent_session_id) [
  | none ↦ false
  | some s ↦ available s
]

abbrev pub no_owner_no_run : Text
no_owner_no_run = codes "owner unavailable and no matching binding/run"

abbrev pub no_owner_no_target : Text
no_owner_no_target = codes "owner unavailable and control target is no longer current"

abbrev pub requeue : Env → ControlRequest → ControlRequest
requeue env x = record x {
  state = requested;
  recovered_at = some (env.clock 0);
  recovery_reason = some no_owner_no_run;
}

abbrev pub give_up : Env → ControlRequest → ControlRequest
give_up env x = record x {
  state = ControlRequestState.failed;
  failed_at = some (env.clock 0);
  recovered_at = some (env.clock 1);
  recovery_reason = some no_owner_no_target;
  error = some no_owner_no_target;
}

-- A claim that its owner has left goes back to the queue, or fails if it is no GO.
unfoldable pub recover_request : Db → Env → ControlRequest → Db
recover_request db env r =
    if is_go r.command
    then event (update_request db r.id (λ x. request_state_eq x.state claimed) (requeue env))
        r.task_id (orchestration_requeued r.id no_owner_no_run) (codes "recovery") (env.clock 1)
    else event (update_request db r.id (λ x. request_state_eq x.state claimed) (give_up env))
        r.task_id (orchestration_failed r.id (some no_owner_no_target)) (codes "recovery")
        (env.clock 2)

-- `available` is asked of the session that claimed the request.
unfoldable pub reconcile_one_claimed_request : (Text → Bool) → Db → Env → Option ControlRequest × Db
reconcile_one_claimed_request available db env = elim (oldest_claim db) [
  | none ↦ (none, db)
  | some r ↦
      if owner_is_available available r || request_has_matching_run db r
      then (some r, db)
      else (get_control_request (recover_request db env r) r.id, recover_request db env r)
]

unfoldable pub next_undelivered_control_request : Db → Option ControlRequest
next_undelivered_control_request db =
    first_by earlier_request (filter_where (λ r. request_state_eq r.state requested) db.requests)
