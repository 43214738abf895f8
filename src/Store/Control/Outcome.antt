-- ===== src/Store/Control/Outcome.antt =====
-- What a successful control operation of src/store.ts has done to the requests.
use mazzy_command_center.Store.Lookup.{get_task-id, require_revision-eq-ok}
use mazzy_command_center.Prelude.{length, leb, ltb, some-eq, text_eq}
use mazzy_command_center.Store.Control.{
  by_request_key, instructions_too_long, max_control_instructions_length, key_conflict,
  require_revision, bad_request, replay_request_or, create_fresh_request, key_required, trim?,
  default_cycles,
}
use mazzy_command_center.Prelude.{◌>>=◌}
use mathlib.Core.Path.{subst}
use mazzy_command_center.Prelude.{some_or-eq-ok, count_where, find_holds}
use mazzy_command_center.Store.Queries.{require_revision, clean, event}
use mazzy_command_center.Prelude.{
  codes, some_or, Result, ℕ, Bool, true, false, [], ◌∷◌, ◌++◌, Option, none, some, ◌≡◌, ◌⊎◌, inl,
  inr, refl, sym, ap, ◌∙◌, ok, arith, ◌==◌, ◌||◌, ◌&&◌, not, ==_iff, Bool-cases, Option-cases, Text,
  find, update_where, any_where, on_guard, on_ok,
}
use mazzy_command_center.Types.{
  ControlRequestState, requested, delivered, claimed, request_state_eq, is_go,
}
use mazzy_command_center.Store.Rows.{Error, Env, Task, ControlRequest, EventBody, Db}
use mazzy_command_center.Store.Control.{
  orchestration_requested, give_up, request_has_matching_run, new_request, constraint, requeue,
  owner_is_available, coalesce, add_request, insert_request, oldest_claim, recover_request,
  missing_row, orchestration_failed, take, orchestration_claimed, orchestration_completed,
  control_applicable, concurrent_update, error_required, claim_task, is_open, session_required,
  check_completion, request_state, is_closed, clean, fail_open_request, orchestration_delivered,
  request_not_found, Error, update_request, event, CreateControlRequestInput, RequestReply,
  CompleteControlRequestInput, request_clashes, outstanding_go, get_control_request,
  create_control_request, mark_delivered, claim_control_request, complete_control_request,
  fail_control_request, reconcile_one_claimed_request,
}

-- The moves of a request: forward to delivery and claim, to an end, or back when its owner is lost.
abbrev pub request_moves : ControlRequestState → ControlRequestState → Bool
request_moves requested to =
    request_state_eq to delivered
    || request_state_eq to claimed
    || request_state_eq to ControlRequestState.failed
request_moves delivered to =
    request_state_eq to claimed || request_state_eq to ControlRequestState.failed
request_moves claimed to =
    request_state_eq to ControlRequestState.completed
    || request_state_eq to ControlRequestState.failed
    || request_state_eq to requested
request_moves ControlRequestState.completed to = false
request_moves ControlRequestState.failed to = false
request_moves ControlRequestState.cancelled to = false

-- A request moved, and what it asks for is as it was.
pub record IsNextRequest (x y : ControlRequest) : Type 0 where
  pub same_id : y.id ≡ x.id
  pub same_key : y.idempotency_key ≡ x.idempotency_key
  pub same_task : y.task_id ≡ x.task_id
  pub same_revision : y.expected_task_revision ≡ x.expected_task_revision
  pub same_command : y.command ≡ x.command
  pub same_fingerprint : y.operation_fingerprint ≡ x.operation_fingerprint
  pub same_agent : y.approved_agent ≡ x.approved_agent
  pub same_instructions : y.instructions ≡ x.instructions
  pub same_cycles : y.max_cycles ≡ x.max_cycles
  pub same_target : y.target_run_id ≡ x.target_run_id
  pub same_time : y.requested_at ≡ x.requested_at
  pub moves : request_moves x.state y.state ≡ true

-- The other tables are as they were.
abbrev pub SameTables : Db → Db → Type 0
SameTables db db' = (db'.tasks ≡ db.tasks) × (db'.bindings ≡ db.bindings)

pub data Changed (db db' : Db) : Type 0 where
  kept : db ≡ db' → Changed db db'
  added :
      (r : ControlRequest)
      → any_where (request_clashes r) db.requests ≡ false
      → (is_go r.command ≡ true → outstanding_go db r.task_id r.expected_task_revision ≡ none)
      → db'.requests ≡ db.requests ++ r ∷ []
      → SameTables db db'
      → Changed db db'
  moved :
      (test : ControlRequest → Bool) (f : ControlRequest → ControlRequest)
      → ((x : ControlRequest) → test x ≡ true → IsNextRequest x (f x))
      → db'.requests ≡ update_where test f db.requests
      → SameTables db db'
      → Changed db db'
  -- The update is by the id alone, of the row that was read.
  claims :
      (r : ControlRequest) (f : ControlRequest → ControlRequest)
      → get_control_request db r.id ≡ some r
      → (request_state_eq r.state requested || request_state_eq r.state delivered) ≡ true
      → ((x : ControlRequest)
          → (request_state_eq x.state requested || request_state_eq x.state delivered) ≡ true
          → IsNextRequest x (f x))
      → db'.requests ≡ update_where (λ x. (x.id == r.id) && true) f db.requests
      → SameTables db db'
      → Changed db db'

same_result :
    {A : Type 0} {x y : A} {d e : Db}
    → ◌≡◌ {A = Result Error (A × Db)} (ok (x, d)) (ok (y, e))
    → d ≡ e
same_result h = cc

-- The last steps of an update: the event, and the row that is read back.
abbrev back_with : Db → ℕ → Result Error (ControlRequest × Db)
back_with d n = some_or (get_control_request d n) missing_row >>= λ r. ok (r, d)

finish_moved :
    (db db' : Db) (id n : ℕ) (body : EventBody) (actor : Text) (at : ℕ) (row : ControlRequest)
    (test : ControlRequest → Bool) (f : ControlRequest → ControlRequest)
    → back_with
        (event (record db { requests = update_where test f db.requests }) id body actor at)
        n
      ≡ ok (row, db')
    → (db'.requests ≡ update_where test f db.requests) × SameTables db db'
unfolding event
finish_moved db db' id n body actor at row test f h =
    let changed : Db = record db { requests = update_where test f db.requests } in
    on_ok (some_or (get_control_request (event changed id body actor at) n) missing_row) h λ r _ h1.
      let same : event changed id body actor at ≡ db' = same_result h1 in
      (
        sym (ap (λ d. d.requests) same),
        (sym (ap (λ d. d.tasks) same), sym (ap (λ d. d.bindings) same)),
      )

get_control_request_self :
    (db : Db) (id : ℕ) (r : ControlRequest)
    → get_control_request db id ≡ some r
    → get_control_request db r.id ≡ some r
unfolding get_control_request
get_control_request_self db id r h =
    subst (λ i. find (λ x. x.id == i) db.requests ≡ some r)
      (sym ((==_iff r.id id).0 (find_holds (λ x. x.id == id) db.requests r h))) h

pub mark_delivered-Changed :
    (db : Db) (env : Env) (id : ℕ) (row : ControlRequest) (db' : Db)
    → mark_delivered db env id ≡ ok (row, db')
    → Changed db db'
unfolding mark_delivered update_request
mark_delivered-Changed db env id row db' h =
    let test : ControlRequest → Bool = λ x. (x.id == id) && request_state_eq x.state requested in
    let f : ControlRequest → ControlRequest =
      λ x. record x { state = delivered; delivered_at = some (env.clock 0) } in
    on_ok (some_or (get_control_request db id) request_not_found) h λ r _ h1.
      elim (Bool-cases (request_state_eq r.state requested)) [
        | inr other ↦ kept (same_result (rw other at h1))
        | inl queued ↦
            let (rs, ts) =
              finish_moved db db' r.task_id id (orchestration_delivered id) (codes "bridge")
                (env.clock 1) row test f (rw queued at h1) in
            moved test f
              (λ x t. record {
                same_id = refl;
                same_key = refl;
                same_task = refl;
                same_revision = refl;
                same_command = refl;
                same_fingerprint = refl;
                same_agent = refl;
                same_instructions = refl;
                same_cycles = refl;
                same_target = refl;
                same_time = refl;
                moves = ground arith;
              })
              rs ts
      ]

pub claim_control_request-Changed :
    (db : Db) (env : Env) (id : ℕ) (session : Text) (row : ControlRequest) (db' : Db)
    → claim_control_request db env id session ≡ ok (row, db')
    → Changed db db'
unfolding claim_control_request update_request
claim_control_request-Changed db env id session row db' h =
    on_ok (clean session session_required) h λ parent _ h1.
      on_ok (some_or (get_control_request db id) request_not_found) h1 λ r found h2.
        on_ok (claim_task db r) h2 λ t _ h3.
          on_ok (control_applicable db t r.command r.target_run_id) h3 λ _ _ h4.
            elim (Bool-cases (request_state_eq r.state claimed)) [
              | inl already ↦ kept (same_result (rw already at h4))
              | inr other ↦
                  let f : ControlRequest → ControlRequest = λ x. record x {
                    state = claimed;
                    claimed_at = some (env.clock 0);
                    parent_session_id = some parent;
                  } in
                  on_guard
                    (request_state_eq r.state requested || request_state_eq r.state delivered)
                    request_state (rw other at h4)
                    λ waits h5.
                      let (rs, ts) =
                        finish_moved db db' r.task_id r.id (orchestration_claimed r.id)
                          (codes "pi-parent") (env.clock 1) row (λ x. (x.id == r.id) && true) f
                          h5 in
                      claims r f
                        (get_control_request_self db id r (some_or-eq-ok _ request_not_found found))
                        waits
                        (λ x w. record {
                          same_id = refl;
                          same_key = refl;
                          same_task = refl;
                          same_revision = refl;
                          same_command = refl;
                          same_fingerprint = refl;
                          same_agent = refl;
                          same_instructions = refl;
                          same_cycles = refl;
                          same_target = refl;
                          same_time = refl;
                          moves = ground arith;
                        })
                        rs ts
            ]

pub complete_control_request-Changed :
    (db : Db) (env : Env) (input : CompleteControlRequestInput) (row : ControlRequest) (db' : Db)
    → complete_control_request db env input ≡ ok (row, db')
    → Changed db db'
unfolding complete_control_request update_request
complete_control_request-Changed db env input row db' h =
    on_ok (some_or (get_control_request db input.id) request_not_found) h λ r _ h1.
      elim (Bool-cases (request_state_eq r.state ControlRequestState.completed)) [
        | inl already ↦ kept (same_result (rw already at h1))
        | inr other ↦
            let test : ControlRequest → Bool =
              λ x. (x.id == r.id) && request_state_eq x.state claimed in
            let f : ControlRequest → ControlRequest = λ x. record x {
              state = ControlRequestState.completed;
              completed_at = some (env.clock 0);
              child_session_id = input.child_session_id;
              child_run_id = input.child_run_id;
            } in
            on_guard (request_state_eq r.state claimed) request_state (rw other at h1) λ _ h2.
              on_ok (check_completion db r input) h2 λ _ _ h3.
                on_guard (count_where test db.requests == 1) concurrent_update h3 λ _ h4.
                  let (rs, ts) =
                    finish_moved db db' r.task_id r.id (orchestration_completed r.id input.outcome)
                      (codes "pi-parent") (env.clock 1) row test f h4 in
                  moved test f
                    (λ x t. record {
                      same_id = refl;
                      same_key = refl;
                      same_task = refl;
                      same_revision = refl;
                      same_command = refl;
                      same_fingerprint = refl;
                      same_agent = refl;
                      same_instructions = refl;
                      same_cycles = refl;
                      same_target = refl;
                      same_time = refl;
                      moves = ground arith;
                    })
                    rs ts
      ]

fail_open_request-Changed :
    (db : Db) (env : Env) (r : ControlRequest) (error : Text) (row : ControlRequest) (db' : Db)
    → fail_open_request db env r error ≡ ok (row, db')
    → Changed db db'
unfolding fail_open_request update_request
fail_open_request-Changed db env r error row db' h =
    let test : ControlRequest → Bool = λ x. (x.id == r.id) && is_open x in
    on_ok (clean error error_required) h λ cleaned _ h1.
      on_guard (count_where test db.requests == 1) concurrent_update h1 λ _ h2.
        let f : ControlRequest → ControlRequest = λ x. record x {
          state = ControlRequestState.failed;
          failed_at = some (env.clock 0);
          error = some (take 1000 cleaned);
        } in
        let (rs, ts) =
          finish_moved db db' r.task_id r.id (orchestration_failed r.id none) (codes "pi-parent")
            (env.clock 1) row test f h2 in
        moved test f
          (λ x t. record {
            same_id = refl;
            same_key = refl;
            same_task = refl;
            same_revision = refl;
            same_command = refl;
            same_fingerprint = refl;
            same_agent = refl;
            same_instructions = refl;
            same_cycles = refl;
            same_target = refl;
            same_time = refl;
            moves = ground arith;
          })
          rs ts

pub fail_control_request-Changed :
    (db : Db) (env : Env) (id : ℕ) (error : Text) (row : ControlRequest) (db' : Db)
    → fail_control_request db env id error ≡ ok (row, db')
    → Changed db db'
unfolding fail_control_request
fail_control_request-Changed db env id error row db' h =
    on_ok (some_or (get_control_request db id) request_not_found) h λ r _ h1.
      elim (Bool-cases (is_closed r)) [
        | inl closed ↦ kept (same_result (rw closed at h1))
        | inr waits ↦ fail_open_request-Changed db env r error row db' (rw waits at h1)
      ]

reconcile_moved : (db : Db) (env : Env) (r : ControlRequest) → Changed db (recover_request db env r)
unfolding recover_request update_request event
reconcile_moved db env r =
    let test : ControlRequest → Bool = λ x. (x.id == r.id) && request_state_eq x.state claimed in
    elim (Bool-cases (is_go r.command)) [
      | inl queue ↦
          moved test (requeue env)
            (λ x t. record {
              same_id = refl;
              same_key = refl;
              same_task = refl;
              same_revision = refl;
              same_command = refl;
              same_fingerprint = refl;
              same_agent = refl;
              same_instructions = refl;
              same_cycles = refl;
              same_target = refl;
              same_time = refl;
              moves = ground arith;
            })
            (rw queue) (rw queue, rw queue)
      | inr fails ↦
          moved test (give_up env)
            (λ x t. record {
              same_id = refl;
              same_key = refl;
              same_task = refl;
              same_revision = refl;
              same_command = refl;
              same_fingerprint = refl;
              same_agent = refl;
              same_instructions = refl;
              same_cycles = refl;
              same_target = refl;
              same_time = refl;
              moves = ground arith;
            })
            (rw fails) (rw fails, rw fails)
    ]

pub reconcile_one_claimed_request-Changed :
    (available : Text → Bool) (db : Db) (env : Env)
    → Changed db (reconcile_one_claimed_request available db env).1
unfolding reconcile_one_claimed_request
reconcile_one_claimed_request-Changed available db env = elim (Option-cases (oldest_claim db)) [
  | inl no_claim ↦ rw (reconcile_one_claimed_request, no_claim) (kept refl)
  | inr (r, here) ↦
      elim (Bool-cases (owner_is_available available r || request_has_matching_run db r)) [
        | inl owned ↦ rw (reconcile_one_claimed_request, here, owned) (kept refl)
        | inr lost ↦ rw (reconcile_one_claimed_request, here, lost) (reconcile_moved db env r)
      ]
]

insert_request-eq-ok :
    (db : Db) (r : ControlRequest) (db' : Db)
    → insert_request db r ≡ ok db'
    → (any_where (request_clashes r) db.requests ≡ false)
      × (record db { requests = db.requests ++ r ∷ [] } ≡ db')
unfolding insert_request
insert_request-eq-ok db r db' h =
    on_guard (not (any_where (request_clashes r) db.requests)) constraint h
      λ fresh e. (ground arith, cc)

add_request-Changed :
    (db : Db) (env : Env) (key fp : Text) (t : Task) (input : CreateControlRequestInput)
    (reply : RequestReply) (db' : Db)
    → t.id ≡ input.task_id
    → input.expected_task_revision ≡ t.revision
    → coalesce db input.command input.task_id input.expected_task_revision ≡ none
    → add_request db env key fp t input ≡ ok (reply, db')
    → Changed db db'
unfolding add_request event coalesce
add_request-Changed db env key fp t input reply db' same_task same_revision alone h =
    let r : ControlRequest = new_request env key fp t input in
    on_ok (insert_request db r) h λ inserted done h1.
      let logged : Db =
        event inserted t.id (orchestration_requested r.id input.command) (codes "web")
          (env.clock 1) in
      on_ok (some_or (get_control_request logged r.id) missing_row) h1 λ row _ h2.
        let (fresh, e) = insert_request-eq-ok db r inserted done in
        let same : logged ≡ db' = same_result h2 in
        added r fresh (λ is_one. ground arith)
          (sym (ap (λ d. d.requests) same) ∙ sym (ap (λ d. d.requests) e))
          (
            sym (ap (λ d. d.tasks) same) ∙ sym (ap (λ d. d.tasks) e),
            sym (ap (λ d. d.bindings) same) ∙ sym (ap (λ d. d.bindings) e),
          )

create_fresh_request-Changed :
    (db : Db) (env : Env) (key fp : Text) (input : CreateControlRequestInput) (reply : RequestReply)
    (db' : Db)
    → create_fresh_request db env key fp input ≡ ok (reply, db')
    → Changed db db'
unfolding create_fresh_request
create_fresh_request-Changed db env key fp input reply db' h =
    on_ok (require_revision db input.task_id (some input.expected_task_revision)) h λ t required h1.
      on_ok (control_applicable db t input.command input.target_run_id) h1 λ _ _ h2.
        let (found, revision) = require_revision-eq-ok db input.task_id _ t required in
        elim (Option-cases (coalesce db input.command input.task_id input.expected_task_revision)) [
          | inr (r, joined) ↦ kept (same_result (rw joined at h2))
          | inl alone ↦
              add_request-Changed db env key fp t input reply db'
                (get_task-id db input.task_id t found) (some-eq revision) alone (rw alone at h2)
        ]

replay_request-cases :
    (db : Db) (prior : Option ControlRequest) (fp : Text) (fresh : Result Error (RequestReply × Db))
    (reply : RequestReply) (db' : Db)
    → replay_request_or db prior fp fresh ≡ ok (reply, db')
    → (db ≡ db') ⊎ (fresh ≡ ok (reply, db'))
replay_request-cases db none fp fresh reply db' h = inr h
replay_request-cases db (some old) fp fresh reply db' h =
    inl (on_guard (text_eq old.operation_fingerprint fp) key_conflict h λ same e. same_result e)

pub create_control_request-Changed :
    (db : Db) (env : Env) (input : CreateControlRequestInput) (reply : RequestReply) (db' : Db)
    → create_control_request db env input ≡ ok (reply, db')
    → Changed db db'
unfolding create_control_request
create_control_request-Changed db env input reply db' h =
    on_ok (clean input.idempotency_key key_required) h λ key _ h1.
      on_guard (leb 1 (default_cycles input.max_cycles) && leb (default_cycles input.max_cycles) 10)
        bad_request h1
        λ _ h2.
          on_guard
            (elim (trim? input.instructions) [
              | none ↦ true
              | some s ↦ not (ltb max_control_instructions_length (length s))
            ])
            instructions_too_long h2
            λ _ h3. elim (replay_request-cases db (by_request_key db key) _ _ reply db' h3) [
              | inl same ↦ kept same
              | inr fresh ↦ create_fresh_request-Changed db env key _ input reply db' fresh
            ]
