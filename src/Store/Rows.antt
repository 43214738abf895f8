-- ===== src/Store/Rows.antt =====
-- The tables of src/store.ts as lists of records, in the order of their rowids, and the values
-- that a call of the store takes from outside.
use Prim.Native.String.{String}
use mazzy_command_center.Prelude.{ℕ, Bool, List, Option, none, some, Text}
use mazzy_command_center.Prelude.Int.{ℤ}
use mazzy_command_center.Types.{
  TaskState, TaskType, TaskRisk, RunRole, RunBindingState, RunLifecycle, EvidenceVerdict,
  ControlCommand, ControlRequestState,
}

-- JSON values. A UUID is a number of 128 bits, whose text is ordered as the number is.
mutual
  pub data Json : Type 0 where
    null : Json
    bool : Bool → Json
    num : ℕ → Json
    str : Text → Json
    uuid : ℕ → Json
    state : TaskState → Json
    type : TaskType → Json
    risk : TaskRisk → Json
    int : ℤ → Json
    role : RunRole → Json
    command : ControlCommand → Json
    arr : Items → Json
    obj : Fields → Json

  pub data Items : Type 0 where
    nil : Items
    item : Json → Items → Items

  pub data Fields : Type 0 where
    end : Fields
    field : String → Json → Fields → Fields

-- `JSON.stringify` leaves out a field that is undefined.
abbrev pub field? : String → Option Json → Fields → Fields
field? k none fs = fs
field? k (some v) fs = field k v fs

abbrev pub str? : Option Text → Option Json
str? none = none
str? (some s) = some (str s)

abbrev pub num? : Option ℕ → Option Json
num? none = none
num? (some n) = some (num n)

-- `value ?? null`
abbrev pub or_null : Option Json → Json
or_null none = null
or_null (some v) = v

-- What one call takes from outside: the successive readings of the clock, in milliseconds, the
-- successive random UUIDs, and SHA-256 of a value's JSON text.
pub record Env : Type 0 where
  pub clock : ℕ → ℕ
  pub random_uuid : ℕ → ℕ
  pub sha256 : Json → Text

pub record Task : Type 0 where
  pub id : ℕ
  pub title : Text
  pub description : Text
  pub type : TaskType
  pub state : TaskState
  pub priority : ℤ
  pub risk : TaskRisk
  pub executor_actor : Option Text
  pub revision : ℕ
  pub acceptance_revision : ℕ
  pub acceptance_digest : Text
  pub create_idempotency_key : Option Text
  pub create_operation_fingerprint : Option Text
  pub created_at : ℕ
  pub updated_at : ℕ

pub record RunBinding : Type 0 where
  pub id : ℕ
  pub task_id : ℕ
  pub task_revision : ℕ
  pub acceptance_revision : ℕ
  pub acceptance_digest : Text
  pub run_id : Text
  pub agent : Text
  pub role : RunRole
  pub state : RunBindingState
  pub idempotency_key : Text
  pub operation_fingerprint : Text
  pub parent_session_id : Option Text
  pub child_session_id : Option Text
  pub lifecycle : RunLifecycle
  pub model : Option Text
  pub cycle : Option ℕ
  pub last_activity_at : ℕ
  pub current_activity : Option Text
  pub current_tool : Option Text
  pub created_at : ℕ
  pub updated_at : ℕ

pub record Evidence : Type 0 where
  pub id : ℕ
  pub task_id : ℕ
  pub task_revision : ℕ
  pub acceptance_revision : ℕ
  pub kind : Text
  pub verdict : EvidenceVerdict
  pub actor : Text
  pub payload : Json
  pub created_at : ℕ
  pub run_id : Option Text
  pub binding_id : Option ℕ

pub record ReviewReport : Type 0 where
  pub id : ℕ
  pub task_id : ℕ
  pub acceptance_revision : ℕ
  pub worker_run_id : Text
  pub agent : Text
  pub parent_session_id : Option Text
  pub child_session_id : Option Text
  pub summary : Text
  pub what_changed : Text
  pub checks : Text
  pub how_to_use : Text
  pub acceptance_criteria : Json
  pub results : Json
  pub limitations : Text
  pub model : Option Text
  pub session_id : Option Text
  pub run_id : Option Text
  pub cycle : Option ℕ
  pub created_at : ℕ
  pub updated_at : ℕ

pub record ControlRequest : Type 0 where
  pub id : ℕ
  pub idempotency_key : Text
  pub operation_fingerprint : Text
  pub task_id : ℕ
  pub expected_task_revision : ℕ
  pub command : ControlCommand
  pub state : ControlRequestState
  pub approved_agent : Option Text
  pub instructions : Option Text
  pub max_cycles : ℕ
  pub target_run_id : Option Text
  pub parent_session_id : Option Text
  pub child_session_id : Option Text
  pub child_run_id : Option Text
  pub requested_at : ℕ
  pub delivered_at : Option ℕ
  pub claimed_at : Option ℕ
  pub completed_at : Option ℕ
  pub failed_at : Option ℕ
  pub recovered_at : Option ℕ
  pub recovery_reason : Option Text
  pub error : Option Text

-- The type of an event together with its payload.
pub data EventBody : Type 0 where
  task_created : Text → TaskState → TaskType → EventBody
  task_updated : TaskState → TaskState → ℕ → Bool → EventBody
  run_superseded_for_acceptance_edit run_released : ℕ → EventBody
  run_assigned : Text → RunRole → ℕ → ℕ → EventBody
  run_transferred : Text → Text → ℕ → EventBody
  run_recovered : Text → ℕ → EventBody
  run_completion_attested : Text → ℕ → Bool → Json → EventBody
  report_imported : Text → ℕ → EventBody
  evidence_attested : ℕ → EvidenceVerdict → ℕ → EventBody
  evidence_recorded : ℕ → EventBody
  run_activity_attested : Text → RunLifecycle → EventBody
  orchestration_requested : ℕ → ControlCommand → EventBody
  orchestration_delivered orchestration_claimed : ℕ → EventBody
  orchestration_failed : ℕ → Option Text → EventBody
  orchestration_completed : ℕ → Option Text → EventBody
  orchestration_requeued : ℕ → Text → EventBody

pub record Event : Type 0 where
  pub id : ℕ
  pub task_id : ℕ
  pub body : EventBody
  pub actor : Text
  pub created_at : ℕ

pub record Db : Type 0 where
  pub tasks : List Task
  pub bindings : List RunBinding
  pub evidence : List Evidence
  pub reports : List ReviewReport
  pub requests : List ControlRequest
  pub events : List Event
  -- The last id that AUTOINCREMENT gave to an event.
  pub last_event : ℕ

pub data Error : Type 0 where
  -- a required text that is blank
  title_required key_required run_id_required agent_required actor_required : Error
  kind_required session_required error_required outcome_required : Error
  -- a value out of its range
  bad_type bad_priority bad_verdict bad_request bad_cycle : Error
  key_too_long instructions_too_long field_too_long bad_report : Error
  -- the checks against the stored rows
  initial_state revision_required task_not_found revision_conflict : Error
  done_content invalid_transition running_needs_binding review_needs_report : Error
  done_needs_worker done_needs_pass concurrent_update : Error
  key_conflict run_already_bound cannot_assign reviewer_needs_review cannot_transfer : Error
  needs_completed_worker needs_review needs_reviewer same_reviewer needs_binding : Error
  go_not_applicable go_active_worker needs_active_worker : Error
  request_not_found request_state go_needs_worker : Error
  -- a constraint of the schema, or a row that is missing where the code reads it
  constraint missing_row : Error
