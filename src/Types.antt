-- ===== src/Types.antt =====
-- src/types.ts: the enumerations of the durable records, and the task state machine.
pub mod Laws
mod Tests
use mazzy_command_center.Prelude.{
  ℕ, Bool, true, false, List, [], ◌∷◌, Option, none, some, not, ◌&&◌, ◌==◌, if◌then◌else◌, Text,
  codes, text_eq, filter_where, any_where,
}

pub data TaskState : Type 0 where
  draft backlog ready claimed running review blocked done failed cancelled : TaskState

unfoldable pub task_states : List TaskState
task_states =
    draft ∷ backlog ∷ ready ∷ claimed ∷ running ∷ review ∷ blocked ∷ done ∷ failed ∷ cancelled ∷ []

-- The position in `TASK_STATES`: equality of states is equality of positions.
abbrev pub state_index : TaskState → ℕ
state_index draft = 0
state_index backlog = 1
state_index ready = 2
state_index claimed = 3
state_index running = 4
state_index review = 5
state_index blocked = 6
state_index done = 7
state_index failed = 8
state_index cancelled = 9

unfoldable pub state_eq : TaskState → TaskState → Bool
state_eq a b = state_index a == state_index b

-- `list.includes(state)`
unfoldable pub includes_state : TaskState → List TaskState → Bool
unfolding any_where state_eq
includes_state s l = any_where (state_eq s) l

unfoldable pub allowed_transitions : TaskState → List TaskState
allowed_transitions draft = backlog ∷ cancelled ∷ []
allowed_transitions backlog = draft ∷ ready ∷ cancelled ∷ []
allowed_transitions ready = backlog ∷ claimed ∷ running ∷ blocked ∷ cancelled ∷ []
allowed_transitions claimed = ready ∷ running ∷ blocked ∷ cancelled ∷ []
allowed_transitions running = review ∷ blocked ∷ failed ∷ cancelled ∷ []
allowed_transitions review = running ∷ ready ∷ done ∷ blocked ∷ failed ∷ cancelled ∷ []
allowed_transitions blocked = backlog ∷ ready ∷ running ∷ failed ∷ cancelled ∷ []
allowed_transitions done = []
allowed_transitions failed = backlog ∷ ready ∷ cancelled ∷ []
allowed_transitions cancelled = backlog ∷ []

-- The moves that the dashboard offers.
unfoldable pub ui_transitions : TaskState → List TaskState
unfolding allowed_transitions filter_where state_eq
ui_transitions s =
    filter_where (λ t. not (state_eq t done) && not (state_eq t running) && not (state_eq t review))
      (allowed_transitions s)

unfoldable pub is_allowed_transition : TaskState → TaskState → Bool
unfolding includes_state allowed_transitions
is_allowed_transition from to = includes_state to (allowed_transitions from)

pub data TaskType : Type 0 where
  epic feature task bug : TaskType

-- `TASK_TYPES.includes(value)`, as the type that the text names.
unfoldable pub type_of_text : Text → Option TaskType
unfolding text_eq
type_of_text s =
    if text_eq s (codes "epic")
    then some epic
    else if text_eq s (codes "feature")
    then some feature
    else if text_eq s (codes "task")
    then some task
    else if text_eq s (codes "bug")
    then some bug
    else none

pub data TaskRisk : Type 0 where
  low medium high critical : TaskRisk

pub data RunRole : Type 0 where
  worker reviewer : RunRole

abbrev pub role_index : RunRole → ℕ
role_index worker = 0
role_index reviewer = 1

abbrev pub role_eq : RunRole → RunRole → Bool
role_eq a b = role_index a == role_index b

pub data RunBindingState : Type 0 where
  active superseded completed failed : RunBindingState

abbrev pub binding_state_index : RunBindingState → ℕ
binding_state_index active = 0
binding_state_index superseded = 1
binding_state_index completed = 2
binding_state_index failed = 3

abbrev pub binding_state_eq : RunBindingState → RunBindingState → Bool
binding_state_eq a b = binding_state_index a == binding_state_index b

pub data RunLifecycle : Type 0 where
  queued running paused needs_attention completed failed stopped : RunLifecycle

pub data EvidenceVerdict : Type 0 where
  pass fail uncertain : EvidenceVerdict

unfoldable pub verdict_of_text : Text → Option EvidenceVerdict
unfolding text_eq
verdict_of_text s =
    if text_eq s (codes "PASS")
    then some pass
    else if text_eq s (codes "FAIL")
    then some fail
    else if text_eq s (codes "UNCERTAIN")
    then some uncertain
    else none

abbrev pub is_pass : EvidenceVerdict → Bool
is_pass pass = true
is_pass _ = false

pub data ControlCommand : Type 0 where
  go pause stop : ControlCommand

abbrev pub is_go : ControlCommand → Bool
is_go go = true
is_go _ = false

pub data ControlRequestState : Type 0 where
  requested delivered claimed completed failed cancelled : ControlRequestState

abbrev pub request_state_index : ControlRequestState → ℕ
request_state_index requested = 0
request_state_index delivered = 1
request_state_index claimed = 2
request_state_index completed = 3
request_state_index failed = 4
request_state_index cancelled = 5

abbrev pub request_state_eq : ControlRequestState → ControlRequestState → Bool
request_state_eq a b = request_state_index a == request_state_index b
