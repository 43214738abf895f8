-- ===== src/Routing.antt =====
-- src/routing.ts: the choice of an agent for a piece of work, with its gate and its cache key.
-- The objects of a policy are association lists: a name that an object inherits is not found.
pub mod Policy
pub mod Laws
pub mod Gate
mod Tests
use mazzy_command_center.Prelude.Int.{ℤ}
use mazzy_command_center.Prelude.{
  ℕ, Bool, true, false, List, [], ◌∷◌, Option, none, some, ◌&&◌, ◌||◌, not, ltb, leb, ◌==◌,
  if◌then◌else◌, Text, codes, text_eq, is_empty, trim, trim_or_none, length, Result, ok, err, ◌>>=◌,
  ◌>>◌, guard, some_or, find, any_where, all_where, is_some,
}
use mazzy_command_center.Types.{TaskRisk, low, medium, high, critical}

pub data Intent : Type 0 where
  bounded_recon review implementation architecture package_research : Intent

abbrev pub intent_index : Intent → ℕ
intent_index bounded_recon = 0
intent_index review = 1
intent_index implementation = 2
intent_index architecture = 3
intent_index package_research = 4

-- `ROUTING_INTENTS.includes(value)`, as the intent that the text names.
unfoldable pub intent_of_text : Text → Option Intent
intent_of_text s =
    if text_eq s (codes "bounded-recon")
    then some bounded_recon
    else if text_eq s (codes "review")
    then some review
    else if text_eq s (codes "implementation")
    then some implementation
    else if text_eq s (codes "architecture")
    then some architecture
    else if text_eq s (codes "package-research")
    then some package_research
    else none

unfoldable pub risk_of_text : Text → Option TaskRisk
risk_of_text s =
    if text_eq s (codes "low")
    then some low
    else if text_eq s (codes "medium")
    then some medium
    else if text_eq s (codes "high")
    then some high
    else if text_eq s (codes "critical")
    then some critical
    else none

abbrev pub risk_rank : TaskRisk → ℕ
risk_rank low = 0
risk_rank medium = 1
risk_rank high = 2
risk_rank critical = 3

pub record Agent : Type 0 where
  pub model : Text
  pub skill : Option Text
  pub top_gate : Option Bool

pub record Lane : Type 0 where
  pub agent : Text
  pub max_risk : TaskRisk
  pub cacheable : Bool
  pub requires_gate_reason : Option Bool

-- A number of parsed JSON: whole, or between `floor` and the next, or not finite.
pub data Number : Type 0 where
  whole : ℤ → Number
  between : ℤ → Number
  not_finite : Number

pub record Budgets : Type 0 where
  pub default_usd : Number
  pub high_risk_usd : Number
  pub max_children_per_wave : Number

pub record RoutingPolicy : Type 0 where
  pub prompt_contract_version : Text
  pub tool_contract_version : Text
  pub budgets : Budgets
  pub agents : List (Text × Agent)
  pub lanes : Intent → Lane
  pub escalation_targets : Intent → Text
  pub key_version : Text
  pub deterministic_operations : List Text

pub record RouteInput : Type 0 where
  pub intent : Text
  pub risk : Text
  pub operation : Option Text
  pub input_digest : Option Text
  pub source_revision : Option Text
  pub gate_reason : Option Text

pub data EscalationDecision : Type 0 where
  no_escalation risk_escalation gate_reason_required gate_approved : EscalationDecision

pub record RouteResult : Type 0 where
  pub selected_agent : Text
  pub model : Text
  pub skill : Option Text
  pub escalation_target : Text
  pub escalation_decision : EscalationDecision
  pub cache_eligible : Bool
  pub cache_key : Option Text

pub data RoutingError : Type 0 where
  unknown_intent unknown_risk unknown_agent unknown_review_agent : RoutingError

-- `toLowerCase`, and SHA-256 of the JSON text of a list of texts.
pub record Host : Type 0 where
  pub lower : Text → Text
  pub sha256 : List (Option Text) → Text

-- `policy.agents[name]`
unfoldable pub agent_of : List (Text × Agent) → Text → Option Agent
agent_of agents name = elim (find (λ a. text_eq a.0 name) agents) [
  | none ↦ none
  | some a ↦ some a.1
]

-- A flag that may be missing.
abbrev pub is_set : Option Bool → Bool
is_set none = false
is_set (some b) = b

abbrev pub is_hex_digit : ℕ → Bool
is_hex_digit c = leb 48 c && leb c 57 || leb 65 c && leb c 70 || leb 97 c && leb c 102

-- `/^[a-f0-9]{least,most}$/i` on a text that is given and not empty.
abbrev pub is_hex : ℕ → ℕ → Option Text → Bool
is_hex least most none = false
is_hex least most (some s) = leb least (length s) && leb (length s) most && all_where is_hex_digit s

-- `input.operation?.trim().toLowerCase()`, empty when it is missing.
abbrev pub operation_name : Host → Option Text → Text
operation_name host none = []
operation_name host (some s) = host.lower (trim s)

abbrev pub is_recon : Intent → Bool
is_recon i = intent_index i == 0

unfoldable pub eligible_for_cache : Host → RoutingPolicy → RouteInput → Intent → Text → Bool
eligible_for_cache host policy input intent selected =
    is_recon intent
    && text_eq selected (policy.lanes bounded_recon).agent
    && (policy.lanes intent).cacheable
    && not (is_empty (operation_name host input.operation))
    && any_where (text_eq (operation_name host input.operation)) policy.deterministic_operations
    && is_hex 64 64 input.input_digest
    && is_hex 7 64 input.source_revision

abbrev pub lower? : Host → Option Text → Option Text
lower? host none = none
lower? host (some s) = some (host.lower s)

unfoldable pub cache_key_of : Host → RoutingPolicy → RouteInput → Agent → Text
cache_key_of host policy input agent = host.sha256 (
    some policy.key_version
    ∷ some (operation_name host input.operation)
    ∷ lower? host input.input_digest
    ∷ lower? host input.source_revision
    ∷ some agent.model
    ∷ some policy.prompt_contract_version
    ∷ some policy.tool_contract_version
    ∷ agent.skill
    ∷ [])

abbrev pub exceeds : TaskRisk → Lane → Bool
exceeds risk lane = ltb (risk_rank lane.max_risk) (risk_rank risk)

-- The agent of the lane, or of the escalation when the risk exceeds the lane's.
unfoldable pub first_choice : RoutingPolicy → Intent → TaskRisk → Text
first_choice policy intent risk =
    if exceeds risk (policy.lanes intent)
    then policy.escalation_targets intent
    else (policy.lanes intent).agent

abbrev pub first_decision : Bool → EscalationDecision
first_decision escalated = if escalated then risk_escalation else no_escalation

-- What was selected: its name, its agent and why.
pub record Selection : Type 0 where
  pub name : Text
  pub chosen : Agent
  pub decision : EscalationDecision

-- The gate: a reason is asked of a top-gated agent and of a lane that requires one.
unfoldable pub pass_gate :
    RoutingPolicy → Intent → Bool → Option Text → Text → Agent → Result RoutingError Selection
pass_gate policy intent escalated reason name agent =
    let lane = policy.lanes intent in
    if not (is_set agent.top_gate || is_set lane.requires_gate_reason)
    then ok (record { name = name; chosen = agent; decision = first_decision escalated })
    else if is_some reason
    then ok (record {
      name = name;
      chosen = agent;
      decision =
          if is_set lane.requires_gate_reason && not escalated
          then gate_approved
          else first_decision escalated;
    })
    else some_or (agent_of policy.agents (policy.lanes review).agent) unknown_review_agent
      >>= λ fallback. ok (record {
        name = (policy.lanes review).agent;
        chosen = fallback;
        decision = gate_reason_required;
      })

-- The selection for an intent and a risk that are known.
unfoldable pub select_agent :
    RoutingPolicy → RouteInput → Intent → TaskRisk → Result RoutingError Selection
select_agent policy input intent risk = do
  agent ← some_or (agent_of policy.agents (first_choice policy intent risk)) unknown_agent
  pass_gate policy intent (exceeds risk (policy.lanes intent)) (trim_or_none input.gate_reason)
      (first_choice policy intent risk) agent

unfoldable pub route : Host → RoutingPolicy → RouteInput → Result RoutingError RouteResult
route host policy input = do
  intent ← some_or (intent_of_text input.intent) unknown_intent
  risk ← some_or (risk_of_text input.risk) unknown_risk
  s ← select_agent policy input intent risk
  let eligible = eligible_for_cache host policy input intent s.name
  ok (record {
    selected_agent = s.name;
    model = s.chosen.model;
    skill = s.chosen.skill;
    escalation_target = policy.escalation_targets intent;
    escalation_decision = s.decision;
    cache_eligible = eligible;
    cache_key = if eligible then some (cache_key_of host policy input s.chosen) else none;
  })
