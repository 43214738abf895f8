-- ===== src/Routing/Policy.antt =====
-- `validateRoutingPolicy` of src/routing.ts: the checks of an untrusted value, in their order.
use mazzy_command_center.Prelude.{
  Bool, true, false, List, [], ◌∷◌, Option, none, some, ◌&&◌, not, ◌==◌, if◌then◌else◌, Text, codes,
  text_eq, is_empty, trim, Result, ok, ◌>>=◌, ◌>>◌, guard, some_or, is_some,
}
use mazzy_command_center.Prelude.Int.{pos}
use mazzy_command_center.Types.{TaskRisk}
use mazzy_command_center.Routing.{
  Intent, bounded_recon, review, implementation, architecture, package_research, intent_of_text,
  risk_of_text, Number, whole, between, Budgets, Agent, Lane, RoutingPolicy, agent_of,
}

-- A value of parsed JSON. The entries of an object stand in the order of `Object.entries`.
mutual
  pub data Value : Type 0 where
    null : Value
    boolean : Bool → Value
    number : Number → Value
    string : Text → Value
    array : Elements → Value
    object : Entries → Value

  pub data Elements : Type 0 where
    no_element : Elements
    element : Value → Elements → Elements

  pub data Entries : Type 0 where
    no_entry : Entries
    entry : Text → Value → Entries → Entries

pub data PolicyError : Type 0 where
  bad_version contract_versions bad_budgets sections bad_agent unknown_lane : PolicyError
  unknown_escalation_lane bad_lane unknown_lane_agent unknown_target bad_cache : PolicyError

-- `value[key]` of an object, undefined when there is no such entry.
abbrev pub entry_of : Entries → Text → Option Value
entry_of no_entry key = none
entry_of (entry k v rest) key = if text_eq k key then some v else entry_of rest key

-- `isRecord(value)`, as the entries of the object.
abbrev pub record_of : Option Value → Option Entries
record_of (some (object fields)) = some fields
record_of _ = none

-- `isNonEmptyString(value)`, as the text.
abbrev pub text_of : Option Value → Option Text
text_of (some (string s)) = if is_empty (trim s) then none else some s
text_of _ = none

abbrev pub number_of : Option Value → Option Number
number_of (some (number n)) = some n
number_of _ = none

abbrev pub bool_of : Option Value → Option Bool
bool_of (some (boolean b)) = some b
bool_of _ = none

-- `undefined`, or a value that the reader takes.
abbrev pub optional {ℓ} :
    {A : Type ℓ} → (Option Value → Option A) → Option Value → Option (Option A)
optional read none = some none
optional read (some v) = elim (read (some v)) [ none ↦ none | some a ↦ some (some a) ]

abbrev pub is_finite_not_negative : Number → Bool
is_finite_not_negative (whole (pos n)) = true
is_finite_not_negative (between (pos n)) = true
is_finite_not_negative _ = false

abbrev pub is_positive_integer : Number → Bool
is_positive_integer (whole (pos n)) = not (n == 0)
is_positive_integer _ = false

unfoldable pub budgets_of : Option Value → Result PolicyError Budgets
budgets_of value = do
  fields ← some_or (record_of value) bad_budgets
  default_usd ← some_or (number_of (entry_of fields (codes "defaultUsd"))) bad_budgets
  high_risk_usd ← some_or (number_of (entry_of fields (codes "highRiskUsd"))) bad_budgets
  children ← some_or (number_of (entry_of fields (codes "maxChildrenPerWave"))) bad_budgets
  guard
      (is_finite_not_negative default_usd
        && is_finite_not_negative high_risk_usd
        && is_positive_integer children)
      bad_budgets
  ok (record {
    default_usd = default_usd;
    high_risk_usd = high_risk_usd;
    max_children_per_wave = children;
  })

unfoldable pub agent_of_value : Value → Result PolicyError Agent
agent_of_value value = do
  fields ← some_or (record_of (some value)) bad_agent
  model ← some_or (text_of (entry_of fields (codes "model"))) bad_agent
  skill ← some_or (optional text_of (entry_of fields (codes "skill"))) bad_agent
  top_gate ← some_or (optional bool_of (entry_of fields (codes "topGate"))) bad_agent
  ok (record { model = model; skill = skill; top_gate = top_gate })

unfoldable pub agents_of : Entries → Result PolicyError (List (Text × Agent))
agents_of no_entry = ok []
agents_of (entry name value rest) = do
  agent ← agent_of_value value
  others ← agents_of rest
  ok ((name, agent) ∷ others)

-- Every key is an intent.
abbrev pub all_intents : Entries → Bool
all_intents no_entry = true
all_intents (entry name value rest) = is_some (intent_of_text name) && all_intents rest

abbrev pub intent_text : Intent → Text
intent_text bounded_recon = codes "bounded-recon"
intent_text review = codes "review"
intent_text implementation = codes "implementation"
intent_text architecture = codes "architecture"
intent_text package_research = codes "package-research"

abbrev pub risk_of_value : Option Value → Option TaskRisk
risk_of_value (some (string s)) = risk_of_text s
risk_of_value _ = none

-- One round of the loop over the intents: the lane and its escalation target.
unfoldable pub lane_of :
    List (Text × Agent) → Entries → Entries → Intent → Result PolicyError (Lane × Text)
lane_of agents lanes targets intent = do
  fields ← some_or (record_of (entry_of lanes (intent_text intent))) bad_lane
  agent ← some_or (text_of (entry_of fields (codes "agent"))) bad_lane
  max_risk ← some_or (risk_of_value (entry_of fields (codes "maxRisk"))) bad_lane
  cacheable ← some_or (bool_of (entry_of fields (codes "cacheable"))) bad_lane
  requires ← some_or (optional bool_of (entry_of fields (codes "requiresGateReason"))) bad_lane
  guard (is_some (agent_of agents agent)) unknown_lane_agent
  target ← some_or (text_of (entry_of targets (intent_text intent))) unknown_target
  guard (is_some (agent_of agents target)) unknown_target
  ok (
    record {
      agent = agent;
      max_risk = max_risk;
      cacheable = cacheable;
      requires_gate_reason = requires;
    },
    target,
  )

-- A value for each intent, in the order of `ROUTING_INTENTS`.
abbrev pub by_intent {ℓ} : {A : Type ℓ} → A → A → A → A → A → Intent → A
by_intent a b c d e bounded_recon = a
by_intent a b c d e review = b
by_intent a b c d e implementation = c
by_intent a b c d e architecture = d
by_intent a b c d e package_research = e

unfoldable pub lanes_of :
    List (Text × Agent) → Entries → Entries → Result PolicyError (Intent → Lane × Text)
lanes_of agents lanes targets = do
  a ← lane_of agents lanes targets bounded_recon
  b ← lane_of agents lanes targets review
  c ← lane_of agents lanes targets implementation
  d ← lane_of agents lanes targets architecture
  e ← lane_of agents lanes targets package_research
  ok (by_intent a b c d e)

-- `Array.isArray(value) && value.every(isNonEmptyString)`, as the texts.
abbrev pub texts_of : Elements → Option (List Text)
texts_of no_element = some []
texts_of (element value rest) = elim (text_of (some value)) [
  | none ↦ none
  | some s ↦ elim (texts_of rest) [ none ↦ none | some others ↦ some (s ∷ others) ]
]

abbrev pub array_of : Option Value → Option (List Text)
array_of (some (array elements)) = texts_of elements
array_of _ = none

-- `value.version === "1"`
abbrev pub is_version_1 : Option Value → Bool
is_version_1 (some (string s)) = text_eq s (codes "1")
is_version_1 _ = false

unfoldable pub validate_routing_policy : Value → Result PolicyError RoutingPolicy
validate_routing_policy value = do
  fields ← some_or (record_of (some value)) bad_version
  guard (is_version_1 (entry_of fields (codes "version"))) bad_version
  prompt ← some_or (text_of (entry_of fields (codes "promptContractVersion"))) contract_versions
  tool ← some_or (text_of (entry_of fields (codes "toolContractVersion"))) contract_versions
  budgets ← budgets_of (entry_of fields (codes "budgets"))
  agent_values ← some_or (record_of (entry_of fields (codes "agents"))) sections
  lane_values ← some_or (record_of (entry_of fields (codes "lanes"))) sections
  targets ← some_or (record_of (entry_of fields (codes "escalationTargets"))) sections
  cache ← some_or (record_of (entry_of fields (codes "cache"))) sections
  agents ← agents_of agent_values
  guard (all_intents lane_values) unknown_lane
  guard (all_intents targets) unknown_escalation_lane
  lanes ← lanes_of agents lane_values targets
  key_version ← some_or (text_of (entry_of cache (codes "keyVersion"))) bad_cache
  operations ← some_or (array_of (entry_of cache (codes "deterministicOperations"))) bad_cache
  ok (record {
    prompt_contract_version = prompt;
    tool_contract_version = tool;
    budgets = budgets;
    agents = agents;
    lanes = λ i. (lanes i).0;
    escalation_targets = λ i. (lanes i).1;
    key_version = key_version;
    deterministic_operations = operations;
  })
