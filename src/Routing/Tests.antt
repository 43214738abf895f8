-- ===== src/Routing/Tests.antt =====
-- A small policy of src/routing.ts, validated and routed, and the theorems applied to it.
use mazzy_command_center.Prelude.{
  Bool, true, false, [], ◌∷◌, none, some, ◌≡◌, ◌⊎◌, refl, ok, Text, codes, text_eq, any_where,
  all_where, find, trim, trim_or_none,
}
use mazzy_command_center.Prelude.Int.{pos}
use mazzy_command_center.Types.{low, high}
use mazzy_command_center.Routing.{
  is_hex, cache_key_of, operation_name, eligible_for_cache, first_choice, pass_gate, is_set,
  agent_of, select_agent, intent_of_text, risk_of_text, bounded_recon, no_escalation,
  gate_reason_required, whole, route, Agent, Lane, RoutingPolicy, RouteInput, RouteResult, Host,
}
use mazzy_command_center.Routing.Policy.{
  lane_of, lanes_of, agent_of_value, agents_of, budgets_of, Value, boolean, number, string, array,
  object, no_element, element, no_entry, entry, by_intent, validate_routing_policy,
}
use mazzy_command_center.Routing.Laws.{route-validated}
use mazzy_command_center.Routing.Gate.{route-gate, route-risk, route-cache}

abbrev host : Host
host = record { lower = λ s. s; sha256 = λ l. codes "key" }

abbrev lane_value : Value
lane_value = object (
    entry (codes "agent") (string (codes "scout")) (
      entry (codes "maxRisk") (string (codes "low"))
        (entry (codes "cacheable") (boolean true) no_entry)))

abbrev for_each : Value → Value
for_each v = object (
    entry (codes "bounded-recon") v (
      entry (codes "review") v (
        entry (codes "implementation") v
          (entry (codes "architecture") v (entry (codes "package-research") v no_entry)))))

abbrev agent_value : Value → Value
agent_value gate =
    object (entry (codes "model") (string (codes "small")) (entry (codes "topGate") gate no_entry))

abbrev policy_value : Value
policy_value = object (
    entry (codes "version") (string (codes "1")) (
      entry (codes "promptContractVersion") (string (codes "p")) (
        entry (codes "toolContractVersion") (string (codes "t")) (
          entry (codes "budgets")
            (object (
              entry (codes "defaultUsd") (number (whole (pos 1))) (
                entry (codes "highRiskUsd") (number (whole (pos 5)))
                  (entry (codes "maxChildrenPerWave") (number (whole (pos 2))) no_entry))))
            (entry (codes "agents")
              (object (
                entry (codes "scout") (agent_value (boolean false))
                  (entry (codes "chief") (agent_value (boolean true)) no_entry)))
              (entry (codes "lanes") (for_each lane_value) (
                entry (codes "escalationTargets") (for_each (string (codes "chief"))) (
                  entry (codes "cache")
                    (object (
                      entry (codes "keyVersion") (string (codes "1")) (
                        entry (codes "deterministicOperations")
                          (array (element (string (codes "list")) no_element)) no_entry)))
                    no_entry))))))))

abbrev agent : Bool → Agent
agent gate = record { model = codes "small"; skill = none; top_gate = some gate }

abbrev lane : Lane
lane = record {
  agent = codes "scout";
  max_risk = low;
  cacheable = true;
  requires_gate_reason = none;
}

abbrev both : Lane × Text
both = (lane, codes "chief")

abbrev policy : RoutingPolicy
policy = record {
  prompt_contract_version = codes "p";
  tool_contract_version = codes "t";
  budgets = record {
    default_usd = whole (pos 1);
    high_risk_usd = whole (pos 5);
    max_children_per_wave = whole (pos 2);
  };
  agents = (codes "scout", agent false) ∷ (codes "chief", agent true) ∷ [];
  lanes = λ i. (by_intent both both both both both i).0;
  escalation_targets = λ i. (by_intent both both both both both i).1;
  key_version = codes "1";
  deterministic_operations = codes "list" ∷ [];
}

validated : validate_routing_policy policy_value ≡ ok policy
unfolding validate_routing_policy budgets_of agents_of agent_of_value lanes_of lane_of agent_of
    intent_of_text risk_of_text text_eq trim find
validated = refl

abbrev work : Text → RouteInput
work risk = record {
  intent = codes "bounded-recon";
  risk = risk;
  operation = none;
  input_digest = none;
  source_revision = none;
  gate_reason = none;
}

recon_named : intent_of_text (codes "bounded-recon") ≡ some bounded_recon
unfolding intent_of_text text_eq
recon_named = refl

high_ranked : risk_of_text (codes "high") ≡ some high
unfolding risk_of_text text_eq
high_ranked = refl

-- The risk leads to the top-gated chief, and without a reason back to the agent of the review lane.
abbrev fallback : RouteResult
fallback = record {
  selected_agent = codes "scout";
  model = codes "small";
  skill = none;
  escalation_target = codes "chief";
  escalation_decision = gate_reason_required;
  cache_eligible = false;
  cache_key = none;
}

routed : route host policy (work (codes "high")) ≡ ok fallback
unfolding route select_agent pass_gate first_choice eligible_for_cache agent_of intent_of_text
    risk_of_text text_eq trim find any_where all_where
routed = refl

route-validated_example : (r : RouteResult) × (route host policy (work (codes "high")) ≡ ok r)
route-validated_example =
    route-validated policy_value policy host (work (codes "high")) bounded_recon high validated
      recon_named high_ranked

route-gate_example :
    ((fallback.selected_agent ≡ codes "scout")
      × (fallback.escalation_decision ≡ gate_reason_required))
    ⊎ ((a : Agent) × (agent_of policy.agents (codes "scout") ≡ some a)
        × (is_set a.top_gate ≡ false)
        × (false ≡ false))
route-gate_example =
    route-gate host policy (work (codes "high")) fallback bounded_recon routed recon_named refl

route-risk_example :
    (codes "scout" ≡ codes "chief") ⊎ ((trim_or_none none ≡ none) × (codes "scout" ≡ codes "scout"))
route-risk_example =
    route-risk host policy (work (codes "high")) fallback bounded_recon routed recon_named high
      high_ranked refl

-- A listing of the recon lane at a known revision is cached.
abbrev listing : RouteInput
listing = record (work (codes "low")) {
  operation = some (codes " list ");
  input_digest = some (codes "0123456789abcdef0123456789ABCDEF0123456789abcdef0123456789abcdef");
  source_revision = some (codes "0123456");
}

abbrev cached : RouteResult
cached = record fallback {
  escalation_decision = no_escalation;
  cache_eligible = true;
  cache_key = some (codes "key");
}

listed : route host policy listing ≡ ok cached
unfolding route select_agent pass_gate first_choice eligible_for_cache cache_key_of agent_of
    intent_of_text risk_of_text text_eq trim find any_where all_where
listed = refl

route-cache_example :
    (true ≡ true)
    × (true ≡ true
        → (bounded_recon ≡ bounded_recon)
          × (codes "scout" ≡ codes "scout")
          × (true ≡ true)
          × (any_where (text_eq (operation_name host listing.operation)) (codes "list" ∷ []) ≡ true)
          × (is_hex 64 64 listing.input_digest ≡ true))
route-cache_example = route-cache host policy listing cached bounded_recon listed recon_named
