-- ===== src/Routing/Laws.antt =====
-- Which agent src/routing.ts selects, and when it answers.
use mazzy_command_center.Prelude.{is_ok-cases, is_ok, Result}
use mathlib.Core.Path.{subst}
use mazzy_command_center.Prelude.{
  Bool, true, List, Option, none, some, ◌≡◌, inl, inr, refl, ok, ◌||◌, not, Text, on_ok, on_guard,
  some_or, is_some, Bool-cases, trim_or_none, codes,
}
use mazzy_command_center.Types.{TaskRisk}
use mazzy_command_center.Routing.{
  Intent, bounded_recon, review, implementation, architecture, package_research, intent_of_text,
  risk_of_text, Agent, Lane, RoutingPolicy, RouteInput, RouteResult, Host, agent_of, route,
  select_agent, pass_gate, first_choice, exceeds, is_set,
}
use mazzy_command_center.Routing.Policy.{
  array_of, bad_cache, unknown_escalation_lane, unknown_lane, all_intents, agents_of, sections,
  budgets_of, unknown_target, unknown_lane_agent, contract_versions, is_version_1, optional,
  bool_of, bad_version, by_intent, risk_of_value, PolicyError, text_of, bad_lane, intent_text,
  entry_of, record_of, Entries, Value, validate_routing_policy, lane_of, lanes_of,
}

-- Every lane's agent and escalation target is an agent of the policy.
abbrev pub IsComplete : List (Text × Agent) → (Intent → Lane × Text) → Type 0
IsComplete agents lanes =
    (i : Intent)
    → (is_some (agent_of agents (lanes i).0.agent) ≡ true)
      × (is_some (agent_of agents (lanes i).1) ≡ true)

lane_of-listed :
    (agents : List (Text × Agent)) (lanes targets : Entries) (i : Intent) (lane : Lane)
    (target : Text)
    → lane_of agents lanes targets i ≡ ok (lane, target)
    → (is_some (agent_of agents lane.agent) ≡ true) × (is_some (agent_of agents target) ≡ true)
unfolding lane_of
lane_of-listed agents lanes targets i lane target h =
    on_ok (some_or (record_of (entry_of lanes (intent_text i))) bad_lane) h λ fields _ h1.
      on_ok (some_or (text_of (entry_of fields (codes "agent"))) bad_lane) h1 λ agent _ h2.
        on_ok (some_or (risk_of_value (entry_of fields (codes "maxRisk"))) bad_lane) h2 λ risk _ h3.
          on_ok (some_or (bool_of (entry_of fields (codes "cacheable"))) bad_lane) h3
            λ cacheable _ h4.
              on_ok
                (some_or (optional bool_of (entry_of fields (codes "requiresGateReason"))) bad_lane)
                h4
                λ requires _ h5.
                  on_guard (is_some (agent_of agents agent)) unknown_lane_agent h5 λ listed h6.
                    on_ok (some_or (text_of (entry_of targets (intent_text i))) unknown_target) h6
                      λ t _ h7. on_guard (is_some (agent_of agents t)) unknown_target h7 λ known e.
                        (
                          subst (λ a. is_some (agent_of agents a) ≡ true) (cc (e)) listed,
                          subst (λ a. is_some (agent_of agents a) ≡ true) (cc (e)) known,
                        )

lanes_of-IsComplete :
    (agents : List (Text × Agent)) (values targets : Entries) (lanes : Intent → Lane × Text)
    → lanes_of agents values targets ≡ ok lanes
    → IsComplete agents lanes
unfolding lanes_of
lanes_of-IsComplete agents values targets lanes h =
    on_ok (lane_of agents values targets bounded_recon) h λ a ra h1.
      on_ok (lane_of agents values targets review) h1 λ b rb h2.
        on_ok (lane_of agents values targets implementation) h2 λ c rc h3.
          on_ok (lane_of agents values targets architecture) h3 λ d rd h4.
            on_ok (lane_of agents values targets package_research) h4
              λ e re same. subst (IsComplete agents) (ok-eq same) (each a b c d e ra rb rc rd re)
  where
    ok-eq :
        {x y : Intent → Lane × Text}
        → ◌≡◌ {A = Result PolicyError (Intent → Lane × Text)} (ok x) (ok y)
        → x ≡ y
    ok-eq h = cc

    each :
        (a b c d e : Lane × Text)
        → lane_of agents values targets bounded_recon ≡ ok a
        → lane_of agents values targets review ≡ ok b
        → lane_of agents values targets implementation ≡ ok c
        → lane_of agents values targets architecture ≡ ok d
        → lane_of agents values targets package_research ≡ ok e
        → IsComplete agents (by_intent a b c d e)
    each a b c d e ra rb rc rd re bounded_recon = lane_of-listed agents values targets _ a.0 a.1 ra
    each a b c d e ra rb rc rd re review = lane_of-listed agents values targets _ b.0 b.1 rb
    each a b c d e ra rb rc rd re implementation = lane_of-listed agents values targets _ c.0 c.1 rc
    each a b c d e ra rb rc rd re architecture = lane_of-listed agents values targets _ d.0 d.1 rd
    each a b c d e ra rb rc rd re package_research =
        lane_of-listed agents values targets _ e.0 e.1 re

validate_routing_policy-IsComplete :
    (value : Value) (policy : RoutingPolicy)
    → validate_routing_policy value ≡ ok policy
    → IsComplete policy.agents (λ i. (policy.lanes i, policy.escalation_targets i))
unfolding validate_routing_policy
validate_routing_policy-IsComplete value policy h =
    on_ok (some_or (record_of (some value)) bad_version) h λ fields _ h1.
      on_guard (is_version_1 (entry_of fields (codes "version"))) bad_version h1 λ _ h2.
        on_ok
          (some_or (text_of (entry_of fields (codes "promptContractVersion"))) contract_versions) h2
          λ prompt _ h3.
            on_ok
              (some_or (text_of (entry_of fields (codes "toolContractVersion"))) contract_versions)
              h3
              λ tool _ h4. on_ok (budgets_of (entry_of fields (codes "budgets"))) h4 λ budgets _ h5.
                on_ok (some_or (record_of (entry_of fields (codes "agents"))) sections) h5
                  λ agent_values _ h6.
                    on_ok (some_or (record_of (entry_of fields (codes "lanes"))) sections) h6
                      λ lane_values _ h7.
                        on_ok
                          (some_or (record_of (entry_of fields (codes "escalationTargets")))
                            sections)
                          h7
                          λ targets _ h8.
                            on_ok (some_or (record_of (entry_of fields (codes "cache"))) sections)
                              h8
                              λ cache _ h9. on_ok (agents_of agent_values) h9 λ agents _ h10.
                                on_guard (all_intents lane_values) unknown_lane h10 λ _ h11.
                                  on_guard (all_intents targets) unknown_escalation_lane h11
                                    λ _ h12.
                                      on_ok (lanes_of agents lane_values targets) h12
                                        λ lanes read h13.
                                          on_ok
                                            (some_or (text_of (entry_of cache (codes "keyVersion")))
                                              bad_cache)
                                            h13
                                            λ key _ h14.
                                              on_ok
                                                (some_or
                                                  (array_of (
                                                    entry_of cache
                                                      (codes "deterministicOperations")))
                                                  bad_cache)
                                                h14
                                                λ operations _ same.
                                                  subst
                                                    (λ p.
                                                      IsComplete p.agents
                                                        (λ i. (p.lanes i, p.escalation_targets i)))
                                                    (policy-eq same)
                                                    (lanes_of-IsComplete agents lane_values targets
                                                      lanes read)
  where
    policy-eq :
        {x y : RoutingPolicy} → ◌≡◌ {A = Result PolicyError RoutingPolicy} (ok x) (ok y) → x ≡ y
    policy-eq h = cc

is_some-cases {ℓ} : {A : Type ℓ} (o : Option A) → is_some o ≡ true → (a : A) × (o ≡ some a)
is_some-cases none h = cc
is_some-cases (some a) h = (a, refl)

pass_gate-is_ok :
    (policy : RoutingPolicy) (i : Intent) (escalated : Bool) (reason : Option Text) (name : Text)
    (agent : Agent)
    → is_some (agent_of policy.agents (policy.lanes review).agent) ≡ true
    → is_ok (pass_gate policy i escalated reason name agent) ≡ true
unfolding pass_gate
pass_gate-is_ok policy i escalated reason name agent listed =
    let (fallback, there) =
      is_some-cases (agent_of policy.agents (policy.lanes review).agent) listed in
    elim (Bool-cases
      (not (is_set agent.top_gate || is_set (policy.lanes i).requires_gate_reason))) [
        | inl open_gate ↦ rw open_gate
        | inr gated ↦ elim (Bool-cases (is_some reason)) [
          | inl given ↦ rw (gated, given)
          | inr blank ↦ rw (gated, blank, there)
        ]
      ]

first_choice-listed :
    (policy : RoutingPolicy) (i : Intent) (risk : TaskRisk)
    → IsComplete policy.agents (λ j. (policy.lanes j, policy.escalation_targets j))
    → is_some (agent_of policy.agents (first_choice policy i risk)) ≡ true
unfolding first_choice
first_choice-listed policy i risk complete = elim (Bool-cases (exceeds risk (policy.lanes i))) [
  | inl high_risk ↦ rw high_risk (complete i).1
  | inr within ↦ rw within (complete i).0
]

-- With a policy that passed the validation, an input of a known intent and a known risk is
-- routed: neither of the look-ups of an agent fails.
pub route-validated :
    (value : Value) (policy : RoutingPolicy) (host : Host) (input : RouteInput) (i : Intent)
    (risk : TaskRisk)
    → validate_routing_policy value ≡ ok policy
    → intent_of_text input.intent ≡ some i
    → risk_of_text input.risk ≡ some risk
    → (r : RouteResult) × (route host policy input ≡ ok r)
unfolding route select_agent
route-validated value policy host input i risk valid known_intent known_risk =
    let complete = validate_routing_policy-IsComplete value policy valid in
    let (agent, there) =
      is_some-cases (agent_of policy.agents (first_choice policy i risk))
        (first_choice-listed policy i risk complete) in
    let (s, passed) =
      is_ok-cases
        (pass_gate policy i (exceeds risk (policy.lanes i)) (trim_or_none input.gate_reason)
          (first_choice policy i risk) agent)
        (pass_gate-is_ok policy i (exceeds risk (policy.lanes i)) (trim_or_none input.gate_reason)
          (first_choice policy i risk) agent (complete review).0) in
    is_ok-cases (route host policy input) (rw (route, known_intent, known_risk, there, passed))
