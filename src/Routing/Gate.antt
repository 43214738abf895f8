-- ===== src/Routing/Gate.antt =====
-- The gate, the escalation and the cache of `route` in src/routing.ts.
use mathlib.Core.Path.{subst}
use mazzy_command_center.Prelude.{
  is_empty, text_eq, some-eq, any_where, Bool, true, false, Option, none, some, ◌≡◌, ◌⊎◌, inl, inr,
  refl, sym, ap, ◌∙◌, ok, arith, ◌&&◌, ◌||◌, not, if◌then◌else◌, Text, on_ok, some_or,
  some_or-eq-ok, is_some, Bool-cases, trim_or_none, text_eq-eq,
}
use mazzy_command_center.Types.{TaskRisk}
use mazzy_command_center.Routing.{
  is_recon, is_hex, operation_name, cache_key_of, unknown_agent, unknown_risk, unknown_review_agent,
  exceeds, agent_of, first_choice, gate_reason_required, eligible_for_cache, unknown_intent,
  risk_of_text, intent_of_text, is_set, RouteResult, Selection, Agent, Lane, RouteInput,
  select_agent, route, RoutingPolicy, Host, pass_gate, Intent, bounded_recon, review,
}

-- The parts of a successful routing.
record IsRouted (host : Host) (policy : RoutingPolicy) (input : RouteInput) (r : RouteResult)
    : Type 0 where
  intent : Intent
  risk : TaskRisk
  agent : Agent
  s : Selection
  same_intent : intent_of_text input.intent ≡ some intent
  same_risk : risk_of_text input.risk ≡ some risk
  listed : agent_of policy.agents (first_choice policy intent risk) ≡ some agent
  passed :
      pass_gate policy intent
        (exceeds risk (policy.lanes intent))
        (trim_or_none input.gate_reason)
        (first_choice policy intent risk)
        agent
      ≡ ok s
  name : r.selected_agent ≡ s.name
  decision : r.escalation_decision ≡ s.decision
  eligible : r.cache_eligible ≡ eligible_for_cache host policy input intent s.name
  key : r.cache_key ≡ (
      if eligible_for_cache host policy input intent s.name
      then some (cache_key_of host policy input s.chosen)
      else none)

route-IsRouted :
    (host : Host) (policy : RoutingPolicy) (input : RouteInput) (r : RouteResult)
    → route host policy input ≡ ok r
    → IsRouted host policy input r
unfolding route select_agent
route-IsRouted host policy input r h =
    on_ok (some_or (intent_of_text input.intent) unknown_intent) h λ intent known h1.
      on_ok (some_or (risk_of_text input.risk) unknown_risk) h1 λ risk ranked h2.
        on_ok (select_agent policy input intent risk) h2 λ s selected h3.
          on_ok (some_or (agent_of policy.agents (first_choice policy intent risk)) unknown_agent)
            selected
            λ agent listed passed. record {
              intent = intent;
              risk = risk;
              agent = agent;
              s = s;
              same_intent = some_or-eq-ok _ unknown_intent known;
              same_risk = some_or-eq-ok _ unknown_risk ranked;
              listed = some_or-eq-ok _ unknown_agent listed;
              passed = passed;
              name = cc (h3);
              decision = cc (h3);
              eligible = cc (h3);
              key = cc (h3);
            }

-- What the gate lets through.
data Passed (policy : RoutingPolicy) (lane : Lane) (reason : Option Text) (name : Text)
    (agent : Agent) (s : Selection) : Type 0 where
  no_gate :
      is_set agent.top_gate ≡ false
      → is_set lane.requires_gate_reason ≡ false
      → s.name ≡ name
      → Passed policy lane reason name agent s
  with_reason : is_some reason ≡ true → s.name ≡ name → Passed policy lane reason name agent s
  fallback :
      is_some reason ≡ false
      → s.name ≡ (policy.lanes review).agent
      → s.decision ≡ gate_reason_required
      → Passed policy lane reason name agent s

pass_gate-Passed :
    (policy : RoutingPolicy) (i : Intent) (escalated : Bool) (reason : Option Text) (name : Text)
    (agent : Agent) (s : Selection)
    → pass_gate policy i escalated reason name agent ≡ ok s
    → Passed policy (policy.lanes i) reason name agent s
unfolding pass_gate
pass_gate-Passed policy i escalated reason name agent s h =
    elim (Bool-cases
      (not (is_set agent.top_gate || is_set (policy.lanes i).requires_gate_reason))) [
        | inl free ↦
            let e = rw (pass_gate, free) at h in no_gate (ground arith) (ground arith) (cc (e))
        | inr gated ↦ elim (Bool-cases (is_some reason)) [
          | inl given ↦ let e = rw (pass_gate, gated, given) at h in with_reason given (cc (e))
          | inr blank ↦
              let e = rw (pass_gate, gated, blank) at h in
              on_ok
                (some_or (agent_of policy.agents (policy.lanes review).agent) unknown_review_agent)
                e λ a _ e1. fallback blank (cc (e1)) (cc (e1))
        ]
      ]

all_seven :
    (a b c d e f g : Bool)
    → (a && b && c && d && e && f && g) ≡ true
    → (a ≡ true) × (b ≡ true) × (c ≡ true) × (e ≡ true) × (f ≡ true)
all_seven a b c d e f g h = ground arith

recon-eq : (i : Intent) → is_recon i ≡ true → i ≡ bounded_recon
recon-eq i h = ground arith

eligible_for_cache-eq-true :
    (host : Host) (policy : RoutingPolicy) (input : RouteInput) (i : Intent) (name : Text)
    → eligible_for_cache host policy input i name ≡ true
    → (i ≡ bounded_recon)
      × (name ≡ (policy.lanes bounded_recon).agent)
      × ((policy.lanes i).cacheable ≡ true)
      × (any_where (text_eq (operation_name host input.operation)) policy.deterministic_operations
          ≡ true)
      × (is_hex 64 64 input.input_digest ≡ true)
unfolding eligible_for_cache
eligible_for_cache-eq-true host policy input i name h =
    let (recon, agent, cacheable, operation, digest) =
      all_seven (is_recon i) (text_eq name (policy.lanes bounded_recon).agent)
        (policy.lanes i).cacheable (not (is_empty (operation_name host input.operation)))
        (any_where (text_eq (operation_name host input.operation)) policy.deterministic_operations)
        (is_hex 64 64 input.input_digest) (is_hex 7 64 input.source_revision) h in
    (recon-eq i recon, text_eq-eq _ _ agent, cacheable, operation, digest)

key_when {ℓ} : {A : Type ℓ} (b : Bool) (a : A) → is_some (if b then some a else none) ≡ b
key_when true a = refl
key_when false a = refl

none-is_some {ℓ} : {A : Type ℓ} (o : Option A) → o ≡ none → ¬ (is_some o ≡ true)
none-is_some o e h = cc

module _ (host : Host) (policy : RoutingPolicy) (input : RouteInput) (r : RouteResult) (i : Intent)
    (routed : route host policy input ≡ ok r) (named : intent_of_text input.intent ≡ some i) where
  -- Without a gate reason, a routing either falls back to the agent of the review lane and says
  -- that a reason is required, or it selects an agent that is not top-gated, for a lane that
  -- requires no reason.
  pub route-gate :
      trim_or_none input.gate_reason ≡ none
      → ((r.selected_agent ≡ (policy.lanes review).agent)
          × (r.escalation_decision ≡ gate_reason_required))
        ⊎ ((a : Agent) × (agent_of policy.agents r.selected_agent ≡ some a)
            × (is_set a.top_gate ≡ false)
            × (is_set (policy.lanes i).requires_gate_reason ≡ false))
  route-gate blank =
      let d = route-IsRouted host policy input r routed in
      let same : d.intent ≡ i = some-eq (sym d.same_intent ∙ named) in
      elim (pass_gate-Passed policy d.intent _ _ _ d.agent d.s d.passed) [
        | no_gate free no_lane e ↦ inr (
          d.agent,
          subst (λ n. agent_of policy.agents n ≡ some d.agent) (sym (d.name ∙ e)) d.listed,
          free,
          subst (λ j. is_set (policy.lanes j).requires_gate_reason ≡ false) same no_lane,
        )
        | with_reason given e ↦ absurd (none-is_some (trim_or_none input.gate_reason) blank given)
        | fallback missing e why ↦ inl (d.name ∙ e, d.decision ∙ why)
      ]

  -- When the risk exceeds the lane's, the escalation target of the intent is selected, or,
  -- without a gate reason, the agent of the review lane.
  pub route-risk :
      (risk : TaskRisk)
      → risk_of_text input.risk ≡ some risk
      → exceeds risk (policy.lanes i) ≡ true
      → (r.selected_agent ≡ policy.escalation_targets i)
        ⊎ ((trim_or_none input.gate_reason ≡ none)
            × (r.selected_agent ≡ (policy.lanes review).agent))
  unfolding first_choice
  route-risk risk ranked high_risk =
      let d = route-IsRouted host policy input r routed in
      let same : d.intent ≡ i = some-eq (sym d.same_intent ∙ named) in
      let same_risk : d.risk ≡ risk = some-eq (sym d.same_risk ∙ ranked) in
      let first : first_choice policy i risk ≡ policy.escalation_targets i = rw high_risk in
      let target : first_choice policy d.intent d.risk ≡ policy.escalation_targets i =
        ap (λ j. first_choice policy j d.risk) same
        ∙ ap (first_choice policy i) same_risk
        ∙ first in
      elim (pass_gate-Passed policy d.intent _ _ _ d.agent d.s d.passed) [
        | no_gate free no_lane e ↦ inl (d.name ∙ e ∙ target)
        | with_reason given e ↦ inl (d.name ∙ e ∙ target)
        | fallback missing e why ↦ inr (ground arith, d.name ∙ e)
      ]

  -- A routing has a cache key exactly when it is eligible, and it is eligible only for the
  -- recon lane's own agent, on a lane that is cacheable, for a listed operation and a digest of
  -- 64 hexadecimal digits.
  pub route-cache :
      (is_some r.cache_key ≡ r.cache_eligible)
      × (r.cache_eligible ≡ true
          → (i ≡ bounded_recon)
            × (r.selected_agent ≡ (policy.lanes bounded_recon).agent)
            × ((policy.lanes i).cacheable ≡ true)
            × (any_where
                  (text_eq (operation_name host input.operation))
                  policy.deterministic_operations
                ≡ true)
            × (is_hex 64 64 input.input_digest ≡ true))
  route-cache =
      let d = route-IsRouted host policy input r routed in
      let same : d.intent ≡ i = some-eq (sym d.same_intent ∙ named) in
      let mine : r.cache_eligible ≡ eligible_for_cache host policy input i r.selected_agent =
        d.eligible
        ∙ ap (λ j. eligible_for_cache host policy input j d.s.name) same
        ∙ ap (eligible_for_cache host policy input i) (sym d.name) in
      (
        ap is_some d.key
            ∙ key_when (eligible_for_cache host policy input d.intent d.s.name) _
            ∙ sym d.eligible,
        λ yes. eligible_for_cache-eq-true host policy input i r.selected_agent (sym mine ∙ yes),
      )
