-- ===== src/Migrate/Drift.antt =====
-- `verifyControlDrift` of src/control-migrate.ts: which of the two stores has writes after the
-- promotion.
use mazzy_command_center.Prelude.{[], ◌∷◌}
use mazzy_command_center.Storage.Policy.{text_leb}
use mathlib.Core.Option.{none}
use mazzy_command_center.Prelude.{◌==◌, ◌&&◌, if◌then◌else◌}
use mazzy_command_center.Migrate.{
  ltb, row_counts, text_leb, not, ◌∷◌, is_empty, exists, any_where, none, false, ℕ, Table, store,
  Row, if◌then◌else◌, some, Text, Bool, Option, List, Store,
}

abbrev pub is_newer : Text → Row → Bool
is_newer at r = elim r.stamp [ none ↦ false | some s ↦ not (text_leb s at) ]

abbrev pub newer_rows : Text → Option Table → Bool
newer_rows at none = false
newer_rows at (some t) = t.timed && any_where (is_newer at) t.rows

abbrev pub some_newer : Text → Store → Bool
some_newer at (store d) = any_where (newer_rows at) d.tables
some_newer at _ = false

-- An empty time counts as none.
abbrev pub promoted_at : Store → Option Text
promoted_at (store d) = elim d.stamp [
  | none ↦ none
  | some s ↦ if is_empty s.promoted_at then none else some s.promoted_at
]
promoted_at _ = none

pub data Endpoint : Type 0 where
  canonical_endpoint legacy_endpoint override_endpoint : Endpoint

pub data StaleEndpoint : Type 0 where
  stale_legacy stale_canonical : StaleEndpoint

-- The first table whose counts differ, as the endpoint that has more rows.
unfoldable pub count_delta : List ℕ → List ℕ → Option StaleEndpoint
count_delta [] cs = none
count_delta (l ∷ ls) [] = none
count_delta (l ∷ ls) (c ∷ cs) =
    let rest = count_delta ls cs in
    if l == c then rest else some (if ltb c l then stale_legacy else stale_canonical)

abbrev pub when {ℓ} : {A : Type ℓ} → Bool → A → Option A
when test a = if test then some a else none

unfoldable pub either_stale : Bool → Bool → Option StaleEndpoint → Option StaleEndpoint
either_stale legacy_newer canonical_newer delta =
    if legacy_newer
    then some stale_legacy
    else if canonical_newer
    then some stale_canonical
    else delta

-- Writes to the endpoint that is in use are no drift.
unfoldable pub stale_endpoint :
    Option Endpoint → Bool → Bool → Option StaleEndpoint → Option StaleEndpoint
stale_endpoint (some canonical_endpoint) legacy_newer canonical_newer delta =
    when legacy_newer stale_legacy
stale_endpoint (some legacy_endpoint) legacy_newer canonical_newer delta =
    when canonical_newer stale_canonical
stale_endpoint (some override_endpoint) legacy_newer canonical_newer delta =
    either_stale legacy_newer canonical_newer delta
stale_endpoint none legacy_newer canonical_newer delta =
    either_stale legacy_newer canonical_newer delta

pub record DriftReport : Type 0 where
  pub stale : Option StaleEndpoint
  pub legacy_newer : Bool
  pub canonical_newer : Bool

unfoldable pub verify_control_drift : Store → Store → Option Endpoint → Option DriftReport
verify_control_drift source target effective =
    elim (if exists source && exists target then promoted_at target else none) [
      | none ↦ none
      | some at ↦
          let legacy = some_newer at source in
          let canonical = some_newer at target in
          some (record {
            stale =
                stale_endpoint effective legacy canonical
                  (count_delta (row_counts source) (row_counts target));
            legacy_newer = legacy;
            canonical_newer = canonical;
          })
    ]
