-- ===== src/Migrate/Cutover/Guards.antt =====
-- The guards of `activateCutover` in src/control-migrate.ts, before the first write.
use mathlib.Core.Path.{subst}
use mazzy_command_center.Endpoint.{is_cutover, read_journal, is_promoted, is_match}
use mazzy_command_center.Prelude.{refl, arith, if◌then◌else◌, ◌≡◌, ◌&&◌}
use mazzy_command_center.Migrate.Cutover.{
  verify_canonical_identity, cutover_result, is_match, CutoverHost, CutoverResult,
  activation_guards,
}
use mazzy_command_center.Migrate.{
  strict_control_parity, exists, not, is_promoted, false, some, none, true, returned, World, Reply,
  Bool,
}

passed-second :
    (a b c : Bool) (x y z : CutoverResult)
    → (if a then some x else if not b then some y else if not c then some z else none) ≡ none
    → b ≡ true
passed-second true b c x y z h = absurd (cc)
passed-second false true c x y z h = refl
passed-second false false c x y z h = absurd (cc)

third-true : (a b c d : Bool) → (a && b && c && d) ≡ true → c ≡ true
third-true a b c d h = ground arith

pub guards-match :
    (host : CutoverHost) (apply : Bool) (w : World)
    → activation_guards host apply w ≡ none
    → is_match (verify_canonical_identity host.checkout w.target) ≡ true
unfolding activation_guards
guards-match host apply w h =
    third-true (is_promoted (read_journal w.evidence.journal)) (exists w.target) _ _
      (passed-second _ _ _ _ _ _ h)

abbrev pub succeeded : Reply CutoverResult → Bool
succeeded (returned r) = r.applied && r.ok
succeeded _ = false

stopped_first :
    (a b c d : Bool) {r : CutoverResult}
    → (if a
        then some (cutover_result false false false)
        else if not b
        then some (cutover_result false false false)
        else if not c
        then some (cutover_result false d true)
        else none)
      ≡ some r
    → (r.applied && r.ok) ≡ false
stopped_first true b c d h = cc
stopped_first false false c d h = cc
stopped_first false true true d h = absurd (cc)
stopped_first false true false d {r} h =
    let same : cutover_result false d true ≡ r = cc in
    subst (λ x. (x.applied && x.ok) ≡ false) same refl

pub guards-stop :
    (host : CutoverHost) (apply : Bool) (w : World) (r : CutoverResult)
    → activation_guards host apply w ≡ some r
    → succeeded (returned r) ≡ false
unfolding activation_guards
guards-stop host apply w r h =
    stopped_first _
      (is_promoted (read_journal w.evidence.journal)
        && exists w.target
        && is_match (verify_canonical_identity host.checkout w.target)
        && strict_control_parity w.source w.target)
      apply (is_cutover (read_journal w.evidence.journal)) h
