-- ===== src/Migrate/Selected.antt =====
-- Which database src/control-resolve.ts opens after the operations of src/control-migrate.ts.
use mazzy_command_center.Migrate.Cutover.Guards.{succeeded}
use mathlib.Core.Path.{sym, subst}
use mazzy_command_center.Migrate.Cutover.Ends.{
  says_inactive, deactivate_cutover-IsDeactivation, activate_cutover-IsActivation, IsDeactivation,
  withdrawn,
}
use mazzy_command_center.Migrate.Cutover.Sealed.{
  completed, begun, not_begun, IsActivation, durable_of_witness, IsActive,
}
use mazzy_command_center.Prelude.{
  ◌&&◌, if◌then◌else◌, ◌∙◌, inr, inl, Bool-cases, text_eq, ◌||◌, ap, refl, ◌≡◌,
}
use mazzy_command_center.AntiTunnel.{canonical_held, canonical_promoted}
use mazzy_command_center.ControlResolve.{
  target_absent, legacy_at, legacy, resolve_control_db, other_journal, canonical, ObservedRoot,
  inactive, Observed, matching, Journal, ControlDbResolution, resolve_identified, Identity,
  resolve_root,
}
use mazzy_command_center.Endpoint.{
  malformed, dangling_link, no_witness, witness_of, witness_exists, WitnessFile, state_of_text,
  witness_invalid, unreadable, inert, identity_absent, witness_absent, promoted, fs_absent,
  rolled_back, active, cutover, mismatch, is_damaged_witness, no_journal, fs_mismatch, read_journal,
  durable_cutover_observed, witness_state, match_verdict, Evidence, is_active,
  publication_evidence_damaged, is_match, JournalState, WitnessState, Checkout, cutover_damaged,
  IdentityVerdict,
}
use mazzy_command_center.Migrate.Cutover.{
  deactivate_cutover, cutover_result, CutoverResult, activate_cutover, CutoverHost,
  verify_canonical_identity,
}
use mazzy_command_center.Migrate.{
  returned, Reply, unreadable_store, no_store, none, store, false, exists, some, true, World, Bool,
  Text, Checkout, JournalState, Store,
}

abbrev pub journal_kind : JournalState → Journal
journal_kind no_journal = inactive
journal_kind rolled_back = inactive
journal_kind promoted = Journal.promoted
journal_kind cutover = Journal.promoted
journal_kind _ = other_journal

abbrev pub identity_kind : IdentityVerdict → Identity
identity_kind match_verdict = matching
identity_kind fs_mismatch = Identity.fs_mismatch
identity_kind fs_absent = Identity.fs_absent
identity_kind _ = Identity.mismatch

-- What the resolver observes of a world, in a checkout whose directories are real and which no
-- override replaces. The paths are those of the legacy and the canonical store; `regular` says that
-- the latter, where it is there, is a regular file and no link.
abbrev pub observe_root : Checkout → Text → Bool → Bool → World → ObservedRoot
observe_root c target regular env_cutover w = record {
  durable_cutover = durable_cutover_observed c w.evidence;
  damaged = cutover_damaged c w.evidence false env_cutover;
  directory_trusted = true;
  control_dir_trusted = true;
  journal = journal_kind (read_journal w.evidence.journal);
  target = target;
  target_is_real = regular && exists w.target;
  identity = identity_kind (verify_canonical_identity c w.target);
}

abbrev pub observe : Checkout → Text → Text → Bool → Bool → World → Observed
observe c legacy_path target regular env_cutover w = record {
  legacy_path = legacy_path;
  env_cutover = env_cutover;
  root = some (observe_root c target regular env_cutover w);
  override_active = false;
}

active-undamaged : (s : WitnessState) → is_active s ≡ true → is_damaged_witness s ≡ false
active-undamaged active h = refl
active-undamaged witness_absent h = refl
active-undamaged inert h = refl
active-undamaged witness_invalid h = absurd (cc)

match-kind : (v : IdentityVerdict) → is_match v ≡ true → identity_kind v ≡ matching
match-kind match_verdict h = refl
match-kind mismatch h = absurd (cc)
match-kind fs_mismatch h = absurd (cc)
match-kind fs_absent h = absurd (cc)
match-kind identity_absent h = absurd (cc)
match-kind unreadable h = absurd (cc)

match-exists :
    (c : Checkout) (s : Store) → is_match (verify_canonical_identity c s) ≡ true → exists s ≡ true
unfolding verify_canonical_identity
match-exists c no_store h = cc
match-exists c unreadable_store h = refl
match-exists c (store d) h = refl

undamaged :
    (c : Checkout) (e : Evidence) (b : Bool)
    → is_active (witness_state c e.witness) ≡ true
    → is_active (witness_state c e.marker) ≡ true
    → read_journal e.journal ≡ cutover
    → cutover_damaged c e false b ≡ false
unfolding cutover_damaged publication_evidence_damaged
undamaged c e b by_witness by_marker by_journal = simp (
  active-undamaged (witness_state c e.witness) by_witness,
  active-undamaged (witness_state c e.marker) by_marker,
  by_journal,
)

-- The answer with the canonical store.
abbrev pub canonical_at : Text → ControlDbResolution
canonical_at target = record {
  path = target;
  selection = canonical_promoted;
  effective_endpoint = canonical;
  cutover = true;
  sealed = false;
  hold = none;
}

root-canonical :
    (w : Observed) (r : ObservedRoot)
    → r.directory_trusted ≡ true
    → r.control_dir_trusted ≡ true
    → r.journal ≡ Journal.promoted
    → r.target_is_real ≡ true
    → r.identity ≡ matching
    → resolve_root w r true ≡ canonical_at r.target
unfolding resolve_root resolve_identified
root-canonical w r one two three four five = simp (one, two, three, four, resolve_identified, five)

or_true : (b : Bool) → (b || true) ≡ true
or_true true = refl
or_true false = refl

active-exists :
    (c : Checkout) (file : WitnessFile)
    → is_active (witness_state c file) ≡ true
    → witness_exists file ≡ true
unfolding witness_state
active-exists c no_witness h = cc
active-exists c dangling_link h = cc
active-exists c malformed h = refl
active-exists c (witness_of id root) h = refl

-- The answer with the legacy store, sealed, because the canonical one is no regular file.
abbrev pub held_at : Text → ControlDbResolution
held_at legacy_path = legacy_at legacy_path canonical_held true (some target_absent)

root_held :
    (w : Observed) (r : ObservedRoot)
    → r.directory_trusted ≡ true
    → r.control_dir_trusted ≡ true
    → r.journal ≡ Journal.promoted
    → r.target_is_real ≡ false
    → resolve_root w r true ≡ held_at w.legacy_path
unfolding resolve_root
root_held w r one two three four = simp (one, two, three, four)

active-selects :
    (c : Checkout) (legacy_path target : Text) (regular env_cutover : Bool) (w : World)
    → IsActive c w
    → resolve_control_db (observe c legacy_path target regular env_cutover w)
      ≡ (if regular then canonical_at target else held_at legacy_path)
unfolding resolve_control_db
active-selects c legacy_path target true env_cutover w a =
    let whole = undamaged c w.evidence env_cutover a.by_witness a.by_marker a.by_journal in
    let durable = durable_of_witness c w.evidence a.by_witness in
    simp (whole, durable, or_true env_cutover)
      (root-canonical _ _ refl refl (ap journal_kind a.by_journal)
        (match-exists c w.target a.own_target) (match-kind _ a.own_target))
active-selects c legacy_path target false env_cutover w a =
    let whole = undamaged c w.evidence env_cutover a.by_witness a.by_marker a.by_journal in
    let durable = durable_of_witness c w.evidence a.by_witness in
    simp (whole, durable, or_true env_cutover)
      (root_held _ _ refl refl (ap journal_kind a.by_journal) refl)

-- The legacy store, with no seal on it.
abbrev pub IsLegacy : Text → ControlDbResolution → Type 0
IsLegacy legacy_path r =
    (r.path ≡ legacy_path) × (r.effective_endpoint ≡ legacy) × (r.sealed ≡ false)

identified-IsLegacy :
    (w : Observed) (r : ObservedRoot) (i : Identity)
    → r.identity ≡ i
    → IsLegacy w.legacy_path (resolve_identified w r false)
unfolding resolve_identified
identified-IsLegacy w r matching h =
    (simp (resolve_identified, h), simp (resolve_identified, h), simp (resolve_identified, h))
identified-IsLegacy w r Identity.fs_mismatch h =
    (simp (resolve_identified, h), simp (resolve_identified, h), simp (resolve_identified, h))
identified-IsLegacy w r Identity.fs_absent h =
    (simp (resolve_identified, h), simp (resolve_identified, h), simp (resolve_identified, h))
identified-IsLegacy w r Identity.mismatch h =
    (simp (resolve_identified, h), simp (resolve_identified, h), simp (resolve_identified, h))

withdrawn-selects :
    (c : Checkout) (legacy_path target : Text) (regular : Bool) (w : World)
    → IsLegacy legacy_path
        (resolve_control_db (observe c legacy_path target regular false (withdrawn w)))
unfolding resolve_control_db cutover_damaged publication_evidence_damaged durable_cutover_observed
    witness_state read_journal state_of_text text_eq resolve_root
withdrawn-selects c legacy_path target regular w = elim (Bool-cases (regular && exists w.target)) [
  | inl there ↦ simp (there) (identified-IsLegacy _ _ _ refl)
  | inr gone ↦ simp (gone) (refl, refl, refl)
]

true_not_false : true ≡ false → ⊥
true_not_false c = cc

activated-IsActive :
    (c : Checkout) (before : Evidence) (target : Store) (out : World × Reply CutoverResult)
    → IsActivation c before target out
    → out.1 ≡ returned (cutover_result true true true)
    → IsActive c out.0
activated-IsActive c before target _ (not_begun out same kept none_begun) h =
    absurd (true_not_false (sym (ap succeeded h) ∙ none_begun))
activated-IsActive c before target _ (begun there durable kept) h = absurd (cc)
activated-IsActive c before target _ (completed done a kept) h = a

deactivated-withdrawn :
    (w : World) (out : World × Reply CutoverResult)
    → IsDeactivation w out
    → out.1 ≡ returned (cutover_result true false true)
    → out.0 ≡ withdrawn w
deactivated-withdrawn w out (inl kept) h =
    absurd (true_not_false (sym (ap says_inactive h) ∙ kept.1))
deactivated-withdrawn w out (inr done) h = done.0

-- If the activation of a cutover reports that it is done, and then a deactivation as well, then
-- in a checkout with real directories and without an override the resolver of the control
-- database opens the canonical store, unsealed, after the first if that store is a regular
-- file, and holds the legacy store, sealed, if it is a link; and after the second, without a
-- cutover by the environment, it opens the legacy store, unsealed.
pub cutover-selects :
    (on off : CutoverHost) (legacy_path target : Text) (regular env_cutover : Bool) (w : World)
    → (activate_cutover on true w).1 ≡ returned (cutover_result true true true)
    → (deactivate_cutover off true (activate_cutover on true w).0).1
      ≡ returned (cutover_result true false true)
    → (resolve_control_db (
          observe on.checkout legacy_path target regular env_cutover (activate_cutover on true w).0)
        ≡ (if regular then canonical_at target else held_at legacy_path))
      × IsLegacy legacy_path (
          resolve_control_db (
            observe on.checkout legacy_path target regular false
              (deactivate_cutover off true (activate_cutover on true w).0).0))
cutover-selects on off legacy_path target regular env_cutover w h k =
    let a =
      activated-IsActive on.checkout w.evidence w.target _ (activate_cutover-IsActivation on true w)
        h in
    let there =
      active-exists on.checkout (activate_cutover on true w).0.evidence.witness a.by_witness in
    let back =
      deactivated-withdrawn (activate_cutover on true w).0 _
        (deactivate_cutover-IsDeactivation off true (activate_cutover on true w).0 there) k in
    (
      active-selects on.checkout legacy_path target regular env_cutover _ a,
      subst
          (λ v.
            IsLegacy legacy_path
              (resolve_control_db (observe on.checkout legacy_path target regular false v)))
          (sym back)
          (withdrawn-selects on.checkout legacy_path target regular (activate_cutover on true w).0),
    )
