-- ===== src/ControlResolve.antt =====
-- src/control-resolve.ts: which control database is opened, as a function of what was observed of
-- the environment, the project and its journal.
pub mod Laws
mod Tests
use mazzy_command_center.Prelude.{
  Bool, true, false, Option, none, some, ◌&&◌, ◌||◌, not, if◌then◌else◌, Text,
}
use mazzy_command_center.AntiTunnel.{
  Resolution, explicit_override, canonical_promoted, canonical_held, git_root_legacy, cwd_fallback,
}

pub data ControlDbHold : Type 0 where
  invalid_journal identity target_absent untrusted duplicate_identity : ControlDbHold

pub data EffectiveEndpoint : Type 0 where
  canonical legacy override : EffectiveEndpoint

pub record ControlDbResolution : Type 0 where
  pub path : Text
  pub selection : Resolution
  pub effective_endpoint : EffectiveEndpoint
  pub cutover : Bool
  pub sealed : Bool
  pub hold : Option ControlDbHold

-- What the journal of a project says of a promotion.
pub data Journal : Type 0 where
  inactive promoted other_journal : Journal

-- What `verifyCanonicalIdentity` answers.
pub data Identity : Type 0 where
  matching fs_mismatch fs_absent mismatch : Identity

-- What was observed of a project whose root is trusted.
pub record ObservedRoot : Type 0 where
  pub durable_cutover : Bool
  pub damaged : Bool
  pub directory_trusted : Bool
  pub control_dir_trusted : Bool
  pub journal : Journal
  pub target : Text
  pub target_is_real : Bool
  pub identity : Identity

pub record Observed : Type 0 where
  pub legacy_path : Text
  pub env_cutover : Bool
  pub root : Option ObservedRoot
  pub override_active : Bool

abbrev pub hold_if : Bool → ControlDbHold → Option ControlDbHold
hold_if b hold = if b then some hold else none

abbrev pub legacy_at : Text → Resolution → Bool → Option ControlDbHold → ControlDbResolution
legacy_at path selection sealed hold = record {
  path = path;
  selection = selection;
  effective_endpoint = legacy;
  cutover = false;
  sealed = sealed;
  hold = hold;
}

abbrev pub override_at : Text → Bool → Bool → Option ControlDbHold → ControlDbResolution
override_at path cutover sealed hold = record {
  path = path;
  selection = explicit_override;
  effective_endpoint = override;
  cutover = cutover;
  sealed = sealed;
  hold = hold;
}

-- The last tests: the identity of a canonical store that is there.
unfoldable pub resolve_identified : Observed → ObservedRoot → Bool → ControlDbResolution
resolve_identified w r activation = elim r.identity [
  | fs_mismatch ↦ legacy_at w.legacy_path canonical_held activation (some duplicate_identity)
  | fs_absent ↦ legacy_at w.legacy_path canonical_held activation (some identity)
  | mismatch ↦ legacy_at w.legacy_path canonical_held activation (some identity)
  | matching ↦
      if activation
      then record {
        path = r.target;
        selection = canonical_promoted;
        effective_endpoint = canonical;
        cutover = true;
        sealed = false;
        hold = none;
      }
      else legacy_at w.legacy_path canonical_promoted false none
]

-- The tests of a trusted project without an override or damage.
unfoldable pub resolve_root : Observed → ObservedRoot → Bool → ControlDbResolution
resolve_root w r activation =
    if not (r.directory_trusted && r.control_dir_trusted)
    then legacy_at w.legacy_path git_root_legacy activation (hold_if activation untrusted)
    else elim r.journal [
      | inactive ↦
          legacy_at w.legacy_path git_root_legacy activation (hold_if activation invalid_journal)
      | other_journal ↦ legacy_at w.legacy_path canonical_held activation (some invalid_journal)
      | promoted ↦
          if not r.target_is_real
          then legacy_at w.legacy_path canonical_held activation (some target_absent)
          else resolve_identified w r activation
    ]

abbrev pub is_durable : Option ObservedRoot → Bool
is_durable none = false
is_durable (some r) = r.durable_cutover

abbrev pub is_damaged : Option ObservedRoot → Bool
is_damaged none = false
is_damaged (some r) = r.damaged

abbrev pub is_activated : Observed → Bool
is_activated w = w.env_cutover || is_durable w.root

abbrev pub resolve_undamaged : Observed → Bool → Option ObservedRoot → ControlDbResolution
resolve_undamaged w activation none =
    legacy_at w.legacy_path cwd_fallback w.env_cutover (hold_if w.env_cutover untrusted)
resolve_undamaged w activation (some r) = resolve_root w r activation

unfoldable pub resolve_control_db : Observed → ControlDbResolution
resolve_control_db w =
    let activation = is_activated w in
    if is_damaged w.root && w.override_active
    then override_at w.legacy_path activation true (some untrusted)
    else if is_damaged w.root
    then legacy_at w.legacy_path git_root_legacy true (some untrusted)
    else if w.override_active
    then override_at w.legacy_path activation activation (hold_if activation untrusted)
    else resolve_undamaged w activation w.root
