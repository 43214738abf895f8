-- ===== src/AntiTunnel/Tests.antt =====
-- A project of src/anti-tunnel.ts with a stray store, and the theorems applied to it.
use mazzy_command_center.Prelude.{
  ◌≤◌, true, false, none, some, ◌≡◌, ◌↔◌, refl, Text, codes, length, filter_where, any_where,
  text_eq,
}
use mazzy_command_center.AntiTunnel.{
  ends_with, see_file, visit_child, has_drift, visit_children, visit, hold_unresolved, is_tunnel,
  candidates_of, orchestration_gate, single_mechanism_gate, inspect_single_mechanism, scan_stores,
  is_canonical, link, file, directory, Folder, unreadable, folder, no_child, child, git_root_legacy,
  Surroundings,
}
use mazzy_command_center.AntiTunnel.Scan.{IsNear, Every, scan_stores-bounded}
use mazzy_command_center.AntiTunnel.Gates.{
  inspect_single_mechanism-canonical, orchestration_gate-clear, orchestration_gate-directive,
}

abbrev store_file : Folder
store_file = folder true (child (file (codes "state.db")) no_child)

-- `/p/.pi-ops/state.db`, and a stray store of a nested copy; `.git` is not entered.
abbrev project : Folder
project = folder true (
    child (directory (codes ".pi-ops") store_file) (
      child
        (directory (codes ".git")
          (folder true (child (directory (codes ".pi-ops") store_file) no_child)))
        (child
          (directory (codes "copy")
            (folder true (child (directory (codes ".pi-ops") store_file) no_child)))
          (child (link (codes "state.db")) no_child))))

abbrev around : Folder → Surroundings
around tree = record {
  root = some (codes "/p", tree);
  resolution = git_root_legacy;
  untrusted_resolution = git_root_legacy;
  canonical_path = codes "/p/.pi-ops/state.db";
  legacy_path = codes "/p/.pi-ops/state.db";
  drifted = false;
  same_file = text_eq;
  redact_relative = λ root path. path;
}

found_two : length (scan_stores project (codes "/p")) ≡ 2
unfolding scan_stores visit visit_children visit_child see_file ends_with text_eq
found_two = refl

one_tunnel : (inspect_single_mechanism (around project)).tunnel_count ≡ 1
unfolding inspect_single_mechanism candidates_of scan_stores visit visit_children visit_child
    see_file ends_with text_eq any_where filter_where
one_tunnel = refl

scan_stores-bounded_example :
    (length (scan_stores project (codes "/p")) ≤ 128)
    × Every (IsNear project (codes "/p")) (scan_stores project (codes "/p"))
scan_stores-bounded_example = scan_stores-bounded project (codes "/p")

inspect_single_mechanism-canonical_example :
    any_where is_canonical (inspect_single_mechanism (around unreadable)).candidates ≡ true
inspect_single_mechanism-canonical_example =
    inspect_single_mechanism-canonical (around unreadable) (codes "/p", unreadable) refl

orchestration_gate-clear_example : ((orchestration_gate (around project)).clear ≡ true) ↔ (
    (place : Text × Folder) × ((around project).root ≡ some place)
    × (length (filter_where is_tunnel (candidates_of (around project) place.0 place.1)) ≡ 0)
    × (has_drift (around project) ≡ false))
orchestration_gate-clear_example = orchestration_gate-clear (around project)

orchestration_gate-directive_example :
    (single_mechanism_gate (around project) ≡ (orchestration_gate (around project)).clear)
    × (((orchestration_gate (around project)).directive ≡ hold_unresolved)
        ↔ ((around project).root ≡ none))
orchestration_gate-directive_example = orchestration_gate-directive (around project)
