-- ===== src/AntiTunnel.antt =====
-- src/anti-tunnel.ts: the scan for control stores, the report on the single mechanism, and the
-- gates that stand on it. The file system is a tree as `readdirSync` shows it; whether two paths
-- are the same file, the digest of a relative path and the check of the drift are parameters.
pub mod Scan
pub mod Gates
mod Tests
use mazzy_command_center.Prelude.{
  ℕ, suc, ◌+◌, Bool, true, false, List, [], ◌∷◌, ◌++◌, Option, none, some, ◌&&◌, ◌||◌, not, ltb,
  leb, ◌==◌, if◌then◌else◌, Text, codes, text_eq, length, map, filter_where, any_where,
}

pub data StoreFamily : Type 0 where
  legacy_pi_ops mazzy_control : StoreFamily

-- A directory is readable or not, and real unless `lstat` finds that it is a link or gone.
mutual
  pub data Node : Type 0 where
    link file other : Text → Node
    directory : Text → Folder → Node

  pub data Folder : Type 0 where
    unreadable : Folder
    folder : Bool → Children → Folder

  pub data Children : Type 0 where
    no_child : Children
    child : Node → Children → Children

pub record FoundStore : Type 0 where
  pub path : Text
  pub depth : ℕ
  pub family : StoreFamily

-- The counters of a scan: the entries seen, and the stores found in their order.
pub record ScanState : Type 0 where
  pub entries : ℕ
  pub found : List FoundStore

abbrev pub max_entries : ℕ
max_entries = 4096

abbrev pub max_depth : ℕ
max_depth = 10

abbrev pub max_candidates : ℕ
max_candidates = 128

-- `path.join` of a normal path other than the root of the file system, and a name.
abbrev pub join_path : Text → Text → Text
join_path dir name = dir ++ codes "/" ++ name

-- `text.endsWith(suffix)`
unfoldable pub ends_with : Text → Text → Bool
ends_with [] suffix = text_eq [] suffix
ends_with (c ∷ s) suffix = text_eq (c ∷ s) suffix || ends_with s suffix

abbrev pub family_of : Text → Option StoreFamily
family_of dir =
    if ends_with dir (codes ".pi-ops")
    then some legacy_pi_ops
    else if ends_with dir (codes ".mazzy/control")
    then some mazzy_control
    else none

abbrev pub is_full : ScanState → Bool
is_full s = leb max_entries s.entries || leb max_candidates (length s.found)

-- A file of the loop: a store, if its name and its directory are those of one.
unfoldable pub see_file : Bool → Text → ℕ → Text → ScanState → ScanState
see_file real dir depth name s =
    if text_eq name (codes "state.db") && real
    then elim (family_of dir) [
      | none ↦ s
      | some family ↦ record s {
        found =
            s.found ++ record { path = join_path dir name; depth = depth; family = family } ∷ [];
      }
    ]
    else s

abbrev pub is_skipped : Text → Bool
is_skipped name = text_eq name (codes ".git") || text_eq name (codes "node_modules")

-- `visit` and its loop. A full scan leaves the loop of a directory; the loops of the directories
-- above then leave at their next entry.
unfoldable mutual
  pub visit : Folder → Text → ℕ → ScanState → ScanState
  visit unreadable dir depth s = s
  visit (folder real children) dir depth s =
      let after = visit_children children real dir depth s in
      if ltb max_depth depth || is_full s then s else after

  pub visit_children : Children → Bool → Text → ℕ → ScanState → ScanState
  visit_children no_child real dir depth s = s
  visit_children (child node rest) real dir depth s =
      let seen : ScanState = record s { entries = suc s.entries } in
      let after = visit_children rest real dir depth (visit_child node real dir depth seen) in
      if is_full s then seen else after

  pub visit_child : Node → Bool → Text → ℕ → ScanState → ScanState
  visit_child (link name) real dir depth s = s
  visit_child (other name) real dir depth s = s
  visit_child (file name) real dir depth s = see_file real dir depth name s
  visit_child (directory name inside) real dir depth s =
      let after = visit inside (join_path dir name) (suc depth) s in
      if is_skipped name then s else after

unfoldable pub scan_stores : Folder → Text → List FoundStore
scan_stores tree root = (visit tree root 0 (record { entries = 0; found = [] })).found

pub data SingleMechanismStatus : Type 0 where
  unified tunnels_detected drift unresolved : SingleMechanismStatus

pub data Resolution : Type 0 where
  explicit_override canonical_promoted canonical_held git_root_legacy cwd_fallback : Resolution

abbrev pub is_promoted : Resolution → Bool
is_promoted canonical_promoted = true
is_promoted _ = false

pub record TunnelCandidate : Type 0 where
  pub rel_digest : Text
  pub depth : ℕ
  pub family : StoreFamily
  pub canonical : Bool
  pub retained : Bool

pub record SingleMechanismReport : Type 0 where
  pub status : SingleMechanismStatus
  pub resolution : Resolution
  pub canonical_digest : Option Text
  pub candidates : List TunnelCandidate
  pub tunnel_count : ℕ
  pub is_unified : Bool

-- What `inspectSingleMechanism` learns from elsewhere: the trusted root with its tree, the choice
-- of the resolver, the legacy path, and the drift of the retained endpoint, if it was promoted.
pub record Surroundings : Type 0 where
  pub root : Option (Text × Folder)
  pub resolution : Resolution
  pub untrusted_resolution : Resolution
  pub canonical_path : Text
  pub legacy_path : Text
  pub drifted : Bool
  pub same_file : Text → Text → Bool
  pub redact_relative : Text → Text → Text

abbrev pub is_retained : Surroundings → Text → Text → Bool
is_retained w root path =
    is_promoted w.resolution
    && (w.same_file path w.legacy_path
        || w.same_file path (join_path root (codes ".mazzy/control/state.db")))

abbrev pub candidate_of : Surroundings → Text → FoundStore → TunnelCandidate
candidate_of w root store = record {
  rel_digest = w.redact_relative root store.path;
  depth = store.depth;
  family = store.family;
  canonical = w.same_file store.path w.canonical_path;
  retained = not (w.same_file store.path w.canonical_path) && is_retained w root store.path;
}

-- The canonical store, when the scan did not see it.
abbrev pub missed_canonical : Surroundings → Text → TunnelCandidate
missed_canonical w root = record {
  rel_digest = w.redact_relative root w.canonical_path;
  depth = 0;
  family = if is_promoted w.resolution then mazzy_control else legacy_pi_ops;
  canonical = true;
  retained = false;
}

abbrev pub is_canonical : TunnelCandidate → Bool
is_canonical c = c.canonical

unfoldable pub candidates_of : Surroundings → Text → Folder → List TunnelCandidate
candidates_of w root tree =
    let scanned = map (candidate_of w root) (scan_stores tree root) in
    if any_where is_canonical scanned then scanned else scanned ++ missed_canonical w root ∷ []

abbrev pub is_tunnel : TunnelCandidate → Bool
is_tunnel c = not c.canonical && not c.retained

abbrev pub has_drift : Surroundings → Bool
has_drift w = is_promoted w.resolution && w.drifted

unfoldable pub inspect_single_mechanism : Surroundings → SingleMechanismReport
inspect_single_mechanism w = elim w.root [
  | none ↦ record {
    status = unresolved;
    resolution = w.untrusted_resolution;
    canonical_digest = none;
    candidates = [];
    tunnel_count = 0;
    is_unified = false;
  }
  | some place ↦
      let candidates = candidates_of w place.0 place.1 in
      let count = length (filter_where is_tunnel candidates) in
      record {
        status = if has_drift w then drift else if count == 0 then unified else tunnels_detected;
        resolution = w.resolution;
        canonical_digest = some (w.redact_relative place.0 w.canonical_path);
        candidates = candidates;
        tunnel_count = count;
        is_unified = (count == 0) && not (has_drift w);
      }
]

abbrev pub is_unified_status : SingleMechanismStatus → Bool
is_unified_status unified = true
is_unified_status _ = false

-- `singleMechanismGate(cwd).pass`
unfoldable pub single_mechanism_gate : Surroundings → Bool
single_mechanism_gate w = is_unified_status (inspect_single_mechanism w).status

pub data OrchestrationDirective : Type 0 where
  proceed redirect_consolidation hold_unresolved : OrchestrationDirective

pub record OrchestrationGate : Type 0 where
  pub clear : Bool
  pub directive : OrchestrationDirective

abbrev pub gate_of : SingleMechanismStatus → OrchestrationGate
gate_of unified = record { clear = true; directive = proceed }
gate_of unresolved = record { clear = false; directive = hold_unresolved }
gate_of drift = record { clear = false; directive = redirect_consolidation }
gate_of tunnels_detected = record { clear = false; directive = redirect_consolidation }

unfoldable pub orchestration_gate : Surroundings → OrchestrationGate
orchestration_gate w = gate_of (inspect_single_mechanism w).status
