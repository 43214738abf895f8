-- ===== src/Endpoint.antt =====
-- src/control-endpoint.ts: the journal of a promotion, the evidence of a cutover, and the identity
-- that is stamped in a control database. Files are data: what is read of them, or that they are
-- missing. The Git root, the project's id and the digest of the root are fields of `Checkout`.
pub mod Trust
use mazzy_command_center.Prelude.{
  Bool, true, false, Option, none, some, ◌&&◌, ◌||◌, not, if◌then◌else◌, Text, codes, text_eq,
  is_empty,
}

pub data JournalState : Type 0 where
  no_journal prepared verified promoting promoted cutover rolled_back invalid : JournalState

-- A file of the journal: that it is missing, that it is no JSON, or its `state` if that is a text.
pub data JournalFile : Type 0 where
  missing_journal unreadable_journal : JournalFile
  journal_with : Option Text → JournalFile

abbrev pub journal_text : JournalState → Text
journal_text no_journal = codes "absent"
journal_text prepared = codes "prepared"
journal_text verified = codes "verified"
journal_text promoting = codes "promoting"
journal_text promoted = codes "promoted"
journal_text cutover = codes "cutover"
journal_text rolled_back = codes "rolled-back"
journal_text invalid = codes "invalid"

unfoldable pub state_of_text : Text → JournalState
state_of_text s =
    if text_eq s (codes "absent")
    then no_journal
    else if text_eq s (codes "rolled-back")
    then rolled_back
    else if text_eq s (codes "prepared")
    then prepared
    else if text_eq s (codes "verified")
    then verified
    else if text_eq s (codes "promoting")
    then promoting
    else if text_eq s (codes "promoted")
    then promoted
    else if text_eq s (codes "cutover")
    then cutover
    else invalid

unfoldable pub read_journal : JournalFile → JournalState
read_journal missing_journal = no_journal
read_journal unreadable_journal = invalid
read_journal (journal_with none) = invalid
read_journal (journal_with (some s)) = state_of_text s

abbrev pub is_promoted : JournalState → Bool
is_promoted promoted = true
is_promoted cutover = true
is_promoted _ = false

abbrev pub is_cutover : JournalState → Bool
is_cutover cutover = true
is_cutover _ = false

abbrev pub is_invalid : JournalState → Bool
is_invalid invalid = true
is_invalid _ = false

-- What is known of the checkout: `readProjectIdentity` and `rootFsDigest`, where they give one.
pub record Checkout : Type 0 where
  pub project_id : Option Text
  pub root_digest : Option Text

-- A witness of a cutover: that there is no such file, that it is a link to nothing, that it is
-- malformed, or what it names.
pub data WitnessFile : Type 0 where
  no_witness dangling_link malformed : WitnessFile
  witness_of : Text → Text → WitnessFile

pub data WitnessState : Type 0 where
  witness_absent active inert witness_invalid : WitnessState

unfoldable pub witness_state : Checkout → WitnessFile → WitnessState
witness_state c no_witness = witness_absent
witness_state c dangling_link = witness_invalid
witness_state c malformed = witness_invalid
witness_state c (witness_of id digest) = elim c.project_id [
  | none ↦ witness_invalid
  | some own ↦ elim c.root_digest [
    | none ↦ witness_invalid
    | some root ↦
        if is_empty root
        then witness_invalid
        else if text_eq id own && text_eq digest root
        then active
        else inert
  ]
]

-- `existsSync` follows a link.
abbrev pub witness_exists : WitnessFile → Bool
witness_exists no_witness = false
witness_exists dangling_link = false
witness_exists malformed = true
witness_exists (witness_of id digest) = true

abbrev pub is_active : WitnessState → Bool
is_active active = true
is_active _ = false

abbrev pub is_damaged_witness : WitnessState → Bool
is_damaged_witness witness_invalid = true
is_damaged_witness _ = false

-- The evidence of a cutover: the journal, the marker beside it, and the witness outside of it.
pub record Evidence : Type 0 where
  pub journal : JournalFile
  pub marker : WitnessFile
  pub witness : WitnessFile

unfoldable pub durable_cutover_observed : Checkout → Evidence → Bool
durable_cutover_observed c e =
    is_active (witness_state c e.witness)
    || is_active (witness_state c e.marker)
    || is_cutover (read_journal e.journal)

unfoldable pub publication_evidence_damaged : Checkout → Evidence → Bool
publication_evidence_damaged c e =
    is_damaged_witness (witness_state c e.witness) || is_damaged_witness (witness_state c e.marker)

-- `structure` is `controlStructureDamaged`: a part of the path is there and no real directory.
unfoldable pub cutover_damaged : Checkout → Evidence → Bool → Bool → Bool
cutover_damaged c e structure break_glass =
    if publication_evidence_damaged c e
    then true
    else if not (is_invalid (read_journal e.journal)) && not structure
    then false
    else break_glass || durable_cutover_observed c e || is_promoted (read_journal e.journal)

pub data IdentityVerdict : Type 0 where
  match_verdict mismatch fs_mismatch fs_absent identity_absent unreadable : IdentityVerdict

-- The stamp of a database: the project, the digest of its root and the time of the promotion.
pub record Stamp : Type 0 where
  pub project_id : Text
  pub root_fs_digest : Option Text
  pub promoted_at : Text

unfoldable pub verify_stamp : Checkout → Text → Option Stamp → IdentityVerdict
verify_stamp c root_digest none = identity_absent
verify_stamp c root_digest (some s) = elim c.project_id [
  | none ↦ unreadable
  | some own ↦ if not (text_eq s.project_id own) then mismatch else elim s.root_fs_digest [
    | none ↦ fs_absent
    | some d ↦
        if is_empty d
        then fs_absent
        else if not (text_eq d root_digest)
        then fs_mismatch
        else match_verdict
  ]
]

abbrev pub is_match : IdentityVerdict → Bool
is_match match_verdict = true
is_match _ = false
