-- ===== src/Migrate/Cutover/Sealed.antt =====
-- The ways that `activateCutover` and `deactivateCutover` of src/control-migrate.ts can end, a failure
-- of each write included.
use mazzy_command_center.Migrate.Cutover.Guards.{succeeded}
use mazzy_command_center.Migrate.Writes.{
  read_journal-text, write_journal-ok, write_journal-err, if-ok, journaled, if-err,
}
use mazzy_command_center.Endpoint.{
  Evidence, durable_cutover_observed, witness_of, is_match, cutover, is_active, WitnessFile,
  witness_state, read_journal, Checkout,
}
use mazzy_command_center.Migrate.Cutover.{
  publication, publish_own, cutover_result, CutoverResult, CutoverHost, write_marker, write_witness,
  publish_witness, verify_canonical_identity, own_witness,
}
use mazzy_command_center.Migrate.{
  Result, returned, Reply, err, ok, false, Bool, none, is_empty, Text, Option,
  strict_control_parity, some, true, World, read_journal, Checkout, Store,
}
use mathlib.Core.Path.{sym, ap, subst}
use mazzy_command_center.Prelude.{
  ◌||◌, arith, inr, inl, ◌∙◌, on_err, ◌⊎◌, err-eq, if◌then◌else◌, refl, text_eq_refl, ◌≡◌, on_ok,
}

-- The evidence of a cutover of this checkout is complete, and so is what it needs.
pub record IsActive (c : Checkout) (w : World) : Type 0 where
  pub by_witness : is_active (witness_state c w.evidence.witness) ≡ true
  pub by_marker : is_active (witness_state c w.evidence.marker) ≡ true
  pub by_journal : read_journal w.evidence.journal ≡ cutover
  pub own_target : is_match (verify_canonical_identity c w.target) ≡ true
  pub same_rows : strict_control_parity w.source w.target ≡ true

abbrev of_parts : Option Text → Option Text → Checkout
of_parts id root = record { project_id = id; root_digest = root }

unless-some {ℓ} :
    {A : Type ℓ} (test : Bool) {a b : A}
    → (if test then none else some a) ≡ some b
    → (test ≡ false) × (a ≡ b)
unless-some true h = cc
unless-some false h = (refl, cc)

own_witness_here :
    (id root : Text)
    → is_empty root ≡ false
    → is_active (witness_state (of_parts (some id) (some root)) (witness_of id root)) ≡ true
unfolding witness_state
own_witness_here id root h = simp (h, text_eq_refl)

-- `witnessState` of the witness that is written.
own_witness-active :
    (id root : Option Text) (file : WitnessFile)
    → own_witness (of_parts id root) ≡ some file
    → is_active (witness_state (of_parts id root) file) ≡ true
unfolding own_witness witness_state
own_witness-active none root file h = cc
own_witness-active (some id) none file h = cc
own_witness-active (some id) (some root) file h =
    let own = unless-some (is_empty root) h in
    subst (λ f. is_active (witness_state (of_parts (some id) (some root)) f) ≡ true) own.1
      (own_witness_here id root own.0)

abbrev pub witnessed : WitnessFile → World → World
witnessed file w = record w { evidence = record w.evidence { witness = file } }

abbrev pub marked : WitnessFile → World → World
marked file w = record w { evidence = record w.evidence { marker = file } }

publish_witness-ok :
    (host : CutoverHost) (file : WitnessFile) (w : World) {done : World}
    → publish_witness host file w ≡ ok done
    → journaled cutover (marked file (witnessed file w)) ≡ done
unfolding publish_witness write_witness write_marker
publish_witness-ok host file w h = on_ok (write_witness host file w) h λ a e h1.
    on_ok (write_marker host file a) h1 λ b f h2.
      let first = if-ok host.writes_witness _ _ e in
      let second = if-ok host.writes_marker _ _ f in
      ap (λ x. journaled cutover (marked file x)) first
      ∙ ap (journaled cutover) second
      ∙ write_journal-ok host.writes cutover b h2

-- Where it fails, nothing was written, or the witness was.
publish_witness-err :
    (host : CutoverHost) (file : WitnessFile) (w : World) {there : World}
    → publish_witness host file w ≡ err there
    → (there ≡ w) ⊎ ((there.evidence.witness ≡ file) × (there.target ≡ w.target))
unfolding publish_witness write_witness write_marker
publish_witness-err host file w h =
    on_err (write_witness host file w) h
      (λ e. inl (sym (if-err host.writes_witness (witnessed file w) w e)))
      λ a e h1.
        let first = sym (if-ok host.writes_witness (witnessed file w) w e) in
        on_err (write_marker host file a) h1
          (λ f.
            let second = sym (if-err host.writes_marker (marked file a) a f) ∙ first in
            inr (ap (λ x. x.evidence.witness) second, ap (λ x. x.target) second))
          λ b f h2.
            let second = sym (if-ok host.writes_marker (marked file a) a f) in
            let third = sym (write_journal-err host.writes cutover b h2) ∙ second in
            inr (
              ap (λ x. x.evidence.witness) third ∙ ap (λ x. x.evidence.witness) first,
              ap (λ x. x.target) third ∙ ap (λ x. x.target) first,
            )

-- How an activation ends: the evidence is as it was; or a part of it is written, which already
-- counts as a cutover; or all of it, and the stores agree.
pub data IsActivation (c : Checkout) (before : Evidence) (target : Store)
    : World × Reply CutoverResult → Type 0 where
  not_begun :
      (out : World × Reply CutoverResult)
      → out.0.evidence ≡ before
      → out.0.target ≡ target
      → succeeded out.1 ≡ false
      → IsActivation c before target out
  begun :
      (there : World)
      → durable_cutover_observed c there.evidence ≡ true
      → there.target ≡ target
      → IsActivation c before target (there, returned (cutover_result true true false))
  completed :
      (done : World)
      → IsActive c done
      → done.target ≡ target
      → IsActivation c before target (done, returned (cutover_result true true true))

first-true : (a b c : Bool) → a ≡ true → (a || b || c) ≡ true
first-true a b c h = ground arith

pub durable_of_witness :
    (c : Checkout) (e : Evidence)
    → is_active (witness_state c e.witness) ≡ true
    → durable_cutover_observed c e ≡ true
unfolding durable_cutover_observed
durable_of_witness c e h = first-true (is_active (witness_state c e.witness)) _ _ h

own-active :
    (c : Checkout) (file : WitnessFile)
    → own_witness c ≡ some file
    → is_active (witness_state c file) ≡ true
own-active c file h = own_witness-active c.project_id c.root_digest file h

failed-IsActivation :
    (host : CutoverHost) (file : WitnessFile) (w there : World)
    → own_witness host.checkout ≡ some file
    → publish_witness host file w ≡ err there
    → IsActivation host.checkout w.evidence w.target (publication host (err there))
failed-IsActivation host file w there own h = elim (publish_witness-err host file w h) [
  | inl same ↦ not_begun _ (ap (λ x. x.evidence) same) (ap (λ x. x.target) same) refl
  | inr written ↦
      let durable = durable_of_witness host.checkout there.evidence (
        subst (λ f. is_active (witness_state host.checkout f) ≡ true) (sym written.0)
          (own-active host.checkout file own)) in
      subst
        (λ b.
          IsActivation host.checkout w.evidence w.target
            (there, returned (cutover_result true b false)))
        (sym durable) (begun there durable written.1)
]

publish_witness-IsActive :
    (host : CutoverHost) (file : WitnessFile) (w done : World)
    → own_witness host.checkout ≡ some file
    → is_match (verify_canonical_identity host.checkout w.target) ≡ true
    → strict_control_parity w.source w.target ≡ true
    → publish_witness host file w ≡ ok done
    → IsActive host.checkout done
publish_witness-IsActive host file w done own same rows h =
    subst (IsActive host.checkout) (publish_witness-ok host file w h) (record {
      by_witness = own-active host.checkout file own;
      by_marker = own-active host.checkout file own;
      by_journal = read_journal-text cutover;
      own_target = same;
      same_rows = rows;
    })

pub publication-IsActivation :
    (host : CutoverHost) (w : World) (o : Option WitnessFile) (r : Result World World)
    → own_witness host.checkout ≡ o
    → is_match (verify_canonical_identity host.checkout w.target) ≡ true
    → strict_control_parity w.source w.target ≡ true
    → publish_own host o w ≡ r
    → IsActivation host.checkout w.evidence w.target (publication host r)
unfolding publish_own
publication-IsActivation host w none (err there) own same rows h =
    not_begun _ (sym (ap (λ x. x.evidence) (err-eq h))) (sym (ap (λ x. x.target) (err-eq h))) refl
publication-IsActivation host w none (ok done) own same rows h = absurd (cc)
publication-IsActivation host w (some file) (err there) own same rows h =
    failed-IsActivation host file w there own h
publication-IsActivation host w (some file) (ok done) own same rows h =
    completed done (publish_witness-IsActive host file w done own same rows h)
      (sym (ap (λ x. x.target) (publish_witness-ok host file w h)))
