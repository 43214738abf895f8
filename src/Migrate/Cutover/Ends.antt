-- ===== src/Migrate/Cutover/Ends.antt =====
-- How `activateCutover` and `deactivateCutover` of src/control-migrate.ts end, a failure of each write
-- included.
use mazzy_command_center.Migrate.Cutover.Guards.{guards-match, guards-stop}
use mazzy_command_center.ControlResolve.{promoted}
use mathlib.Core.Option.{none}
use mazzy_command_center.Migrate.Writes.{
  if-ok, if-err, write_journal-ok, write_journal-err, locked-holds,
}
use mazzy_command_center.Endpoint.{
  rolled_back, promoted, journal_text, witness_exists, journal_with, Evidence, no_witness, is_match,
}
use mazzy_command_center.Prelude.{
  ◌&&◌, ◌∙◌, ap, sym, on_ok, on_err, arith, ◌⊎◌, refl, inr, if◌then◌else◌, inl, ◌≡◌,
}
use mazzy_command_center.Migrate.Cutover.Sealed.{publication-IsActivation, not_begun, IsActivation}
use mazzy_command_center.Migrate.Cutover.{
  shows_cutover, needs_repair, remove_witness, remove_marker, withdraw_cutover, deactivate_cutover,
  deactivate_cutover_unlocked, CutoverResult, own_witness, publish_own, publication, cutover_result,
  verify_canonical_identity, activation_guards, is_match, deactivation, publish_later,
  activate_cutover_unlocked, activate_cutover, CutoverHost,
}
use mazzy_command_center.Migrate.{
  write_journal, ok, err, Reply, Result, some, after_guards, Option, false, returned, not, true,
  strict_control_parity, Bool, World,
}

later-IsActivation :
    (host : CutoverHost) (w : World) (b : Bool)
    → strict_control_parity w.source w.target ≡ b
    → is_match (verify_canonical_identity host.checkout w.target) ≡ true
    → IsActivation host.checkout w.evidence w.target (
        if not b
        then (w, returned (cutover_result false false false))
        else publication host (publish_own host (own_witness host.checkout) w))
later-IsActivation host w false rows same = not_begun _ refl refl refl
later-IsActivation host w true rows same = publication-IsActivation host w _ _ refl same rows refl

guarded-IsActivation :
    (host : CutoverHost) (apply : Bool) (w : World) (o : Option CutoverResult)
    → activation_guards host apply w ≡ o
    → IsActivation host.checkout w.evidence w.target
        (after_guards o (publish_later host (record w { source = host.raced_source })) w)
unfolding publish_later
guarded-IsActivation host apply w (some r) h = not_begun _ refl refl (guards-stop host apply w r h)
guarded-IsActivation host apply w none h =
    later-IsActivation host (record w { source = host.raced_source }) _ refl
      (guards-match host apply w h)

-- However the activation of a cutover ends, the canonical store is as it was, and: the evidence
-- is as it was and nothing is reported as done; or it has failed with a part of the evidence
-- written, which already counts as a durable cutover; or it is reported as done, and then the
-- witness, the marker and the journal all record the cutover, the canonical store has the
-- identity of the checkout, and both stores have the same rows.
pub activate_cutover-IsActivation :
    (host : CutoverHost) (apply : Bool) (w : World)
    → IsActivation host.checkout w.evidence w.target (activate_cutover host apply w)
unfolding activate_cutover activate_cutover_unlocked
activate_cutover-IsActivation host apply w =
    locked-holds (IsActivation host.checkout w.evidence w.target) host.trusted host.lock apply _ _ w
      (guarded-IsActivation host apply w _ refl) (not_begun _ refl refl refl)
      (not_begun _ refl refl refl) (not_begun _ refl refl refl)

abbrev pub withdrawn : World → World
withdrawn w = record w {
  evidence = record {
    journal = journal_with (some (journal_text promoted));
    marker = no_witness;
    witness = no_witness;
  };
}

abbrev clear_marker : World → World
clear_marker w = record w { evidence = record w.evidence { marker = no_witness } }

abbrev clear_witness : World → World
clear_witness w = record w { evidence = record w.evidence { witness = no_witness } }

withdraw_cutover-ok :
    (host : CutoverHost) (w : World) {done : World}
    → withdraw_cutover host w ≡ ok done
    → done ≡ withdrawn w
unfolding withdraw_cutover remove_marker remove_witness
withdraw_cutover-ok host w h = on_ok (write_journal host.writes promoted w) h λ a e h1.
    on_ok (remove_marker host a) h1 λ b f h2. sym (
      ap (λ x. clear_witness (clear_marker x)) (write_journal-ok host.writes promoted w e)
      ∙ ap clear_witness (if-ok host.removes_marker (clear_marker a) a f)
      ∙ if-ok host.removes_witness (clear_witness b) b h2)

withdraw_cutover-err :
    (host : CutoverHost) (w : World) {there : World}
    → withdraw_cutover host w ≡ err there
    → there.evidence.witness ≡ w.evidence.witness
unfolding withdraw_cutover remove_marker remove_witness
withdraw_cutover-err host w h =
    on_err (write_journal host.writes promoted w) h
      (λ e. sym (ap (λ x. x.evidence.witness) (write_journal-err host.writes promoted w e)))
      λ a e h1.
        let first =
          sym (ap (λ x. x.evidence.witness) (write_journal-ok host.writes promoted w e)) in
        on_err (remove_marker host a) h1
          (λ f.
            sym (ap (λ x. x.evidence.witness) (if-err host.removes_marker (clear_marker a) a f))
            ∙ first)
          λ b f h2.
            sym (ap (λ x. x.evidence.witness) (if-err host.removes_witness (clear_witness b) b h2))
            ∙ sym (ap (λ x. x.evidence.witness) (if-ok host.removes_marker (clear_marker a) a f))
            ∙ first

-- Whether a reply says that no cutover is in force.
abbrev pub says_inactive : Reply CutoverResult → Bool
says_inactive (returned r) = not r.active
says_inactive _ = false

-- How a deactivation ends that finds a witness.
abbrev pub IsDeactivation : World → World × Reply CutoverResult → Type 0
IsDeactivation w out =
    ((out.0.evidence.witness ≡ w.evidence.witness) × (says_inactive out.1 ≡ false))
    ⊎ ((out.0 ≡ withdrawn w) × (out.1 ≡ returned (cutover_result true false true)))

deactivation-IsDeactivation :
    (host : CutoverHost) (w : World) (r : Result World World)
    → withdraw_cutover host w ≡ r
    → IsDeactivation w (deactivation r)
deactivation-IsDeactivation host w (err there) h = inl (withdraw_cutover-err host w h, refl)
deactivation-IsDeactivation host w (ok done) h = inr (withdraw_cutover-ok host w h, refl)

chosen :
    {A : Type 0} (P : A → Type 0) (a b c : Bool) (x y z t : A)
    → a ≡ false
    → c ≡ false
    → P y
    → P t
    → P (if a then x else if b then y else if c then z else t)
chosen P true b c x y z t g h at_y at_t = absurd (cc)
chosen P false true c x y z t g h at_y at_t = at_y
chosen P false false true x y z t g h at_y at_t = absurd (cc)
chosen P false false false x y z t g h at_y at_t = at_t

no_repair : (e : Evidence) → witness_exists e.witness ≡ true → needs_repair e ≡ false
no_repair e h = ground arith

not_hidden :
    (e : Evidence)
    → witness_exists e.witness ≡ true
    → (not (shows_cutover e) && not (needs_repair e)) ≡ false
not_hidden e h = ground arith

unlocked-IsDeactivation :
    (host : CutoverHost) (apply : Bool) (w : World)
    → witness_exists w.evidence.witness ≡ true
    → IsDeactivation w (deactivate_cutover_unlocked host apply w)
unfolding deactivate_cutover_unlocked
unlocked-IsDeactivation host apply w h =
    chosen (IsDeactivation w) (not (shows_cutover w.evidence) && not (needs_repair w.evidence))
      (not apply) (needs_repair w.evidence) (w, returned (cutover_result false false true))
      (w, returned (cutover_result false (not (needs_repair w.evidence)) true))
      (deactivation (write_journal host.writes rolled_back w)) _ (not_hidden w.evidence h)
      (no_repair w.evidence h) (inl (refl, simp (no_repair w.evidence h)))
      (deactivation-IsDeactivation host w _ refl)

-- If there is a witness of a cutover, a deactivation leaves it as it was and does not answer
-- that no cutover is active, or it is reported as done, and then the journal is back at
-- promoted, neither the marker nor the witness is left, and nothing else has changed.
pub deactivate_cutover-IsDeactivation :
    (host : CutoverHost) (apply : Bool) (w : World)
    → witness_exists w.evidence.witness ≡ true
    → IsDeactivation w (deactivate_cutover host apply w)
unfolding deactivate_cutover
deactivate_cutover-IsDeactivation host apply w h =
    locked-holds (IsDeactivation w) host.trusted host.lock apply _ _ w
      (unlocked-IsDeactivation host apply w h) (inl (refl, refl)) (inl (refl, refl))
      (inl (refl, refl))
