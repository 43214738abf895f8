-- ===== src/AntiTunnel/Gates.antt =====
-- What the gates of src/anti-tunnel.ts let through.
use mazzy_command_center.Prelude.{if◌then◌else◌, ap, sym, ◌∙◌, filter_where}
use mazzy_command_center.AntiTunnel.{
  is_unified_status, is_tunnel, gate_of, SingleMechanismStatus, drift, unified, tunnels_detected,
  unresolved, hold_unresolved,
}
use mazzy_command_center.AntiTunnel.{
  missed_canonical, scan_stores, has_drift, candidate_of, unified, map, hold_unresolved,
  is_canonical, Folder, single_mechanism_gate, Surroundings, candidates_of,
  inspect_single_mechanism, orchestration_gate,
}
use mazzy_command_center.Prelude.{
  ℕ, Bool, true, false, List, [], ◌∷◌, ◌++◌, none, some, ◌≡◌, ◌↔◌, inl, inr, refl, arith, Text,
  length, Bool-cases, Option-cases, any_where, ◌==◌,
}

any_where_snoc {ℓ} :
    {A : Type ℓ} (p : A → Bool) (xs : List A) (x : A)
    → p x ≡ true
    → any_where p (xs ++ x ∷ []) ≡ true
unfolding any_where
any_where_snoc p [] x h = ground arith
any_where_snoc p (y ∷ xs) x h = ground (arith, any_where_snoc p xs x)

-- The report always lists a canonical store.
candidates_of-canonical :
    (w : Surroundings) (root : Text) (tree : Folder)
    → any_where is_canonical (candidates_of w root tree) ≡ true
unfolding candidates_of
candidates_of-canonical w root tree =
    elim (Bool-cases (any_where is_canonical (map (candidate_of w root) (scan_stores tree root)))) [
      | inl seen ↦ rw (candidates_of, seen) seen
      | inr missed ↦
          rw (candidates_of, missed) (any_where_snoc is_canonical _ (missed_canonical w root) refl)
    ]

trusted-status :
    (w : Surroundings) (place : Text × Folder)
    → w.root ≡ some place
    → ((inspect_single_mechanism w).status ≡ (
        if has_drift w
        then drift
        else if length (filter_where is_tunnel (candidates_of w place.0 place.1)) == 0
        then unified
        else tunnels_detected))
      × ((inspect_single_mechanism w).candidates ≡ candidates_of w place.0 place.1)
unfolding inspect_single_mechanism filter_where candidates_of
trusted-status w place trusted =
    (rw (inspect_single_mechanism, trusted), rw (inspect_single_mechanism, trusted))

untrusted-status :
    (w : Surroundings) → w.root ≡ none → (inspect_single_mechanism w).status ≡ unresolved
unfolding inspect_single_mechanism
untrusted-status w none_trusted = rw (inspect_single_mechanism, none_trusted)

unified_iff :
    (drifted : Bool) (count : ℕ)
    → ((gate_of (if drifted then drift else if count == 0 then unified else tunnels_detected)).clear
        ≡ true)
      ↔ ((count ≡ 0) × (drifted ≡ false))
unified_iff drifted count = ground arith

same_gate : (s : SingleMechanismStatus) → is_unified_status s ≡ (gate_of s).clear
same_gate unified = refl
same_gate tunnels_detected = refl
same_gate drift = refl
same_gate unresolved = refl

not_held :
    (drifted : Bool) (count : ℕ)
    → ¬ (
        (gate_of
          (if drifted then drift else if count == 0 then unified else tunnels_detected)).directive
        ≡ hold_unresolved)
not_held drifted count h = ground arith

-- A report on a trusted root lists a canonical store among its candidates.
pub inspect_single_mechanism-canonical :
    (w : Surroundings) (place : Text × Folder)
    → w.root ≡ some place
    → any_where is_canonical (inspect_single_mechanism w).candidates ≡ true
inspect_single_mechanism-canonical w place trusted =
    ap (any_where is_canonical) (trusted-status w place trusted).1
    ∙ candidates_of-canonical w place.0 place.1

-- Work is delegated exactly when the project root is trusted, none of its candidates is a
-- tunnel, and there is no drift of a promoted store.
pub orchestration_gate-clear :
    (w : Surroundings)
    → ((orchestration_gate w).clear ≡ true) ↔ (
        (place : Text × Folder) × (w.root ≡ some place)
        × (length (filter_where is_tunnel (candidates_of w place.0 place.1)) ≡ 0)
        × (has_drift w ≡ false))
unfolding orchestration_gate
orchestration_gate-clear w = (
  λ clear. elim (Option-cases w.root) [
    | inl missing ↦
        let e = ap (λ s. (gate_of s).clear) (untrusted-status w missing) in absurd (cc (e, clear))
    | inr (place, trusted) ↦
        let e = ap (λ s. (gate_of s).clear) (trusted-status w place trusted).0 in
        let (count, calm) = (unified_iff (has_drift w) _).0 (sym e ∙ clear) in
        (place, trusted, count, calm)
  ],
  λ (place, trusted, count, calm).
      ap (λ s. (gate_of s).clear) (trusted-status w place trusted).0
      ∙ (unified_iff (has_drift w) _).1 (count, calm),
)

-- The two gates agree, and work is held as unresolved exactly when the root is not trusted.
pub orchestration_gate-directive :
    (w : Surroundings)
    → (single_mechanism_gate w ≡ (orchestration_gate w).clear)
      × (((orchestration_gate w).directive ≡ hold_unresolved) ↔ (w.root ≡ none))
unfolding orchestration_gate single_mechanism_gate
orchestration_gate-directive w = (
  same_gate (inspect_single_mechanism w).status,
  (
    λ held. elim (Option-cases w.root) [
      | inl missing ↦ missing
      | inr (place, trusted) ↦
          let e = ap (λ s. (gate_of s).directive) (trusted-status w place trusted).0 in
          absurd (not_held (has_drift w) _ (sym e ∙ held))
    ],
    λ missing. ap (λ s. (gate_of s).directive) (untrusted-status w missing),
  ),
)
