-- ===== src/ControlResolve/Laws.antt =====
-- When src/control-resolve.ts opens the canonical database, and when it seals.
use mazzy_command_center.Prelude.{Option-cases, Bool, true, false, some, ◌≡◌, inl, inr, arith, ◌||◌}
use mazzy_command_center.ControlResolve.{
  canonical, matching, promoted, Observed, ObservedRoot, is_activated, is_damaged, resolve_root,
  resolve_identified, resolve_control_db,
}

resolve_root-canonical :
    (w : Observed) (r : ObservedRoot) (activation : Bool)
    → (resolve_root w r activation).effective_endpoint ≡ canonical
    → (activation ≡ true)
      × (r.directory_trusted ≡ true)
      × (r.control_dir_trusted ≡ true)
      × (r.journal ≡ promoted)
      × (r.target_is_real ≡ true)
      × (r.identity ≡ matching)
      × ((resolve_root w r activation).path ≡ r.target)
      × ((resolve_root w r activation).sealed ≡ false)
unfolding resolve_root resolve_identified
resolve_root-canonical w r activation h = ground arith

resolve_root-sealed :
    (w : Observed) (r : ObservedRoot)
    → (resolve_root w r true).sealed ≡ false
    → (resolve_root w r true).effective_endpoint ≡ canonical
unfolding resolve_root resolve_identified
resolve_root-sealed w r h = ground arith

-- What must have been observed for the canonical database to be opened.
abbrev pub IsVerified : Observed → ObservedRoot → Type 0
IsVerified w r =
    (is_activated w ≡ true)
    × (w.override_active ≡ false)
    × (r.damaged ≡ false)
    × (r.directory_trusted ≡ true)
    × (r.control_dir_trusted ≡ true)
    × (r.journal ≡ promoted)
    × (r.target_is_real ≡ true)
    × (r.identity ≡ matching)

-- The canonical database is opened only when a cutover is active in a project without an
-- override or damage whose directory and control directory are trusted, whose journal says
-- promoted and whose canonical store is a real file of a matching identity; it is then the path
-- that is returned, and it is not sealed.
pub resolve_control_db-canonical :
    (w : Observed)
    → (resolve_control_db w).effective_endpoint ≡ canonical
    → (r : ObservedRoot) × (w.root ≡ some r)
      × IsVerified w r
      × ((resolve_control_db w).path ≡ r.target)
      × ((resolve_control_db w).sealed ≡ false)
unfolding resolve_control_db
resolve_control_db-canonical w h = elim (Option-cases w.root) [
  | inl missing ↦ absurd (ground (arith, missing))
  | inr (r, there) ↦
      let rest = resolve_root-canonical w r (is_activated w) in
      (
        r,
        there,
        (
          ground (arith, there, rest),
          ground (arith, there, rest),
          ground (arith, there, rest),
          ground (arith, there, rest),
          ground (arith, there, rest),
          ground (arith, there, rest),
          ground (arith, there, rest),
          ground (arith, there, rest),
        ),
        ground (arith, there, rest),
        ground (arith, there, rest),
      )
]

-- While a cutover is active or damaged, a database that is not sealed is the canonical one.
pub resolve_control_db-sealed :
    (w : Observed)
    → (is_activated w || is_damaged w.root) ≡ true
    → (resolve_control_db w).sealed ≡ false
    → (resolve_control_db w).effective_endpoint ≡ canonical
unfolding resolve_control_db
resolve_control_db-sealed w active h = elim (Option-cases w.root) [
  | inl missing ↦ ground (arith, missing)
  | inr (r, there) ↦ ground (arith, there, resolve_root-sealed w r)
]
