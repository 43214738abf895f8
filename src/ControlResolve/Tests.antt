-- ===== src/ControlResolve/Tests.antt =====
-- A promoted project of src/control-resolve.ts, and the theorems applied to it.
use mazzy_command_center.Prelude.{Bool, true, false, some, ◌≡◌, refl, codes}
use mazzy_command_center.ControlResolve.{
  resolve_identified, resolve_root, canonical, matching, promoted, ObservedRoot, Observed,
  resolve_control_db,
}
use mazzy_command_center.ControlResolve.Laws.{
  IsVerified, resolve_control_db-canonical, resolve_control_db-sealed,
}

abbrev promoted_root : ObservedRoot
promoted_root = record {
  durable_cutover = true;
  damaged = false;
  directory_trusted = true;
  control_dir_trusted = true;
  journal = promoted;
  target = codes "/p/.mazzy/control/state.db";
  target_is_real = true;
  identity = matching;
}

abbrev seen : Bool → Observed
seen override_active = record {
  legacy_path = codes "/p/.pi-ops/state.db";
  env_cutover = false;
  root = some promoted_root;
  override_active = override_active;
}

opens_canonical : (resolve_control_db (seen false)).effective_endpoint ≡ canonical
unfolding resolve_control_db resolve_root resolve_identified
opens_canonical = refl

not_sealed : (resolve_control_db (seen false)).sealed ≡ false
unfolding resolve_control_db resolve_root resolve_identified
not_sealed = refl

-- Under an override the cutover is reported although the path is not the canonical one.
override_cutover : (resolve_control_db (seen true)).cutover ≡ true
unfolding resolve_control_db
override_cutover = refl

override_path : (resolve_control_db (seen true)).path ≡ codes "/p/.pi-ops/state.db"
unfolding resolve_control_db
override_path = refl

resolve_control_db-canonical_example :
    (r : ObservedRoot) × ((seen false).root ≡ some r)
    × IsVerified (seen false) r
    × ((resolve_control_db (seen false)).path ≡ r.target)
    × ((resolve_control_db (seen false)).sealed ≡ false)
resolve_control_db-canonical_example = resolve_control_db-canonical (seen false) opens_canonical

resolve_control_db-sealed_example : (resolve_control_db (seen false)).effective_endpoint ≡ canonical
resolve_control_db-sealed_example = resolve_control_db-sealed (seen false) refl not_sealed
