-- ===== src/Provider/Manager/Reconcile.antt =====
-- internal/provider/manager.go: Reconcile. The wait for the retirement of what was published ends or
-- runs into its deadline; another error of it, which the retirement of internal/runtime never gives,
-- is left out.
use ya_router.Common.{
  ℕ, Text, codes, Bool, true, false, Option, none, some, List, [], ◌∷◌, ◌++◌, Dict, lookup, put,
  text_key, nat_key, ◌=?◌, contains, is_empty, ◌&&◌, ◌||◌, ◌⊎◌, inl, inr, if◌then◌else◌,
}
use ya_router.Provider.Lifecycle.{Instance, Factory, published, reconcile_failed}
use ya_router.Provider.Manager.{
  DesiredProvider, DesiredRecord, EffectiveRecord, Manager, ManagerError, cancelled,
  provider_id_required, provider_duplicated, factory_missing, publication_failed, tell,
  close_providers, validate_accounts, build, providers_from_effective, with_generation,
  update_health,
}

abbrev pub or_empty : Option Text → Text
or_empty none = []
or_empty (some f) = f

abbrev pub is_active : Option EffectiveRecord → Bool
is_active none = false
is_active (some e) = true

abbrev pub reusable :
    Option Text → Option DesiredRecord → Option EffectiveRecord → Option EffectiveRecord
reusable none d e = none
reusable (some f) none e = none
reusable (some f) (some d) none = none
reusable (some f) (some d) (some e) = if d.enabled && d.fingerprint =? f then some e else none

abbrev pub not_reused : List Text → Dict Text EffectiveRecord → Dict Text EffectiveRecord
not_reused reused [] = []
not_reused reused ((id, r) ∷ effective) =
    let rest = not_reused reused effective in if contains id reused then rest else (id, r) ∷ rest

module _ {Config : Type 0} where
  -- the loop over the desired providers, after the IDs `seen`
  unfoldable pub validate_desired : List Text → List (DesiredProvider Config) → Option ManagerError
  unfolding validate_accounts
  validate_desired seen [] = none
  validate_desired seen (d ∷ ds) =
      let rest = validate_desired (d.id ∷ seen) ds in
      if is_empty d.id
      then some provider_id_required
      else if contains d.id seen
      then some provider_duplicated
      else elim (validate_accounts [] d.accounts) [ none ↦ rest | some e ↦ some e ]

  abbrev pub requested_of : List (DesiredProvider Config) → Dict Text (DesiredProvider Config)
  requested_of [] = []
  requested_of (d ∷ ds) = (d.id, d) ∷ requested_of ds

  abbrev pub all_registered : List (DesiredProvider Config) → Manager Config → Bool
  all_registered [] m = true
  all_registered (d ∷ ds) m =
      let rest = all_registered ds m in
      elim (lookup d.id m.factories) [ none ↦ false | some f ↦ rest ]

  -- `drainRetired` has nothing to wait for if nothing was retired
  abbrev pub wait_for : List Instance → Manager Config → Manager Config
  wait_for retired m = if is_empty retired then m else record m { draining = retired ∷ m.draining }

  abbrev pub tell_published :
      ℕ → Dict Text EffectiveRecord → List Text → Manager Config → Manager Config
  tell_published g effective [] m = m
  tell_published g effective (id ∷ ids) m =
      tell_published g effective ids
        (if is_active (lookup id effective) then tell published id g [] m else m)

-- what the loop over the factories has done so far
pub record Progress (Config : Type 0) : Type 0 where
  pub manager : Manager Config
  pub next_effective : Dict Text EffectiveRecord
  pub newly_built : List Instance
  pub reused : List Text
  pub changed : Bool

module _ {Config : Type 0} (fingerprint : Config → Option Text) where
  abbrev pub desired_fingerprint : DesiredProvider Config → Option Text
  desired_fingerprint d =
      if is_empty d.config_fingerprint then fingerprint d.config else some d.config_fingerprint

  abbrev pub skip : Text → Progress Config → Progress Config
  skip id p = record p { changed = p.changed || is_active (lookup id p.manager.effective) }

  abbrev pub reuse : Text → EffectiveRecord → Progress Config → Progress Config
  reuse id e p = record p { next_effective = put id e p.next_effective; reused = id ∷ p.reused }

  abbrev pub with_built :
      Text
      → Progress Config
      → Manager Config × (ManagerError ⊎ Instance)
      → Progress Config × Option ManagerError
  with_built id p (m, inl e) = (
    record p {
      manager =
          tell reconcile_failed id 0 (codes "build_or_validation_failed")
            (close_providers p.newly_built m);
    },
    some e,
  )
  with_built id p (m, inr x) = (
    record p {
      manager = m;
      changed = true;
      newly_built = p.newly_built ++ x ∷ [];
      next_effective = put id (record { provider = x; generation = 0 }) p.next_effective;
    },
    none,
  )

  -- `factoryOrder` lists the keys of `factories`, so that the factory is there
  abbrev pub build_with :
      DesiredProvider Config
      → Progress Config
      → Option (Factory Config)
      → Progress Config × Option ManagerError
  build_with d p none = (p, some factory_missing)
  build_with d p (some f) = with_built d.id p (build f d.config p.manager)

  abbrev pub reuse_or_build :
      DesiredProvider Config
      → Progress Config
      → Option EffectiveRecord
      → Progress Config × Option ManagerError
  reuse_or_build d p (some e) = (reuse d.id e p, none)
  reuse_or_build d p none = build_with d p (lookup d.id p.manager.factories)

  abbrev pub consider :
      Text
      → Progress Config
      → Option (DesiredProvider Config)
      → Progress Config × Option ManagerError
  consider id p none = (skip id p, none)
  consider id p (some d) =
      if d.enabled
      then reuse_or_build d p (
          reusable (desired_fingerprint d) (lookup id p.manager.desired)
            (lookup id p.manager.effective))
      else (skip id p, none)

  abbrev pub then_go :
      (Progress Config → Progress Config × Option ManagerError)
      → Progress Config × Option ManagerError
      → Progress Config × Option ManagerError
  then_go f (p, some e) = (p, some e)
  then_go f (p, none) = f p

  unfoldable pub reconcile_loop :
      Dict Text (DesiredProvider Config)
      → List Text
      → Progress Config
      → Progress Config × Option ManagerError
  unfolding build close_providers
  reconcile_loop requested [] p = (p, none)
  reconcile_loop requested (id ∷ ids) p =
      then_go (reconcile_loop requested ids) (consider id p (lookup id requested))

  abbrev pub next_desired : List (DesiredProvider Config) → Dict Text DesiredRecord
  next_desired [] = []
  next_desired (d ∷ ds) =
      (
        d.id,
        record {
          enabled = d.enabled;
          accounts = d.accounts;
          fingerprint = or_empty (desired_fingerprint d);
        },
      )
      ∷ next_desired ds

  abbrev pub publish_next :
      List (DesiredProvider Config)
      → Progress Config
      → Option ℕ
      → Manager Config × Option ManagerError
  publish_next desired p none = (
    tell reconcile_failed [] 0 (codes "publication_failed")
        (close_providers p.newly_built p.manager),
    some publication_failed,
  )
  publish_next desired p (some g) =
      let next = with_generation g p.next_effective in
      let order = p.manager.factory_order in
      let m = record p.manager {
        effective = next;
        desired = next_desired desired;
        health = update_health g order next p.manager.health;
      } in
      (
        wait_for (providers_from_effective (not_reused p.reused p.manager.effective) order)
            (tell_published g next order m),
        none,
      )

  abbrev pub end_reconcile :
      List (DesiredProvider Config)
      → Option ℕ
      → Progress Config × Option ManagerError
      → Manager Config × Option ManagerError
  end_reconcile desired publication (p, some e) = (p.manager, some e)
  end_reconcile desired publication (p, none) =
      if p.changed
      then publish_next desired p publication
      else (record p.manager { desired = next_desired desired }, none)

  abbrev pub reconcile_checked :
      List (DesiredProvider Config)
      → Option ℕ
      → Manager Config
      → Option ManagerError
      → Manager Config × Option ManagerError
  reconcile_checked desired publication m (some e) = (m, some e)
  reconcile_checked desired publication m none =
      if all_registered desired m
      then end_reconcile desired publication (
          reconcile_loop (requested_of desired) m.factory_order (record {
            manager = m;
            next_effective = [];
            newly_built = [];
            reused = [];
            changed = false;
          }))
      else (m, some factory_missing)

  unfoldable pub reconcile :
      Bool
      → List (DesiredProvider Config)
      → Option ℕ
      → Manager Config
      → Manager Config × Option ManagerError
  unfolding validate_desired reconcile_loop providers_from_effective update_health close_providers
  reconcile is_cancelled desired publication m =
      if is_cancelled
      then (m, some cancelled)
      else reconcile_checked desired publication m (validate_desired [] desired)
