-- ===== src/Provider/Manager/Changes.antt =====
-- internal/provider/manager.go: Replace, Remove, UnregisterFactory, List, RefreshHealth, and the
-- end of a drain.
use ya_router.Common.{
  ℕ, zero, suc, Text, codes, Bool, true, false, Option, none, some, List, [], ◌∷◌, Dict, lookup,
  put, remove, text_key, nat_key, ◌=?◌, ◌&&◌, ◌⊎◌, inl, inr, if◌then◌else◌,
}
use ya_router.Provider.Lifecycle.{
  Descriptor, Instance, Factory, HealthRecord, disabled_record, set_health, published, removed,
  factory_unregistered, reconcile_failed, drained,
}
use ya_router.Provider.Manager.{
  AccountState, DesiredRecord, EffectiveRecord, Manager, ManagerError, cancelled, factory_missing,
  publication_failed, tell, close_providers, build, with_generation, update_health, health_of,
}
use ya_router.Provider.Manager.Reconcile.{or_empty, is_active, wait_for}

abbrev pub desired_or_new : Option DesiredRecord → DesiredRecord
desired_or_new none = record { enabled = false; accounts = []; fingerprint = [] }
desired_or_new (some d) = d

abbrev pub retired_of : Option EffectiveRecord → List Instance
retired_of none = []
retired_of (some r) = r.provider ∷ []

-- the first of the IDs that is `id` is dropped
abbrev pub drop_first : Text → List Text → List Text
drop_first id [] = []
drop_first id (j ∷ ids) = let rest = drop_first id ids in if j =? id then ids else j ∷ rest

abbrev pub take_group : ℕ → List (List Instance) → List Instance × List (List Instance)
take_group n [] = ([], [])
take_group zero (g ∷ gs) = (g, gs)
take_group (suc n) (g ∷ gs) = let (x, rest) = take_group n gs in (x, g ∷ rest)

pub record ProviderStatus : Type 0 where
  pub descriptor : Descriptor
  pub enabled : Bool
  pub effective_capabilities : List Text
  pub accounts : List AccountState
  pub health : HealthRecord
  pub generation : ℕ

abbrev pub health_or_disabled : Text → Option HealthRecord → HealthRecord
health_or_disabled id none = disabled_record id 0
health_or_disabled id (some h) = h

abbrev pub capabilities_of : Option EffectiveRecord → List Text
capabilities_of none = []
capabilities_of (some r) = r.provider.provider.capabilities

abbrev pub generation_of : Option EffectiveRecord → ℕ
generation_of none = 0
generation_of (some r) = r.generation

abbrev pub refresh_all : Dict Text EffectiveRecord → Dict Text HealthRecord → Dict Text HealthRecord
refresh_all [] records = records
refresh_all ((id, r) ∷ effective) records =
    refresh_all effective (set_health (health_of id r.generation (some r)) records)

module _ {Config : Type 0} where
  -- `fingerprint` is that of the configuration
  abbrev pub replace_with :
      Text
      → Option Text
      → Instance
      → Manager Config
      → Option ℕ
      → Manager Config × Option ManagerError
  replace_with id fingerprint x m none = (close_providers (x ∷ []) m, some publication_failed)
  replace_with id fingerprint x m (some g) =
      let next = with_generation g (put id (record { provider = x; generation = 0 }) m.effective) in
      let desired = desired_or_new (lookup id m.desired) in
      (
        wait_for (retired_of (lookup id m.effective)) (
            tell published id g [] (record m {
              effective = next;
              desired =
                  put id (record desired { enabled = true; fingerprint = or_empty fingerprint })
                    m.desired;
              health = update_health g m.factory_order next m.health;
            })),
        none,
      )

  abbrev pub replace_built :
      Text
      → Option Text
      → Option ℕ
      → Manager Config × (ManagerError ⊎ Instance)
      → Manager Config × Option ManagerError
  replace_built id fingerprint publication (m, inl e) =
      (tell reconcile_failed id 0 (codes "build_or_validation_failed") m, some e)
  replace_built id fingerprint publication (m, inr x) = replace_with id fingerprint x m publication

  abbrev pub replace_registered :
      Text
      → Config
      → Option Text
      → Option ℕ
      → Manager Config
      → Option (Factory Config)
      → Manager Config × Option ManagerError
  replace_registered id config fingerprint publication m none = (m, some factory_missing)
  replace_registered id config fingerprint publication m (some f) =
      replace_built id fingerprint publication (build f config m)

  unfoldable pub replace :
      Bool
      → Text
      → Config
      → Option Text
      → Option ℕ
      → Manager Config
      → Manager Config × Option ManagerError
  unfolding build close_providers update_health
  replace is_cancelled id config fingerprint publication m =
      if is_cancelled
      then (m, some cancelled)
      else replace_registered id config fingerprint publication m (lookup id m.factories)

  abbrev pub disable : Text → Manager Config → Dict Text DesiredRecord
  disable id m =
      put id (record (desired_or_new (lookup id m.desired)) { enabled = false }) m.desired

  abbrev pub remove_active :
      Text → Instance → Manager Config → Option ℕ → Manager Config × (ManagerError ⊎ List Instance)
  remove_active id x m none = (m, inl publication_failed)
  remove_active id x m (some g) = (
    tell removed id g [] (record m {
      effective = with_generation g (remove id m.effective);
      desired = disable id m;
      health = set_health (disabled_record id g) m.health;
    }),
    inr (x ∷ []),
  )

  abbrev pub prepare_remove_with :
      Text
      → Option ℕ
      → Manager Config
      → Option (Factory Config)
      → Option EffectiveRecord
      → Manager Config × (ManagerError ⊎ List Instance)
  prepare_remove_with id publication m none r = (m, inl factory_missing)
  prepare_remove_with id publication m (some f) none = (
    record m { desired = disable id m; health = set_health (disabled_record id 0) m.health },
    inr [],
  )
  prepare_remove_with id publication m (some f) (some r) = remove_active id r.provider m publication

  -- `prepareRemoveLocked`; the result is the error or the instance to drain
  unfoldable pub prepare_remove :
      Text → Option ℕ → Manager Config → Manager Config × (ManagerError ⊎ List Instance)
  prepare_remove id publication m =
      prepare_remove_with id publication m (lookup id m.factories) (lookup id m.effective)

  abbrev pub end_remove :
      Manager Config × (ManagerError ⊎ List Instance) → Manager Config × Option ManagerError
  end_remove (m, inl e) = (m, some e)
  end_remove (m, inr retired) = (wait_for retired m, none)

  unfoldable pub remove_provider :
      Bool → Text → Option ℕ → Manager Config → Manager Config × Option ManagerError
  unfolding prepare_remove
  remove_provider is_cancelled id publication m =
      if is_cancelled then (m, some cancelled) else end_remove (prepare_remove id publication m)

  abbrev pub forget : Text → Manager Config → Manager Config
  forget id m = tell factory_unregistered id 0 [] (record m {
    factories = remove id m.factories;
    desired = remove id m.desired;
    factory_order = drop_first id m.factory_order;
    health = remove id m.health;
  })

  abbrev pub end_unregister :
      Text → Manager Config × (ManagerError ⊎ List Instance) → Manager Config × Option ManagerError
  end_unregister id (m, inl e) = (m, some e)
  end_unregister id (m, inr retired) = (wait_for retired (forget id m), none)

  unfoldable pub unregister_factory :
      Bool → Text → Option ℕ → Manager Config → Manager Config × Option ManagerError
  unfolding prepare_remove
  unregister_factory is_cancelled id publication m =
      if is_cancelled
      then (m, some cancelled)
      else end_unregister id (prepare_remove id publication m)

  abbrev pub tell_drained : List Instance → Manager Config → Manager Config
  tell_drained [] m = m
  tell_drained (x ∷ xs) m =
      tell_drained xs
        (tell drained x.provider.id 0 (if x.closes then [] else codes "close_failed") m)

  -- `drainRetired` once the snapshots that used the `n`-th of the waiting groups have drained, in
  -- time or after it
  unfoldable pub finish_drain : ℕ → Manager Config → Manager Config
  unfolding close_providers
  finish_drain n m =
      let (retired, waiting) = take_group n m.draining in
      tell_drained retired (close_providers retired (record m { draining = waiting }))

  abbrev pub status_of :
      Text → Manager Config → Option (Factory Config) → List ProviderStatus → List ProviderStatus
  status_of id m none rest = rest
  status_of id m (some f) rest =
      let desired = desired_or_new (lookup id m.desired) in
      let effective = lookup id m.effective in
      record {
        descriptor = f.descriptor;
        enabled = is_active effective && desired.enabled;
        effective_capabilities = capabilities_of effective;
        accounts = desired.accounts;
        health = health_or_disabled id (lookup id m.health);
        generation = generation_of effective;
      }
      ∷ rest

  -- `List`, over the order of the factories
  unfoldable pub list_providers : List Text → Manager Config → List ProviderStatus
  list_providers [] m = []
  list_providers (id ∷ ids) m = status_of id m (lookup id m.factories) (list_providers ids m)

  unfoldable pub refresh_health : Manager Config → Manager Config
  refresh_health m = record m { health = refresh_all m.effective m.health }
