-- ===== src/Provider/Manager.antt =====
-- internal/provider/manager.go: the factories, and the provider instances that are in effect. A
-- publication is its outcome: the generation, or `none` for an error of the publisher; `fingerprint`
-- stands for the hash of an encoded configuration. A mutation holds the mutex of the manager up to the wait for
-- the drain; the instances that it retires then wait in `draining`, together.
pub mod Reconcile
pub mod Changes
pub mod Atomic
pub mod Failure
use ya_router.Common.{
  ℕ, ◌+◌, Text, codes, Bool, true, false, Option, none, some, List, [], ◌∷◌, ◌++◌, map, Dict,
  lookup, put, remove, text_key, nat_key, ◌=?◌, ◌==◌, contains, is_empty, length, ℤ, pos, negsuc,
  not, ◌&&◌, ◌⊎◌, inl, inr, if◌then◌else◌, sort, text_less,
}
use ya_router.Provider.{Provider}
use ya_router.Provider.Lifecycle.{
  Descriptor, DescriptorError, validate_descriptor, Health, Instance, Built, build_failed,
  nil_provider, built, Factory, EventBus, event_of, publish_event, factory_registered,
  factory_unregistered, constructing, validating, published, removed, reconcile_failed, drained,
  HealthRecord, disabled_record, set_health, state_from_health, EventType,
}

pub record AccountState : Type 0 where
  pub id : Text
  pub label : Text
  pub enabled : Bool
  pub priority : ℤ

pub record DesiredProvider (Config : Type 0) : Type 0 where
  pub id : Text
  pub enabled : Bool
  pub config : Config
  pub config_fingerprint : Text
  pub accounts : List AccountState

pub record DesiredRecord : Type 0 where
  pub enabled : Bool
  pub accounts : List AccountState
  pub fingerprint : Text

pub record EffectiveRecord : Type 0 where
  pub provider : Instance
  pub generation : ℕ

-- `closed` lists the instances that `closeProviders` has closed, with repetitions.
pub record Manager (Config : Type 0) : Type 0 where
  pub factories : Dict Text (Factory Config)
  pub factory_order : List Text
  pub desired : Dict Text DesiredRecord
  pub effective : Dict Text EffectiveRecord
  pub health : Dict Text HealthRecord
  pub events : EventBus
  pub next_instance : ℕ
  pub draining : List (List Instance)
  pub closed : List ℕ

pub data ManagerError : Type 0 where
  cancelled already_registered factory_missing provider_id_required provider_duplicated :
      ManagerError
  account_id_required priority_negative account_duplicated publication_failed : ManagerError
  config_rejected construction_failed nil_instance wrong_id undescribed_capability
        instance_rejected :
      ManagerError
  descriptor_rejected : DescriptorError → ManagerError

-- `validateAccounts` after the IDs `seen`
unfoldable pub validate_accounts : List Text → List AccountState → Option ManagerError
validate_accounts seen [] = none
validate_accounts seen (a ∷ accounts) =
    let rest = validate_accounts (a.id ∷ seen) accounts in
    if is_empty a.id then some account_id_required else elim a.priority [
      | negsuc n ↦ some priority_negative
      | pos n ↦ if contains a.id seen then some account_duplicated else rest
    ]

unfoldable pub validate_capabilities : List Text → List Text → Bool
validate_capabilities described [] = true
validate_capabilities described (c ∷ cs) =
    let rest = validate_capabilities described cs in if contains c described then rest else false

module _ {Config : Type 0} where
  abbrev pub tell : EventType → Text → ℕ → Text → Manager Config → Manager Config
  tell kind id generation reason m = record m {
    events = publish_event (event_of kind id generation reason) m.events;
  }

  unfoldable pub close_providers : List Instance → Manager Config → Manager Config
  close_providers xs m = record m { closed = map (λ x. x.serial) xs ++ m.closed }

  abbrev pub registered : Factory Config → Manager Config → Manager Config
  registered f m = tell factory_registered f.descriptor.id 0 [] (record m {
    factories = put f.descriptor.id f m.factories;
    factory_order = m.factory_order ++ f.descriptor.id ∷ [];
    health = set_health (disabled_record f.descriptor.id 0) m.health;
  })

  abbrev pub register_valid :
      Factory Config
      → Manager Config
      → Option DescriptorError
      → Option (Factory Config)
      → Manager Config × Option ManagerError
  register_valid f m (some e) old = (m, some (descriptor_rejected e))
  register_valid f m none (some old) = (m, some already_registered)
  register_valid f m none none = (registered f m, none)

  unfoldable pub register_factory :
      Factory Config → Manager Config → Manager Config × Option ManagerError
  register_factory f m =
      register_valid f m (validate_descriptor f.descriptor) (lookup f.descriptor.id m.factories)

  abbrev pub judged :
      Instance → Manager Config → Option Text → Manager Config × (ManagerError ⊎ Instance)
  judged x m (some e) = (close_providers (x ∷ []) m, inl instance_rejected)
  judged x m none = (m, inr x)

  -- `build` once the factory has built the instance `x`
  abbrev pub validate_instance :
      Factory Config → Instance → Manager Config → Manager Config × (ManagerError ⊎ Instance)
  validate_instance f x m =
      if not (x.provider.id =? f.descriptor.id)
      then (close_providers (x ∷ []) m, inl wrong_id)
      else let told = tell validating f.descriptor.id 0 [] m in
        if not (validate_capabilities f.descriptor.capabilities x.provider.capabilities)
        then (close_providers (x ∷ []) told, inl undescribed_capability)
        else judged x told (f.validate_provider x.provider)

  abbrev pub built_instance :
      Factory Config → Manager Config → Built → Manager Config × (ManagerError ⊎ Instance)
  built_instance f m (build_failed e) = (m, inl construction_failed)
  built_instance f m nil_provider = (m, inl nil_instance)
  built_instance f m (built p h c) =
      let n = m.next_instance + 1 in
      validate_instance f (record { serial = n; provider = p; health = h; closes = c })
        (record m { next_instance = n })

  abbrev pub build_configured :
      Factory Config
      → Config
      → Manager Config
      → Option Text
      → Manager Config × (ManagerError ⊎ Instance)
  build_configured f config m (some e) = (m, inl config_rejected)
  build_configured f config m none = built_instance f m (f.build (m.next_instance + 1) config)

  unfoldable pub build :
      Factory Config → Config → Manager Config → Manager Config × (ManagerError ⊎ Instance)
  unfolding validate_capabilities close_providers
  build f config m =
      build_configured f config (tell constructing f.descriptor.id 0 [] m)
        (f.validate_config config)

abbrev pub effective_or_rest : Option EffectiveRecord → List Instance → List Instance
effective_or_rest none rest = rest
effective_or_rest (some r) rest = r.provider ∷ rest

abbrev pub in_order : List Text → Dict Text EffectiveRecord → List Instance
in_order [] effective = []
in_order (id ∷ ids) effective = effective_or_rest (lookup id effective) (in_order ids effective)

abbrev pub outside : List Text → Dict Text EffectiveRecord → List Text
outside order [] = []
outside order ((id, r) ∷ effective) =
    let rest = outside order effective in if contains id order then rest else id ∷ rest

unfoldable pub providers_from_effective : Dict Text EffectiveRecord → List Text → List Instance
providers_from_effective effective order =
    let providers = in_order order effective in
    if length providers == length effective
    then providers
    else providers ++ in_order (sort text_less (outside order effective)) effective

abbrev pub with_generation : ℕ → Dict Text EffectiveRecord → Dict Text EffectiveRecord
with_generation g [] = []
with_generation g ((id, r) ∷ effective) =
    (id, record r { generation = g }) ∷ with_generation g effective

abbrev pub health_of : Text → ℕ → Option EffectiveRecord → HealthRecord
health_of id g none = disabled_record id g
health_of id g (some r) = record {
  provider_id = id;
  state = state_from_health r.provider.health;
  health = r.provider.health;
  generation = g;
}

unfoldable pub update_health :
    ℕ → List Text → Dict Text EffectiveRecord → Dict Text HealthRecord → Dict Text HealthRecord
update_health g [] effective records = records
update_health g (id ∷ ids) effective records =
    update_health g ids effective (set_health (health_of id g (lookup id effective)) records)
