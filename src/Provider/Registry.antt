-- ===== src/Provider/Registry.antt =====
-- internal/provider/registry.go: providers by ID, in the order of their registration.
pub mod Consistency
use ya_router.Common.{
  Text, Bool, true, false, Option, none, some, List, [], ◌∷◌, ◌++◌, map, Dict, lookup, put, remove,
  ◌=?◌, text_key, if◌then◌else◌,
}
use ya_router.Provider.{Provider}

pub data RegistryError : Type 0 where
  provider_required registry_frozen not_registered : RegistryError

pub record Registry : Type 0 where
  pub providers : Dict Text Provider
  pub order : List Text
  pub frozen : Bool

abbrev pub empty_registry : Registry
empty_registry = record { providers = []; order = []; frozen = false }

-- the new order of `Register`, given what `r.providers` had under the ID
order_with : Option Provider → Text → List Text → List Text
order_with none id order = order ++ id ∷ []
order_with (some _) id order = order

-- `none` is a nil provider
unfoldable pub register : Registry → Option Provider → Registry × Option RegistryError
unfolding order_with
register r none = (r, some provider_required)
register r (some p) = if r.frozen then (r, some registry_frozen) else (
  record r {
    order = order_with (lookup p.id r.providers) p.id r.order;
    providers = put p.id p r.providers;
  },
  none,
)

-- the loop of `NewRegistry`, whose errors are dropped
unfoldable pub register_all : Registry → List (Option Provider) → Registry
unfolding register
register_all r [] = r
register_all r (p ∷ ps) = register_all (register r p).0 ps

unfoldable pub new_registry : List (Option Provider) → Registry
unfolding register_all
new_registry ps = register_all empty_registry ps

-- the loop of `Unregister` over `r.order`: the first occurrence goes
drop_id : Text → List Text → List Text
drop_id id [] = []
drop_id id (x ∷ xs) = let rest = drop_id id xs in if x =? id then xs else x ∷ rest

unfoldable pub unregister : Registry → Text → Registry × Option Provider × Option RegistryError
unfolding drop_id
unregister r id =
    if r.frozen then (r, none, some registry_frozen) else elim (lookup id r.providers) [
      | none ↦ (r, none, none)
      | some p ↦
          (record r { providers = remove id r.providers; order = drop_id id r.order }, some p, none)
    ]

unfoldable pub freeze : Registry → Registry
freeze r = record r { frozen = true }

unfoldable pub get : Registry → Text → Option Provider
get r id = lookup id r.providers

-- `nil` stands for an ID of the order that the map does not have
unfoldable pub all_providers : Registry → List (Option Provider)
all_providers r = map (λ id. lookup id r.providers) r.order
