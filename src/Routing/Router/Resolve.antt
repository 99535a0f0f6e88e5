-- ===== src/Routing/Router/Resolve.antt =====
-- internal/routing/router.go: `Resolve`, by model map, prefix, virtual model, catalogs, default.
use ya_router.Common.{
  Text, Bool, false, Option, none, some, List, [], ◌∷◌, text_key, lookup, any, is_empty, ◌&&◌,
  if◌then◌else◌,
}
use ya_router.Provider.{copilot, Provider}
use ya_router.Provider.Registry.{get}
use ya_router.Config.{ModelMapEntry, VirtualModel}
use ya_router.Routing.Prefixes.{Stripped, strip_model_prefix}
use ya_router.Routing.Router.{
  Router, mapped_to_unknown_provider, mapped_without_capability, prefix_not_registered,
  prefix_without_capability, prefix_unavailable, model_unavailable, ambiguous, default_unavailable,
  default_without_capability, Resolution, resolved, failed, Readings, has_capability, equal_fold,
  registered, resolve_virtual_model,
}

abbrev pub explicit : Provider → Text → Resolution
explicit p model = resolved (record { provider = p; resolved_model = model; selection = none })

abbrev pub lists_model : Text → Option (List Text) → Bool
lists_model model none = false
lists_model model (some ids) = any (λ id. equal_fold id model) ids

unfoldable pub resolve_mapped : Router → ModelMapEntry → Text → Text → Resolution
resolve_mapped r entry bare_model capability = elim (get r.registry entry.provider) [
  | none ↦ failed mapped_to_unknown_provider
  | some p ↦
      if has_capability p capability
      then explicit p (if is_empty entry.upstream_model then bare_model else entry.upstream_model)
      else failed mapped_without_capability
]

unfoldable pub resolve_with_prefix : Router → Text → Text → Text → Resolution
resolve_with_prefix r bare_model provider_id capability = elim (get r.registry provider_id) [
  | none ↦ failed prefix_not_registered
  | some p ↦
      if has_capability p capability
      then (if lists_model bare_model p.list_models
          then explicit p bare_model
          else failed prefix_unavailable)
      else failed prefix_without_capability
]

-- the loop of `discoverFromCatalogs`: the providers whose catalog lists the model
unfoldable pub discover_from_catalogs : Text → Text → List Provider → List Provider
discover_from_catalogs model capability [] = []
discover_from_catalogs model capability (p ∷ ps) =
    let rest = discover_from_catalogs model capability ps in
    if has_capability p capability && lists_model model p.list_models then p ∷ rest else rest

unfoldable pub default_provider_route : Router → Text → Text → Resolution
default_provider_route r model capability =
    let provider_id =
      if is_empty r.routing.default_provider then copilot else r.routing.default_provider in
    elim (get r.registry provider_id) [
      | none ↦ failed default_unavailable
      | some p ↦
          if has_capability p capability
          then explicit p model
          else failed default_without_capability
    ]

-- the `switch` on the number of candidates
unfoldable pub resolve_candidates : Router → List Provider → Bool → Text → Text → Resolution
resolve_candidates r [] used_default model capability =
    if used_default then default_provider_route r model capability else failed model_unavailable
resolve_candidates r (p ∷ []) used_default model capability = explicit p model
resolve_candidates r (p ∷ q ∷ ps) used_default model capability = failed ambiguous

-- the entry of the model map, under the full ID or, with a prefix, under the bare one
abbrev pub map_entry : Option ModelMapEntry → Bool → Option ModelMapEntry → Option ModelMapEntry
map_entry (some e) has_prefix bare = some e
map_entry none has_prefix bare = if has_prefix then bare else none

-- a model that no entry of the model map names: by its prefix, as a virtual model, or by catalogs
unfoldable pub resolve_unmapped :
    Readings → Text → Stripped → Bool → Text → Option VirtualModel → Router → Router × Resolution
resolve_unmapped t model stripped used_default capability vm r =
    if stripped.found
    then (r, resolve_with_prefix r stripped.bare stripped.provider_id capability)
    else elim vm [
      | some v ↦ resolve_virtual_model t model v capability r
      | none ↦ (
        r,
        resolve_candidates r (discover_from_catalogs model capability (registered r)) used_default
            model capability,
      )
    ]

unfoldable pub resolve_by_entry :
    Readings → Text → Bool → Text → Option ModelMapEntry → Router → Router × Resolution
resolve_by_entry t model used_default capability (some e) r =
    (r, resolve_mapped r e (strip_model_prefix model).bare capability)
resolve_by_entry t model used_default capability none r =
    resolve_unmapped t model (strip_model_prefix model) used_default capability
      (lookup model r.routing.virtual_models) r

unfoldable pub resolve : Readings → Text → Text → Router → Router × Resolution
resolve t requested_model capability r =
    let model = if is_empty requested_model then r.routing.default_model else requested_model in
    let stripped = strip_model_prefix model in
    let entry =
      map_entry (lookup model r.routing.model_map) stripped.found
        (lookup stripped.bare r.routing.model_map) in
    resolve_by_entry t model (is_empty requested_model) capability entry r
