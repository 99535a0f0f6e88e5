-- ===== src/Routing/Router.antt =====
-- internal/routing/router.go: resolving a requested model.
pub mod Order
pub mod Resolve
pub mod Capability
pub mod Served
pub mod Avoidance
pub mod Failure
pub mod Later
pub mod Progress
use ya_router.Common.{
  ℕ, Text, codes, Bool, true, false, Option, none, some, List, [], ◌∷◌, ◌++◌, text_key, ◌=?◌,
  lookup, any, contains, trim_space, to_lower, is_empty, pos, not, ◌&&◌, ◌||◌, if◌then◌else◌,
}
use ya_router.Provider.{Time, copilot, Catalog, Provider}
use ya_router.Provider.Registry.{Registry, get, all_providers}
use ya_router.Availability.{Cooldown, ProviderView, Snapshot, provider_not_registered, new_snapshot}
use ya_router.Config.{ModelMapEntry, VirtualModel, RoutingConfig, strategy_priority}
use ya_router.Routing.Prefixes.{add_model_prefix, strip_model_prefix}
use ya_router.Routing.Metrics.{
  Metrics, record_cooldown_exit, record_selection, record_no_active_target,
}
use ya_router.Routing.Cooldown.Registry.{CooldownRegistry, cooldowns}
use ya_router.Routing.Preferred.{PreferredTargetRegistry, get_preferred, set_preferred}
use ya_router.Routing.Decision.{SkippedTarget, SelectionDecision, NoActiveTargetError}
use ya_router.Routing.Selector.{Selection, selected, no_active, select_priority_target_excluding}

pub record Router : Type 0 where
  pub registry : Registry
  pub routing : RoutingConfig
  pub generation : ℕ
  pub metrics : Metrics
  pub cooldowns : CooldownRegistry
  pub preferred : PreferredTargetRegistry

pub record RouteResult : Type 0 where
  pub provider : Provider
  pub resolved_model : Text
  pub selection : Option SelectionDecision

-- The errors, told apart by the place that returns them.
pub data RouteError : Type 0 where
  mapped_to_unknown_provider mapped_without_capability : RouteError
  prefix_not_registered prefix_without_capability prefix_unavailable : RouteError
  model_unavailable ambiguous default_unavailable default_without_capability : RouteError
  no_active_target : NoActiveTargetError → RouteError

pub data Resolution : Type 0 where
  resolved : RouteResult → Resolution
  failed : RouteError → Resolution

-- What one request reads from the clock and the disk: for each provider the time of
-- `registry.now()` and whether the state file was replaced, and the time of `nowFunc`.
pub record Readings : Type 0 where
  pub now : Text → Time
  pub replaced : Text → Bool
  pub built_at : Time

unfoldable pub has_capability : Provider → Text → Bool
has_capability p capability = contains capability p.capabilities

-- strings.EqualFold
abbrev pub equal_fold : Text → Text → Bool
equal_fold a b = to_lower a =? to_lower b

-- The elements of `registry.All()` that are not nil; the others, which a consistent registry does
-- not have, would stop the program.
abbrev pub present : List (Option Provider) → List Provider
present [] = []
present (none ∷ ps) = present ps
present (some p ∷ ps) = p ∷ present ps

abbrev pub registered : Router → List Provider
registered r = present (all_providers r.registry)

abbrev pub same_target : Text → Text → Bool
same_target t u = trim_space t =? trim_space u

-- the second loop of `reorderVMTargets`
unfoldable pub other_targets : Text → List Text → List Text
other_targets preferred [] = []
other_targets preferred (t ∷ ts) =
    let rest = other_targets preferred ts in if same_target t preferred then rest else t ∷ rest

unfoldable pub reorder_vm_targets : VirtualModel → Text → VirtualModel
reorder_vm_targets vm preferred =
    if any (λ t. same_target t preferred) vm.targets
    then record vm { targets = preferred ∷ other_targets preferred vm.targets }
    else vm

abbrev allowed_or_empty : Option (List Text) → List Text
allowed_or_empty none = []
allowed_or_empty (some models) = models

abbrev with_catalog : Option Catalog → ProviderView → ProviderView
with_catalog none view = view
with_catalog (some c) view = record view {
  catalog_present = true;
  catalog_models = c.models;
  catalog_fetched_at = c.fetched_at;
  catalog_stale = c.stale;
}

unfoldable pub view_of : Provider → List Cooldown → ProviderView
view_of p active = with_catalog p.last_known_models (record {
  id = p.id;
  disabled = false;
  ready = p.authenticated;
  capabilities = p.capabilities;
  allowed_models = allowed_or_empty p.allowed_model_ids;
  catalog_present = false;
  catalog_stale = false;
  catalog_fetched_at = 0;
  catalog_models = [];
  cooldowns = active;
})

-- the exits of the expired cooldowns
unfoldable pub record_exits : Text → List Cooldown → Metrics → Metrics
record_exits id [] m = m
record_exits id (c ∷ cs) m =
    record_exits id cs (record_cooldown_exit (add_model_prefix id c.model) (codes "expired") m)

-- the loop of `buildAvailabilitySnapshot`
unfoldable pub build_views : Readings → List Provider → Router → Router × List ProviderView
build_views t [] r = (r, [])
build_views t (p ∷ ps) r =
    let read = cooldowns p.id (t.now p.id) (t.replaced p.id) r.cooldowns in
    let r' : Router = record r {
      cooldowns = read.0;
      metrics = record_exits p.id read.2 r.metrics;
    } in
    let rest = build_views t ps r' in (rest.0, view_of p read.1 ∷ rest.1)

unfoldable pub build_availability_snapshot : Readings → Router → Router × Snapshot
build_availability_snapshot t r =
    let built = build_views t (registered r) r in
    (built.0, new_snapshot r.generation t.built_at built.1)

-- the order of the targets of one selection
abbrev pub preferred_order : Option Text → VirtualModel → VirtualModel
preferred_order none vm = vm
preferred_order (some target) vm = if is_empty target then vm else reorder_vm_targets vm target

unfoldable pub ordered_vm : Router → Text → VirtualModel → Text → VirtualModel
ordered_vm r virtual_id vm capability =
    if vm.strategy =? strategy_priority
    then preferred_order (get_preferred virtual_id capability r.preferred) vm
    else vm

-- what came of a decision, given what the registry has under its provider; `none` is a provider
-- that vanished since the snapshot
unfoldable pub dispatch_found :
    Text → SelectionDecision → Option Provider → Router → Router × Resolution
dispatch_found virtual_id d none r =
    let vanished : NoActiveTargetError = record {
      virtual_model = virtual_id;
      skipped =
          d.skipped
          ++ (record {
            target = d.selected_target;
            index = d.selected_index;
            reason = provider_not_registered;
            cooldown_until = pos 0;
          }
              ∷ []);
    } in
    (
      record r { metrics = record_no_active_target vanished r.metrics },
      failed (no_active_target vanished),
    )
dispatch_found virtual_id d (some p) r = (
  record r { metrics = record_selection d r.metrics },
  resolved (record {
    provider = p;
    resolved_model = (strip_model_prefix (trim_space d.selected_target)).bare;
    selection = some d;
  }),
)

unfoldable pub dispatch_selection : Text → Selection → Router → Router × Resolution
dispatch_selection virtual_id (no_active e) r =
    (record r { metrics = record_no_active_target e r.metrics }, failed (no_active_target e))
dispatch_selection virtual_id (selected d) r =
    dispatch_found virtual_id d
      (get r.registry (strip_model_prefix (trim_space d.selected_target)).provider_id) r

unfoldable pub resolve_virtual_model_excluding :
    Readings → Text → VirtualModel → Text → List Text → Router → Router × Resolution
resolve_virtual_model_excluding t virtual_id vm capability exclude r =
    let vm' = ordered_vm r virtual_id vm capability in
    let built = build_availability_snapshot t r in
    dispatch_selection virtual_id
      (select_priority_target_excluding virtual_id vm' capability (some built.1) exclude) built.0

unfoldable pub resolve_virtual_model :
    Readings → Text → VirtualModel → Text → Router → Router × Resolution
resolve_virtual_model t virtual_id vm capability r =
    resolve_virtual_model_excluding t virtual_id vm capability [] r

-- `ResolveNext` after its lookup, whose virtual model it is given
unfoldable pub resolve_found :
    Readings → Text → Text → List Text → Router → Option VirtualModel → Router × Resolution
resolve_found t virtual_id capability exclude r none =
    (r, failed (no_active_target (record { virtual_model = virtual_id; skipped = [] })))
resolve_found t virtual_id capability exclude r (some vm) =
    resolve_virtual_model_excluding t virtual_id vm capability exclude r

unfoldable pub resolve_next : Readings → Text → Text → List Text → Router → Router × Resolution
resolve_next t virtual_id capability exclude r =
    resolve_found t virtual_id capability exclude r (lookup virtual_id r.routing.virtual_models)

unfoldable pub record_preferred : Text → Text → Text → Router → Router
record_preferred virtual_id capability target r =
    elim (lookup virtual_id r.routing.virtual_models) [
      | none ↦ r
      | some vm ↦
          if vm.strategy =? strategy_priority
          then record r { preferred = set_preferred virtual_id capability target r.preferred }
          else r
    ]
