-- ===== src/Routing/Router/Avoidance.antt =====
-- A target that failed is left alone until its cooldown is over.
use ya_router.Common.{
  ◌<◌, ◌≡◌, refl, subst, ap, ◌∙◌, arith, Text, Bool, true, false, none, some, List, [], ◌∷◌, All,
  lookup, text_key, ◌=?◌, =?_iff, =?_refl, any, contains, trim_space, ◌&&◌, if◌then◌else◌,
  Bool-cases, inl, inr,
}
use ya_router.Provider.{Time, Provider}
use ya_router.Availability.{Cooldown, ProviderView, normalize_model, evaluate, new_snapshot}
use ya_router.Availability.Routable.{blocks, evaluate-capable, evaluate-blocked}
use ya_router.Config.{VirtualModel}
use ya_router.Routing.Prefixes.{strip_model_prefix}
use ya_router.Routing.Decision.{SelectionDecision}
use ya_router.Routing.Selector.{selected, select_priority_target_excluding}
use ya_router.Routing.Selector.First.{selected-is_usable}
use ya_router.Routing.Cooldown.Entry.{CooldownEntry}
use ya_router.Routing.Cooldown.Registry.{CooldownRegistry, cooldowns, active_cooldowns}
use ya_router.Routing.Cooldown.Laws.{any-active_cooldowns}
use ya_router.Routing.Cooldown.WellFormed.{IsWellFormed, kept}
use ya_router.Routing.Cooldown.Reading.{lookup-cooldowns, cooldowns-IsWellFormed}
use ya_router.Routing.Router.{
  Router, Readings, registered, view_of, build_views, build_availability_snapshot,
}
use ya_router.Routing.Router.Capability.{after_read, view_of_lem, last_view-All, routable_of_usable}

cooldowns-view_of : (p : Provider) (cs : List Cooldown) → (view_of p cs).cooldowns ≡ cs
unfolding view_of
cooldowns-view_of p cs = ground arith

abbrev blocks_entry : Time → CooldownEntry → ProviderView → Bool
blocks_entry built e v =
    if v.id =? e.provider_id then any (blocks built e.model e.capability) v.cooldowns else true

blocks_normal :
    (t : Time) (c m n : Text) (cs : List Cooldown)
    → normalize_model m ≡ normalize_model n
    → any (blocks t m c) cs ≡ any (blocks t n c) cs
blocks_normal t c m n [] h = refl
blocks_normal t c m n (x ∷ cs) h = ground (arith, blocks_normal t c m n cs h)

-- The target of a decision is that of a cooldown entry, up to case and white space of the model.
abbrev pub aims_at : CooldownEntry → SelectionDecision → Bool
aims_at e d =
    let s = strip_model_prefix (trim_space d.selected_target) in
    (s.provider_id =? e.provider_id) && (normalize_model s.bare =? normalize_model e.model)

module _ (t : Readings) (k : Text) (e : CooldownEntry) (still : t.now e.provider_id < e.until)
    (built : t.built_at < e.until) where
  kept_still : (q : Text) → kept q (t.now q) (some e) ≡ some e
  kept_still q = elim (Bool-cases (e.provider_id =? q)) [
    | inl same ↦
        subst (λ x. kept x (t.now x) (some e) ≡ some e) ((=?_iff e.provider_id q).0 same)
          (ground arith)
    | inr other ↦ ground arith
  ]

  view_blocks :
      (p : Provider) (b : Bool) (r : CooldownRegistry)
      → lookup k r.entries ≡ some e
      → blocks_entry t.built_at e (view_of p (cooldowns p.id (t.now p.id) b r).1) ≡ true
  unfolding cooldowns
  view_blocks p b r found = ground (
    arith,
    view_of_lem p (active_cooldowns p.id (t.now p.id) r.entries),
    cooldowns-view_of p (active_cooldowns p.id (t.now p.id) r.entries),
    =?_iff p.id e.provider_id,
    any-active_cooldowns (blocks t.built_at e.model e.capability) e.provider_id
        (t.now e.provider_id) k e r.entries found refl still
        (ground (arith, =?_refl e.capability, =?_refl (normalize_model e.model))),
  )

  -- Every view of the provider carries the cooldown.
  build_views-blocks_entry :
      (ps : List Provider) (r : Router)
      → IsWellFormed r.cooldowns
      → lookup k r.cooldowns.entries ≡ some e
      → All (λ v. blocks_entry t.built_at e v ≡ true) (build_views t ps r).1
  unfolding build_views
  build_views-blocks_entry [] r w found = tt
  build_views-blocks_entry (p ∷ ps) r w found = (
    view_blocks p (t.replaced p.id) r.cooldowns found,
    build_views-blocks_entry ps (after_read t p r)
        (cooldowns-IsWellFormed p.id (t.now p.id) (t.replaced p.id) r.cooldowns w)
        (lookup-cooldowns p.id (t.now p.id) (t.replaced p.id) r.cooldowns k w
          ∙ ap (kept p.id (t.now p.id)) found
          ∙ kept_still p.id),
  )

  pub not_selected :
      (v : Text) (vm : VirtualModel) (ex : List Text) (r : Router) (d : SelectionDecision)
      → IsWellFormed r.cooldowns
      → lookup k r.cooldowns.entries ≡ some e
      → select_priority_target_excluding v vm e.capability
          (some (build_availability_snapshot t r).1)
          ex
        ≡ selected d
      → aims_at e d ≡ false
  unfolding build_availability_snapshot
  not_selected v vm ex r d w found sel =
      let s = strip_model_prefix (trim_space d.selected_target) in
      let vs = (build_views t (registered r) r).1 in
      let routable =
        routable_of_usable (contains (trim_space d.selected_target) ex) s.found
          (evaluate (some (new_snapshot r.generation t.built_at vs)) s.provider_id s.bare
            e.capability).is_routable
          (selected-is_usable v vm e.capability (some (new_snapshot r.generation t.built_at vs)) ex
            d sel) in
      let (view, last, capable) =
        evaluate-capable r.generation t.built_at vs s.provider_id s.bare e.capability routable in
      let (carries, same_id) =
        last_view-All (λ x. blocks_entry t.built_at e x ≡ true) s.provider_id vs none view
          (build_views-blocks_entry (registered r) r w found) tt last in
      elim (Bool-cases (aims_at e d)) [
        | inr other ↦ other
        | inl aims ↦ absurd (
            ground (
              arith,
              aims,
              routable,
              carries,
              same_id,
              =?_iff s.provider_id e.provider_id,
              =?_iff view.id e.provider_id,
              =?_iff (normalize_model s.bare) (normalize_model e.model),
              evaluate-blocked r.generation t.built_at vs s.provider_id s.bare e.capability view
                  last,
              blocks_normal t.built_at e.capability s.bare e.model view.cooldowns,
            ))
      ]
