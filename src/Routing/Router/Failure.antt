-- ===== src/Routing/Router/Failure.antt =====
-- A failed dispatch keeps its target out of the next selections.
use ya_router.Common.{
  ℕ, ◌+◌, ◌<◌, ◌≡◌, refl, sym, subst, ap, ◌∙◌, arith, Text, Bool, true, false, Option, none, some,
  List, lookup, text_key, ◌=?◌, =?_refl, trim_space, is_empty, ℤ, ◌&&◌,
}
use ya_router.Provider.{Time, Provider}
use ya_router.Availability.{CooldownReason, normalize_model}
use ya_router.Config.{VirtualModel}
use ya_router.Routing.Prefixes.{Stripped, strip_model_prefix}
use ya_router.Routing.Decision.{SelectionDecision}
use ya_router.Routing.Metrics.{Metrics}
use ya_router.Routing.Selector.{Selection, selected, no_active}
use ya_router.Routing.Cooldown.Entry.{
  base_cooldown, CooldownEntry, valid_cooldown_reason, cooldown_entry_key, cooldown_duration,
  failures_after,
}
use ya_router.Routing.Cooldown.Duration.{base_cooldown-le}
use ya_router.Routing.Cooldown.Registry.{CooldownRegistry, record_cooldown}
use ya_router.Routing.Cooldown.Policy.{
  DispatchError, cooldown_reason, cooldown_policy, record_outcome,
}
use ya_router.Routing.Cooldown.Laws.{
  is_recordable, entry_after, until_after-le, lookup-record_cooldown,
}
use ya_router.Routing.Cooldown.WellFormed.{IsWellFormed, record_cooldown-IsWellFormed}
use ya_router.Routing.Cooldown.Reading.{normalize-trim}
use ya_router.Routing.Router.{
  Router, Resolution, resolved, failed, Readings, ordered_vm, dispatch_found, dispatch_selection,
  resolve_virtual_model_excluding,
}
use ya_router.Routing.Router.Avoidance.{aims_at, not_selected}

-- Two targets name the same provider and, up to case and white space, the same model.
abbrev pub same_model : Stripped → Stripped → Bool
same_model s u =
    (s.provider_id =? u.provider_id) && (normalize_model s.bare =? normalize_model u.bare)

abbrev pub selects : Text → Option SelectionDecision → Bool
selects target none = false
selects target (some d) =
    same_model (strip_model_prefix (trim_space d.selected_target)) (strip_model_prefix target)

-- A resolution that is not to the target.
abbrev pub Avoids : Text → Resolution → Type 0
Avoids target (resolved res) = selects target res.selection ≡ false
Avoids target (failed e) = Unit

dispatch_found-Avoids :
    (target v : Text) (d : SelectionDecision) (o : Option Provider) (r : Router)
    → selects target (some d) ≡ false
    → Avoids target (dispatch_found v d o r).1
unfolding dispatch_found
dispatch_found-Avoids target v d none r h = tt
dispatch_found-Avoids target v d (some p) r h = h

dispatch_selection-Avoids :
    (target v : Text) (s : Selection) (r : Router)
    → ((d : SelectionDecision) → s ≡ selected d → selects target (some d) ≡ false)
    → Avoids target (dispatch_selection v s r).1
unfolding dispatch_selection
dispatch_selection-Avoids target v (no_active e) r h = tt
dispatch_selection-Avoids target v (selected d) r h =
    dispatch_found-Avoids target v d _ r (h d refl)

valid-cooldown_policy :
    (status : ℕ) (err : DispatchError) (ra : ℤ) (reason : CooldownReason) (hint : ℤ)
    → cooldown_policy status err ra ≡ some (reason, hint)
    → valid_cooldown_reason reason ≡ true
unfolding cooldown_policy cooldown_reason valid_cooldown_reason
valid-cooldown_policy status err ra reason hint h = ground arith

record_outcome-failed :
    (target c : Text) (status : ℕ) (err : DispatchError) (ra : ℤ) (now : Time) (b : Bool)
    (r : CooldownRegistry) (m : Metrics) (reason : CooldownReason) (hint : ℤ)
    → cooldown_policy status err ra ≡ some (reason, hint)
    → (strip_model_prefix target).found ≡ true
    → (record_outcome target c status err ra now b (r, m)).0
      ≡ (record_cooldown
          (strip_model_prefix target).provider_id
          (strip_model_prefix target).bare
          c
          reason
          hint
          now
          b
          r).0
unfolding record_outcome cooldown_policy cooldown_reason
record_outcome-failed target c status err ra now b r m reason hint h f = ground arith

known_provider :
    (m : Text)
    → (strip_model_prefix m).found ≡ true
    → is_empty (strip_model_prefix m).provider_id ≡ false
unfolding strip_model_prefix
known_provider m h = ground arith

-- The router after the outcome of a dispatch to a target.
abbrev pub after_outcome : Text → Text → ℕ → DispatchError → ℤ → Time → Bool → Router → Router
after_outcome target c status err ra now b r =
    let recorded = record_outcome target c status err ra now b (r.cooldowns, r.metrics) in
    record r { cooldowns = recorded.0; metrics = recorded.1 }

-- A recorded failure is in the registry, under its key, for at least 15 seconds.
abbrev recorded_entry :
    Text → Text → Text → CooldownReason → ℤ → Time → CooldownRegistry → CooldownEntry
recorded_entry p m c reason hint now r =
    entry_after p m c reason hint now (lookup (cooldown_entry_key p m c) r.entries)

recorded_entry_found :
    (p m c : Text) (reason : CooldownReason) (hint : ℤ) (now : Time) (b : Bool)
    (r : CooldownRegistry)
    → is_recordable p m c reason ≡ true
    → lookup (cooldown_entry_key p m c) (record_cooldown p m c reason hint now b r).0.entries
      ≡ some (recorded_entry p m c reason hint now r)
recorded_entry_found p m c reason hint now b r h =
    let key = cooldown_entry_key p m c in
    lookup-record_cooldown p m c reason hint now b r key ∙ rw (h, =?_refl key)

recorded_entry_lasts :
    (p m c : Text) (reason : CooldownReason) (hint : ℤ) (now later : Time) (r : CooldownRegistry)
    → later < now + base_cooldown
    → later < (recorded_entry p m c reason hint now r).until
recorded_entry_lasts p m c reason hint now later r h =
    let o = lookup (cooldown_entry_key p m c) r.entries in
    omega (
      arith,
      until_after-le (now + cooldown_duration reason (failures_after now o) hint) o,
      base_cooldown-le reason (failures_after now o) hint,
    )

selects-aims_at :
    (target c : Text) (reason : CooldownReason) (hint : ℤ) (now : Time) (r : CooldownRegistry)
    (d : SelectionDecision)
    → aims_at
        (recorded_entry
          (strip_model_prefix target).provider_id
          (strip_model_prefix target).bare
          c
          reason
          hint
          now
          r)
        d
      ≡ selects target (some d)
selects-aims_at target c reason hint now r d = rw (normalize-trim (strip_model_prefix target).bare)

-- The entry of a target's key.
abbrev pub cooldown_key_of : Text → Text → Text
cooldown_key_of target c =
    cooldown_entry_key (strip_model_prefix target).provider_id (strip_model_prefix target).bare c

abbrev pub failure_entry :
    Text → Text → CooldownReason → ℤ → Time → CooldownRegistry → CooldownEntry
failure_entry target c reason hint now r =
    recorded_entry (strip_model_prefix target).provider_id (strip_model_prefix target).bare c reason
      hint now r

-- The registry of the router `r` is well-formed and has the entry of the failure.
pub record HasFailure (key : Text) (e : CooldownEntry) (r : CooldownRegistry) : Type 0 where
  pub well_formed : IsWellFormed r
  pub found : lookup key r.entries ≡ some e

pub failure-Avoids :
    (target c : Text) (reason : CooldownReason) (hint : ℤ) (now : Time) (r : CooldownRegistry)
    (t : Readings) (v : Text) (vm : VirtualModel) (ex : List Text) (after : Router)
    → HasFailure
        (cooldown_key_of target c)
        (failure_entry target c reason hint now r)
        after.cooldowns
    → t.now (strip_model_prefix target).provider_id < now + base_cooldown
    → t.built_at < now + base_cooldown
    → Avoids target (resolve_virtual_model_excluding t v vm c ex after).1
unfolding resolve_virtual_model_excluding
failure-Avoids target c reason hint now r t v vm ex after has soon built =
    let s = strip_model_prefix target in
    dispatch_selection-Avoids target v _ _ λ d sel.
      sym (selects-aims_at target c reason hint now r d)
      ∙ not_selected t (cooldown_key_of target c) (failure_entry target c reason hint now r)
          (recorded_entry_lasts s.provider_id s.bare c reason hint now _ r soon)
          (recorded_entry_lasts s.provider_id s.bare c reason hint now _ r built) v
          (ordered_vm after v vm c) ex after d has.well_formed has.found sel

pub after_outcome-HasFailure :
    (target c : Text) (status : ℕ) (err : DispatchError) (ra : ℤ) (now : Time) (b : Bool)
    (r : Router) (reason : CooldownReason) (hint : ℤ)
    → cooldown_policy status err ra ≡ some (reason, hint)
    → (strip_model_prefix target).found ≡ true
    → is_empty (trim_space (strip_model_prefix target).bare) ≡ false
    → is_empty c ≡ false
    → IsWellFormed r.cooldowns
    → HasFailure
        (cooldown_key_of target c)
        (failure_entry target c reason hint now r.cooldowns)
        (after_outcome target c status err ra now b r).cooldowns
after_outcome-HasFailure target c status err ra now b r reason hint pol known named cap w =
    let s = strip_model_prefix target in
    let same =
      record_outcome-failed target c status err ra now b r.cooldowns r.metrics reason hint pol
        known in
    let recordable : is_recordable s.provider_id s.bare c reason ≡ true =
      ground
        (arith, known_provider target known, valid-cooldown_policy status err ra reason hint pol) in
    let wf = record_cooldown-IsWellFormed s.provider_id s.bare c reason hint now b r.cooldowns w in
    record {
      well_formed = subst IsWellFormed (sym same) wf;
      found =
          ap (λ (x : CooldownRegistry). lookup (cooldown_key_of target c) x.entries) same
          ∙ recorded_entry_found s.provider_id s.bare c reason hint now b r.cooldowns recordable;
    }
