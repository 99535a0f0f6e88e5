-- ===== src/Routing/Router/Later.antt =====
-- A failed dispatch keeps its target out of the next selections, whatever the dispatches to other
-- targets come to.
use ya_router.Common.{
  ℕ, ◌+◌, ◌<◌, ◌≡◌, ◌∙◌, arith, Text, Bool, true, false, some, Option-cases, List, [], ◌∷◌, lookup,
  lookup-remove, remove, text_key, ◌=?◌, trim_space, is_empty, ℤ, leb, ltb, not, ◌&&◌, branch, inl,
  inr,
}
use ya_router.Provider.{Time}
use ya_router.Availability.{CooldownReason}
use ya_router.Config.{VirtualModel}
use ya_router.Routing.Prefixes.{strip_model_prefix}
use ya_router.Routing.Metrics.{Metrics}
use ya_router.Routing.Cooldown.Entry.{base_cooldown, CooldownEntry, cooldown_entry_key}
use ya_router.Routing.Cooldown.Registry.{CooldownRegistry, clear}
use ya_router.Routing.Cooldown.Policy.{DispatchError, is_nil, cooldown_policy, record_outcome}
use ya_router.Routing.Cooldown.Laws.{entries-persist_or_log, lookup-record_cooldown}
use ya_router.Routing.Cooldown.WellFormed.{
  IsWellFormed, record_cooldown-IsWellFormed, clear-IsWellFormed,
}
use ya_router.Routing.Router.{Router, Readings, resolve_virtual_model_excluding}
use ya_router.Routing.Router.Failure.{
  Avoids, after_outcome, cooldown_key_of, failure_entry, HasFailure, failure-Avoids,
  after_outcome-HasFailure,
}

-- What `RecordOutcome` is called with.
pub record Report : Type 0 where
  pub target : Text
  pub capability : Text
  pub status : ℕ
  pub err : DispatchError
  pub retry_after : ℤ
  pub now : Time
  pub replaced : Bool

abbrev reported : Report → Router → Router
reported x = after_outcome x.target x.capability x.status x.err x.retry_after x.now x.replaced

unfoldable pub after_outcomes : List Report → Router → Router
after_outcomes [] r = r
after_outcomes (x ∷ xs) r = after_outcomes xs (reported x r)

-- None of the reports is about the target of the key.
unfoldable pub are_others : Text → List Report → Bool
are_others key [] = true
are_others key (x ∷ xs) = not (cooldown_key_of x.target x.capability =? key) && are_others key xs

lookup-clear :
    (p m c : Text) (b : Bool) (r : CooldownRegistry) (k : Text)
    → (cooldown_entry_key p m c =? k) ≡ false
    → lookup k (clear p m c b r).0.entries ≡ lookup k r.entries
unfolding clear
lookup-clear p m c b r k other =
    let key = cooldown_entry_key p m c in
    ground (
      arith,
      other,
      entries-persist_or_log b (record r { entries = remove key r.entries }),
      lookup-remove key k r.entries,
    )

abbrev Keeps : Text → CooldownEntry → CooldownRegistry × Metrics → Type 0
Keeps key e z = HasFailure key e z.0

record_outcome-HasFailure :
    (key : Text) (e : CooldownEntry) (target c : Text) (status : ℕ) (err : DispatchError) (ra : ℤ)
    (now : Time) (b : Bool) (r : CooldownRegistry) (m : Metrics)
    → (cooldown_key_of target c =? key) ≡ false
    → HasFailure key e r
    → Keeps key e (record_outcome target c status err ra now b (r, m))
unfolding record_outcome
record_outcome-HasFailure key e target c status err ra now b r m other v =
    let s = strip_model_prefix target in
    branch (Keeps key e) (not s.found) v (
      branch (Keeps key e) (leb 200 status && (ltb status 300 && is_nil err))
        (record {
          well_formed = clear-IsWellFormed s.provider_id s.bare c b r v.well_formed;
          found = lookup-clear s.provider_id s.bare c b r key other ∙ v.found;
        })
        (elim (Option-cases (cooldown_policy status err ra)) [
          | inl calm ↦ rw calm v
          | inr ((reason, hint), failed) ↦ rw failed (record {
            well_formed =
                record_cooldown-IsWellFormed s.provider_id s.bare c reason hint now b r
                  v.well_formed;
            found = ground (
              arith,
              v.found,
              other,
              lookup-record_cooldown s.provider_id s.bare c reason hint now b r key,
            );
          })
        ]))

after_outcomes-HasFailure :
    (key : Text) (e : CooldownEntry) (xs : List Report) (r : Router)
    → are_others key xs ≡ true
    → HasFailure key e r.cooldowns
    → HasFailure key e (after_outcomes xs r).cooldowns
unfolding after_outcomes are_others
after_outcomes-HasFailure key e [] r h v = v
after_outcomes-HasFailure key e (x ∷ xs) r h v =
    after_outcomes-HasFailure key e xs (reported x r) (ground (arith, h)) (
      record_outcome-HasFailure key e x.target x.capability x.status x.err x.retry_after x.now
        x.replaced r.cooldowns r.metrics (ground (arith, h)) v)

-- After the outcome of a dispatch that calls for a cooldown, and then any outcomes of dispatches to
-- other targets, failed or not, a virtual model resolved within 15 seconds of the first, whatever
-- its targets, strategy and exclusions, does not select that target's provider and model for the
-- capability. The conditions: the target, as it is written and without trimming, starts with the
-- prefix of a known provider, the model after the prefix is not blank and the capability is not
-- empty; the cooldown registry before the first outcome is well-formed, its keys distinct and its
-- entries valid under them; the later outcomes have another cooldown key, as a success of the same
-- target ends its cooldown; and all readings of the clock for the resolution lie before the end of
-- the 15 seconds.
pub after_outcome-Avoids :
    (target c : Text) (status : ℕ) (err : DispatchError) (ra : ℤ) (now : Time) (b : Bool)
    (r : Router) (reason : CooldownReason) (hint : ℤ) (xs : List Report) (t : Readings) (v : Text)
    (vm : VirtualModel) (ex : List Text)
    → cooldown_policy status err ra ≡ some (reason, hint)
    → (strip_model_prefix target).found ≡ true
    → is_empty (trim_space (strip_model_prefix target).bare) ≡ false
    → is_empty c ≡ false
    → IsWellFormed r.cooldowns
    → are_others (cooldown_key_of target c) xs ≡ true
    → t.now (strip_model_prefix target).provider_id < now + base_cooldown
    → t.built_at < now + base_cooldown
    → Avoids target
        (resolve_virtual_model_excluding t v vm c ex
          (after_outcomes xs (after_outcome target c status err ra now b r))).1
after_outcome-Avoids target c status err ra now b r reason hint xs t v vm ex pol known named cap w
      others soon built =
    failure-Avoids target c reason hint now r.cooldowns t v vm ex
      (after_outcomes xs (after_outcome target c status err ra now b r))
      (after_outcomes-HasFailure (cooldown_key_of target c)
        (failure_entry target c reason hint now r.cooldowns) xs
        (after_outcome target c status err ra now b r) others
        (after_outcome-HasFailure target c status err ra now b r reason hint pol known named cap w))
      soon built
