-- ===== src/Routing/Cooldown/Reading.antt =====
-- What reading a provider's cooldowns gives and leaves.
use ya_router.Common.{
  ◌+◌, ◌<◌, ◌≡◌, refl, arith, Text, Bool, true, [], ◌∷◌, Dict, lookup, text_key, =?_iff, =?_refl,
  ◌∙◌, is_empty, trim_space, trim_space_idem, any, ℤ,
}
use ya_router.Provider.{Time}
use ya_router.Availability.Routable.{blocks}
use ya_router.Availability.{CooldownReason, normalize_model}
use ya_router.Routing.Cooldown.Entry.{
  base_cooldown, CooldownEntry, cooldown_entry_key, cooldown_duration, failures_after,
}
use ya_router.Routing.Cooldown.Duration.{base_cooldown-le}
use ya_router.Routing.Cooldown.Registry.{
  CooldownRegistry, record_cooldown, cooldowns, kept_entries, expired_cooldowns,
}
use ya_router.Routing.Cooldown.Laws.{
  is_recordable, entry_after, entries-persist_or_log, until_after-le, any-active_cooldowns,
  lookup-record_cooldown,
}
use ya_router.Routing.Cooldown.WellFormed.{
  IsWellFormed, kept, lookup-kept_entries, kept_entries-Distinct, kept_entries-AllEntries,
}

-- With nothing expired the loop keeps the map as it is.
kept_entries_all :
    (p : Text) (now : Time) (m : Dict Text CooldownEntry)
    → is_empty (expired_cooldowns p now m) ≡ true
    → kept_entries p now m ≡ m
unfolding kept_entries expired_cooldowns
kept_entries_all p now [] h = refl
kept_entries_all p now ((j, e) ∷ m) h = ground (arith, kept_entries_all p now m)

entries-cooldowns :
    (p : Text) (now : Time) (b : Bool) (r : CooldownRegistry)
    → (cooldowns p now b r).0.entries ≡ kept_entries p now r.entries
unfolding cooldowns
entries-cooldowns p now b r = ground (
  arith,
  entries-persist_or_log b (record r { entries = kept_entries p now r.entries }),
  kept_entries_all p now r.entries,
)

-- Reading the cooldowns of a provider drops its expired entries, keeps its active ones, and leaves
-- those of every other provider.
pub lookup-cooldowns :
    (p : Text) (now : Time) (b : Bool) (r : CooldownRegistry) (k : Text)
    → IsWellFormed r
    → lookup k (cooldowns p now b r).0.entries ≡ kept p now (lookup k r.entries)
lookup-cooldowns p now b r k v =
    rw (entries-cooldowns p now b r) (lookup-kept_entries p now k r.entries v.distinct)

-- Reading the cooldowns of a provider keeps the registry well-formed.
pub cooldowns-IsWellFormed :
    (p : Text) (now : Time) (b : Bool) (r : CooldownRegistry)
    → IsWellFormed r
    → IsWellFormed (cooldowns p now b r).0
cooldowns-IsWellFormed p now b r v = record {
  distinct = rw (entries-cooldowns p now b r) (kept_entries-Distinct p now r.entries v.distinct);
  entries_ok =
      rw (entries-cooldowns p now b r) (kept_entries-AllEntries p now r.entries v.entries_ok);
}

pub normalize-trim : (m : Text) → normalize_model (trim_space m) ≡ normalize_model m
unfolding normalize_model
normalize-trim m = rw trim_space_idem

-- A failure that is recorded, with a provider, a model and a capability that are not blank and a
-- reason that is valid, blocks its target: if the registry has not changed since, a reading of the
-- provider's cooldowns at any time before 15 seconds after it has one that is active for the model and
-- the capability, whatever the files do.
pub record_cooldown-blocks :
    (p m c : Text) (reason : CooldownReason) (hint : ℤ) (now later : Time) (b d : Bool)
    (r : CooldownRegistry)
    → is_recordable p m c reason ≡ true
    → later < now + base_cooldown
    → any (blocks later m c) (cooldowns p later d (record_cooldown p m c reason hint now b r).0).1
      ≡ true
unfolding cooldowns
record_cooldown-blocks p m c reason hint now later b d r h l =
    let key = cooldown_entry_key p m c in
    let o = lookup key r.entries in
    let e = entry_after p m c reason hint now o in
    let active : later < e.until = omega (
      arith,
      until_after-le (now + cooldown_duration reason (failures_after now o) hint) o,
      base_cooldown-le reason (failures_after now o) hint,
    ) in
    any-active_cooldowns (blocks later m c) p later key e
      (record_cooldown p m c reason hint now b r).0.entries
      (lookup-record_cooldown p m c reason hint now b r key ∙ rw (h, =?_refl key)) refl active
      (ground (
        arith,
        active,
        =?_iff c c,
        =?_iff (normalize_model (trim_space m)) (normalize_model m),
        normalize-trim m,
      ))
