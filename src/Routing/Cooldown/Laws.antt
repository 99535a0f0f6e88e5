-- ===== src/Routing/Cooldown/Laws.antt =====
-- What recording, clearing and reading do to the entries.
use ya_router.Common.{
  ℕ, ◌+◌, ◌≤◌, ◌<◌, ◌≡◌, refl, ◌∙◌, =?_refl, arith, Text, Bool, true, Option, none, some, [], ◌∷◌,
  Dict, lookup, put, lookup-put, text_key, ◌=?◌, =?_iff, is_empty, trim_space, any, ℤ, not, ◌&&◌,
  if◌then◌else◌,
}
use ya_router.Provider.{Time}
use ya_router.Availability.{CooldownReason, Cooldown}
use ya_router.Routing.Cooldown.Entry.{
  base_cooldown, CooldownEntry, valid_cooldown_reason, cooldown_entry_key, cooldown_duration,
  failures_after, until_after,
}
use ya_router.Routing.Cooldown.Duration.{base_cooldown-le}
use ya_router.Routing.Cooldown.Registry.{
  CooldownRegistry, persist_or_log, record_cooldown, active_cooldowns, cooldown_of,
}

-- Persisting changes the file at most.
pub entries-persist_or_log :
    (b : Bool) (r : CooldownRegistry) → (persist_or_log b r).entries ≡ r.entries
unfolding persist_or_log
entries-persist_or_log b r = ground arith

-- What `Record` accepts.
abbrev pub is_recordable : Text → Text → Text → CooldownReason → Bool
is_recordable p m c reason =
    not (is_empty p)
    && (not (is_empty (trim_space m)) && (not (is_empty c) && valid_cooldown_reason reason))

-- The entry of a failure recorded over what the key had.
abbrev pub entry_after :
    Text → Text → Text → CooldownReason → ℤ → Time → Option CooldownEntry → CooldownEntry
entry_after p m c reason hint now existing = record {
  provider_id = p;
  model = trim_space m;
  capability = c;
  until = until_after (now + cooldown_duration reason (failures_after now existing) hint) existing;
  reason = reason;
  failures = failures_after now existing;
}

-- The entries after recording: a lookup finds the entry of an accepted failure under its key, and
-- what was there under every other key, or if the failure is not accepted.
pub lookup-record_cooldown :
    (p m c : Text) (reason : CooldownReason) (hint : ℤ) (now : Time) (b : Bool)
    (r : CooldownRegistry) (k : Text)
    → lookup k (record_cooldown p m c reason hint now b r).0.entries ≡ (
        if is_recordable p m c reason && (cooldown_entry_key p m c =? k)
        then some (entry_after p m c reason hint now (lookup (cooldown_entry_key p m c) r.entries))
        else lookup k r.entries)
unfolding record_cooldown
lookup-record_cooldown p m c reason hint now b r k =
    let key = cooldown_entry_key p m c in
    let e = entry_after p m c reason hint now (lookup key r.entries) in
    ground (
      arith,
      entries-persist_or_log b (record r { entries = put key e r.entries }),
      lookup-put key k e r.entries,
    )

abbrev pub until_of : Option CooldownEntry → Time
until_of none = 0
until_of (some e) = e.until

-- The entry `e` of a failure at `now` in place of `old`.
pub record IsStored (p c : Text) (why : CooldownReason) (now : Time) (old : Option CooldownEntry)
    (e : CooldownEntry) : Type 0 where
  pub provider : e.provider_id ≡ p
  pub capability : e.capability ≡ c
  pub reason : e.reason ≡ why
  pub lasts : now + base_cooldown ≤ e.until
  pub not_shortened : until_of old ≤ e.until

pub until_after-le : (until : ℕ) (o : Option CooldownEntry) → until ≤ until_after until o
until_after-le until o = ground arith

-- A failure that is recorded, with a provider, a model and a capability that are not blank and a
-- reason that is valid, enters its target's key for at least 15 seconds, whatever the file does: the
-- registry then has an entry under the key, of this provider, capability and reason, whose end is the
-- one that is returned, is at least 15 seconds away, and is not before the end that the key had.
pub record_cooldown-until :
    (p m c : Text) (reason : CooldownReason) (hint : ℤ) (now : Time) (b : Bool)
    (r : CooldownRegistry)
    → is_recordable p m c reason ≡ true
    → (e : CooldownEntry) × ((lookup
            (cooldown_entry_key p m c)
            (record_cooldown p m c reason hint now b r).0.entries
          ≡ some e)
        × (((record_cooldown p m c reason hint now b r).1 ≡ some e.until)
            × IsStored p c reason now (lookup (cooldown_entry_key p m c) r.entries) e))
unfolding record_cooldown
record_cooldown-until p m c reason hint now b r h =
    let key = cooldown_entry_key p m c in
    let o = lookup key r.entries in
    let d = cooldown_duration reason (failures_after now o) hint in
    (
      entry_after p m c reason hint now o,
      (
        lookup-record_cooldown p m c reason hint now b r key ∙ rw (h, =?_refl key),
        (
          ground (arith, h),
          record {
            provider = refl;
            capability = refl;
            reason = refl;
            lasts = omega (
              arith,
              until_after-le (now + d) o,
              base_cooldown-le reason (failures_after now o) hint,
            );
            not_shortened = ground arith;
          },
        ),
      ),
    )

pub any-active_cooldowns :
    (q : Cooldown → Bool) (p : Text) (now : Time) (k : Text) (e : CooldownEntry)
    (m : Dict Text CooldownEntry)
    → lookup k m ≡ some e
    → e.provider_id ≡ p
    → now < e.until
    → q (cooldown_of e) ≡ true
    → any q (active_cooldowns p now m) ≡ true
unfolding lookup active_cooldowns
any-active_cooldowns q p now k e [] l same later holds = ground arith
any-active_cooldowns q p now k e ((j, d) ∷ m) l same later holds =
    ground (arith, =?_iff d.provider_id p, any-active_cooldowns q p now k e m)
