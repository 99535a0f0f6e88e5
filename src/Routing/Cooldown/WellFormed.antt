-- ===== src/Routing/Cooldown/WellFormed.antt =====
-- What every operation on the registry keeps.
use ya_router.Common.{
  ◌≤◌, ◌≡◌, refl, arith, Text, Bool, true, false, Option, none, some, [], ◌∷◌, Dict, lookup, put,
  remove, Distinct, AllEntries, put-AllEntries, remove-AllEntries, put-Distinct, remove-Distinct,
  text_key, =?_iff, trim_space, trim_space_idem, ℤ, if◌then◌else◌, Bool-cases, Option-cases, inl,
  inr,
}
use ya_router.Provider.{Time}
use ya_router.Availability.{CooldownReason}
use ya_router.Routing.Cooldown.Entry.{CooldownEntry, cooldown_entry_key, entry_key}
use ya_router.Routing.Cooldown.Registry.{
  CooldownRegistry, persist_or_log, record_cooldown, clear, kept_entries, is_expired,
}
use ya_router.Routing.Cooldown.Laws.{is_recordable, entry_after, entries-persist_or_log}

-- What every operation keeps: no key stands twice, and each entry stands under its own key and is
-- one that the state file would give back.
abbrev pub EntryOk : Text → CooldownEntry → Type 0
EntryOk k e =
    (entry_key e ≡ k)
    × (trim_space e.model ≡ e.model)
    × (is_recordable e.provider_id e.model e.capability e.reason ≡ true)
    × (1 ≤ e.failures)

pub record IsWellFormed (r : CooldownRegistry) : Type 0 where
  pub distinct : Distinct r.entries
  pub entries_ok : AllEntries EntryOk r.entries

-- What reading a provider's cooldowns leaves of an entry.
abbrev pub kept : Text → Time → Option CooldownEntry → Option CooldownEntry
kept p now none = none
kept p now (some e) = if is_expired p now e then none else some e

cooldown_entry_key-trim :
    (p m c : Text) → cooldown_entry_key p (trim_space m) c ≡ cooldown_entry_key p m c
unfolding cooldown_entry_key
cooldown_entry_key-trim p m c = rw trim_space_idem

entry_after-EntryOk :
    (p m c : Text) (reason : CooldownReason) (hint : ℤ) (now : Time) (o : Option CooldownEntry)
    → is_recordable p m c reason ≡ true
    → EntryOk (cooldown_entry_key p m c) (entry_after p m c reason hint now o)
entry_after-EntryOk p m c reason hint now o h =
    (cooldown_entry_key-trim p m c, trim_space_idem m, rw trim_space_idem h, ground arith)

pub persist_or_log-IsWellFormed :
    (b : Bool) (r : CooldownRegistry) → IsWellFormed r → IsWellFormed (persist_or_log b r)
persist_or_log-IsWellFormed b r v = record {
  distinct = rw entries-persist_or_log v.distinct;
  entries_ok = rw entries-persist_or_log v.entries_ok;
}

abbrev pub recorded :
    Text → Text → Text → CooldownReason → ℤ → Time → CooldownRegistry → CooldownRegistry
recorded p m c reason hint now r =
    let key = cooldown_entry_key p m c in
    record r {
      entries = put key (entry_after p m c reason hint now (lookup key r.entries)) r.entries;
    }

pub record_cooldown_accepted :
    (p m c : Text) (reason : CooldownReason) (hint : ℤ) (now : Time) (b : Bool)
    (r : CooldownRegistry)
    → is_recordable p m c reason ≡ true
    → (record_cooldown p m c reason hint now b r).0
      ≡ persist_or_log b (recorded p m c reason hint now r)
unfolding record_cooldown
record_cooldown_accepted p m c reason hint now b r h = ground arith

record_cooldown_refused :
    (p m c : Text) (reason : CooldownReason) (hint : ℤ) (now : Time) (b : Bool)
    (r : CooldownRegistry)
    → is_recordable p m c reason ≡ false
    → (record_cooldown p m c reason hint now b r).0 ≡ r
unfolding record_cooldown
record_cooldown_refused p m c reason hint now b r h = ground arith

pub recorded-IsWellFormed :
    (p m c : Text) (reason : CooldownReason) (hint : ℤ) (now : Time) (r : CooldownRegistry)
    → is_recordable p m c reason ≡ true
    → IsWellFormed r
    → IsWellFormed (recorded p m c reason hint now r)
recorded-IsWellFormed p m c reason hint now r h v =
    let key = cooldown_entry_key p m c in
    let o = lookup key r.entries in
    let e = entry_after p m c reason hint now o in
    record {
      distinct = put-Distinct key e r.entries v.distinct;
      entries_ok =
          put-AllEntries EntryOk key e r.entries (entry_after-EntryOk p m c reason hint now o h)
            v.entries_ok;
    }

-- A failure recorded, accepted or not, keeps the registry well-formed.
pub record_cooldown-IsWellFormed :
    (p m c : Text) (reason : CooldownReason) (hint : ℤ) (now : Time) (b : Bool)
    (r : CooldownRegistry)
    → IsWellFormed r
    → IsWellFormed (record_cooldown p m c reason hint now b r).0
record_cooldown-IsWellFormed p m c reason hint now b r v =
    elim (Bool-cases (is_recordable p m c reason)) [
      | inl accepted ↦ rw (record_cooldown_accepted p m c reason hint now b r accepted) (
          persist_or_log-IsWellFormed b (recorded p m c reason hint now r)
            (recorded-IsWellFormed p m c reason hint now r accepted v))
      | inr refused ↦ rw (record_cooldown_refused p m c reason hint now b r refused) v
    ]

-- Clearing a target keeps the registry well-formed.
pub clear-IsWellFormed :
    (p m c : Text) (b : Bool) (r : CooldownRegistry)
    → IsWellFormed r
    → IsWellFormed (clear p m c b r).0
unfolding clear
clear-IsWellFormed p m c b r v =
    let key = cooldown_entry_key p m c in
    elim (Option-cases (lookup key r.entries)) [
      | inl missing ↦ rw missing v
      | inr (e, found) ↦ rw found (
          persist_or_log-IsWellFormed b (record r { entries = remove key r.entries })
            (record {
              distinct = remove-Distinct key r.entries v.distinct;
              entries_ok = remove-AllEntries EntryOk key r.entries v.entries_ok;
            }))
    ]

pub lookup-kept_entries :
    (p : Text) (now : Time) (k : Text) (m : Dict Text CooldownEntry)
    → Distinct m
    → lookup k (kept_entries p now m) ≡ kept p now (lookup k m)
unfolding lookup kept_entries
lookup-kept_entries p now k [] d = refl
lookup-kept_entries p now k ((j, e) ∷ m) d =
    ground (arith, =?_iff j k, lookup-kept_entries p now k m d.1)

pub kept_entries-Distinct :
    (p : Text) (now : Time) (m : Dict Text CooldownEntry)
    → Distinct m
    → Distinct (kept_entries p now m)
unfolding lookup kept_entries
kept_entries-Distinct p now [] d = d
kept_entries-Distinct p now ((j, e) ∷ m) d = elim (Bool-cases (is_expired p now e)) [
  | inl gone ↦ rw gone (kept_entries-Distinct p now m d.1)
  | inr stays ↦
      rw stays
        (ground (arith, lookup-kept_entries p now j m d.1), kept_entries-Distinct p now m d.1)
]

pub kept_entries-AllEntries :
    (p : Text) (now : Time) (m : Dict Text CooldownEntry)
    → AllEntries EntryOk m
    → AllEntries EntryOk (kept_entries p now m)
unfolding kept_entries
kept_entries-AllEntries p now [] h = h
kept_entries-AllEntries p now ((j, e) ∷ m) h = elim (Bool-cases (is_expired p now e)) [
  | inl gone ↦ rw gone (kept_entries-AllEntries p now m h.1)
  | inr stays ↦ rw stays (h.0, kept_entries-AllEntries p now m h.1)
]
