-- ===== src/Routing/Cooldown/RoundTrip.antt =====
-- The state file gives back what was written, but for what expired in between.
use ya_router.Common.{
  ℕ, zero, suc, ◌≤◌, ◌≡◌, refl, ◌∙◌, ap, arith, Text, true, false, Option, none, some, List, [],
  ◌∷◌, Dict, lookup, map, length, Distinct, AllEntries, lookup-AllEntries, lookup-put, text_key,
  ◌=?◌, =?_iff, ltb, is_empty, trim_space, All, if◌then◌else◌, sort, find, DistinctKeys, find-sort,
  sort-DistinctKeys, All-sort, length-sort,
}
use mathlib.Core.Option
use ya_router.Provider.{Time}
use ya_router.Routing.Cooldown.Entry.{
  max_persisted_cooldowns, CooldownEntry, cooldown_entry_key, entry_key,
}
use ya_router.Routing.Cooldown.File.{
  PersistedCooldownEntry, decode_persisted_cooldown, put_entry, load_entries, loaded,
  persisted_less, persisted, persist_locked,
}
use ya_router.Routing.Cooldown.Registry.{CooldownRegistry, open_cooldown_registry}
use ya_router.Routing.Cooldown.WellFormed.{IsWellFormed, EntryOk}

abbrev item_key : PersistedCooldownEntry → Text
item_key it = cooldown_entry_key it.provider it.model it.capability

-- What is decoded stands under the key of the item.
abbrev DecodesTo : Text → Option CooldownEntry → Type 0
DecodesTo k none = Unit
DecodesTo k (some e) = entry_key e ≡ k

abbrev or_else : Option CooldownEntry → Option CooldownEntry → Option CooldownEntry
or_else none o = o
or_else (some e) o = some e

abbrev decode_option : Time → Option PersistedCooldownEntry → Option CooldownEntry
decode_option now none = none
decode_option now (some it) = decode_persisted_cooldown it now

lookup-put_entry :
    (k j : Text) (o : Option CooldownEntry) (m : Dict Text CooldownEntry)
    → DecodesTo j o
    → lookup k (put_entry o m) ≡ (if j =? k then or_else o (lookup k m) else lookup k m)
lookup-put_entry k j none m h = ground arith
lookup-put_entry k j (some e) m h = ground (arith, lookup-put (entry_key e) k e m)

-- With room for every item, each key has what its item decodes to, or what it had.
lookup-load_entries :
    (n : ℕ) (now : Time) (k : Text) (items : List PersistedCooldownEntry)
    (m : Dict Text CooldownEntry)
    → length items ≤ n
    → DistinctKeys item_key items
    → All (λ it. DecodesTo (item_key it) (decode_persisted_cooldown it now)) items
    → lookup k (load_entries n now items m)
      ≡ or_else (decode_option now (find item_key k items)) (lookup k m)
unfolding load_entries
lookup-load_entries n now k [] m h d hs = refl
lookup-load_entries zero now k (it ∷ items) m h d hs = absurd (omega arith)
lookup-load_entries (suc n) now k (it ∷ items) m h d hs = ground (
  arith,
  lookup-load_entries n now k items (put_entry (decode_persisted_cooldown it now) m),
  lookup-put_entry k (item_key it) (decode_persisted_cooldown it now) m hs.0,
  =?_iff (item_key it) k,
  d.0,
)

-- An entry whose provider and capability have no outer white space, as its model never has.
abbrev pub Persists : Text → CooldownEntry → Type 0
Persists k e =
    EntryOk k e
    × (trim_space e.provider_id ≡ e.provider_id)
    × (trim_space e.capability ≡ e.capability)

-- What is left of an entry at a time.
abbrev pub unexpired : Time → Option CooldownEntry → Option CooldownEntry
unexpired now none = none
unexpired now (some e) = if ltb now e.until then some e else none

decode-persisted :
    (k : Text) (e : CooldownEntry) (now : Time)
    → Persists k e
    → decode_persisted_cooldown (persisted (k, e)) now ≡ unexpired now (some e)
unfolding decode_persisted_cooldown
decode-persisted k e now ((own, model, recordable, failures), provider, capability) =
    rw (model, provider, capability) (ground (arith, model, provider, capability))

decode-persisted-DecodesTo :
    (k : Text) (e : CooldownEntry) (now : Time)
    → Persists k e
    → DecodesTo (item_key (persisted (k, e))) (decode_persisted_cooldown (persisted (k, e)) now)
decode-persisted-DecodesTo k e now h = rw (decode-persisted k e now h) (ground arith)

All-map-persisted :
    (now : Time) (m : Dict Text CooldownEntry)
    → AllEntries Persists m
    → All (λ it. DecodesTo (item_key it) (decode_persisted_cooldown it now)) (map persisted m)
All-map-persisted now [] hs = tt
All-map-persisted now ((k, e) ∷ m) hs =
    (decode-persisted-DecodesTo k e now hs.0, All-map-persisted now m hs.1)

abbrev persisted_option : Text → Option CooldownEntry → Option PersistedCooldownEntry
persisted_option k none = none
persisted_option k (some e) = some (persisted (k, e))

find-map-persisted :
    (k : Text) (m : Dict Text CooldownEntry)
    → AllEntries Persists m
    → find item_key k (map persisted m) ≡ persisted_option k (lookup k m)
unfolding lookup
find-map-persisted k [] hs = refl
find-map-persisted k ((j, e) ∷ m) hs = ground (arith, find-map-persisted k m hs.1, hs.0.0.0)

map-persisted-DistinctKeys :
    (m : Dict Text CooldownEntry)
    → AllEntries Persists m
    → Distinct m
    → DistinctKeys item_key (map persisted m)
map-persisted-DistinctKeys [] hs d = tt
map-persisted-DistinctKeys ((k, e) ∷ m) hs d = (
  ground (arith, hs.0.0.0, find-map-persisted (item_key (persisted (k, e))) m hs.1, d.0),
  map-persisted-DistinctKeys m hs.1 d.1,
)

length-map-persisted : (m : Dict Text CooldownEntry) → length (map persisted m) ≡ length m
length-map-persisted [] = refl
length-map-persisted (x ∷ m) = ap suc (length-map-persisted m)

decode-lookup :
    (now : Time) (k : Text) (m : Dict Text CooldownEntry) (o : Option CooldownEntry)
    → AllEntries Persists m
    → lookup k m ≡ o
    → or_else (decode_option now (persisted_option k o)) none ≡ unexpired now o
decode-lookup now k m none hs l = refl
decode-lookup now k m (some e) hs l =
    ground (arith, decode-persisted k e now (lookup-AllEntries Persists k e m hs l))

-- The lookup in a map that is read back from the file written for a map of at most 4096 entries.
lookup-load-persisted :
    (now : Time) (k : Text) (m : Dict Text CooldownEntry)
    → AllEntries Persists m
    → Distinct m
    → length m ≤ max_persisted_cooldowns
    → lookup k (load_entries max_persisted_cooldowns now (sort persisted_less (map persisted m)) [])
      ≡ unexpired now (lookup k m)
unfolding lookup
lookup-load-persisted now k m hs d short =
    let items = map persisted m in
    let distinct = map-persisted-DistinctKeys m hs d in
    lookup-load_entries max_persisted_cooldowns now k (sort persisted_less items) []
      (omega (arith, length-sort persisted_less items, length-map-persisted m))
      (sort-DistinctKeys persisted_less item_key items distinct)
      (All-sort persisted_less (λ it. DecodesTo (item_key it) (decode_persisted_cooldown it now))
        items (All-map-persisted now m hs))
    ∙ rw (find-sort persisted_less item_key k items distinct, find-map-persisted k m hs)
        (decode-lookup now k m (lookup k m) hs refl)

-- A registry reopened from the file that it wrote has each entry that has not expired, with all its
-- fields, and no other; if the registry is well-formed, holds at most 4096 entries, and no provider
-- or capability in it has outer white space.
pub open-persist_locked :
    (path : Text) (now : Time) (r : CooldownRegistry) (k : Text)
    → is_empty (trim_space path) ≡ false
    → IsWellFormed r
    → AllEntries Persists r.entries
    → length r.entries ≤ max_persisted_cooldowns
    → Option.map
        (λ (s : CooldownRegistry). lookup k s.entries)
        (open_cooldown_registry path true now (persist_locked r.entries))
      ≡ some (unexpired now (lookup k r.entries))
unfolding open_cooldown_registry persist_locked loaded
open-persist_locked path now r k h v hs short =
    rw h (ap some (lookup-load-persisted now k r.entries hs v.distinct short))
