-- ===== src/Routing/Cooldown/File.antt =====
-- internal/routing/cooldown.go: the state file, what is read from it and what is written to it.
use ya_router.Common.{
  ℕ, zero, suc, Text, Bool, false, Option, none, some, List, [], ◌∷◌, map, Dict, put, text_key,
  ◌=?◌, ltb, ◌==◌, is_empty, trim_space, to_lower, text_less, sort, ℤ, pos, negsuc, exceeds,
  pos_part, not, ◌||◌, if◌then◌else◌,
}
use ya_router.Provider.{Time}
use ya_router.Availability.{CooldownReason}
use ya_router.Routing.Cooldown.Entry.{
  cooldown_state_version, max_persisted_cooldowns, CooldownEntry, valid_cooldown_reason, entry_key,
}

pub record PersistedCooldownEntry : Type 0 where
  pub provider : Text
  pub model : Text
  pub capability : Text
  pub until : Time
  pub reason : CooldownReason
  pub failures : ℤ

-- What reading and decoding the state file gives.
pub data StateFile : Type 0 where
  missing unreadable blank malformed : StateFile
  decoded : ℤ → List PersistedCooldownEntry → StateFile

unfoldable pub decode_persisted_cooldown : PersistedCooldownEntry → Time → Option CooldownEntry
decode_persisted_cooldown item now =
    let provider_id = trim_space item.provider in
    let model = trim_space item.model in
    let capability = trim_space item.capability in
    if is_empty provider_id
      || (is_empty model || (is_empty capability || not (valid_cooldown_reason item.reason)))
    then none
    else if item.until == 0 || not (ltb now item.until)
    then none
    else some (record {
      provider_id = provider_id;
      model = model;
      capability = capability;
      until = item.until;
      reason = item.reason;
      failures = if exceeds item.failures 0 then pos_part item.failures else 1;
    })

abbrev pub put_entry : Option CooldownEntry → Dict Text CooldownEntry → Dict Text CooldownEntry
put_entry none m = m
put_entry (some e) m = put (entry_key e) e m

-- the loop over `state.Entries`, with the number of entries that may still be read
unfoldable pub load_entries :
    ℕ → Time → List PersistedCooldownEntry → Dict Text CooldownEntry → Dict Text CooldownEntry
load_entries n now [] m = m
load_entries zero now (item ∷ items) m = m
load_entries (suc n) now (item ∷ items) m =
    load_entries n now items (put_entry (decode_persisted_cooldown item now) m)

abbrev is_version : ℤ → Bool
is_version (pos n) = n == cooldown_state_version
is_version (negsuc n) = false

unfoldable pub loaded : Time → StateFile → Option (Dict Text CooldownEntry)
loaded now missing = some []
loaded now unreadable = none
loaded now blank = some []
loaded now malformed = some []
loaded now (decoded version items) =
    some (if is_version version then load_entries max_persisted_cooldowns now items [] else [])

unfoldable pub persisted_less : PersistedCooldownEntry → PersistedCooldownEntry → Bool
persisted_less a b =
    if not (a.provider =? b.provider)
    then text_less a.provider b.provider
    else if not (a.capability =? b.capability)
    then text_less a.capability b.capability
    else text_less (to_lower a.model) (to_lower b.model)

abbrev pub persisted : Text × CooldownEntry → PersistedCooldownEntry
persisted (k, e) = record {
  provider = e.provider_id;
  model = e.model;
  capability = e.capability;
  until = e.until;
  reason = e.reason;
  failures = pos e.failures;
}

unfoldable pub persist_locked : Dict Text CooldownEntry → StateFile
persist_locked entries =
    decoded (pos cooldown_state_version) (sort persisted_less (map persisted entries))
