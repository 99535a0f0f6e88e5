-- ===== src/Routing/Cooldown/Registry.antt =====
-- internal/routing/cooldown.go: the registry of target cooldowns.
-- An operation takes the time that `registry.now()` returns and, where it persists, whether the
-- state file was replaced: every error of `persistLocked` is only logged, and one that stands after
-- the rename leaves the new file.
use ya_router.Common.{
  ◌+◌, Text, Bool, true, false, Option, none, some, List, [], ◌∷◌, Dict, lookup, put, remove,
  text_key, ◌=?◌, ltb, is_empty, trim_space, ℤ, not, ◌&&◌, ◌||◌, if◌then◌else◌,
}
use ya_router.Provider.{Time}
use ya_router.Availability.{CooldownReason, Cooldown}
use ya_router.Routing.Cooldown.Entry.{
  CooldownEntry, valid_cooldown_reason, cooldown_entry_key, cooldown_duration, failures_after,
  until_after,
}
use ya_router.Routing.Cooldown.File.{StateFile, missing, loaded, persist_locked}

pub record CooldownRegistry : Type 0 where
  pub entries : Dict Text CooldownEntry
  pub state_path : Text
  pub file : StateFile

abbrev pub new_cooldown_registry : CooldownRegistry
new_cooldown_registry = record { entries = []; state_path = []; file = missing }

-- `none` is an error
unfoldable pub open_cooldown_registry : Text → Bool → Time → StateFile → Option CooldownRegistry
open_cooldown_registry path made_directory now file =
    let state_path = trim_space path in
    if is_empty state_path
    then some new_cooldown_registry
    else if not made_directory
    then none
    else elim (loaded now file) [
      | none ↦ none
      | some entries ↦ some (record { entries = entries; state_path = state_path; file = file })
    ]

unfoldable pub persist_or_log : Bool → CooldownRegistry → CooldownRegistry
persist_or_log replaced r =
    if not (is_empty r.state_path) && replaced
    then record r { file = persist_locked r.entries }
    else r

-- the second component is `entered` and the time, `none` for `time.Time{}, false`
unfoldable pub record_cooldown :
    Text
    → Text
    → Text
    → CooldownReason
    → ℤ
    → Time
    → Bool
    → CooldownRegistry
    → CooldownRegistry × Option Time
record_cooldown provider_id model capability reason hint now replaced r =
    if is_empty provider_id
      || (is_empty (trim_space model)
          || (is_empty capability || not (valid_cooldown_reason reason)))
    then (r, none)
    else let key = cooldown_entry_key provider_id model capability in
      let existing = lookup key r.entries in
      let failures = failures_after now existing in
      let until = until_after (now + cooldown_duration reason failures hint) existing in
      (
        persist_or_log replaced (record r {
          entries =
              put key
                (record {
                  provider_id = provider_id;
                  model = trim_space model;
                  capability = capability;
                  until = until;
                  reason = reason;
                  failures = failures;
                })
                r.entries;
        }),
        some until,
      )

abbrev pub is_some {ℓ} : {A : Type ℓ} → Option A → Bool
is_some none = false
is_some (some _) = true

unfoldable pub clear : Text → Text → Text → Bool → CooldownRegistry → CooldownRegistry × Bool
clear provider_id model capability replaced r =
    let key = cooldown_entry_key provider_id model capability in
    if is_some (lookup key r.entries)
    then (persist_or_log replaced (record r { entries = remove key r.entries }), true)
    else (r, false)

abbrev pub cooldown_of : CooldownEntry → Cooldown
cooldown_of e = record {
  model = e.model;
  capability = e.capability;
  until = e.until;
  reason = e.reason;
}

abbrev pub is_expired : Text → Time → CooldownEntry → Bool
is_expired provider_id now e = (e.provider_id =? provider_id) && not (ltb now e.until)

-- The loop of `Cooldowns`: what stays in the map, the active cooldowns and the expired ones.
unfoldable pub kept_entries : Text → Time → Dict Text CooldownEntry → Dict Text CooldownEntry
kept_entries provider_id now [] = []
kept_entries provider_id now ((k, e) ∷ m) =
    let rest = kept_entries provider_id now m in
    if is_expired provider_id now e then rest else (k, e) ∷ rest

unfoldable pub active_cooldowns : Text → Time → Dict Text CooldownEntry → List Cooldown
active_cooldowns provider_id now [] = []
active_cooldowns provider_id now ((k, e) ∷ m) =
    let rest = active_cooldowns provider_id now m in
    if (e.provider_id =? provider_id) && ltb now e.until then cooldown_of e ∷ rest else rest

unfoldable pub expired_cooldowns : Text → Time → Dict Text CooldownEntry → List Cooldown
expired_cooldowns provider_id now [] = []
expired_cooldowns provider_id now ((k, e) ∷ m) =
    let rest = expired_cooldowns provider_id now m in
    if is_expired provider_id now e then cooldown_of e ∷ rest else rest

unfoldable pub cooldowns :
    Text → Time → Bool → CooldownRegistry → CooldownRegistry × List Cooldown × List Cooldown
cooldowns provider_id now replaced r =
    let expired = expired_cooldowns provider_id now r.entries in
    let left = record r { entries = kept_entries provider_id now r.entries } in
    (
      if is_empty expired then r else persist_or_log replaced left,
      active_cooldowns provider_id now r.entries,
      expired,
    )
