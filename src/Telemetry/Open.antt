-- ===== src/Telemetry/Open.antt =====
-- internal/telemetry: how many handles of a target are not counted yet.
use ya_router.Common.{
  ℕ, ◌+◌, ◌≤◌, ◌≡◌, arith, Text, Bool, true, false, Option, none, some, [], ◌∷◌, Dict, lookup, put,
  nat_key, text_key, ◌=?◌, not, ◌&&◌, ◌||◌, if◌then◌else◌,
}
use ya_router.Telemetry.{InFlight, Outcome, target_key}

abbrev pub is_some : Option Outcome → Bool
is_some none = false
is_some (some _) = true

abbrev pub is_open : InFlight → Bool
is_open h = not h.done || is_some h.pending

abbrev pub target_of : InFlight → Text
target_of h = target_key h.provider_id h.model

abbrev pub weight : Text → InFlight → ℕ
weight t h = if is_open h && target_of h =? t then 1 else 0

abbrev pub weight_of : Text → Option InFlight → ℕ
weight_of t none = 0
weight_of t (some h) = weight t h

abbrev pub open_on : Text → Dict ℕ InFlight → ℕ
open_on t [] = 0
open_on t ((l, h) ∷ m) = weight t h + open_on t m

pub open_on-put :
    (t : Text) (l : ℕ) (h : InFlight) (m : Dict ℕ InFlight)
    → open_on t (put l h m) + weight_of t (lookup l m) ≡ open_on t m + weight t h
unfolding lookup put
open_on-put t l h [] = ground arith
open_on-put t l h ((k, y) ∷ m) = ground (arith, open_on-put t l h m)

pub weight-le-open_on :
    (t : Text) (l : ℕ) (m : Dict ℕ InFlight) → weight_of t (lookup l m) ≤ open_on t m
unfolding lookup
weight-le-open_on t l [] = ground arith
weight-le-open_on t l ((k, y) ∷ m) = ground (arith, weight-le-open_on t l m)
