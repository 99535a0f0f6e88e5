-- ===== src/Idempotency/Steps.antt =====
-- internal/control/idempotency.go: what the store sees of any number of concurrent requests.
-- `owners` are the requests that own an entry and have not completed it, each with its key.
use ya_router.Common.{
  ℕ, Text, Option, none, some, List, [], ◌∷◌, Dict, lookup, put, remove, nat_key, text_key,
  if◌then◌else◌,
}
use ya_router.Idempotency.{StoredResponse, IdempotencyStore, Begun, begin, complete}

pub record Server : Type 0 where
  pub store : IdempotencyStore
  pub owners : Dict ℕ Text

pub data Step : Type 0 where
  arrives : Text → Text → ℕ → ℕ → Step
  finishes : ℕ → StoredResponse → Step

abbrev pub arrived : Text → Server → IdempotencyStore × Begun → Server
arrived key v (s, b) = record {
  store = s;
  owners = if b.owner then put b.entry key v.owners else v.owners;
}

abbrev pub finished : ℕ → Server → Option IdempotencyStore → Option Server
finished p v none = none
finished p v (some s) = some (record { store = s; owners = remove p v.owners })

abbrev pub finish : ℕ → StoredResponse → Server → Option Text → Option Server
finish p response v none = some v
finish p response v (some key) = finished p v (complete key p response v.store)

-- `none` is a panic
unfoldable pub step : Step → Server → Option Server
step (arrives key digest cleaned_at now) v =
    some (arrived key v (begin key digest cleaned_at now v.store))
step (finishes p response) v = finish p response v (lookup p v.owners)

abbrev pub and_then : (Server → Option Server) → Option Server → Option Server
and_then f none = none
and_then f (some v) = f v

unfoldable pub run : List Step → Server → Option Server
unfolding step
run [] v = some v
run (x ∷ xs) v = elim (step x v) [ none ↦ none | some w ↦ run xs w ]
