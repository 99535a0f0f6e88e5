-- ===== src/Idempotency.antt =====
-- internal/control/idempotency.go: mutations of the control plane under an idempotency key. A
-- pointer to an entry is a number. The handler that the middleware wraps is the response that it
-- leaves; SHA-256 is an argument.
pub mod Steps
pub mod Eviction
pub mod Owners
pub mod Once
use ya_router.Common.{
  ℕ, ◌+◌, ◌*◌, Text, codes, Bool, true, false, Option, none, some, List, [], ◌∷◌, ◌++◌, Dict,
  lookup, put, remove, nat_key, text_key, ltb, leb, ◌==◌, ◌=?◌, is_empty, trim_space, length, not,
  ◌&&◌, ◌||◌, if◌then◌else◌,
}

pub record StoredResponse : Type 0 where
  pub status : ℕ
  pub header : List (Text × Text)
  pub body : Text

-- `ready` says whether the channel is closed.
pub record IdempotencyEntry : Type 0 where
  pub digest : Text
  pub created_at : ℕ
  pub ready : Bool
  pub response : Option StoredResponse

pub record IdempotencyStore : Type 0 where
  pub entries : Dict Text ℕ
  pub heap : Dict ℕ IdempotencyEntry
  pub next_entry : ℕ
  pub max_entries : ℕ
  pub ttl : ℕ

abbrev pub day : ℕ
day = 24 * 3600 * 1000000000

-- a negative time to live is 0 here, which is replaced as well
unfoldable pub new_idempotency_store : ℕ → ℕ → IdempotencyStore
new_idempotency_store max_entries ttl = record {
  entries = [];
  heap = [];
  next_entry = 0;
  max_entries = if ltb max_entries 1 then 2048 else max_entries;
  ttl = if ttl == 0 then day else ttl;
}

-- whether the channel of the entry is closed
abbrev pub is_ready : Option IdempotencyEntry → Bool
is_ready none = false
is_ready (some e) = e.ready

abbrev pub is_stale : ℕ → ℕ → Option IdempotencyEntry → Bool
is_stale ttl now none = false
is_stale ttl now (some e) = ltb (e.created_at + ttl) now && e.ready

unfoldable pub cleanup : ℕ → IdempotencyStore → Dict Text ℕ → Dict Text ℕ
cleanup now s [] = []
cleanup now s ((k, p) ∷ es) =
    let rest = cleanup now s es in
    if is_stale s.ttl now (lookup p s.heap) then rest else (k, p) ∷ rest

abbrev pub created : Option IdempotencyEntry → ℕ
created none = 0
created (some e) = e.created_at

-- the loop of `evictOldestLocked` from the key and the time that it has found so far
unfoldable pub oldest_ready : IdempotencyStore → Dict Text ℕ → Text × ℕ → Text × ℕ
oldest_ready s [] found = found
oldest_ready s ((k, p) ∷ es) found =
    let e = lookup p s.heap in
    oldest_ready s es (
      if is_ready e && (is_empty found.0 || ltb (created e) found.1) then (k, created e) else found)

unfoldable pub evict_oldest : IdempotencyStore → Dict Text ℕ → Dict Text ℕ
unfolding oldest_ready
evict_oldest s es =
    let found = oldest_ready s es ([], 0) in if is_empty found.0 then es else remove found.0 es

-- The result of `begin`: the entry, whether the caller owns it, whether the digests differ.
pub record Begun : Type 0 where
  pub entry : ℕ
  pub owner : Bool
  pub conflict : Bool

abbrev pub differs : Text → Option IdempotencyEntry → Bool
differs digest none = false
differs digest (some e) = not (e.digest =? digest)

abbrev pub new_entry : Text → ℕ → IdempotencyEntry
new_entry digest now = record { digest = digest; created_at = now; ready = false; response = none }

-- `begin` after the cleanup, given what it finds under the key
abbrev pub begin_cleaned : Text → Text → ℕ → IdempotencyStore → Option ℕ → IdempotencyStore × Begun
begin_cleaned key digest now s (some p) =
    (s, record { entry = p; owner = false; conflict = differs digest (lookup p s.heap) })
begin_cleaned key digest now s none =
    let p = s.next_entry + 1 in
    let kept =
      if leb s.max_entries (length s.entries) then evict_oldest s s.entries else s.entries in
    (
      record s {
        entries = put key p kept;
        heap = put p (new_entry digest now) s.heap;
        next_entry = p;
      },
      record { entry = p; owner = true; conflict = false },
    )

abbrev pub cleaned : ℕ → IdempotencyStore → IdempotencyStore
cleaned now s = record s { entries = cleanup now s s.entries }

-- The clock is read for the cleanup at `cleaned_at` and for a new entry at `now`.
unfoldable pub begin : Text → Text → ℕ → ℕ → IdempotencyStore → IdempotencyStore × Begun
unfolding cleanup evict_oldest
begin key digest cleaned_at now s =
    begin_cleaned key digest now (cleaned cleaned_at s)
      (lookup key (cleanup cleaned_at s s.entries))

abbrev pub is_current : ℕ → Option ℕ → Bool
is_current p none = false
is_current p (some q) = q == p

-- `complete`, with `none` for the panic of closing a closed channel
abbrev pub close_entry :
    ℕ → StoredResponse → IdempotencyStore → Option IdempotencyEntry → Option IdempotencyStore
close_entry p response s none = some s
close_entry p response s (some e) =
    if e.ready
    then none
    else some
        (record s { heap = put p (record e { ready = true; response = some response }) s.heap })

unfoldable pub complete : Text → ℕ → StoredResponse → IdempotencyStore → Option IdempotencyStore
complete key p response s =
    if is_current p (lookup key s.entries)
    then close_entry p response s (lookup p s.heap)
    else some s

-- The middleware up to `begin`.
pub data RequestError : Type 0 where
  key_required key_too_long unreadable_body body_too_large : RequestError

abbrev pub body_limit : ℕ
body_limit = 4 * 1024 * 1024

abbrev pub body_error : Option Text → Option RequestError
body_error none = some unreadable_body
body_error (some body) = if ltb body_limit (length body) then some body_too_large else none

-- `body` is `none` if it cannot be read
unfoldable pub request_error : Text → Option Text → Option RequestError
request_error header body =
    let key = trim_space header in
    if is_empty key
    then some key_required
    else if ltb 200 (length key)
    then some key_too_long
    else body_error body

unfoldable pub entry_key : Text → Text → Text → Text → Text
entry_key subject method path key = subject ++ (0 ∷ (method ++ (0 ∷ (path ++ (0 ∷ key)))))

unfoldable pub request_digest : (Text → Text) → Text → Text → Text → Text
request_digest sha256 method path body = sha256 (method ++ (0 ∷ (path ++ (0 ∷ body))))

pub record BufferedResponse : Type 0 where
  pub header : List (Text × Text)
  pub status : ℕ
  pub body : Text

unfoldable pub write_header : ℕ → BufferedResponse → BufferedResponse
write_header status r = record r { status = if r.status == 0 then status else r.status }

unfoldable pub write : Text → BufferedResponse → BufferedResponse
write payload r = record r {
  status = if r.status == 0 then 200 else r.status;
  body = r.body ++ payload;
}

unfoldable pub response_snapshot : BufferedResponse → StoredResponse
response_snapshot r = record {
  status = if r.status == 0 then 200 else r.status;
  header = r.header;
  body = r.body;
}
