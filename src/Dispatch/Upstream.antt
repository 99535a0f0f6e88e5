-- ===== src/Dispatch/Upstream.antt =====
-- src/proxy.go: the circuit breaker of an upstream, its retries, and the writer that holds back the
-- response of an attempt.
use ya_router.Common.{
  ℕ, zero, suc, ◌+◌, ◌-◌, ◌*◌, ◌%◌, ◌^◌, Text, Dict, put, text_key, Bool, true, false, Option, none,
  some, [], ◌++◌, ℤ, pos, negsuc, ltb, leb, ◌==◌, is_empty, not, ◌&&◌, ◌||◌, if◌then◌else◌,
}

pub data CircuitBreakerState : Type 0 where
  circuit_closed circuit_open circuit_half_open : CircuitBreakerState

pub record CircuitBreaker : Type 0 where
  pub failure_count : ℕ
  pub last_failure_time : ℕ
  pub state : CircuitBreakerState
  pub timeout : ℕ
  pub probe_in_flight : Bool

abbrev pub failure_threshold : ℕ
failure_threshold = 5

unfoldable pub can_execute : ℕ → CircuitBreaker → CircuitBreaker × Bool
can_execute now cb = elim cb.state [
  | circuit_closed ↦ (cb, true)
  | circuit_open ↦
      if ltb cb.timeout (now - cb.last_failure_time)
      then (record cb { state = circuit_half_open; probe_in_flight = true }, true)
      else (cb, false)
  | circuit_half_open ↦
      if cb.probe_in_flight then (cb, false) else (record cb { probe_in_flight = true }, true)
]

unfoldable pub on_success : CircuitBreaker → CircuitBreaker
on_success cb = record cb { failure_count = 0; state = circuit_closed; probe_in_flight = false }

abbrev pub is_half_open : CircuitBreakerState → Bool
is_half_open circuit_half_open = true
is_half_open _ = false

unfoldable pub on_failure : ℕ → CircuitBreaker → CircuitBreaker
on_failure now cb =
    let count = if is_half_open cb.state then failure_threshold else cb.failure_count + 1 in
    record cb {
      failure_count = count;
      last_failure_time = now;
      probe_in_flight = false;
      state = if leb failure_threshold count then circuit_open else cb.state;
    }

-- The client's `ResponseWriter`: `header` is the map of `Header`, and `sent` what it held when the
-- status went out. The first status stands, and a write or a flush without one stands for 200.
pub record Client : Type 0 where
  pub header : Dict Text Text
  pub status : Option ℕ
  pub sent : Dict Text Text
  pub body : Text

abbrev pub status_or : Option ℕ → ℕ → ℕ
status_or none code = code
status_or (some s) code = s

abbrev pub sent_or : Option ℕ → Dict Text Text → Dict Text Text → Dict Text Text
sent_or none header sent = header
sent_or (some s) header sent = sent

abbrev pub client_header : ℕ → Client → Client
client_header code c = record c {
  status = some (status_or c.status code);
  sent = sent_or c.status c.header c.sent;
}

-- `Header().Set`
abbrev pub client_set : Text → Text → Client → Client
client_set k v c = record c { header = put k v c.header }

abbrev pub client_flush : Client → Client
client_flush c = client_header 200 c

abbrev pub client_write : Text → Client → Client
client_write bytes c = record (client_header 200 c) { body = c.body ++ bytes }

pub record AttemptResponseWriter : Type 0 where
  pub real : Client
  pub status_code : ℕ
  pub headers_sent : Bool
  pub output_committed : Bool
  pub buf : Text

unfoldable pub new_attempt_response_writer : Client → AttemptResponseWriter
new_attempt_response_writer real = record {
  real = real;
  status_code = 0;
  headers_sent = false;
  output_committed = false;
  buf = [];
}

unfoldable pub attempt_write_header : ℕ → AttemptResponseWriter → AttemptResponseWriter
attempt_write_header code a =
    if a.headers_sent then a else record a { headers_sent = true; status_code = code }

unfoldable pub attempt_status : AttemptResponseWriter → ℕ
attempt_status a = if a.status_code == 0 then 200 else a.status_code

unfoldable pub commit_to_real : AttemptResponseWriter → AttemptResponseWriter
unfolding attempt_status
commit_to_real a =
    if a.output_committed
    then a
    else let real = client_header (attempt_status a) a.real in
      if is_empty a.buf
      then record a { output_committed = true; real = real }
      else record a { output_committed = true; real = client_write a.buf real; buf = [] }

abbrev pub write_real : Text → AttemptResponseWriter → AttemptResponseWriter
write_real bytes a = record a { real = client_write bytes a.real }

unfoldable pub attempt_write : Text → AttemptResponseWriter → AttemptResponseWriter
unfolding attempt_status commit_to_real
attempt_write bytes a =
    if a.output_committed
    then write_real bytes a
    else if leb 200 (attempt_status a) && ltb (attempt_status a) 300
    then write_real bytes (commit_to_real a)
    else record a { buf = a.buf ++ bytes }

-- `Header().Set`: the header is the client's own
unfoldable pub attempt_set : Text → Text → AttemptResponseWriter → AttemptResponseWriter
attempt_set k v a = record a { real = client_set k v a.real }

-- `Flush`, where the client's writer is a `Flusher`
unfoldable pub attempt_flush : AttemptResponseWriter → AttemptResponseWriter
attempt_flush a = if a.output_committed then record a { real = client_flush a.real } else a

abbrev pub request_timeout : ℕ
request_timeout = 408

unfoldable pub is_retriable_error : ℕ → Bool → Bool
is_retriable_error status failed =
    if failed then true else leb 500 status || status == request_timeout

abbrev pub max_chat_retries : ℕ
max_chat_retries = 3

-- One try of `client.Do`: an error or a status; and whether the context ends during the wait.
pub record Try : Type 0 where
  pub answer : Option ℕ
  pub cancelled : Bool

pub data Retried : Type 0 where
  answered : ℕ → Retried
  failed cancelled : Retried

abbrev pub after_try : Bool → ℕ → Try → Option ℕ → Retried × ℕ → Retried × ℕ
after_try allowed attempt t none rest =
    if not allowed || attempt == max_chat_retries
    then (failed, attempt)
    else if t.cancelled
    then (cancelled, attempt)
    else rest
after_try allowed attempt t (some status) rest =
    if not (is_retriable_error status false) || (not allowed || attempt == max_chat_retries)
    then (answered status, attempt)
    else if t.cancelled
    then (cancelled, attempt)
    else rest

-- The loop of `makeRequestWithRetry` from an attempt on, and the number of requests that it has
-- sent; `left` is what is left of its bound. `tries` gives the outcome of each.
unfoldable pub retry_loop : (ℕ → Try) → Bool → ℕ → ℕ → Retried × ℕ
unfolding is_retriable_error
retry_loop tries allowed attempt zero = (failed, attempt - 1)
retry_loop tries allowed attempt (suc left) =
    let rest = retry_loop tries allowed (attempt + 1) left in
    after_try allowed attempt (tries attempt) (tries attempt).answer rest

-- GET and HEAD are safe
unfoldable pub make_request_with_retry : (ℕ → Try) → Bool → Text → Retried × ℕ
unfolding retry_loop
make_request_with_retry tries safe_method idempotency_key =
    retry_loop tries (safe_method || not (is_empty idempotency_key)) 1 max_chat_retries

abbrev five_minutes : ℕ
five_minutes = 300000000000

-- The value of the header as `strconv.Atoi` reads it, `none` for its error; the product of the
-- durations is an `int64` and wraps around, so that it may come out negative.
unfoldable pub retry_after_duration : Option ℤ → ℤ
retry_after_duration none = pos 0
retry_after_duration (some (negsuc n)) = pos 0
retry_after_duration (some (pos n)) =
    let wrapped = n * 1000000000 % 2 ^ 64 in
    if ltb wrapped (2 ^ 63)
    then (if ltb five_minutes wrapped then pos five_minutes else pos wrapped)
    else negsuc (2 ^ 64 - wrapped - 1)
