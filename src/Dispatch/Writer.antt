-- ===== src/Dispatch/Writer.antt =====
-- src/proxy.go: the calls of the writer of an attempt, and a writer that writes to the client at once.
pub mod Mirror
pub mod Delivery
use ya_router.Common.{
  ℕ, ◌<◌, Text, Bool, true, false, Bool-cases, Option, none, some, List, [], ◌∷◌, ◌++◌, ◌≡◌, refl,
  ap, sym, ◌∙◌, not, put, text_key, arith, ltb, leb, ◌&&◌, inl, inr, if◌then◌else◌, branch_by,
}
use ya_router.Dispatch.Upstream.{
  Client, status_or, sent_or, client_header, client_set, client_flush, client_write, attempt_set,
  attempt_flush, AttemptResponseWriter, new_attempt_response_writer, attempt_write_header,
  attempt_write, attempt_status, commit_to_real, write_real,
}

pub data WriterCall : Type 0 where
  writes_header : ℕ → WriterCall
  writes : Text → WriterCall
  sets : Text → Text → WriterCall
  flushes : WriterCall

unfoldable pub attempt_run : List WriterCall → AttemptResponseWriter → AttemptResponseWriter
attempt_run [] a = a
attempt_run (writes_header code ∷ xs) a = attempt_run xs (attempt_write_header code a)
attempt_run (writes bytes ∷ xs) a = attempt_run xs (attempt_write bytes a)
attempt_run (sets k v ∷ xs) a = attempt_run xs (attempt_set k v a)
attempt_run (flushes ∷ xs) a = attempt_run xs (attempt_flush a)

-- the same calls on the client's own writer
unfoldable pub direct_run : List WriterCall → Client → Client
direct_run [] c = c
direct_run (writes_header code ∷ xs) c = direct_run xs (client_header code c)
direct_run (writes bytes ∷ xs) c = direct_run xs (client_write bytes c)
direct_run (sets k v ∷ xs) c = direct_run xs (client_set k v c)
direct_run (flushes ∷ xs) c = direct_run xs (client_flush c)

abbrev pub fresh_client : Client
fresh_client = record { header = []; status = none; sent = []; body = [] }

-- No status is 0; no header is set once a status or a byte was `written`, and no flush comes before.
unfoldable pub is_orderly : Bool → List WriterCall → Bool
is_orderly written [] = true
is_orderly written (writes_header code ∷ xs) = ltb 0 code && is_orderly true xs
is_orderly written (writes bytes ∷ xs) = is_orderly true xs
is_orderly written (sets k v ∷ xs) = not written && is_orderly written xs
is_orderly written (flushes ∷ xs) = written && is_orderly written xs

abbrev pub has_status : Option ℕ → Bool
has_status none = false
has_status (some s) = true
