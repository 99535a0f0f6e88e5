-- ===== src/Telemetry/Calls.antt =====
-- internal/telemetry: calls of a recorder by any number of goroutines, whose critical sections
-- may come in any order.
use ya_router.Common.{ℕ, Text, List, [], ◌∷◌, lookup, nat_key}
use ya_router.Telemetry.{Outcome, Recorder, begin, finish_mark, finish_count}

pub data Call : Type 0 where
  begins : Text → Text → ℕ → Call
  marks : ℕ → Outcome → Call
  counts : ℕ → ℕ → Call

unfoldable pub call : Call → Recorder → Recorder
call (begins provider model now) r = (begin provider model now r).0
call (marks h outcome) r = finish_mark h outcome r (lookup h r.handles)
call (counts h now) r = finish_count h now r (lookup h r.handles)

unfoldable pub run : List Call → Recorder → Recorder
unfolding call
run [] r = r
run (x ∷ xs) r = run xs (call x r)

abbrev pub new_recorder : Recorder
new_recorder = record { targets = []; handles = []; next_handle = 0 }
