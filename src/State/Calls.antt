-- ===== src/State/Calls.antt =====
-- internal/state: sequences of calls of a manager. Its mutex makes each call one step.
use ya_router.Common.{ℕ, Text, Option, List, [], ◌∷◌}
use ya_router.State.{Options, Manager, Request, Reached}
use ya_router.State.Mutations.{apply, rollback, set_effective, close}

pub data Call (Config : Type 0) : Type 0 where
  applies : Request Config → ℕ → Reached → Call Config
  rolls_back : ℕ → Text → ℕ → Reached → Call Config
  sets_effective : ℕ → Option Config → Text → ℕ → Reached → Call Config
  closes : Call Config

module _ {Config : Type 0} (o : Options Config) where
  unfoldable pub call : Call Config → Manager Config → Manager Config
  call (applies r now reached) m = (apply o r now reached m).0
  call (rolls_back expected actor now reached) m = (rollback o expected actor now reached m).0
  call (sets_effective expected effective actor now reached) m =
      (set_effective o expected effective actor now reached m).0
  call closes m = close m

  unfoldable pub run : List (Call Config) → Manager Config → Manager Config
  unfolding call
  run [] m = m
  run (x ∷ xs) m = run xs (call x m)
