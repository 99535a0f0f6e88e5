-- ===== src/Routing/Decision.antt =====
-- internal/routing/selector.go: what umbrella selection reports.
use ya_router.Common.{ℕ, ◌/◌, Text, Bool, List, ℤ, pos, sub_ℕ, ◌==◌, if◌then◌else◌}
use ya_router.Provider.{Time}
use ya_router.Availability.{Reason}

pub record SkippedTarget : Type 0 where
  pub target : Text
  pub index : ℕ
  pub reason : Reason
  pub cooldown_until : ℤ

pub record SelectionDecision : Type 0 where
  pub virtual_model : Text
  pub strategy : Text
  pub selected_target : Text
  pub selected_index : ℕ
  pub generation : ℕ
  pub catalog_fetched_at : ℤ
  pub catalog_stale : Bool
  pub capability : Text
  pub skipped : List SkippedTarget

pub record NoActiveTargetError : Type 0 where
  pub virtual_model : Text
  pub skipped : List SkippedTarget

-- seconds from Go's zero time to 1970
abbrev pub unix_epoch : ℕ
unix_epoch = 62135596800

-- `t.Unix()`, or 0 for the zero time
unfoldable pub unix_or_zero : Time → ℤ
unix_or_zero t = if t == 0 then pos 0 else sub_ℕ (t / 1000000000) unix_epoch
