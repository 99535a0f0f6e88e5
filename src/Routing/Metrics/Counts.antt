-- ===== src/Routing/Metrics/Counts.antt =====
-- What the counters count.
use ya_router.Common.{
  ℕ, ◌+◌, ◌%◌, ◌^◌, ◌<◌, Text, true, List, [], ◌∷◌, ◌≡◌, refl, arith, lookup, lookup-put, text_key,
  ◌=?◌, =?_iff, if◌then◌else◌,
}
use ya_router.Availability.Keys.{no_nul}
use ya_router.Routing.Decision.{SkippedTarget, SelectionDecision}
use ya_router.Routing.Metrics.{
  is_catalog_stale, Counters, Metrics, count_of, increment, metric_key, reason_text, record_skips,
  record_selection, split_key,
}

-- A joined key is split back into its parts, if the first has no NUL byte.
pub split_key-metric_key : (a b : Text) → no_nul a ≡ true → split_key (metric_key a b) ≡ (a, b)
unfolding split_key metric_key
split_key-metric_key [] b h = refl
split_key-metric_key (c ∷ a) b h = ground (arith, split_key-metric_key a b)

abbrev pub count : Text → Counters → ℕ
count key m = count_of (lookup key m)

count-increment :
    (key other : Text) (m : Counters)
    → count other (increment key m)
      ≡ (if key =? other then (count other m + 1) % 2 ^ 64 else count other m)
unfolding increment
count-increment key other m =
    ground (arith, lookup-put key other ((count key m + 1) % 2 ^ 64) m, =?_iff key other)

-- How many of the skips carry a target and a reason.
abbrev pub skips_with : Text → List SkippedTarget → ℕ
skips_with key [] = 0
skips_with key (s ∷ ss) =
    if metric_key s.target (reason_text s.reason) =? key
    then skips_with key ss + 1
    else skips_with key ss

abbrev after_skip : Text → SkippedTarget → Metrics → Metrics
after_skip vm s m = record m {
  skipped = increment (metric_key s.target (reason_text s.reason)) m.skipped;
  stale_catalog =
      if is_catalog_stale s.reason then increment vm m.stale_catalog else m.stale_catalog;
}

-- skips leave the selections alone
selections-record_skips :
    (vm : Text) (skips : List SkippedTarget) (m : Metrics)
    → (record_skips vm skips m).selections ≡ m.selections
unfolding record_skips
selections-record_skips vm [] m = refl
selections-record_skips vm (s ∷ ss) m = selections-record_skips vm ss (after_skip vm s m)

count-record_skips :
    (vm key : Text) (skips : List SkippedTarget) (m : Metrics)
    → count key m.skipped + skips_with key skips < 2 ^ 64
    → count key (record_skips vm skips m).skipped ≡ count key m.skipped + skips_with key skips
unfolding record_skips
count-record_skips vm key [] m h = omega arith
count-record_skips vm key (s ∷ ss) m h = ground (
  arith,
  count-increment (metric_key s.target (reason_text s.reason)) key m.skipped,
  count-record_skips vm key ss (after_skip vm s m),
)

abbrev selected : SelectionDecision → Metrics → Metrics
selected d m = record m {
  selections = increment (metric_key d.virtual_model d.selected_target) m.selections;
  stale_catalog =
      if d.catalog_stale then increment d.virtual_model m.stale_catalog else m.stale_catalog;
}

-- Recording a selection adds the decision's skips to the counters of their targets and reasons,
-- and one selection to that of the chosen target, as long as no counter passes 64 bits.
pub count-record_selection :
    (d : SelectionDecision) (key : Text) (m : Metrics)
    → count key m.skipped + skips_with key d.skipped < 2 ^ 64
    → count (metric_key d.virtual_model d.selected_target) m.selections + 1 < 2 ^ 64
    → (count key (record_selection d m).skipped ≡ count key m.skipped + skips_with key d.skipped)
      × (count (metric_key d.virtual_model d.selected_target) (record_selection d m).selections
          ≡ count (metric_key d.virtual_model d.selected_target) m.selections + 1)
unfolding record_selection
count-record_selection d key m h k = (
  count-record_skips d.virtual_model key d.skipped (selected d m) h,
  ground (
    arith,
    selections-record_skips d.virtual_model d.skipped (selected d m),
    count-increment (metric_key d.virtual_model d.selected_target)
        (metric_key d.virtual_model d.selected_target) m.selections,
    =?_iff (metric_key d.virtual_model d.selected_target)
        (metric_key d.virtual_model d.selected_target),
  ),
)
