-- ===== src/Routing/Metrics.antt =====
-- internal/routing/metrics.go: the umbrella-routing counters, each a `uint64` by a text label.
pub mod Counts
use ya_router.Common.{
  ℕ, ◌+◌, ◌%◌, ◌^◌, Text, codes, Bool, true, false, Option, none, some, List, [], ◌∷◌, ◌++◌, map,
  Dict, lookup, put, text_key, ◌=?◌, ◌==◌, is_empty, text_less, sort, ◌||◌, if◌then◌else◌,
}
use ya_router.Availability.{
  Reason, routable, provider_not_registered, target_disabled, provider_not_ready,
  capability_unsupported, model_disallowed, model_not_in_catalog, catalog_stale, cooldown,
  already_attempted, CooldownReason, rate_limited, entitlement_denied, auth_required,
  transient_failure, timeout, quota_exhausted, other,
}
use ya_router.Routing.Decision.{SkippedTarget, SelectionDecision, NoActiveTargetError}

abbrev pub Counters : Type 0
Counters = Dict Text ℕ

pub record Metrics : Type 0 where
  pub selections : Counters
  pub no_active_target : Counters
  pub skipped : Counters
  pub stale_catalog : Counters
  pub cooldown_entries : Counters
  pub cooldown_exits : Counters

abbrev pub new_metrics : Metrics
new_metrics = record {
  selections = [];
  no_active_target = [];
  skipped = [];
  stale_catalog = [];
  cooldown_entries = [];
  cooldown_exits = [];
}

unfoldable pub reason_text : Reason → Text
reason_text routable = codes "routable"
reason_text provider_not_registered = codes "provider_not_registered"
reason_text target_disabled = codes "target_disabled"
reason_text provider_not_ready = codes "provider_not_ready"
reason_text capability_unsupported = codes "capability_unsupported"
reason_text model_disallowed = codes "model_disallowed"
reason_text model_not_in_catalog = codes "model_not_in_catalog"
reason_text catalog_stale = codes "catalog_stale"
reason_text cooldown = codes "cooldown"
reason_text already_attempted = codes "already_attempted"

unfoldable pub cooldown_reason_text : CooldownReason → Text
cooldown_reason_text rate_limited = codes "rate_limited"
cooldown_reason_text entitlement_denied = codes "entitlement_denied"
cooldown_reason_text auth_required = codes "auth_required"
cooldown_reason_text transient_failure = codes "transient_failure"
cooldown_reason_text timeout = codes "timeout"
cooldown_reason_text quota_exhausted = codes "quota_exhausted"
cooldown_reason_text (other s) = s

abbrev pub count_of : Option ℕ → ℕ
count_of none = 0
count_of (some n) = n

-- `m[key]++` on a `uint64`
unfoldable pub increment : Text → Counters → Counters
increment key m = put key ((count_of (lookup key m) + 1) % 2 ^ 64) m

unfoldable pub metric_key : Text → Text → Text
metric_key a b = a ++ (0 ∷ b)

unfoldable pub record_cooldown_entry : Text → CooldownReason → Metrics → Metrics
record_cooldown_entry target reason m =
    if is_empty target || is_empty (cooldown_reason_text reason) then m else record m {
      cooldown_entries =
          increment (metric_key target (cooldown_reason_text reason)) m.cooldown_entries;
    }

unfoldable pub record_cooldown_exit : Text → Text → Metrics → Metrics
record_cooldown_exit target reason m =
    if is_empty target || is_empty reason
    then m
    else record m { cooldown_exits = increment (metric_key target reason) m.cooldown_exits }

abbrev is_catalog_stale : Reason → Bool
is_catalog_stale catalog_stale = true
is_catalog_stale _ = false

-- the loop over the skipped targets that both recorders run
unfoldable pub record_skips : Text → List SkippedTarget → Metrics → Metrics
record_skips vm [] m = m
record_skips vm (skip ∷ skips) m = record_skips vm skips (record m {
  skipped = increment (metric_key skip.target (reason_text skip.reason)) m.skipped;
  stale_catalog =
      if is_catalog_stale skip.reason then increment vm m.stale_catalog else m.stale_catalog;
})

unfoldable pub record_selection : SelectionDecision → Metrics → Metrics
record_selection d m = record_skips d.virtual_model d.skipped (record m {
  selections = increment (metric_key d.virtual_model d.selected_target) m.selections;
  stale_catalog =
      if d.catalog_stale then increment d.virtual_model m.stale_catalog else m.stale_catalog;
})

unfoldable pub record_no_active_target : NoActiveTargetError → Metrics → Metrics
record_no_active_target e m =
    record_skips e.virtual_model e.skipped
      (record m { no_active_target = increment e.virtual_model m.no_active_target })

-- One exported sample; the labels are listed in the order of their names.
pub record Counter : Type 0 where
  pub name : Text
  pub labels : List (Text × Text)
  pub value : ℕ

unfoldable pub split_key : Text → Text × Text
split_key [] = ([], [])
split_key (c ∷ s) = let (a, b) = split_key s in if c == 0 then ([], s) else (c ∷ a, b)

-- the labels are given in the order of their names, in which `labelString` reads them
unfoldable pub label_string : List (Text × Text) → Text
label_string [] = []
label_string ((k, v) ∷ labels) = k ++ (codes "=" ++ (v ++ (codes ";" ++ label_string labels)))

unfoldable pub counter_less : Counter → Counter → Bool
counter_less a b =
    if a.name =? b.name
    then text_less (label_string a.labels) (label_string b.labels)
    else text_less a.name b.name

abbrev one_label : Text → Text → Text × ℕ → Counter
one_label name label (k, v) = record { name = name; labels = (label, k) ∷ []; value = v }

abbrev two_labels : Text → (Text × Text → List (Text × Text)) → Text × ℕ → Counter
two_labels name labels (k, v) = record { name = name; labels = labels (split_key k); value = v }

abbrev reason_target : Text × Text → List (Text × Text)
reason_target (target, reason) = (codes "reason", reason) ∷ (codes "target", target) ∷ []

abbrev target_virtual_model : Text × Text → List (Text × Text)
target_virtual_model (vm, target) = (codes "target", target) ∷ (codes "virtual_model", vm) ∷ []

unfoldable pub samples : Metrics → List Counter
samples m =
    map (two_labels (codes "umbrella_selections_total") target_virtual_model) m.selections
    ++ (map (one_label (codes "umbrella_no_active_target_total") (codes "virtual_model"))
          m.no_active_target
        ++ (map (two_labels (codes "umbrella_skipped_targets_total") reason_target) m.skipped
            ++ (map (one_label (codes "umbrella_stale_catalog_total") (codes "virtual_model"))
                  m.stale_catalog
                ++ (map (two_labels (codes "umbrella_cooldown_entries_total") reason_target)
                      m.cooldown_entries
                    ++ map (two_labels (codes "umbrella_cooldown_exits_total") reason_target)
                        m.cooldown_exits))))

unfoldable pub metrics_snapshot : Metrics → List Counter
metrics_snapshot m = sort counter_less (samples m)
