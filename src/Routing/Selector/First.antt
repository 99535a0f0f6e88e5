-- ===== src/Routing/Selector/First.antt =====
-- Selection finds the first usable target and reports every target before it.
use mathlib.Core.List.{append-nil, append_assoc, map-append}
use ya_router.Common.{
  sym, ap, ℕ, suc, ◌≡◌, refl, ◌∙◌, arith, Text, Bool, true, false, Option, none, some, List, [],
  ◌∷◌, ◌++◌, text_key, contains, trim_space, ◌⊎◌, inl, inr, not, ◌&&◌, if◌then◌else◌, map,
  Sum-cases,
}
use ya_router.Availability.{Snapshot, TargetResult, evaluate}
use ya_router.Config.{VirtualModel}
use ya_router.Routing.Prefixes.{strip_model_prefix}
use ya_router.Routing.Decision.{SkippedTarget, SelectionDecision}
use ya_router.Routing.Selector.{
  Selection, selected, no_active, check_target, select_from, select_priority_target_excluding,
}

-- A target that was not attempted, whose provider prefix is known, and that is routable.
abbrev pub is_usable : Text → Option Snapshot → List Text → Text → Bool
is_usable capability snapshot exclude target =
    let stripped = strip_model_prefix (trim_space target) in
    not (contains (trim_space target) exclude)
    && (stripped.found
        && (evaluate snapshot stripped.provider_id stripped.bare capability).is_routable)

abbrev pub first_index : (Text → Bool) → ℕ → List Text → Option (ℕ × Text)
first_index p i [] = none
first_index p i (t ∷ ts) = if p t then some (i, t) else first_index p (suc i) ts

-- The index and the target of a decision.
abbrev pub chosen : Selection → Option (ℕ × Text)
chosen (selected d) = some (d.selected_index, d.selected_target)
chosen (no_active e) = none

abbrev pub skipped_of : Selection → List SkippedTarget
skipped_of (selected d) = d.skipped
skipped_of (no_active e) = e.skipped

abbrev is_right : SkippedTarget ⊎ TargetResult → Bool
is_right (inl _) = false
is_right (inr _) = true

is_right-check_target :
    (c : Text) (s : Option Snapshot) (ex : List Text) (i : ℕ) (t : Text)
    → is_right (check_target c s ex i t) ≡ is_usable c s ex t
unfolding check_target
is_right-check_target c s ex i t = ground arith

chosen-select_from :
    (v c : Text) (s : Option Snapshot) (ex : List Text) (i : ℕ) (ts : List Text)
    (skipped : List SkippedTarget)
    → chosen (select_from v c s ex i ts skipped) ≡ first_index (is_usable c s ex) i ts
unfolding select_from
chosen-select_from v c s ex i [] skipped = refl
chosen-select_from v c s ex i (t ∷ ts) skipped = elim (Sum-cases (check_target c s ex i t)) [
  | inl (skip, e) ↦ ground (
    arith,
    is_right-check_target c s ex i t,
    chosen-select_from v c s ex (suc i) ts (skipped ++ (skip ∷ [])),
  )
  | inr (result, e) ↦ ground (arith, is_right-check_target c s ex i t)
]

-- The targets in front of the first usable one, each with its index.
abbrev pub before_first : (Text → Bool) → ℕ → List Text → List (ℕ × Text)
before_first p i [] = []
before_first p i (t ∷ ts) = if p t then [] else (i, t) ∷ before_first p (suc i) ts

abbrev pub label : SkippedTarget → ℕ × Text
label s = (s.index, s.target)

label-check_target :
    (c : Text) (s : Option Snapshot) (ex : List Text) (i : ℕ) (t : Text) (skip : SkippedTarget)
    → check_target c s ex i t ≡ inl skip
    → label skip ≡ (i, t)
unfolding check_target
label-check_target c s ex i t skip e = ground arith

labels_moved :
    (skipped : List SkippedTarget) (skip : SkippedTarget) (x : ℕ × Text) (rest : List (ℕ × Text))
    → label skip ≡ x
    → map label (skipped ++ (skip ∷ [])) ++ rest ≡ map label skipped ++ (x ∷ rest)
labels_moved skipped skip x rest h = rw (map-append, append_assoc) (rw h)

skipped-select_from :
    (v c : Text) (s : Option Snapshot) (ex : List Text) (i : ℕ) (ts : List Text)
    (skipped : List SkippedTarget)
    → map label (skipped_of (select_from v c s ex i ts skipped))
      ≡ map label skipped ++ before_first (is_usable c s ex) i ts
unfolding select_from
skipped-select_from v c s ex i [] skipped = rw append-nil
skipped-select_from v c s ex i (t ∷ ts) skipped = elim (Sum-cases (check_target c s ex i t)) [
  | inl (skip, e) ↦ ground (
    arith,
    is_right-check_target c s ex i t,
    skipped-select_from v c s ex (suc i) ts (skipped ++ (skip ∷ [])),
    labels_moved skipped skip (i, t) (before_first (is_usable c s ex) (suc i) ts)
        (label-check_target c s ex i t skip e),
  )
  | inr (result, e) ↦
      ground (arith, is_right-check_target c s ex i t, append-nil (map label skipped))
]

-- Selection picks the first usable target of the list, with its place, or none if none is usable;
-- and the targets that it reports as skipped are, in order, all those in front of it.
pub select_priority_target_excluding-first :
    (v : Text) (vm : VirtualModel) (c : Text) (s : Option Snapshot) (ex : List Text)
    → (chosen (select_priority_target_excluding v vm c s ex)
        ≡ first_index (is_usable c s ex) 0 vm.targets)
      × (map label (skipped_of (select_priority_target_excluding v vm c s ex))
          ≡ before_first (is_usable c s ex) 0 vm.targets)
unfolding select_priority_target_excluding
select_priority_target_excluding-first v vm c s ex =
    (chosen-select_from v c s ex 0 vm.targets [], skipped-select_from v c s ex 0 vm.targets [])

first_index_usable :
    (p : Text → Bool) (i : ℕ) (ts : List Text) (j : ℕ) (t : Text)
    → first_index p i ts ≡ some (j, t)
    → p t ≡ true
first_index_usable p i [] j t h = ground arith
first_index_usable p i (u ∷ ts) j t h = ground (arith, first_index_usable p (suc i) ts j t)

-- A selected target was not attempted before, and the snapshot calls it routable.
pub selected-is_usable :
    (v : Text) (vm : VirtualModel) (c : Text) (s : Option Snapshot) (ex : List Text)
    (d : SelectionDecision)
    → select_priority_target_excluding v vm c s ex ≡ selected d
    → is_usable c s ex d.selected_target ≡ true
selected-is_usable v vm c s ex d h =
    first_index_usable (is_usable c s ex) 0 vm.targets d.selected_index d.selected_target
      (sym (select_priority_target_excluding-first v vm c s ex).0 ∙ ap chosen h)
