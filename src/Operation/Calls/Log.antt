-- ===== src/Operation/Calls/Log.antt =====
-- internal/operation/store.go: the event log of a store under one mutation.
use ya_router.Common.{
  branch, ℕ, zero, suc, ◌+◌, ◌-◌, ◌^◌, ◌≤◌, ◌<◌, Text, List, [], ◌∷◌, ◌++◌, ◌≡◌, arith, text_key,
  ltb, length, length-drop_list, drop_list, All, All-append, All-drop_list,
}
use ya_router.Operation.Types.{Event}
use ya_router.Operation.Store.{
  Entry, Store, WriteOutcome, written, failed_before_rename, failed_after_rename, persist_locked,
  checkpoint_locked, restore_locked, publish, next_of, append_event,
}
use ya_router.Operation.Lifecycle.{commit, with_entry}

-- The sequence numbers go up.
abbrev pub Increasing : List Event → Type 0
Increasing [] = Unit
Increasing (e ∷ es) = All (λ f. e.sequence < f.sequence) es × Increasing es

-- The log is in the order of its numbers, none above the store's, and no longer than allowed.
pub record IsSequenced (s : Store) : Type 0 where
  pub increasing : Increasing s.events
  pub numbered : All (λ e. e.sequence ≤ s.next_sequence) s.events
  pub bounded : length s.events ≤ s.options.max_events

-- What one call makes of the store: the log keeps its order, and the counter goes up by one at most.
pub record Advances (s t : Store) : Type 0 where
  pub sequenced : IsSequenced t
  pub counted : t.next_sequence ≤ s.next_sequence + 1

pub All-weaken :
    {P Q : Event → Type 0} (h : (e : Event) → P e → Q e) (es : List Event) → All P es → All Q es
All-weaken h [] hs = hs
All-weaken h (e ∷ es) hs = (h e hs.0, All-weaken h es hs.1)

Increasing-append :
    (es : List Event) (f : Event)
    → All (λ e. e.sequence < f.sequence) es
    → Increasing es
    → Increasing (es ++ f ∷ [])
Increasing-append [] f hs i = (tt, i)
Increasing-append (e ∷ es) f hs i = (
  All-append (λ g. e.sequence < g.sequence) es (f ∷ []) i.0 (hs.0, tt),
  Increasing-append es f hs.1 i.1,
)

Increasing-drop_list : (n : ℕ) (es : List Event) → Increasing es → Increasing (drop_list n es)
Increasing-drop_list zero es i = i
Increasing-drop_list (suc n) [] i = i
Increasing-drop_list (suc n) (e ∷ es) i = Increasing-drop_list n es i.1

on_append_event :
    (P : List Event → Type 0) (n : ℕ) (f : Event) (es : List Event)
    → ((k : ℕ) → P (drop_list k (es ++ f ∷ [])))
    → P (append_event n f es)
unfolding append_event
on_append_event P n f es h = branch P (ltb n (length (es ++ f ∷ []))) (h _) (h 0)

length-append_event : (n : ℕ) (f : Event) (es : List Event) → length (append_event n f es) ≤ n
unfolding append_event
length-append_event n f es =
    ground (arith, length-drop_list (length (es ++ f ∷ []) - n) (es ++ f ∷ []))

pub next_of-suc : (n : ℕ) → n + 1 < 2 ^ 64 → next_of n ≡ n + 1
next_of-suc n h = omega arith

-- The log of `s` after the event of a mutation.
log-IsSequenced :
    (f : Event) (s : Store)
    → f.sequence ≡ s.next_sequence + 1
    → IsSequenced s
    → Increasing (s.events ++ f ∷ []) × All (λ e. e.sequence ≤ f.sequence) (s.events ++ f ∷ [])
log-IsSequenced f s h v = (
  Increasing-append s.events f (All-weaken (λ e k. omega (arith, h, k)) s.events v.numbered)
      v.increasing,
  All-append (λ e. e.sequence ≤ f.sequence) s.events (f ∷ [])
      (All-weaken (λ e k. omega (arith, h, k)) s.events v.numbered) (omega arith, tt),
)

pub with_entry-IsSequenced :
    (id : Text) (e : Entry) (f : Event) (s : Store)
    → f.sequence ≡ s.next_sequence + 1
    → IsSequenced s
    → IsSequenced (with_entry id e f s)
with_entry-IsSequenced id e f s h v = record {
  increasing =
      on_append_event Increasing s.options.max_events f s.events
        (λ n. Increasing-drop_list n _ (log-IsSequenced f s h v).0);
  numbered =
      on_append_event (All (λ g. g.sequence ≤ f.sequence)) s.options.max_events f s.events
        (λ n. All-drop_list _ n _ (log-IsSequenced f s h v).1);
  bounded = length-append_event s.options.max_events f s.events;
}

pub stays : (s : Store) → IsSequenced s → Advances s s
stays s v = record { sequenced = v; counted = omega arith }

-- `t` has the log, the counter and the options of `s`.
pub record SameLog (s t : Store) : Type 0 where
  pub events : t.events ≡ s.events
  pub next_sequence : t.next_sequence ≡ s.next_sequence
  pub options : t.options ≡ s.options

pub SameLog-Advances : (s t : Store) → SameLog s t → IsSequenced s → Advances s t
SameLog-Advances s t h v = record {
  sequenced = record {
    increasing = rw h.events v.increasing;
    numbered = rw (h.events, h.next_sequence) v.numbered;
    bounded = rw (h.events, h.options) v.bounded;
  };
  counted = rw h.next_sequence (omega arith);
}

pub commit-Advances :
    (id : Text) (e : Entry) (f : Event) (w : WriteOutcome) (s t : Store)
    → f.sequence ≡ t.next_sequence + 1
    → SameLog s t
    → IsSequenced s
    → Advances s (commit w (checkpoint_locked s) f (with_entry id e f t))
unfolding commit persist_locked checkpoint_locked restore_locked publish
commit-Advances id e f written s t h l v =
    let u = with_entry-IsSequenced id e f t h (SameLog-Advances s t l v).sequenced in
    record {
      sequenced = record { increasing = u.increasing; numbered = u.numbered; bounded = u.bounded };
      counted = omega (arith, h, l.next_sequence);
    }
commit-Advances id e f failed_before_rename s t h l v = record {
  sequenced = record {
    increasing = v.increasing;
    numbered = v.numbered;
    bounded = rw l.options v.bounded;
  };
  counted = omega arith;
}
commit-Advances id e f failed_after_rename s t h l v = record {
  sequenced = record {
    increasing = v.increasing;
    numbered = v.numbered;
    bounded = rw l.options v.bounded;
  };
  counted = omega arith;
}
