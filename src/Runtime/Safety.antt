-- ===== src/Runtime/Safety.antt =====
-- internal/runtime: what holds of every run of the manager.
use ya_router.Common.{
  ℕ, ◌+◌, ◌%◌, ◌^◌, ◌≤◌, ◌<◌, ◌≡◌, refl, arith, true, false, Bool-cases, Option, none, some, List,
  [], ◌∷◌, lookup, put, lookup-put, nat_key, ◌==◌, ==_iff, contains, any-append, branch, inl, inr,
}
use ya_router.Config.{RoutingConfig}
use ya_router.Provider.{Provider}
use ya_router.Runtime.{
  Snapshot, Manager, RuntimeError, validate_providers, new_snapshot, with_old, swap_in,
  publish_checked, publish, publish_providers, current_of, close, untrack,
}
use ya_router.Runtime.Steps.{
  Step, tries, releases, retires, drains, untracks, publishes, publishes_providers, closes, step,
}
use ya_router.Runtime.Sound.{is_there, is_usable, IsSound}
use ya_router.Runtime.Leases.{
  contains-drop_generation, try_lease-IsSound, release_lease-IsSound, retire_next-IsSound,
  drain-IsSound,
}

next_generation : (n : ℕ) → n + 1 < 2 ^ 64 → (n + 1) % 2 ^ 64 ≡ n + 1
next_generation n h = omega arith

there :
    (k : ℕ) (m : Manager) → is_usable (lookup k m.heap) ≡ true → is_there (lookup k m.heap) ≡ true
there k m h = ground (arith, h)

with_old-le :
    (h : ℕ) (m : Manager) (o : Option ℕ)
    → m.current ≡ o
    → contains h (with_old o m.retiring) ≡ true
    → IsSound m
    → h ≤ m.generation
with_old-le h m none e c v = v.retired h c
with_old-le h m (some k) e c v =
    ground (arith, c, v.retired h, v.usable k e, v.published k, there k m, ==_iff k h)

-- A generation that is not on the heap, put there with nobody holding it.
fresh-IsSound :
    (g : ℕ) (s : Snapshot) (m : Manager)
    → g ≡ m.generation + 1
    → s.active ≡ 0
    → s.retired ≡ false
    → s.drained ≡ false
    → s.draining ≡ false
    → IsSound m
    → IsSound (record m {
      generation = g;
      heap = put g s m.heap;
      live = g ∷ m.live;
      current = some g;
      retiring = with_old m.current m.retiring;
    })
fresh-IsSound g s m next idle usable open_yet calm v =
    let absent : is_there (lookup g m.heap) ≡ false = ground (arith, v.published g, next) in
    record {
      counted = λ h r e. record {
        held = ground (
          arith,
          e,
          idle,
          absent,
          v.unheld g absent,
          λ (f : lookup h m.heap ≡ some r). (v.counted h r f).held,
          lookup-put g h s m.heap,
          ==_iff g h,
        );
        drained = ground (
          arith,
          e,
          idle,
          usable,
          open_yet,
          calm,
          λ (f : lookup h m.heap ≡ some r). (v.counted h r f).drained,
          lookup-put g h s m.heap,
        );
      };
      published =
          λ h e. ground (arith, e, next, v.published h, lookup-put g h s m.heap, ==_iff g h);
      leased = λ l x e. ground (arith, v.leased l x e, lookup-put g x.snapshot s m.heap);
      numbered = v.numbered;
      usable = λ h e. ground (arith, e, usable, lookup-put g h s m.heap);
      kept = λ h e. elim (Bool-cases (contains h (with_old m.current m.retiring))) [
        | inl waits ↦ absurd (ground (arith, e, next, with_old-le h m m.current refl waits v))
        | inr idle ↦ idle
      ];
      retired = λ h e. omega (arith, next, with_old-le h m m.current refl e v);
      lived = λ h e. ground (arith, e, next, v.lived h, ==_iff g h);
      unheld = λ h e. ground (arith, v.unheld h, e, lookup-put g h s m.heap);
    }

swap_in-IsSound :
    (routing : RoutingConfig) (providers : List (Option Provider)) (m : Manager)
    → m.generation + 1 < 2 ^ 64
    → IsSound m
    → IsSound (swap_in routing providers m)
unfolding swap_in new_snapshot
swap_in-IsSound routing providers m room v =
    fresh-IsSound _ (new_snapshot ((m.generation + 1) % 2 ^ 64) routing providers) m
      (next_generation m.generation room) refl refl refl refl v

close-IsSound : (m : Manager) → IsSound m → IsSound (close m)
unfolding close
close-IsSound m v = branch IsSound m.closed v (record {
  counted = v.counted;
  published = v.published;
  leased = v.leased;
  numbered = v.numbered;
  usable = λ g e. ground (arith, e);
  kept = λ g e. ground (arith, e);
  retired =
      λ g e. ground (arith, e, v.retired g, v.lived g, any-append (λ x. x == g) m.live m.retiring);
  lived = v.lived;
  unheld = v.unheld;
})

untrack-IsSound : (g : ℕ) (m : Manager) (o : Option Snapshot) → IsSound m → IsSound (untrack g m o)
unfolding untrack
untrack-IsSound g m none v = v
untrack-IsSound g m (some s) v =
    branch IsSound s.drained
      (record {
        counted = v.counted;
        published = v.published;
        leased = v.leased;
        numbered = v.numbered;
        usable = v.usable;
        kept = v.kept;
        retired = v.retired;
        lived = λ h e. ground (arith, e, v.lived h, contains-drop_generation g h m.live);
        unheld = v.unheld;
      })
      v

checked-IsSound :
    (routing : RoutingConfig) (providers : List (Option Provider)) (m : Manager)
    (e : Option RuntimeError)
    → m.generation + 1 < 2 ^ 64
    → IsSound m
    → IsSound (publish_checked routing providers m e).0
checked-IsSound routing providers m none room v = swap_in-IsSound routing providers m room v
checked-IsSound routing providers m (some e) room v = v

publish-IsSound :
    (o : Option RoutingConfig) (providers : List (Option Provider)) (m : Manager)
    → m.generation + 1 < 2 ^ 64
    → IsSound m
    → IsSound (publish o providers m).0
unfolding publish
publish-IsSound none providers m room v =
    branch (λ (z : Manager × Option RuntimeError). IsSound z.0) m.closed v v
publish-IsSound (some routing) providers m room v =
    branch (λ (z : Manager × Option RuntimeError). IsSound z.0) m.closed v
      (checked-IsSound routing providers m (validate_providers [] providers) room v)

publish_providers-IsSound :
    (providers : List (Option Provider)) (m : Manager) (o : Option Snapshot)
    → m.generation + 1 < 2 ^ 64
    → IsSound m
    → IsSound (publish_providers providers m o).0
unfolding publish_providers
publish_providers-IsSound providers m none room v = v
publish_providers-IsSound providers m (some s) room v =
    publish-IsSound (some s.routing) providers m room v

pub step-IsSound :
    (x : Step) (m : Manager) → m.generation + 1 < 2 ^ 64 → IsSound m → IsSound (step x m)
unfolding step
step-IsSound (tries g) m room v = try_lease-IsSound g m _ refl v
step-IsSound (releases l) m room v = release_lease-IsSound l m _ refl v
step-IsSound (retires g) m room v = retire_next-IsSound g m v
step-IsSound (drains g) m room v = drain-IsSound g m _ refl v
step-IsSound (untracks g) m room v = untrack-IsSound g m _ v
step-IsSound (publishes routing providers) m room v = publish-IsSound routing providers m room v
step-IsSound (publishes_providers providers) m room v =
    publish_providers-IsSound providers m (current_of m m.current) room v
step-IsSound closes m room v = close-IsSound m v
