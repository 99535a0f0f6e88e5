-- ===== src/Runtime/Leases.antt =====
-- internal/runtime: leases and retirements keep the invariant.
use ya_router.Common.{
  ℕ, ◌+◌, ◌≡◌, refl, arith, true, false, Option, none, some, List, [], ◌∷◌, lookup, put, lookup-put,
  nat_key, ◌==◌, ==_iff, contains, branch_by, not, ◌&&◌,
}
use ya_router.Runtime.{
  Snapshot, Lease, Manager, try_acquire, release, retire, close_drained, on_snapshot, with_lease,
  take_lease, try_lease, release_lease, drop_generation, retire_next,
}
use ya_router.Runtime.Count.{held-put}
use ya_router.Runtime.Sound.{IsSound, fresh_lease, IsUpdate, update-IsSound}

with_lease-IsUpdate :
    (g : ℕ) (s : Snapshot) (m : Manager)
    → lookup g m.heap ≡ some s
    → s.retired ≡ false
    → IsSound m
    → IsUpdate g s
        (record s { active = s.active + 1 })
        m
        (with_lease g (record s { active = s.active + 1 }) m)
with_lease-IsUpdate g s m found fresh v =
    let lease : Lease = record { snapshot = g; released = false } in
    let none_before = fresh_lease m v in
    let before = v.counted g s found in
    record {
      found = found;
      heap = refl;
      counted = record {
        held =
            ground (arith, before.held, none_before, held-put g (m.next_lease + 1) lease m.leases);
        drained = ground (arith, before.drained, fresh, before.held);
      };
      others = λ h other.
          ground (arith, none_before, other, held-put h (m.next_lease + 1) lease m.leases);
      usable = λ e. refl;
      leased = λ l x e.
          ground (arith, v.leased l x, e, found, lookup-put (m.next_lease + 1) l lease m.leases);
      numbered = λ l x e.
          ground (arith, v.numbered l x, e, lookup-put (m.next_lease + 1) l lease m.leases);
      current = refl;
      generation = refl;
      retiring = λ h e. e;
      live = refl;
    }

pub try_lease-IsSound :
    (g : ℕ) (m : Manager) (o : Option Snapshot)
    → lookup g m.heap ≡ o
    → IsSound m
    → IsSound (try_lease g m o).0
unfolding try_lease try_acquire
try_lease-IsSound g m none found v = v
try_lease-IsSound g m (some s) found v =
    branch_by (λ z. IsSound (take_lease g m z).0) s.retired (λ retired. v)
      (λ fresh. update-IsSound g s _ m _ (with_lease-IsUpdate g s m found fresh v) v)

-- A lease that is given back: its snapshot after `release`.
release-IsUpdate :
    (l : ℕ) (x : Lease) (s : Snapshot) (m : Manager)
    → lookup l m.leases ≡ some x
    → x.released ≡ false
    → lookup x.snapshot m.heap ≡ some s
    → IsSound m
    → IsUpdate x.snapshot s (release s) m (
        on_snapshot x.snapshot release
          (record m { leases = put l (record x { released = true }) m.leases })
          (some s))
unfolding release
release-IsUpdate l x s m lease unreleased found v =
    let y : Lease = record x { released = true } in
    let before = v.counted x.snapshot s found in
    record {
      found = found;
      heap = refl;
      counted = record {
        held = ground (arith, before.held, lease, unreleased, held-put x.snapshot l y m.leases);
        drained = ground (
          arith,
          before.drained,
          before.held,
          lease,
          unreleased,
          held-put x.snapshot l y m.leases,
        );
      };
      others = λ h other. ground (arith, lease, unreleased, other, held-put h l y m.leases);
      usable = λ e. refl;
      leased =
          λ k z e. ground (arith, v.leased k z, v.leased l x lease, e, lookup-put l k y m.leases);
      numbered = λ k z e.
          ground
            (arith, v.numbered k z, v.numbered l x lease, e, lookup-put l k y m.leases, ==_iff l k);
      current = refl;
      generation = refl;
      retiring = λ h e. e;
      live = refl;
    }

released_found :
    (l : ℕ) (x : Lease) (m : Manager) (o : Option Snapshot)
    → lookup l m.leases ≡ some x
    → x.released ≡ false
    → lookup x.snapshot m.heap ≡ o
    → IsSound m
    → IsSound (
        on_snapshot x.snapshot release
          (record m { leases = put l (record x { released = true }) m.leases })
          o)
released_found l x m none lease unreleased found v =
    absurd (ground (arith, v.leased l x lease, found))
released_found l x m (some s) lease unreleased found v =
    update-IsSound x.snapshot s _ m _ (release-IsUpdate l x s m lease unreleased found v) v

pub release_lease-IsSound :
    (l : ℕ) (m : Manager) (o : Option Lease)
    → lookup l m.leases ≡ o
    → IsSound m
    → IsSound (release_lease l m o)
unfolding release_lease
release_lease-IsSound l m none lease v = v
release_lease-IsSound l m (some x) lease v =
    branch_by IsSound x.released (λ done. v)
      (λ unreleased. released_found l x m _ lease unreleased refl v)

pub contains-drop_generation :
    (g h : ℕ) (gs : List ℕ) → contains h (drop_generation g gs) ≡ (contains h gs && not (g == h))
unfolding drop_generation
contains-drop_generation g h [] = ground arith
contains-drop_generation g h (k ∷ gs) =
    ground (arith, contains-drop_generation g h gs, ==_iff g h, ==_iff k h, ==_iff k g)

retire-IsUpdate :
    (g : ℕ) (s : Snapshot) (m : Manager)
    → lookup g m.heap ≡ some s
    → contains g m.retiring ≡ true
    → IsSound m
    → IsUpdate g s
        (retire s)
        m
        (on_snapshot g retire (record m { retiring = drop_generation g m.retiring }) (some s))
unfolding retire
retire-IsUpdate g s m found waits v =
    let before = v.counted g s found in
    record {
      found = found;
      heap = refl;
      counted = record { held = before.held; drained = ground (arith, before.drained) };
      others = λ h other. refl;
      usable = λ e. ground (arith, v.kept g e, waits);
      leased = v.leased;
      numbered = v.numbered;
      current = refl;
      generation = refl;
      retiring = λ h e. ground (arith, e, contains-drop_generation g h m.retiring);
      live = refl;
    }

retired_found :
    (g : ℕ) (m : Manager) (o : Option Snapshot)
    → lookup g m.heap ≡ o
    → contains g m.retiring ≡ true
    → IsSound m
    → IsSound (on_snapshot g retire (record m { retiring = drop_generation g m.retiring }) o)
retired_found g m none found waits v = record {
  counted = v.counted;
  published = v.published;
  leased = v.leased;
  numbered = v.numbered;
  usable = v.usable;
  kept = λ h e. ground (arith, v.kept h e, contains-drop_generation g h m.retiring);
  retired = λ h e. ground (arith, v.retired h, e, contains-drop_generation g h m.retiring);
  lived = v.lived;
  unheld = v.unheld;
}
retired_found g m (some s) found waits v =
    update-IsSound g s _ m _ (retire-IsUpdate g s m found waits v) v

pub retire_next-IsSound : (g : ℕ) (m : Manager) → IsSound m → IsSound (retire_next g m)
unfolding retire_next
retire_next-IsSound g m v =
    branch_by IsSound (contains g m.retiring) (λ waits. retired_found g m _ refl waits v)
      (λ idle. v)

drain-IsUpdate :
    (g : ℕ) (s : Snapshot) (m : Manager)
    → lookup g m.heap ≡ some s
    → IsSound m
    → IsUpdate g s (close_drained s) m (on_snapshot g close_drained m (some s))
unfolding close_drained
drain-IsUpdate g s m found v =
    let before = v.counted g s found in
    record {
      found = found;
      heap = refl;
      counted = record {
        held = ground (arith, before.held);
        drained = ground (arith, before.drained);
      };
      others = λ h other. refl;
      usable = λ e. ground arith;
      leased = v.leased;
      numbered = v.numbered;
      current = refl;
      generation = refl;
      retiring = λ h e. e;
      live = refl;
    }

pub drain-IsSound :
    (g : ℕ) (m : Manager) (o : Option Snapshot)
    → lookup g m.heap ≡ o
    → IsSound m
    → IsSound (on_snapshot g close_drained m o)
drain-IsSound g m none found v = v
drain-IsSound g m (some s) found v = update-IsSound g s _ m _ (drain-IsUpdate g s m found v) v
