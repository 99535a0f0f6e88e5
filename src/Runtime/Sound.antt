-- ===== src/Runtime/Sound.antt =====
-- internal/runtime: the invariant of a manager, and when an update of one snapshot keeps it.
use ya_router.Common.{
  ℕ, ◌+◌, ◌≤◌, ◌≡◌, arith, Bool, true, false, Bool-cases, Option, none, some, Option-cases, lookup,
  put, lookup-put, nat_key, ◌==◌, ==_iff, contains, not, ◌&&◌, ◌||◌, inl, inr,
}
use ya_router.Runtime.{Snapshot, Lease, Manager}
use ya_router.Runtime.Count.{held}

abbrev pub is_there : Option Snapshot → Bool
is_there none = false
is_there (some _) = true

abbrev pub is_usable : Option Snapshot → Bool
is_usable none = false
is_usable (some s) = not s.retired

-- What is true of a snapshot that `n` unreleased leases hold.
pub record IsCounted (n : ℕ) (s : Snapshot) : Type 0 where
  pub held : s.active ≡ n
  pub drained : (s.drained || s.draining) ≡ (s.retired && s.active == 0)

pub record IsSound (m : Manager) : Type 0 where
  pub counted : (g : ℕ) (s : Snapshot) → lookup g m.heap ≡ some s → IsCounted (held g m.leases) s
  pub published : (g : ℕ) → is_there (lookup g m.heap) ≡ true → g ≤ m.generation
  pub leased :
      (l : ℕ) (x : Lease) → lookup l m.leases ≡ some x → is_there (lookup x.snapshot m.heap) ≡ true
  pub numbered : (l : ℕ) (x : Lease) → lookup l m.leases ≡ some x → l ≤ m.next_lease
  pub usable : (g : ℕ) → m.current ≡ some g → is_usable (lookup g m.heap) ≡ true
  pub kept : (g : ℕ) → m.current ≡ some g → contains g m.retiring ≡ false
  pub retired : (g : ℕ) → contains g m.retiring ≡ true → g ≤ m.generation
  pub lived : (g : ℕ) → contains g m.live ≡ true → g ≤ m.generation
  pub unheld : (g : ℕ) → is_there (lookup g m.heap) ≡ false → held g m.leases ≡ 0

pub fresh_lease : (m : Manager) → IsSound m → lookup (m.next_lease + 1) m.leases ≡ none
fresh_lease m v = elim (Option-cases (lookup (m.next_lease + 1) m.leases)) [
  | inl missing ↦ missing
  | inr (x, found) ↦ absurd (omega (arith, v.numbered (m.next_lease + 1) x found))
]

-- A snapshot of the heap is replaced by `t`, and a lease may change with it.
pub record IsUpdate (g : ℕ) (s t : Snapshot) (m n : Manager) : Type 0 where
  pub found : lookup g m.heap ≡ some s
  pub heap : n.heap ≡ put g t m.heap
  pub counted : IsCounted (held g n.leases) t
  pub others : (h : ℕ) → (g == h) ≡ false → held h n.leases ≡ held h m.leases
  pub usable : m.current ≡ some g → t.retired ≡ s.retired
  pub leased :
      (l : ℕ) (x : Lease) → lookup l n.leases ≡ some x → is_there (lookup x.snapshot m.heap) ≡ true
  pub numbered : (l : ℕ) (x : Lease) → lookup l n.leases ≡ some x → l ≤ n.next_lease
  pub current : n.current ≡ m.current
  pub generation : n.generation ≡ m.generation
  pub retiring : (h : ℕ) → contains h n.retiring ≡ true → contains h m.retiring ≡ true
  pub live : n.live ≡ m.live

pub update-IsSound :
    (g : ℕ) (s t : Snapshot) (m n : Manager) → IsUpdate g s t m n → IsSound m → IsSound n
update-IsSound g s t m n u v = record {
  counted = λ h r e. elim (Bool-cases (g == h)) [
    | inl same ↦ record {
      held = ground (arith, same, e, u.counted, u.heap, lookup-put g h t m.heap, ==_iff g h);
      drained = ground (arith, same, e, u.counted, u.heap, lookup-put g h t m.heap);
    }
    | inr other ↦
        let before = v.counted h r (ground (arith, other, e, u.heap, lookup-put g h t m.heap)) in
        record { held = ground (arith, before.held, u.others h other); drained = before.drained }
  ];
  published = λ h e.
      ground
        (arith, v.published h, u.found, u.heap, lookup-put g h t m.heap, u.generation, ==_iff g h);
  leased = λ l x e. ground (arith, u.leased l x e, u.heap, lookup-put g x.snapshot t m.heap);
  numbered = u.numbered;
  usable = λ h e. ground (
    arith,
    v.usable h,
    u.usable,
    u.found,
    u.heap,
    u.current,
    lookup-put g h t m.heap,
    ==_iff g h,
  );
  kept = λ h e. ground (arith, v.kept h, u.retiring h, u.current, e);
  retired = λ h e. ground (arith, v.retired h, u.retiring h e, u.generation);
  lived = λ h e. ground (arith, v.lived h, e, u.live, u.generation);
  unheld = λ h e. ground (arith, v.unheld h, e, u.others h, u.heap, lookup-put g h t m.heap);
}
