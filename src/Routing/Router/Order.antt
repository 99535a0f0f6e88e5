-- ===== src/Routing/Router/Order.antt =====
-- The order of the targets: the preferred one first, and the same targets up to white space.
use ya_router.Common.{
  suc, ◌≤◌, ◌≡◌, refl, arith, Text, true, Option, none, some, List, [], ◌∷◌, text_key, =?_iff, any,
  trim_space, length, not, ◌&&◌,
}
use ya_router.Config.{VirtualModel, strategy_quota_priority}
use ya_router.Routing.Preferred.{get_preferred}
use ya_router.Routing.Router.{
  Router, same_target, other_targets, reorder_vm_targets, preferred_order, ordered_vm,
}

any-other_targets :
    (p x : Text) (ts : List Text)
    → any (same_target x) (other_targets p ts) ≡ (any (same_target x) ts && not (same_target x p))
unfolding other_targets
any-other_targets p x [] = refl
any-other_targets p x (t ∷ ts) = ground (
  arith,
  any-other_targets p x ts,
  =?_iff (trim_space x) (trim_space t),
  =?_iff (trim_space t) (trim_space p),
  =?_iff (trim_space x) (trim_space p),
)

any-same_target :
    (p x : Text) (ts : List Text)
    → same_target x p ≡ true
    → any (λ t. same_target t p) ts ≡ any (same_target x) ts
any-same_target p x [] h = refl
any-same_target p x (t ∷ ts) h = ground (
  arith,
  any-same_target p x ts h,
  =?_iff (trim_space x) (trim_space t),
  =?_iff (trim_space t) (trim_space p),
  =?_iff (trim_space x) (trim_space p),
)

-- Moving the preferred target to the front neither adds nor loses a target, up to white space.
pub any-reorder_vm_targets :
    (vm : VirtualModel) (p x : Text)
    → any (same_target x) (reorder_vm_targets vm p).targets ≡ any (same_target x) vm.targets
unfolding reorder_vm_targets
any-reorder_vm_targets vm p x =
    ground (arith, any-other_targets p x vm.targets, any-same_target p x vm.targets)

length-other_targets :
    (p : Text) (ts : List Text)
    → (length (other_targets p ts) ≤ length ts)
      × (any (λ t. same_target t p) ts ≡ true → suc (length (other_targets p ts)) ≤ length ts)
unfolding other_targets
length-other_targets p [] = ground arith
length-other_targets p (t ∷ ts) = ground (arith, length-other_targets p ts)

-- The reordered list is no longer than the configured one.
pub length-reorder_vm_targets :
    (vm : VirtualModel) (p : Text) → length (reorder_vm_targets vm p).targets ≤ length vm.targets
unfolding reorder_vm_targets
length-reorder_vm_targets vm p = ground (arith, length-other_targets p vm.targets)

any-preferred_order :
    (o : Option Text) (vm : VirtualModel) (x : Text)
    → any (same_target x) (preferred_order o vm).targets ≡ any (same_target x) vm.targets
any-preferred_order none vm x = refl
any-preferred_order (some p) vm x = ground (arith, any-reorder_vm_targets vm p x)

-- Whatever is remembered, the targets that a request considers are the configured ones, up to
-- white space and order, and under `quota_priority` they stand in the configured order.
pub ordered_vm-targets :
    (r : Router) (v : Text) (vm : VirtualModel) (c x : Text)
    → (any (same_target x) (ordered_vm r v vm c).targets ≡ any (same_target x) vm.targets)
      × (ordered_vm r v (record vm { strategy = strategy_quota_priority }) c
          ≡ record vm { strategy = strategy_quota_priority })
unfolding ordered_vm
ordered_vm-targets r v vm c x =
    (ground (arith, any-preferred_order (get_preferred v c r.preferred) vm x), ground arith)
