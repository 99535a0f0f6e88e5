-- ===== src/Provider/Registry/Consistency.antt =====
-- What holds between the map of a registry and its order.
use ya_router.Common.{
  Text, Bool, true, false, Option, none, some, List, [], ◌∷◌, ◌++◌, map, All, ◌≡◌, refl, sym, ◌∙◌,
  arith, lookup, put, lookup-put, lookup-remove, AllEntries, put-AllEntries, remove-AllEntries,
  text_key, ◌=?◌, =?_iff, contains, any-append, not, ◌&&◌, ◌||◌, Bool-cases, Option-cases, inl, inr,
}
use ya_router.Provider.{Provider}
use ya_router.Provider.Registry.{
  Registry, empty_registry, registry_frozen, register, order_with, register_all, new_registry,
  unregister, drop_id, freeze, all_providers,
}

abbrev pub is_some {ℓ} : {A : Type ℓ} → Option A → Bool
is_some none = false
is_some (some _) = true

-- No ID stands twice in the order.
abbrev pub DistinctIds : List Text → Type 0
DistinctIds [] = Unit
DistinctIds (id ∷ ids) = (contains id ids ≡ false) × DistinctIds ids

-- Every provider stands under its own ID, and the order has exactly the IDs of the map, once each.
pub record IsConsistent (r : Registry) : Type 0 where
  pub keyed : AllEntries (λ k p. p.id ≡ k) r.providers
  pub complete : (id : Text) → contains id r.order ≡ is_some (lookup id r.providers)
  pub distinct : DistinctIds r.order

contains-snoc :
    (id x : Text) (xs : List Text) → contains id (xs ++ (x ∷ [])) ≡ (contains id xs || x =? id)
contains-snoc id x xs = any-append (λ y. y =? id) xs (x ∷ []) ∙ ground arith

snoc-DistinctIds :
    (x : Text) (xs : List Text)
    → contains x xs ≡ false
    → DistinctIds xs
    → DistinctIds (xs ++ (x ∷ []))
snoc-DistinctIds x [] h d = (refl, d)
snoc-DistinctIds x (y ∷ ys) h d = (
  ground (arith, contains-snoc y x ys, =?_iff x y, =?_iff y x),
  snoc-DistinctIds x ys (ground arith) d.1,
)

contains-drop_id :
    (id x : Text) (xs : List Text)
    → DistinctIds xs
    → contains x (drop_id id xs) ≡ (not (id =? x) && contains x xs)
unfolding drop_id
contains-drop_id id x [] d = ground arith
contains-drop_id id x (y ∷ ys) d =
    ground (arith, contains-drop_id id x ys d.1, =?_iff y id, =?_iff y x, =?_iff id x, =?_iff y y)

drop_id-DistinctIds : (id : Text) (xs : List Text) → DistinctIds xs → DistinctIds (drop_id id xs)
unfolding drop_id
drop_id-DistinctIds id [] d = d
drop_id-DistinctIds id (y ∷ ys) d = elim (Bool-cases (y =? id)) [
  | inl same ↦ rw same d.1
  | inr other ↦
      rw other (ground (arith, contains-drop_id id y ys d.1), drop_id-DistinctIds id ys d.1)
]

complete_after :
    (r : Registry) (p : Provider)
    → IsConsistent r
    → (id : Text) (o : Option Provider) → lookup p.id r.providers ≡ o
    → contains id (order_with o p.id r.order) ≡ is_some (lookup id (put p.id p r.providers))
unfolding order_with
complete_after r p h id none e =
    contains-snoc id p.id r.order ∙ ground (arith, h.complete id, lookup-put p.id id p r.providers)
complete_after r p h id (some q) e =
    ground (arith, h.complete id, lookup-put p.id id p r.providers, =?_iff p.id id)

distinct_after :
    (r : Registry) (p : Provider)
    → IsConsistent r
    → (o : Option Provider) → lookup p.id r.providers ≡ o
    → DistinctIds (order_with o p.id r.order)
unfolding order_with
distinct_after r p h none e =
    snoc-DistinctIds p.id r.order (ground (arith, h.complete p.id)) h.distinct
distinct_after r p h (some q) e = h.distinct

-- Registering a provider, accepted or refused, keeps the registry consistent.
pub register-IsConsistent :
    (r : Registry) (o : Option Provider) → IsConsistent r → IsConsistent (register r o).0
unfolding register
register-IsConsistent r none h = h
register-IsConsistent r (some p) h = elim (Bool-cases r.frozen) [
  | inl frozen ↦ simp frozen h
  | inr thawed ↦ simp thawed (record {
    keyed = put-AllEntries (λ k q. q.id ≡ k) p.id p r.providers refl h.keyed;
    complete = λ id. complete_after r p h id (lookup p.id r.providers) refl;
    distinct = distinct_after r p h (lookup p.id r.providers) refl;
  })
]

register_all-IsConsistent :
    (ps : List (Option Provider)) (r : Registry) → IsConsistent r → IsConsistent (register_all r ps)
unfolding register_all
register_all-IsConsistent [] r h = h
register_all-IsConsistent (p ∷ ps) r h =
    register_all-IsConsistent ps (register r p).0 (register-IsConsistent r p h)

-- The registry of a list of providers is consistent.
pub new_registry-IsConsistent : (ps : List (Option Provider)) → IsConsistent (new_registry ps)
unfolding new_registry
new_registry-IsConsistent ps =
    register_all-IsConsistent ps empty_registry
      (record { keyed = tt; complete = λ id. unfold lookup in refl; distinct = tt })

-- Unregistering a provider, found or not, keeps the registry consistent.
pub unregister-IsConsistent :
    (r : Registry) (id : Text) → IsConsistent r → IsConsistent (unregister r id).0
unfolding unregister
unregister-IsConsistent r id h = elim (Bool-cases r.frozen) [
  | inl frozen ↦ simp frozen h
  | inr thawed ↦ simp thawed (elim (Option-cases (lookup id r.providers)) [
    | inl missing ↦ rw missing h
    | inr (p, found) ↦ rw found (record {
      keyed = remove-AllEntries (λ k q. q.id ≡ k) id r.providers h.keyed;
      complete = λ x. ground (
        arith,
        contains-drop_id id x r.order h.distinct,
        h.complete x,
        lookup-remove id x r.providers,
      );
      distinct = drop_id-DistinctIds id r.order h.distinct;
    })
  ])
]

-- After a freeze no registration or removal changes the registry, and each reports it.
pub frozen_unchanged :
    (r : Registry) (p : Provider) (id : Text)
    → (register (freeze r) (some p) ≡ (freeze r, some registry_frozen))
      × (unregister (freeze r) id ≡ (freeze r, none, some registry_frozen))
unfolding register unregister freeze
frozen_unchanged r p id = (refl, refl)

All-some :
    (r : Registry) (ids : List Text)
    → IsConsistent r
    → All (λ id. contains id r.order ≡ true) ids
    → All (λ (o : Option Provider). is_some o ≡ true) (map (λ id. lookup id r.providers) ids)
All-some r [] h hs = tt
All-some r (id ∷ ids) h hs = (sym (h.complete id) ∙ hs.0, All-some r ids h hs.1)

All-contains : (xs : List Text) → All (λ x. contains x xs ≡ true) xs
All-contains [] = tt
All-contains (x ∷ xs) = (ground (arith, =?_iff x x), grow xs (All-contains xs))
  where
    grow :
        (ys : List Text)
        → All (λ y. contains y xs ≡ true) ys
        → All (λ y. contains y (x ∷ xs) ≡ true) ys
    grow [] hs = tt
    grow (y ∷ ys) hs = (ground arith, grow ys hs.1)

-- `All` of a consistent registry returns no nil provider.
pub all_providers_some :
    (r : Registry)
    → IsConsistent r
    → All (λ (o : Option Provider). is_some o ≡ true) (all_providers r)
unfolding all_providers
all_providers_some r h = All-some r r.order h (All-contains r.order)
