-- ===== src/Availability/Keys.antt =====
-- internal/availability/availability.go: the joined keys of models and capabilities, and lookups
-- in the maps that a snapshot makes of a view's lists.
use ya_router.Common.{
  Text, Bool, true, false, Option, none, some, List, [], ◌∷◌, ◌++◌, ◌≡◌, refl, arith, Dict, lookup,
  put, lookup-put, ltb, ◌==◌, text_key, ◌=?◌, =?_iff, contains, any, all, map, Bool-cases, not,
  ◌&&◌, ◌||◌, normal_idem, Bool-cases, inl, inr,
}
use ya_router.Provider.{Time}
use ya_router.Availability.{Cooldown, normalize_model, cooldown_key, add_cooldowns}

abbrev pub no_nul : Text → Bool
no_nul = all (λ b. not (b == 0))

-- A text with no NUL byte is read back from the front of a joined key.
append_nul_injective :
    (c d s t : Text)
    → no_nul c ≡ true
    → no_nul d ≡ true
    → c ++ (0 ∷ s) ≡ d ++ (0 ∷ t)
    → (c ≡ d) × (s ≡ t)
append_nul_injective [] [] s t h k e = ground arith
append_nul_injective [] (y ∷ d) s t h k e = ground arith
append_nul_injective (x ∷ c) [] s t h k e = ground arith
append_nul_injective (x ∷ c) (y ∷ d) s t h k e = ground (arith, append_nul_injective c d s t)

normalize_model_idem : (m : Text) → normalize_model (normalize_model m) ≡ normalize_model m
unfolding normalize_model
normalize_model_idem m = normal_idem m

-- Joined keys agree exactly when the capabilities and the normalised models do, if no capability
-- has a NUL byte.
pub cooldown_key_test :
    (m n c d : Text)
    → no_nul c ≡ true
    → no_nul d ≡ true
    → (cooldown_key m c =? cooldown_key n d)
      ≡ ((c =? d) && (normalize_model m =? normalize_model n))
unfolding cooldown_key
cooldown_key_test m n c d h k = ground (
  arith,
  =?_iff (c ++ (0 ∷ normalize_model m)) (d ++ (0 ∷ normalize_model n)),
  =?_iff c d,
  =?_iff (normalize_model m) (normalize_model n),
  append_nul_injective c d (normalize_model m) (normalize_model n),
)

pub normalized_key : (m c : Text) → cooldown_key (normalize_model m) c ≡ cooldown_key m c
unfolding cooldown_key
normalized_key m c = rw (normalize_model_idem m)

abbrev stored : Cooldown → Cooldown
stored c = record c { model = normalize_model c.model }

abbrev pub is_active : Time → Option Cooldown → Bool
is_active t none = false
is_active t (some c) = ltb t c.until

pub is_active-add_cooldowns :
    (t : Time) (k : Text) (cs : List Cooldown) (m : Dict Text Cooldown)
    → is_active t (lookup k (add_cooldowns t cs m)) ≡ (
        any (λ c. ltb t c.until && (cooldown_key c.model c.capability =? k)) cs
        || is_active t (lookup k m))
unfolding add_cooldowns
is_active-add_cooldowns t k [] m = refl
is_active-add_cooldowns t k (c ∷ cs) m = elim (Bool-cases (ltb t c.until)) [
  | inl active ↦ rw active (
      ground (
        arith,
        is_active-add_cooldowns t k cs
            (put (cooldown_key (normalize_model c.model) c.capability) (stored c) m),
        lookup-put (cooldown_key (normalize_model c.model) c.capability) k (stored c) m,
        normalized_key c.model c.capability,
      ))
  | inr expired ↦ rw expired (is_active-add_cooldowns t k cs m)
]

any_cong {ℓ} :
    {A : Type ℓ} (p q : A → Bool) (xs : List A) → ((x : A) → p x ≡ q x) → any p xs ≡ any q xs
any_cong p q [] h = refl
any_cong p q (x ∷ xs) h = ground (arith, h x, any_cong p q xs h)

pub contains-map :
    (m : Text) (xs : List Text)
    → contains (normalize_model m) (map normalize_model xs)
      ≡ any (λ x. normalize_model x =? normalize_model m) xs
contains-map m [] = refl
contains-map m (x ∷ xs) = ground (arith, contains-map m xs)

pub any-cooldown_key :
    (t : Time) (m c : Text) (cs : List Cooldown)
    → no_nul c ≡ true
    → all (λ x. no_nul x.capability) cs ≡ true
    → any (λ x. ltb t x.until && (cooldown_key x.model x.capability =? cooldown_key m c)) cs
      ≡ any
          (λ x.
            ltb t x.until
            && ((x.capability =? c) && (normalize_model x.model =? normalize_model m)))
          cs
any-cooldown_key t m c [] h hs = refl
any-cooldown_key t m c (x ∷ cs) h hs =
    ground (arith, cooldown_key_test x.model m x.capability c, any-cooldown_key t m c cs)
