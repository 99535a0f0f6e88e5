-- ===== src/Routing/Prefixes/Laws.antt =====
-- Adding and stripping a prefix undo one another.
use ya_router.Common.{
  Text, true, [], ◌∷◌, ◌++◌, ◌≡◌, ◌⊎◌, refl, arith, text_key, has_prefix, drop, length,
  if◌then◌else◌,
}
use ya_router.Provider.{copilot, codex, kilo}
use ya_router.Routing.Prefixes.{
  copilot_model_prefix, codex_model_prefix, kilo_model_prefix, provider_prefix, add_model_prefix,
  strip_model_prefix,
}

append-drop : (p s : Text) → has_prefix s p ≡ true → p ++ drop (length p) s ≡ s
append-drop [] s h = refl
append-drop (d ∷ p) [] h = ground arith
append-drop (d ∷ p) (c ∷ s) h = ground (arith, append-drop p s)

drop-append : (p s : Text) → drop (length p) (p ++ s) ≡ s
drop-append [] s = refl
drop-append (d ∷ p) s = drop-append p s

-- A stripped ID is the prefix of the provider found, followed by the bare model.
pub strip_model_prefix-join :
    (m : Text)
    → (strip_model_prefix m).found ≡ true
    → provider_prefix (strip_model_prefix m).provider_id ++ (strip_model_prefix m).bare ≡ m
unfolding strip_model_prefix provider_prefix
strip_model_prefix-join m h = ground (
  arith,
  append-drop copilot_model_prefix m,
  append-drop codex_model_prefix m,
  append-drop kilo_model_prefix m,
)

abbrev pub IsKnown : Text → Type 0
IsKnown id = (id ≡ copilot) ⊎ (id ≡ codex) ⊎ (id ≡ kilo)

-- A model prefixed for a known provider is stripped back to that provider and the model, or to
-- what follows the prefix if the model had it already.
pub strip_model_prefix-add :
    (id m : Text)
    → IsKnown id
    → strip_model_prefix (add_model_prefix id m) ≡ record {
      bare = if has_prefix m (provider_prefix id) then drop (length (provider_prefix id)) m else m;
      provider_id = id;
      found = true;
    }
unfolding strip_model_prefix add_model_prefix provider_prefix
strip_model_prefix-add id m h = ground arith
