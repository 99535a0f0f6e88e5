-- ===== src/Routing/Prefixes.antt =====
-- internal/routing/prefixes.go: the provider namespaces in front of model IDs.
pub mod Laws
use ya_router.Common.{
  Text, codes, Bool, true, false, List, [], ◌∷◌, ◌++◌, text_key, ◌=?◌, is_empty, has_prefix, drop,
  length, ◌||◌, if◌then◌else◌,
}
use ya_router.Provider.{copilot, codex, kilo}

abbrev pub copilot_model_prefix : Text
copilot_model_prefix = codes "github/"

abbrev pub codex_model_prefix : Text
codex_model_prefix = codes "codex/"

abbrev pub kilo_model_prefix : Text
kilo_model_prefix = codes "kilo/"

abbrev pub known_prefixes : List Text
known_prefixes = copilot_model_prefix ∷ codex_model_prefix ∷ kilo_model_prefix ∷ []

unfoldable pub provider_prefix : Text → Text
provider_prefix id =
    if id =? copilot
    then copilot_model_prefix
    else if id =? codex
    then codex_model_prefix
    else if id =? kilo
    then kilo_model_prefix
    else []

unfoldable pub provider_owned_by : Text → Text
provider_owned_by id =
    if id =? copilot
    then codes "github-copilot"
    else if id =? codex
    then codes "openai"
    else if id =? kilo
    then codes "kilo"
    else codes "openai"

unfoldable pub add_model_prefix : Text → Text → Text
add_model_prefix id model_id =
    let prefix = provider_prefix id in
    if is_empty prefix || has_prefix model_id prefix then model_id else prefix ++ model_id

pub record Stripped : Type 0 where
  pub bare : Text
  pub provider_id : Text
  pub found : Bool

unfoldable pub strip_model_prefix : Text → Stripped
strip_model_prefix m =
    if has_prefix m copilot_model_prefix
    then record { bare = drop (length copilot_model_prefix) m; provider_id = copilot; found = true }
    else if has_prefix m codex_model_prefix
    then record { bare = drop (length codex_model_prefix) m; provider_id = codex; found = true }
    else if has_prefix m kilo_model_prefix
    then record { bare = drop (length kilo_model_prefix) m; provider_id = kilo; found = true }
    else record { bare = m; provider_id = []; found = false }
