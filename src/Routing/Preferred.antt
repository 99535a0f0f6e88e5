-- ===== src/Routing/Preferred.antt =====
-- internal/routing/preferred_target.go: the last successful target of a virtual model and capability.
use ya_router.Common.{
  Text, Option, [], Dict, lookup, put, text_key, pair_key, is_empty, ◌||◌, if◌then◌else◌,
}

pub record PreferredTargetRegistry : Type 0 where
  pub entries : Dict (Text × Text) Text

abbrev pub new_preferred_target_registry : PreferredTargetRegistry
new_preferred_target_registry = record { entries = [] }

unfoldable pub set_preferred :
    Text → Text → Text → PreferredTargetRegistry → PreferredTargetRegistry
set_preferred virtual_model capability target r =
    if is_empty virtual_model || (is_empty capability || is_empty target)
    then r
    else record r { entries = put (virtual_model, capability) target r.entries }

unfoldable pub get_preferred : Text → Text → PreferredTargetRegistry → Option Text
get_preferred virtual_model capability r = lookup (virtual_model, capability) r.entries
