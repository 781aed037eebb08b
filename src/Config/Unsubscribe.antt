-- ===== src/Config/Unsubscribe.antt =====
-- internal/config/config.go: the replies that unsubscribe. strings.ToLower is an argument, `lower`; the
-- set is a list.
pub mod Words
pub mod Match
use aba_go_orchestrator.Common.{
  ℕ, Text, text_eq, lit, is_empty, is_space, split, trim_space, Bool, true, false, not, ◌&&◌,
  Option, List, [], ◌∷◌, ◌++◌, exists, if◌then◌else◌,
}

abbrev pub add_char : ℕ → Bool → List Text → List Text
add_char c true ws = (c ∷ []) ∷ ws
add_char c false [] = (c ∷ []) ∷ []
add_char c false (w ∷ ws) = (c ∷ w) ∷ ws

-- Is the text at its end, or at a space?
abbrev pub at_space : Text → Bool
at_space [] = true
at_space (c ∷ s) = is_space c

-- strings.Fields.
unfoldable pub words : Text → List Text
unfolding is_space
words [] = []
words (c ∷ s) = let rest = words s in if is_space c then rest else add_char c (at_space s) rest

-- strings.Join with a space.
unfoldable pub join_space : List Text → Text
join_space [] = []
join_space (w ∷ []) = w
join_space (w ∷ v ∷ ws) = w ++ b' ' ∷ join_space (v ∷ ws)

unfoldable pub normalize_unsubscribe : (Text → Text) → Text → Text
unfolding trim_space words join_space
normalize_unsubscribe lower s = join_space (words (lower (trim_space s)))

abbrev pub default_variant : Text
default_variant = lit "@"

unfoldable pub trimmed_variants : List Text → List Text
unfolding trim_space
trimmed_variants [] = []
trimmed_variants (part ∷ parts) =
    let v = trim_space part in
    let rest = trimmed_variants parts in if is_empty v then rest else v ∷ rest

abbrev pub or_default : Text → List Text → List Text
or_default v [] = v ∷ []
or_default v (w ∷ ws) = w ∷ ws

unfoldable pub parse_unsubscribe_variants : Text → List Text
unfolding split trimmed_variants
parse_unsubscribe_variants raw = or_default default_variant (trimmed_variants (split raw b';'))

-- The normal forms that are not empty.
unfoldable pub normal_forms : (Text → Text) → List Text → List Text
unfolding normalize_unsubscribe
normal_forms lower [] = []
normal_forms lower (v ∷ vs) =
    let n = normalize_unsubscribe lower v in
    let rest = normal_forms lower vs in if is_empty n then rest else n ∷ rest

unfoldable pub build_unsubscribe_set : (Text → Text) → List Text → List Text
unfolding normal_forms
build_unsubscribe_set lower vs =
    or_default (normalize_unsubscribe lower default_variant) (normal_forms lower vs)

-- IsUnsubscribeReply, with the set of the configuration.
unfoldable pub is_unsubscribe_reply : (Text → Text) → List Text → Text → Bool
unfolding normalize_unsubscribe
is_unsubscribe_reply lower [] text =
    text_eq (normalize_unsubscribe lower text) (normalize_unsubscribe lower default_variant)
is_unsubscribe_reply lower (n ∷ set) text =
    exists (text_eq (normalize_unsubscribe lower text)) (n ∷ set)

-- As LoadFromEnv sets the configuration up.
unfoldable pub unsubscribes : (Text → Text) → Text → Text → Bool
unfolding is_unsubscribe_reply build_unsubscribe_set parse_unsubscribe_variants
unsubscribes lower raw text =
    is_unsubscribe_reply lower (build_unsubscribe_set lower (parse_unsubscribe_variants raw)) text
