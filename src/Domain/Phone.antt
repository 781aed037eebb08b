-- ===== src/Domain/Phone.antt =====
-- internal/domain/phone.go: phone numbers of clients and tenant admins.
pub mod Canonical
pub mod Admins
use aba_go_orchestrator.Common.{
  ℕ, Text, lit, leb, ltb, ◌==◌, Bool, true, false, ◌&&◌, ◌||◌, List, [], ◌∷◌, length, select, split,
  trim_space, is_empty, not, if◌then◌else◌,
}

abbrev pub is_digit : ℕ → Bool
is_digit c = leb b'0' c && leb c b'9'

-- The two tests on the digits `s` of the input; the digits are ASCII, so len(s) counts them.
unfoldable pub canonical_digits : Text → Text
canonical_digits [] = []
canonical_digits (c ∷ []) = []
canonical_digits (c ∷ d ∷ s) =
    let n = length (c ∷ d ∷ s) in
    if ltb 10 n && ((c == b'7' || c == b'8') && d == b'9')
    then d ∷ s
    else if n == 10 && c == b'9'
    then c ∷ d ∷ s
    else []

unfoldable pub normalize_phone : Text → Text
unfolding canonical_digits
normalize_phone p = canonical_digits (select is_digit p)

abbrev nonempty_trimmed : List Text → List Text
nonempty_trimmed [] = []
nonempty_trimmed (part ∷ parts) =
    let trimmed = trim_space part in
    let rest = nonempty_trimmed parts in if is_empty trimmed then rest else trimmed ∷ rest

unfoldable pub parse_admin_phones : Text → List Text
unfolding trim_space split
parse_admin_phones phones = if is_empty phones then [] else nonempty_trimmed (split phones b';')
