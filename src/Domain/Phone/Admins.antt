-- ===== src/Domain/Phone/Admins.antt =====
-- internal/domain/phone.go: the list of admin phones that ParseAdminPhones reads.
use aba_go_orchestrator.Common.{Text, List, [], ◌∷◌, ◌++◌, split, ◌≡◌, ◌≢◌, refl, arith}
use aba_go_orchestrator.Domain.Phone.{nonempty_trimmed, parse_admin_phones}

split-ne_nil : (a : Text) → split a b';' ≢ []
unfolding split
split-ne_nil [] = ground arith
split-ne_nil (c ∷ a) = ground (arith, split-ne_nil a)

split-append : (a b : Text) → split (a ++ b';' ∷ b) b';' ≡ split a b';' ++ split b b';'
unfolding split
split-append [] b = refl
split-append (c ∷ a) b = ground (arith, split-append a b, split-ne_nil a)

nonempty_trimmed-append :
    (ps qs : List Text) → nonempty_trimmed (ps ++ qs) ≡ nonempty_trimmed ps ++ nonempty_trimmed qs
nonempty_trimmed-append [] qs = refl
nonempty_trimmed-append (p ∷ ps) qs = ground (arith, nonempty_trimmed-append ps qs)

parse_admin_phones_lem : (s : Text) → parse_admin_phones s ≡ nonempty_trimmed (split s b';')
unfolding parse_admin_phones
parse_admin_phones_lem [] = refl
parse_admin_phones_lem (c ∷ s) = refl

-- A semicolon separates: what is read of two texts joined by one is what is read of the first,
-- followed by what is read of the second, also where one of them is empty.
pub parse_admin_phones-append :
    (a b : Text) → parse_admin_phones (a ++ b';' ∷ b) ≡ parse_admin_phones a ++ parse_admin_phones b
parse_admin_phones-append a b =
    rw (parse_admin_phones_lem (a ++ b';' ∷ b), parse_admin_phones_lem a, parse_admin_phones_lem b)
      (rw (split-append a b) (nonempty_trimmed-append (split a b';') (split b b';')))
