-- ===== src/Common/Rows.antt =====
-- Laws of the row queries: what an update changes, and what it leaves.
use Prim.Native.Nat.{suc, ◌+◌, ◌≤◌}
use mathlib.Core.Path.{◌≡◌, refl, ap, subst}
use mathlib.Core.Bool.{Bool, true, false}
use mathlib.Core.List.{List, [], ◌∷◌, ◌++◌}
use mathlib.Core.Option
use mathlib.Core.Option.{Option, some}
use native.Mathlib.Omega.{arith}
use aba_go_orchestrator.Common.Tests.{if◌then◌else◌}
use aba_go_orchestrator.Common.Lists.{length, first, update, count_where, All}

module _ {ℓ} {A : Type ℓ} where
  -- The row that an update by a key hits, where the update keeps the key.
  pub first-update_self :
      (p : A → Bool) (f : A → A) (xs : List A) (x : A)
      → ((a : A) → p a ≡ true → p (f a) ≡ true)
      → first p xs ≡ some x
      → first p (update p f xs) ≡ some (f x)
  first-update_self p f [] x keep h = cc
  first-update_self p f (y ∷ xs) x keep h = ground (arith, keep y, first-update_self p f xs x keep)

  -- A query by a key that the update keeps finds the row that it found before, updated if it is hit.
  pub first-update :
      (p q : A → Bool) (f : A → A) (xs : List A)
      → ((a : A) → q (f a) ≡ q a)
      → first q (update p f xs) ≡ Option.map (λ a. if p a then f a else a) (first q xs)
  first-update p q f [] keep = refl
  first-update p q f (x ∷ xs) keep = ground (arith, keep x, first-update p q f xs keep)

  -- A row under another key is left as it was.
  pub first-update_other :
      (p q : A → Bool) (f : A → A) (xs : List A)
      → ((a : A) → p a ≡ true → q a ≡ false)
      → ((a : A) → p a ≡ true → q (f a) ≡ false)
      → first q (update p f xs) ≡ first q xs
  first-update_other p q f [] h k = refl
  first-update_other p q f (x ∷ xs) h k = ground (arith, h x, k x, first-update_other p q f xs h k)

  pub first_sound : (p : A → Bool) (xs : List A) (x : A) → first p xs ≡ some x → p x ≡ true
  first_sound p [] x h = cc
  first_sound p (y ∷ xs) x h = ground (arith, first_sound p xs x)

  pub length-update : (p : A → Bool) (f : A → A) (xs : List A) → length (update p f xs) ≡ length xs
  length-update p f [] = refl
  length-update p f (x ∷ xs) = ap suc (length-update p f xs)

  -- An update keeps what holds of each row, if it keeps it for the rows that it hits.
  pub update-All {κ} :
      (P : A → Type κ) (p : A → Bool) (f : A → A) (xs : List A)
      → ((a : A) → p a ≡ true → P a → P (f a))
      → All P xs
      → All P (update p f xs)
  update-All P p f [] keep h = tt
  update-All P p f (x ∷ xs) keep h = (split (p x) (keep x), update-All P p f xs keep h.1)
    where
      split : (b : Bool) → (b ≡ true → P x → P (f x)) → P (if b then f x else x)
      split true k = k refl h.0
      split false k = h.0

  first_step {κ} :
      (P : A → Type κ) (b : Bool) (y x : A) (rest : Option A)
      → P y
      → (rest ≡ some x → P x)
      → (if b then some y else rest) ≡ some x
      → P x
  first_step P true y x rest here later e = let h : y ≡ x = cc in subst P h here
  first_step P false y x rest here later e = later e

  pub first-All {κ} :
      (P : A → Type κ) (p : A → Bool) (xs : List A) (x : A) → All P xs → first p xs ≡ some x → P x
  first-All P p [] x h e = absurd (cc)
  first-All P p (y ∷ xs) x h e = first_step P (p y) y x (first p xs) h.0 (first-All P p xs x h.1) e

  pub count_where-le : (p : A → Bool) (xs : List A) → count_where p xs ≤ length xs
  count_where-le p [] = omega arith
  count_where-le p (x ∷ xs) = ground (arith, count_where-le p xs)

  pub count_where-append :
      (p : A → Bool) (xs ys : List A)
      → count_where p (xs ++ ys) ≡ count_where p xs + count_where p ys
  count_where-append p [] ys = omega arith
  count_where-append p (x ∷ xs) ys = ground (arith, count_where-append p xs ys)
