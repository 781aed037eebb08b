-- ===== src/Worker/Accounts/RoundRobin.antt =====
-- internal/worker/campaign_doser.go: the turns of the accounts under pickAccount.
use native.Mathlib.Nat.{mod-eq_of_lt, mod-lt, mod-add-mod, zero-add, suc-add}
use mathlib.Core.List.{append-nil}
use aba_go_orchestrator.Common.{
  ℕ, zero, suc, ◌+◌, ◌-◌, ◌%◌, ◌≤◌, ◌<◌, List, [], ◌∷◌, ◌++◌, map, Option, none, some, length,
  get_elem?, take, drop, length-drop, ==_refl, ◌≡◌, refl, sym, ap, ap₂, ◌∙◌, arith,
}
use aba_go_orchestrator.Domain.Models.{TenantAccount}
use aba_go_orchestrator.Worker.Accounts.{Cursors, set_cursor, pick_account}

-- `n` picks in a row for one tenant, none with a preferred account.
pub picks : ℕ → ℕ → List TenantAccount → Cursors → List (Option TenantAccount)
picks zero tenant_id accounts cs = []
picks (suc n) tenant_id accounts cs =
    let (a, cs') = pick_account tenant_id accounts none cs in a ∷ picks n tenant_id accounts cs'

mod_next : (x n c : ℕ) → x % n ≡ c → c + 1 < n → (x + 1) % n ≡ c + 1
mod_next x n c h l = sym (mod-add-mod x n 1) ∙ ap (λ y. (y + 1) % n) h ∙ mod-eq_of_lt l

mod_wrap : (x n c : ℕ) → 0 < n → x % n ≡ c → (x + (n - c)) % n ≡ 0
mod_wrap x n c p h =
    sym (mod-add-mod x n (n - c)) ∙ ap (λ y. (y + (n - c)) % n) h ∙ grind (arith, mod-lt)

drop_step :
    (c : ℕ) (xs : List TenantAccount)
    → c < length xs
    → (x : TenantAccount) × (get_elem? xs c ≡ some x) × (drop c xs ≡ x ∷ drop (suc c) xs)
drop_step c [] l = absurd (omega arith)
drop_step zero (x ∷ xs) l = (x, refl, refl)
drop_step (suc c) (x ∷ xs) l = drop_step c xs (omega arith)

module _ (tenant_id : ℕ) (a : TenantAccount) (rest : List TenantAccount) where
  abbrev accounts : List TenantAccount
  accounts = a ∷ rest

  picks_cursor :
      (k : ℕ) (cs cs' : Cursors)
      → cs tenant_id ≡ cs' tenant_id
      → picks k tenant_id accounts cs ≡ picks k tenant_id accounts cs'
  unfolding picks pick_account
  picks_cursor zero cs cs' h = refl
  picks_cursor (suc k) cs cs' h = ap₂ ◌∷◌ (ap (λ i. get_elem? accounts (i % length accounts)) h) (
      picks_cursor k (set_cursor tenant_id (cs tenant_id + 1) cs)
        (set_cursor tenant_id (cs' tenant_id + 1) cs') (rw (==_refl tenant_id) (ap (λ i. i + 1) h)))

  turn :
      (c : ℕ) (cs : Cursors) (x : TenantAccount)
      → cs tenant_id % length accounts ≡ c
      → get_elem? accounts c ≡ some x
      → (pick_account tenant_id accounts none cs).0 ≡ some x
  unfolding pick_account
  turn c cs x h here = ap (get_elem? accounts) h ∙ here

  -- Picks that stay before the end of the list take the accounts in their order.
  picks_run :
      (m k c : ℕ) (cs : Cursors)
      → cs tenant_id % length accounts ≡ c
      → c + m ≤ length accounts
      → picks (m + k) tenant_id accounts cs
        ≡ map some (take m (drop c accounts))
          ++ picks k tenant_id accounts (set_cursor tenant_id (cs tenant_id + m) cs)
  unfolding picks pick_account
  picks_run zero k c cs h l =
      rw zero-add (picks_cursor k cs _ (rw (==_refl tenant_id) (omega arith)))
  picks_run (suc zero) k c cs h l =
      let (x, here, rest') = drop_step c accounts (omega arith) in
      rw (suc-add, zero-add, rest')
        (ap₂ ◌∷◌ (turn c cs x h here) (
          picks_cursor k (set_cursor tenant_id (cs tenant_id + 1) cs) _
            (rw (==_refl tenant_id) refl)))
  picks_run (suc (suc m)) k c cs h l =
      let (x, here, rest') = drop_step c accounts (omega arith) in
      let cs' : Cursors = set_cursor tenant_id (cs tenant_id + 1) cs in
      let moved : cs' tenant_id ≡ cs tenant_id + 1 = rw (==_refl tenant_id) refl in
      rw (suc-add, rest')
        (ap₂ ◌∷◌ (turn c cs x h here) (
          picks_run (suc m) k (suc c) cs'
            (rw moved (mod_next (cs tenant_id) (length accounts) c h (omega arith) ∙ omega arith))
            (omega arith)
          ∙ ap (λ l. map some (take (suc m) (drop (suc c) accounts)) ++ l)
              (picks_cursor k _ _ (rw (==_refl tenant_id) (omega arith)))))

take_all : (xs : List TenantAccount) (n : ℕ) → length xs ≤ n → take n xs ≡ xs
take_all [] zero l = refl
take_all [] (suc n) l = refl
take_all (x ∷ xs) zero l = absurd (omega arith)
take_all (x ∷ xs) (suc n) l = ap (◌∷◌ x) (take_all xs n (omega arith))

-- A full round of picks without a preferred account takes every account exactly once: from the
-- tenant's cursor to the end of the list, then from its beginning up to the cursor.
pub full_round :
    (tenant_id : ℕ) (a : TenantAccount) (rest : List TenantAccount) (cs : Cursors)
    → picks (length (a ∷ rest)) tenant_id (a ∷ rest) cs
      ≡ map some (drop (cs tenant_id % length (a ∷ rest)) (a ∷ rest))
        ++ map some (take (cs tenant_id % length (a ∷ rest)) (a ∷ rest))
unfolding picks
full_round tenant_id a rest cs =
    let as' = a ∷ rest in
    let n : ℕ = length as' in
    let c : ℕ = cs tenant_id % n in
    let low : c < n = mod-lt (cs tenant_id) (omega arith) in
    let m : ℕ = n - c in
    let cs' : Cursors = set_cursor tenant_id (cs tenant_id + m) cs in
    let split : n ≡ m + (c + 0) = omega arith in
    let wrapped : cs' tenant_id % n ≡ 0 =
      rw (==_refl tenant_id) (mod_wrap (cs tenant_id) n c (omega arith) refl) in
    ap (λ k. picks k tenant_id as' cs) split
    ∙ picks_run tenant_id a rest m (c + 0) c cs refl (omega arith)
    ∙ ap₂ (λ x y. map some x ++ y) (take_all (drop c as') m (omega (arith, length-drop c as')))
        (picks_run tenant_id a rest c 0 0 cs' wrapped (omega arith) ∙ append-nil _)
