-- ===== src/Worker/Consumer/Notify/Observed.antt =====
-- internal/worker/result_consumer.go: the groups of a batch have different keys, and hold what the
-- account of their key observed.
use aba_go_orchestrator.Common.{
  ℕ, ◌==◌, Bool, true, false, ◌&&◌, ◌||◌, List, [], ◌∷◌, ◌++◌, All, exists, if◌then◌else◌, ◌≡◌,
  refl, sym, ◌∙◌, arith,
}
use aba_go_orchestrator.Worker.Consumer.{ObservedReply}
use aba_go_orchestrator.Worker.Consumer.Flush.{
  Group, has_key, append_reply, group_from, group_replies_by_tenant_account,
}
use aba_go_orchestrator.Worker.Consumer.Groups.{
  replies_of, observed_by, group_replies_by_tenant_account_lem,
}

-- No two groups have one key.
abbrev pub Unique : List Group → Type 0
Unique [] = Unit
Unique (g ∷ gs) = (exists (has_key g.0 g.1) gs ≡ false) × Unique gs

exists-append_reply :
    (t a : ℕ) (item : ObservedReply) (gs : List Group)
    → exists (has_key t a) (append_reply item gs)
      ≡ (exists (has_key t a) gs || (item.tenant_id == t && item.tenant_account_id == a))
unfolding append_reply has_key
exists-append_reply t a item [] = ground arith
exists-append_reply t a item ((t', a', rs) ∷ gs) = ground (arith, exists-append_reply t a item gs)

append_reply-Unique :
    (item : ObservedReply) (gs : List Group) → Unique gs → Unique (append_reply item gs)
unfolding append_reply
append_reply-Unique item [] u = (refl, tt)
append_reply-Unique item ((t, a, rs) ∷ gs) (new, u) =
    by_key (t == item.tenant_id && a == item.tenant_account_id) refl (append_reply-Unique item gs u)
  where
    by_key :
        (b : Bool)
        → (t == item.tenant_id && a == item.tenant_account_id) ≡ b
        → Unique (append_reply item gs)
        → Unique
            (if b then (t, a, rs ++ item.reply ∷ []) ∷ gs else (t, a, rs) ∷ append_reply item gs)
    by_key true e r = (new, u)
    by_key false e r = (exists-append_reply t a item gs ∙ ground (arith, new, e), r)

group_from-Unique :
    (items : List ObservedReply) (gs : List Group) → Unique gs → Unique (group_from items gs)
group_from-Unique [] gs u = u
group_from-Unique (item ∷ items) gs u =
    group_from-Unique items (append_reply item gs) (append_reply-Unique item gs u)

-- The replies of the group are those of its key in the groups.
abbrev IsOwn : List Group → Group → Type 0
IsOwn gs g = replies_of g.0 g.1 gs ≡ g.2

IsOwn-tail :
    (g : Group) (gs hs : List Group)
    → exists (has_key g.0 g.1) hs ≡ false
    → All (IsOwn gs) hs
    → All (IsOwn (g ∷ gs)) hs
unfolding has_key
IsOwn-tail g gs [] new own = tt
IsOwn-tail g gs (h ∷ hs) new (own, rest) = (apart, IsOwn-tail g gs hs (ground (arith, new)) rest)
  where
    apart : IsOwn (g ∷ gs) h
    apart = ground (arith, new, own)

Unique-IsOwn : (gs : List Group) → Unique gs → All (IsOwn gs) gs
unfolding has_key
Unique-IsOwn [] u = tt
Unique-IsOwn (g ∷ gs) (new, u) = (first_own, IsOwn-tail g gs gs new (Unique-IsOwn gs u))
  where
    first_own : IsOwn (g ∷ gs) g
    first_own = ground arith

-- The groups hold what their account observed.
abbrev pub IsObserved : List ObservedReply → Group → Type 0
IsObserved observed g = g.2 ≡ observed_by g.0 g.1 observed

own-IsObserved :
    (observed : List ObservedReply) (gs : List Group)
    → All (IsOwn (group_replies_by_tenant_account observed)) gs
    → All (IsObserved observed) gs
own-IsObserved observed [] own = tt
own-IsObserved observed (g ∷ gs) (own, rest) = (
  sym own ∙ group_replies_by_tenant_account_lem g.0 g.1 observed,
  own-IsObserved observed gs rest,
)

pub groups-IsObserved :
    (observed : List ObservedReply)
    → All (IsObserved observed) (group_replies_by_tenant_account observed)
groups-IsObserved observed =
    own-IsObserved observed (group_replies_by_tenant_account observed)
      (Unique-IsOwn (group_replies_by_tenant_account observed) (group_from-Unique observed [] tt))
