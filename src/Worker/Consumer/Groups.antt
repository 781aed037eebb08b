-- ===== src/Worker/Consumer/Groups.antt =====
-- internal/worker/result_consumer.go: what groupRepliesByTenantAccount collects for a key.
use aba_go_orchestrator.Common.{
  ℕ, ◌==◌, List, [], ◌∷◌, ◌++◌, if◌then◌else◌, ◌&&◌, ◌≡◌, ap, sym, ◌∙◌, arith,
}
use mathlib.Core.List.{append_assoc, append-nil}
use aba_go_orchestrator.Domain.Models.{ClientReplyInfo}
use aba_go_orchestrator.Worker.Consumer.{ObservedReply}
use aba_go_orchestrator.Worker.Consumer.Flush.{
  Group, has_key, append_reply, group_from, group_replies_by_tenant_account,
}

-- The map's entry for a key: a missing one reads as no replies.
abbrev pub replies_of : ℕ → ℕ → List Group → List ClientReplyInfo
replies_of t a [] = []
replies_of t a (g ∷ gs) = let rest = replies_of t a gs in if has_key t a g then g.2 else rest

-- The replies of one tenant that one account observed, in their order.
abbrev pub observed_by : ℕ → ℕ → List ObservedReply → List ClientReplyInfo
observed_by t a [] = []
observed_by t a (item ∷ items) =
    let rest = observed_by t a items in
    if item.tenant_id == t && item.tenant_account_id == a then item.reply ∷ rest else rest

append_reply-replies_of :
    (t a : ℕ) (item : ObservedReply) (gs : List Group)
    → replies_of t a (append_reply item gs) ≡ replies_of t a gs ++ observed_by t a (item ∷ [])
unfolding append_reply has_key
append_reply-replies_of t a item [] = ground arith
append_reply-replies_of t a item ((t', a', rs) ∷ gs) =
    ground
      (arith, append_reply-replies_of t a item gs, append-nil rs, append-nil (replies_of t a gs))

group_from_lem :
    (t a : ℕ) (items : List ObservedReply) (gs : List Group)
    → replies_of t a (group_from items gs) ≡ replies_of t a gs ++ observed_by t a items
group_from_lem t a [] gs = sym (append-nil _)
group_from_lem t a (item ∷ items) gs =
    group_from_lem t a items (append_reply item gs)
    ∙ ap (λ l. l ++ observed_by t a items) (append_reply-replies_of t a item gs)
    ∙ append_assoc (replies_of t a gs) _ _
    ∙ ap (λ l. replies_of t a gs ++ l) (ground arith)

-- Every key gets exactly the replies of its tenant and account, in the order in which they came:
-- none is lost, doubled or attributed to another account.
pub group_replies_by_tenant_account_lem :
    (t a : ℕ) (observed : List ObservedReply)
    → replies_of t a (group_replies_by_tenant_account observed) ≡ observed_by t a observed
group_replies_by_tenant_account_lem t a observed = group_from_lem t a observed []
