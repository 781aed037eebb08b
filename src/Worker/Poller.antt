-- ===== src/Worker/Poller.antt =====
-- internal/worker/poller.go: what a poll asks the workers to look at. The outcomes of the publications
-- are arguments; Worker/Running has the flag that keeps two polls apart.
pub mod Chunks
pub mod Start
use aba_go_orchestrator.Common.{
  ℕ, zero, suc, ◌+◌, ◌-◌, Text, lit, replace_all, ltb, Bool, ◌&&◌, ◌||◌, List, [], ◌∷◌, ◌++◌, map,
  take, drop, length, if◌then◌else◌,
}
use aba_go_orchestrator.Domain.Status.{pending, sent, delivered, viewed, processing}
use aba_go_orchestrator.Domain.Models.{Campaign, CampaignTarget}
use aba_go_orchestrator.Repository.Store.{Db, Result, ok, err, Faults}
use aba_go_orchestrator.Repository.Campaigns.{
  get_campaigns_by_status, get_campaign_targets_with_status,
}

abbrev pub chunk_size : ℕ
chunk_size = 50

-- `targets[i:end]` with the end cut to the length.
abbrev pub slice {ℓ} : {A : Type ℓ} → ℕ → List A → List A
slice i ts =
    let end = if ltb (length ts) (i + chunk_size) then length ts else i + chunk_size in
    take (end - i) (drop i ts)

-- The loop `for i := 0; i < len(targets); i += chunkSize`, on fuel.
unfoldable pub chunks_from {ℓ} : {A : Type ℓ} → ℕ → ℕ → List A → List (List A)
chunks_from zero i ts = []
chunks_from (suc n) i ts =
    let rest = chunks_from n (i + chunk_size) ts in
    if ltb i (length ts) then slice i ts ∷ rest else []

abbrev pub chunks {ℓ} : {A : Type ℓ} → List A → List (List A)
chunks ts = chunks_from (length ts) 0 ts

pub record ChunkTarget : Type 0 where
  pub target_id : ℕ
  pub phone_normalized : Text
  pub message : Text

abbrev pub chunk_target : Campaign → CampaignTarget → ChunkTarget
unfolding replace_all
chunk_target c t = record {
  target_id = t.id;
  phone_normalized = t.phone_normalized;
  message = replace_all c.message_template (lit "{user_name}") t.client_name;
}

-- A message to the queue: the campaign and a chunk of its targets.
abbrev pub Poll : Type 0
Poll = ℕ × List ChunkTarget

abbrev pub polls : Campaign → Result (List CampaignTarget) → List Poll
polls c (err e) = []
polls c (ok ts) = map (λ chunk. (c.id, map (chunk_target c) chunk)) (chunks ts)

abbrev pub poll_each : (ℕ → Faults) → ℕ → Db → List Campaign → List Poll
poll_each f i db [] = []
poll_each f i db (c ∷ cs) =
    polls c
      (get_campaign_targets_with_status (f i) c.id (pending ∷ sent ∷ delivered ∷ viewed ∷ []) db)
    ++ poll_each f (i + 1) db cs

abbrev pub with_campaigns : (ℕ → Faults) → Db → Result (List Campaign) → List Poll
with_campaigns f db (err e) = []
with_campaigns f db (ok cs) = poll_each f 1 db cs

-- How the n-th publication ends: whether it goes through, whether the reconnect after it does, and
-- whether the second attempt does.
pub record Broker : Type 0 where
  pub publishes : ℕ → Bool
  pub reconnects : ℕ → Bool
  pub publishes_again : ℕ → Bool

abbrev pub is_published : Broker → ℕ → Bool
is_published b n = b.publishes n || (b.reconnects n && b.publishes_again n)

-- The messages that reach the queue: one that does not is only logged.
unfoldable pub publish_polls : Broker → ℕ → List Poll → List Poll
publish_polls b n [] = []
publish_polls b n (p ∷ ps) =
    let rest = publish_polls b (n + 1) ps in if is_published b n then p ∷ rest else rest

-- The messages of PollActiveCampaigns, in order.
unfoldable pub active_polls : (ℕ → Faults) → Db → List Poll
unfolding chunks_from
active_polls f db = with_campaigns f db (get_campaigns_by_status (f 0) processing db)

-- PollActiveCampaigns.
unfoldable pub poll_active_campaigns : Broker → (ℕ → Faults) → Db → List Poll
unfolding publish_polls active_polls
poll_active_campaigns b f db = publish_polls b 0 (active_polls f db)
