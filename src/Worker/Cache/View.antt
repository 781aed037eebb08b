-- ===== src/Worker/Cache/View.antt =====
-- internal/blocklist/cache.go: the cache against the table that it copies.
use aba_go_orchestrator.Common.{
  ℕ, Text, text_eq, ◌==◌, false, List, [], ◌∷◌, exists, map, ◌&&◌, ◌≡◌, refl, arith,
}
use aba_go_orchestrator.Domain.Models.{BlockedRecipient}
use aba_go_orchestrator.Repository.Store.{Db, Faults}
use aba_go_orchestrator.Repository.Pending.{is_blocked_recipient}
use aba_go_orchestrator.Repository.Replies.{list_blocked_recipients}
use aba_go_orchestrator.Worker.Cache.{Cache, is_blocked, refresh}

exists-rows :
    (tenant_id : ℕ) (phone : Text) (bs : List BlockedRecipient)
    → is_blocked tenant_id phone (map (λ b. (b.tenant_id, b.phone_normalized)) bs)
      ≡ exists (λ b. b.tenant_id == tenant_id && text_eq b.phone_normalized phone) bs
unfolding is_blocked
exists-rows tenant_id phone [] = refl
exists-rows tenant_id phone (b ∷ bs) = ground (arith, exists-rows tenant_id phone bs)

-- After a refresh whose query goes through, the cache answers for every tenant and phone what the
-- doser's query finds in the table; what the cache held before does not matter.
pub refresh-is_blocked :
    (f : Faults) (tenant_id : ℕ) (phone : Text) (db : Db) (cache : Cache)
    → f 0 ≡ false
    → is_blocked tenant_id phone (refresh (list_blocked_recipients f db) cache)
      ≡ is_blocked_recipient db tenant_id phone
unfolding refresh list_blocked_recipients is_blocked_recipient
refresh-is_blocked f tenant_id phone db cache h = rw h (exists-rows tenant_id phone db.blocked)
