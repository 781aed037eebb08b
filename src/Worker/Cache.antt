-- ===== src/Worker/Cache.antt =====
-- internal/blocklist/cache.go: the set of blocked phones that the workers consult. The key of the Go
-- map, the tenant's uuid and the phone with a bar between, is the pair of them.
pub mod View
use aba_go_orchestrator.Common.{ℕ, Text, text_eq, Bool, ◌==◌, ◌&&◌, List, [], ◌∷◌, map, exists}
use aba_go_orchestrator.Domain.Models.{BlockedRecipient}
use aba_go_orchestrator.Repository.Store.{Result, ok, err}

abbrev pub Key : Type 0
Key = ℕ × Text

abbrev pub Cache : Type 0
Cache = List Key

abbrev pub new_cache : Cache
new_cache = []

abbrev same_key : ℕ → Text → Key → Bool
same_key tenant_id phone k = k.0 == tenant_id && text_eq k.1 phone

unfoldable pub is_blocked : ℕ → Text → Cache → Bool
is_blocked tenant_id phone = exists (same_key tenant_id phone)

unfoldable pub add : ℕ → Text → Cache → Cache
add tenant_id phone cache = (tenant_id, phone) ∷ cache

-- Refresh, with the answer of ListBlockedRecipients: an error leaves the cache as it is.
unfoldable pub refresh : Result (List BlockedRecipient) → Cache → Cache
refresh (err e) cache = cache
refresh (ok items) cache = map (λ b. (b.tenant_id, b.phone_normalized)) items
