-- ===== src/Transport/Hub.antt =====
-- internal/transport/websocket.go: the hub. The clients of a campaign are its connections.
use aba_go_orchestrator.Common.{
  ℕ, ◌==◌, Text, Option, none, some, Bool, not, ◌&&◌, List, [], ◌∷◌, ◌++◌, map, select, exists,
  if◌then◌else◌,
}
use aba_go_orchestrator.Transport.{CampaignState, Response, http_error, Parsers}

pub record Client : Type 0 where
  pub campaign_id : ℕ
  pub conn : ℕ

abbrev pub Hub : Type 0
Hub = List Client

abbrev pub is_client : ℕ → ℕ → Client → Bool
is_client campaign_id conn c = c.campaign_id == campaign_id && c.conn == conn

-- HandleStream: `conns.Store` at its start, and the deferred `conns.Delete`.
unfoldable pub store_conn : ℕ → ℕ → Hub → Hub
store_conn campaign_id conn h =
    if exists (is_client campaign_id conn) h
    then h
    else h ++ record { campaign_id = campaign_id; conn = conn } ∷ []

unfoldable pub delete_conn : ℕ → ℕ → Hub → Hub
delete_conn campaign_id conn h = select (λ c. not (is_client campaign_id conn c)) h

-- A message to a connection.
pub record Push : Type 0 where
  pub conn : ℕ
  pub state : CampaignState

abbrev pub push : CampaignState → Client → Push
push s c = record { conn = c.conn; state = s }

unfoldable pub broadcast_status : Hub → ℕ → CampaignState → List Push
broadcast_status h campaign_id s = map (push s) (select (λ c. c.campaign_id == campaign_id) h)

-- The campaign of the request, and the upgrade: none, or the status with which it is refused.
abbrev pub streamed : Option ℕ → Option ℕ → ℕ → Hub → Option Response × Hub
unfolding store_conn
streamed none refusal conn h = (some (http_error 400), h)
streamed (some id) none conn h = (none, store_conn id conn h)
streamed (some id) (some code) conn h = (some (http_error code), h)

-- HandleStream up to its loop, at whose end the client is deleted; an upgraded connection has no
-- response.
unfoldable pub handle_stream : Parsers → Text → Option ℕ → ℕ → Hub → Option Response × Hub
unfolding streamed
handle_stream p id refusal conn h = streamed (p.parse_uuid id) refusal conn h
