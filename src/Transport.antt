-- ===== src/Transport.antt =====
-- internal/transport: the HTTP handlers and the websocket hub. A request is what the handler reads of
-- it; uuid.Parse, time.Parse and the JSON decoder are arguments. The texts of the errors are left out.
pub mod Hub
pub mod Campaigns
pub mod Download
pub mod Webhooks
use aba_go_orchestrator.Common.{ℕ, Text, Bool, true, false, Option, List}
use aba_go_orchestrator.Domain.Status.{CampaignStatus}
use aba_go_orchestrator.Domain.Models.{Campaign}

pub data Method : Type 0 where
  get post other_method : Method

abbrev pub is_get : Method → Bool
is_get get = true
is_get _ = false

abbrev pub is_post : Method → Bool
is_post post = true
is_post _ = false

-- The answers: http.Error with its status code, 200 with nothing, with an id, with "ok" or with
-- campaigns, a redirection, and a file under a name.
pub data Response : Type 0 where
  http_error : ℕ → Response
  status_ok json_ok : Response
  json_id : ℕ → Response
  json_campaigns : List Campaign → Response
  redirect : Text → Response
  file : Text → Text → Response

-- What a client of the hub is told of a campaign.
pub record CampaignState : Type 0 where
  pub campaign_id : ℕ
  pub status : CampaignStatus
  pub processed_count : ℕ
  pub total_count : ℕ
  pub error_count : ℕ

abbrev pub state_of : Campaign → CampaignState
state_of c = record {
  campaign_id = c.id;
  status = c.status;
  processed_count = c.processed_count;
  total_count = c.total_count;
  error_count = c.error_count;
}

-- uuid.Parse, and time.Parse by RFC 3339.
pub record Parsers : Type 0 where
  pub parse_uuid : Text → Option ℕ
  pub parse_time : Text → Option ℕ
