-- ===== src/Transport/Campaigns.antt =====
-- internal/transport/http.go: the handlers of campaigns. The deadlines of the
-- calls are left out.
use aba_go_orchestrator.Common.{
  Bool, true, false, if◌then◌else◌, trim_left_slashes, trim_right_slashes, ℕ, Text, text_eq, lit,
  is_empty, split, take, drop, length, not, Option, none, some, List, [], ◌∷◌, if◌then◌else◌,
}
use aba_go_orchestrator.Domain.Models.{Campaign, uuid_nil}
use aba_go_orchestrator.Repository.Store.{Db, Result, ok, err, Faults}
use aba_go_orchestrator.Repository.Uploads.{get_campaign, list_campaigns}
use aba_go_orchestrator.Repository.Campaigns.{stop_campaign}
use aba_go_orchestrator.Config.{Config}
use aba_go_orchestrator.Usecase.Upload.{Upload, Disk, upload_campaign}
use aba_go_orchestrator.Transport.{
  Method, is_get, is_post, Response, http_error, json_ok, json_id, json_campaigns, redirect,
  Parsers,
}
use aba_go_orchestrator.Usecase.Upload

-- r.FormFile: the name of a file, http.ErrMissingFile, or another error.
pub data FormFile : Type 0 where
  present : Text → FormFile
  missing broken : FormFile

pub record Form : Type 0 where
  pub value : Text → Text
  pub excel : FormFile
  pub attachment : FormFile
  pub file : FormFile

abbrev pub parsed_or_nil : Option ℕ → ℕ
parsed_or_nil none = uuid_nil
parsed_or_nil (some id) = id

abbrev pub start_time : Parsers → Text → Option ℕ
start_time p s = if is_empty s then none else p.parse_time s

-- The attachment, under either of its names.
abbrev pub form_attachment : Form → FormFile
form_attachment form = elim form.attachment [ missing ↦ form.file | a ↦ a ]

-- What the form asks for, with the excel file's name and the attachment.
abbrev pub upload_of : Parsers → Form → Text → Option Text → Upload
upload_of p form excel attachment = record {
  tenant_id = parsed_or_nil (p.parse_uuid (form.value (lit "tenant_id")));
  name = form.value (lit "name");
  template = form.value (lit "template");
  start_immediately = not (text_eq (form.value (lit "start_immediately")) (lit "false"));
  time_to_start = start_time p (form.value (lit "time_to_start"));
  original_name = excel;
  attachment = attachment;
}

abbrev pub upload_answer : Result ℕ × Disk → Response × Disk
upload_answer (err e, d) = (http_error 500, d)
upload_answer (ok id, d) = (json_id id, d)

abbrev pub upload_with :
    Parsers → Config → Upload.Outside → Form → Text → FormFile → Disk → Response × Disk
unfolding upload_campaign
upload_with p c o form excel broken d = (http_error 400, d)
upload_with p c o form excel missing d =
    upload_answer (upload_campaign c o (upload_of p form excel none) d)
upload_with p c o form excel (present name) d =
    upload_answer (upload_campaign c o (upload_of p form excel (some name)) d)

abbrev pub upload_form : Parsers → Config → Upload.Outside → Option Form → Disk → Response × Disk
upload_form p c o none d = (http_error 400, d)
upload_form p c o (some form) d = elim form.excel [
  | present excel ↦ upload_with p c o form excel (form_attachment form) d
  | _ ↦ (http_error 400, d)
]

-- UploadCampaign; `none` is a body that ParseMultipartForm rejects.
unfoldable pub upload :
    Parsers → Config → Upload.Outside → Method → Option Form → Disk → Response × Disk
upload p c o m form d = if not (is_post m) then (http_error 405, d) else upload_form p c o form d

abbrev pub attachment_answer : Result Campaign → Response
attachment_answer (err e) = http_error 500
attachment_answer (ok c) = elim c.attachment_url [
  | none ↦ http_error 404
  | some url ↦ if is_empty url then http_error 404 else redirect url
]

unfoldable pub download_campaign_attachment : Faults → Method → ℕ → Db → Response
unfolding get_campaign
download_campaign_attachment f m id db =
    if not (is_get m) then http_error 405 else attachment_answer (get_campaign f id db)

-- strings.TrimPrefix.
abbrev pub trim_prefix : Text → Text → Text
trim_prefix prefix s = if text_eq (take (length prefix) s) prefix then drop (length prefix) s else s

abbrev pub subroute : Parsers → Faults → Method → Db → List Text → Response
unfolding download_campaign_attachment
subroute p f m db (id ∷ what ∷ []) =
    if text_eq what (lit "attachment")
    then elim (p.parse_uuid id) [
      | none ↦ http_error 400
      | some campaign_id ↦ download_campaign_attachment f m campaign_id db
    ]
    else http_error 404
subroute p f m db _ = http_error 404

unfoldable pub campaign_subroutes : Parsers → Faults → Method → Text → Db → Response
unfolding trim_left_slashes trim_right_slashes split
campaign_subroutes p f m path db = subroute p f m db (
    split (trim_right_slashes (trim_left_slashes (trim_prefix (lit "/api/v1/campaigns/") path)))
      b'/')

-- The campaign that the query names.
abbrev pub campaign_id_of : Parsers → Text → Option ℕ
campaign_id_of p s = if is_empty s then none else p.parse_uuid s

abbrev pub stop_answer : Result (Unit {0}) × Db → Response × Db
stop_answer (err e, db) = (http_error 500, db)
stop_answer (ok done, db) = (json_ok, db)

abbrev pub stop_one : Faults → ℕ → Db → Option ℕ → Response × Db
unfolding stop_campaign
stop_one f now db none = (http_error 400, db)
stop_one f now db (some id) = stop_answer (stop_campaign f now id db)

-- StopCampaign.
unfoldable pub stop : Parsers → Faults → ℕ → Method → Text → Db → Response × Db
stop p f now m campaign_id db =
    if not (is_post m)
    then (http_error 405, db)
    else stop_one f now db (campaign_id_of p campaign_id)

abbrev pub list_answer : Result (List Campaign) → Response
list_answer (err e) = http_error 500
list_answer (ok cs) = json_campaigns cs

abbrev pub list_of : Faults → Db → Option ℕ → Response
unfolding list_campaigns
list_of f db none = http_error 400
list_of f db (some tenant_id) = list_answer (list_campaigns f tenant_id db)

-- ListCampaigns; no tenant is the tenant of the tests.
unfoldable pub list : Parsers → Faults → Method → Text → Db → Response
list p f m tenant_id db =
    if not (is_get m)
    then http_error 405
    else list_of f db (
        p.parse_uuid
          (if is_empty tenant_id then lit "00000000-0000-0000-0000-000000000000" else tenant_id))

-- TriggerPolling: the answer, and whether a goroutine with PollActiveCampaigns is started.
unfoldable pub trigger_polling : Method → Response × Bool
trigger_polling m = if is_post m then (json_ok, true) else (http_error 405, false)
