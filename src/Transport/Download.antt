-- ===== src/Transport/Download.antt =====
-- internal/transport/http.go: DownloadCampaign, with the name of the file that it sends.
pub mod Names
use aba_go_orchestrator.Common.{
  ℕ, ◌-◌, Text, lit, is_empty, take, length, ◌==◌, Bool, true, false, not, ◌&&◌, ◌||◌, Option, none,
  some, List, [], ◌∷◌, ◌++◌, exists, if◌then◌else◌,
}
use aba_go_orchestrator.Domain.Models.{Campaign}
use aba_go_orchestrator.Repository.Store.{Db, Result, ok, err, Faults}
use aba_go_orchestrator.Repository.Uploads.{get_campaign}
use aba_go_orchestrator.Usecase.Report.{Excel, generate_excel}
use aba_go_orchestrator.Transport.{Method, is_get, Response, http_error, file, Parsers}
use aba_go_orchestrator.Transport.Campaigns.{campaign_id_of}
use aba_go_orchestrator.Usecase.Report

-- The first loop of getExtension stops at these.
abbrev pub is_stop : ℕ → Bool
is_stop c = c == b'.' || c == b'/' || c == b'\\'

-- The text from its last dot on.
unfoldable pub from_last_dot : Text → Text
from_last_dot [] = []
from_last_dot (c ∷ s) =
    let rest = from_last_dot s in
    if not (is_empty rest) then rest else if c == b'.' then c ∷ s else []

unfoldable pub get_extension : Text → Text
unfolding from_last_dot
get_extension s = if not (is_empty s) && not (exists is_stop s) then [] else from_last_dot s

-- The original name with "_status" before its extension.
unfoldable pub status_name : Text → Text
unfolding get_extension
status_name s =
    let ext = get_extension s in
    if not (is_empty ext)
    then take (length s - length ext) s ++ lit "_status" ++ ext
    else s ++ lit "_status.xlsx"

-- `readable path` is whether the report opens.
abbrev pub download_answer : (Text → Bool) → Campaign → Result Text × Db → Response × Db
unfolding status_name
download_answer readable c (err e, db) = (http_error 500, db)
download_answer readable c (ok path, db) =
    (if readable path then file (status_name c.original_excel_name) path else http_error 500, db)

abbrev pub download_found :
    (x : Excel) → Report.Outside x → (Text → Bool) → ℕ → Db → Result Campaign → Response × Db
unfolding generate_excel
download_found x o readable id db (err e) = (http_error 404, db)
download_found x o readable id db (ok c) = download_answer readable c (generate_excel x o id db)

abbrev pub download_one :
    (x : Excel) → Report.Outside x → (Text → Bool) → Faults → Db → Option ℕ → Response × Db
unfolding get_campaign
download_one x o readable f db none = (http_error 400, db)
download_one x o readable f db (some id) = download_found x o readable id db (get_campaign f id db)

unfoldable pub download_campaign :
    (x : Excel)
    → Report.Outside x
    → (Text → Bool)
    → Parsers
    → Faults
    → Method
    → Text
    → Db
    → Response × Db
download_campaign x o readable p f m campaign_id db =
    if not (is_get m)
    then (http_error 405, db)
    else download_one x o readable f db (campaign_id_of p campaign_id)
