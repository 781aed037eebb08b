-- ===== src/Program.antt =====
-- cmd/orchestrator/main.go: what the program makes of its environment and of the tenants at its start,
-- and where it sends a request. A variable that is not set is the empty text; strconv.ParseBool and the
-- configuration of the SDK are parameters.
pub mod Host
use aba_go_orchestrator.Common.{
  ℕ, ◌+◌, Text, lit, text_eq, is_empty, trim_space, trim_right_slashes, has_prefix, length, take,
  drop, ltb, ◌==◌, Bool, true, false, Option, none, some, List, [], ◌∷◌, ◌++◌, if◌then◌else◌,
}
use aba_go_orchestrator.Domain.Models.{Tenant}
use aba_go_orchestrator.Repository.Store.{Db, Result, ok, err, ◌>>=◌, ◌>>◌, Faults, exec, panicked}
use aba_go_orchestrator.Logging.{index_slashes}
use aba_go_orchestrator.Config.Environment.{Environ}
use aba_go_orchestrator.Storage.{S3StoreConfig, S3Store, new_s3_store}

-- The text before the first slash.
unfoldable pub until_slash : Text → Text
until_slash [] = []
until_slash (c ∷ s) = if c == b'/' then [] else c ∷ until_slash s

-- The slicing at i+2, where `i` is the place of the second slash; it panics behind the end.
abbrev pub host_at : Text → Option ℕ → Result Text
host_at raw none = ok []
host_at raw (some start) =
    let i = start + 1 in
    if ltb (length raw) (i + 2)
    then err panicked
    else ok (take (i + 2) raw ++ until_slash (drop (i + 2) raw))

unfoldable pub derive_host : Text → Result Text
unfolding until_slash index_slashes
derive_host raw = host_at raw (index_slashes raw)

abbrev pub value_or : Text → Text → Text
value_or v fallback = if is_empty v then fallback else v

abbrev pub or_derived : Text → Text → Result Text
unfolding derive_host
or_derived v submit_url = if is_empty v then derive_host submit_url else ok v

unfoldable pub endpoint_of : Environ → Text
endpoint_of env = value_or (env (lit "SEAWEED_S3_ENDPOINT")) (lit "http://127.0.0.1:8333")

unfoldable pub bucket_of : Environ → Text
bucket_of env = value_or (env (lit "SEAWEED_S3_BUCKET")) (lit "campaign-attachments")

unfoldable pub submit_url_of : Environ → Text
unfolding bucket_of
submit_url_of env =
    value_or (env (lit "SEAWEED_SUBMIT_URL"))
      (lit "http://localhost:8888/" ++ bucket_of env ++ lit "/")

abbrev pub or_false : Option Bool → Bool
or_false none = false
or_false (some b) = b

-- The configuration of the attachment store, with the base of the HTTP addresses.
abbrev pub config_with : (Text → Option Bool) → Environ → Text → S3StoreConfig
unfolding endpoint_of bucket_of submit_url_of trim_right_slashes
config_with parse_bool env http_public = record {
  endpoint = endpoint_of env;
  region = env (lit "SEAWEED_S3_REGION");
  bucket = bucket_of env;
  public_base_url = env (lit "SEAWEED_S3_PUBLIC_BASE_URL");
  fid_upload_url = [];
  use_s3_signed_put = false;
  seaweed_submit_url = submit_url_of env;
  force_http_upload = or_false (parse_bool (env (lit "SEAWEED_FORCE_HTTP_UPLOAD")));
  http_public_base_url = value_or http_public (endpoint_of env);
  public_download_url = trim_right_slashes (env (lit "SEAWEED_PUBLIC_DOWNLOAD_URL"));
}

unfoldable pub store_config : (Text → Option Bool) → Environ → Result S3StoreConfig
unfolding config_with or_derived
store_config parse_bool env =
    or_derived (env (lit "SEAWEED_HTTP_PUBLIC_BASE_URL")) (submit_url_of env) >>= λ http_public.
    ok (config_with parse_bool env http_public)

abbrev pub store_or_none : Result S3Store → Option S3Store
store_or_none (ok s) = some s
store_or_none (err e) = none

-- An error of the store is only logged, and then there is none.
abbrev pub store_of : Bool → Result S3StoreConfig → Result (Option S3Store)
unfolding new_s3_store
store_of loads (err e) = err e
store_of loads (ok c) = ok (store_or_none (new_s3_store loads c))

unfoldable pub attachment_store : Bool → (Text → Option Bool) → Environ → Result (Option S3Store)
unfolding store_config store_of
attachment_store loads parse_bool env = store_of loads (store_config parse_bool env)

pub data Warning : Type 0 where
  check_failed no_tenants : Warning
  no_admin_phone : ℕ → Warning

abbrev pub admin_phone_text : Option Text → Text
admin_phone_text none = []
admin_phone_text (some p) = p

abbrev pub tenant_warnings : List Tenant → List Warning
unfolding trim_space
tenant_warnings [] = []
tenant_warnings (t ∷ ts) =
    let rest = tenant_warnings ts in
    if is_empty (trim_space (admin_phone_text t.admin_phone))
    then no_admin_phone t.id ∷ rest
    else rest

-- warnMissingTenantBaseline.
unfoldable pub warn_missing_tenant_baseline : Faults → Db → List Warning
unfolding trim_space
warn_missing_tenant_baseline f db =
    if f 0
    then check_failed ∷ []
    else elim db.tenants [ [] ↦ no_tenants ∷ [] | t ∷ ts ↦ tenant_warnings (t ∷ ts) ]

-- The handlers of the mux.
pub data Handler : Type 0 where
  upload_handler list_handler subroutes_handler polling_handler stream_handler : Handler
  callback_handler webhook_handler download_handler stop_handler not_found : Handler

abbrev pub routes : List (Text × Handler)
routes =
    (lit "/api/v1/campaigns/upload", upload_handler)
    ∷ (lit "/api/v1/campaigns", list_handler)
    ∷ (lit "/api/v1/campaigns/trigger-polling", polling_handler)
    ∷ (lit "/api/v1/campaigns/stream", stream_handler)
    ∷ (lit "/api/v1/workers/callback", callback_handler)
    ∷ (lit "/api/v1/workers/replies-webhook", webhook_handler)
    ∷ (lit "/api/v1/campaigns/download", download_handler)
    ∷ (lit "/api/v1/campaigns/stop", stop_handler)
    ∷ []

-- The one pattern that ends with a slash takes the paths below it that no other pattern is.
abbrev pub exact_or_below : List (Text × Handler) → Text → Handler
exact_or_below [] path =
    if has_prefix (lit "/api/v1/campaigns/") path then subroutes_handler else not_found
exact_or_below ((pattern', h) ∷ rs) path =
    let rest = exact_or_below rs path in if text_eq pattern' path then h else rest

-- http.ServeMux for a clean path.
unfoldable pub route : Text → Handler
unfolding text_eq has_prefix
route path = exact_or_below routes path

-- corsMux: an OPTIONS request is answered with the headers alone.
unfoldable pub serve : Text → Text → Option Handler
unfolding text_eq route
serve method path = if text_eq method (lit "OPTIONS") then none else some (route path)
