-- ===== src/Storage.antt =====
-- internal/storage/s3.go: the attachment store. The S3 client, the HTTP client, the JSON decoder and
-- package net/url are arguments; what an upload calls stands in a list. The bytes of the body are left
-- out.
pub mod Calls
pub mod Addresses
use aba_go_orchestrator.Common.{
  ℕ, zero, suc, ◌+◌, Text, lit, is_empty, trim_space, contains, has_prefix, to_lower,
  trim_right_slashes, leb, ltb, ◌==◌, Bool, true, false, not, ◌&&◌, ◌||◌, Option, none, some, List,
  [], ◌∷◌, ◌++◌, drop, if◌then◌else◌,
}
use aba_go_orchestrator.Repository.Store.{Result, ok, err, storage_error}

pub record S3StoreConfig : Type 0 where
  pub endpoint : Text
  pub region : Text
  pub bucket : Text
  pub public_base_url : Text
  pub fid_upload_url : Text
  pub use_s3_signed_put : Bool
  pub seaweed_submit_url : Text
  pub force_http_upload : Bool
  pub http_public_base_url : Text
  pub public_download_url : Text

pub record S3Store : Type 0 where
  pub bucket : Text
  pub public_base_url : Text
  pub public_download_url : Text
  pub endpoint : Text
  pub fid_upload_url : Text
  pub use_s3_signed_put : Bool
  pub use_seaweed_http_fid : Bool
  pub http_public_base_url : Text

abbrev pub or_text : Text → Text → Text
or_text s other = if is_empty s then other else s

-- NewS3Store; `loads` is whether the configuration of the SDK loads.
unfoldable pub new_s3_store : Bool → S3StoreConfig → Result S3Store
unfolding trim_right_slashes
new_s3_store loads c =
    if is_empty c.endpoint || is_empty c.bucket || not loads
    then err storage_error
    else ok (record {
      bucket = c.bucket;
      public_base_url =
          trim_right_slashes (or_text c.public_base_url (trim_right_slashes c.endpoint));
      public_download_url = trim_right_slashes c.public_download_url;
      endpoint = trim_right_slashes c.endpoint;
      fid_upload_url = trim_right_slashes c.seaweed_submit_url ++ lit "/";
      use_s3_signed_put = c.use_s3_signed_put;
      use_seaweed_http_fid =
          c.force_http_upload
          || not (is_empty c.seaweed_submit_url)
          || not (is_empty c.fid_upload_url);
      http_public_base_url = trim_right_slashes c.http_public_base_url;
    })

unfoldable pub is_retryable_s3_err : Text → Bool
unfolding to_lower contains
is_retryable_s3_err e =
    let s = to_lower e in
    contains (lit "accessdenied") s
    || contains (lit "403") s
    || contains (lit "notimplemented") s
    || contains (lit "501") s

-- The part of an address before its path: strings.Index of "://", and the loop over the rest.
unfoldable pub host_part : Text → Text
host_part [] = []
host_part (c ∷ s) = if c == b'/' || c == b'?' || c == b'#' then [] else c ∷ host_part s

unfoldable pub strip_path : Text → Text
unfolding host_part has_prefix
strip_path [] = []
strip_path (c ∷ s) =
    let rest = strip_path s in
    if has_prefix (lit "://") (c ∷ s) then lit "://" ++ host_part (drop 3 (c ∷ s)) else c ∷ rest

abbrev pub is_quote : ℕ → Bool
is_quote c = c == 34 || c == 39 || c == 96

-- strings.Trim of the three quotes.
unfoldable pub trim_left_quotes : Text → Text
trim_left_quotes [] = []
trim_left_quotes (c ∷ s) = if is_quote c then trim_left_quotes s else c ∷ s

unfoldable pub trim_right_quotes : Text → Text
trim_right_quotes [] = []
trim_right_quotes (c ∷ s) =
    let rest = trim_right_quotes s in if is_empty rest && is_quote c then [] else c ∷ rest

pub data Call : Type 0 where
  put_object post : Text → Call

-- `put_object key` is the error of PutObject, `none` where it goes through; `post url` the status and
-- the body of the answer, `none` where there is none; `json body name` a string of the decoded body and
-- "" where it has none; `with_path base f` is url.Parse of the base, with `f` on its path, as a text.
pub record Outside : Type 0 where
  pub reads : Bool
  pub put_object : Text → Option Text
  pub forms : Bool
  pub post : Text → Option (ℕ × Text)
  pub json : Text → Text → Text
  pub with_path : Text → (Text → Text) → Option Text

-- The base of the addresses of an HTTP upload.
unfoldable pub public_base : S3Store → Text
unfolding strip_path trim_right_slashes
public_base s = trim_right_slashes (
    or_text s.public_download_url (
      or_text s.http_public_base_url (
        if s.use_seaweed_http_fid && not s.use_s3_signed_put
        then strip_path s.fid_upload_url
        else s.endpoint)))

-- The body as an address.
abbrev pub raw_url : Text → Result Text
unfolding trim_left_quotes trim_right_quotes trim_space has_prefix
raw_url body =
    let raw = trim_right_quotes (trim_left_quotes (trim_space body)) in
    if has_prefix (lit "http://") raw || has_prefix (lit "https://") raw
    then ok raw
    else err storage_error

-- The address that an answer gives.
unfoldable pub address_of : Outside → S3Store → Text → Text → Result Text
unfolding public_base
address_of o s key body =
    let fid = o.json body (lit "fid") in
    let name = o.json body (lit "name") in
    if not (is_empty fid)
    then ok (public_base s ++ (lit "/" ++ fid))
    else if not (is_empty name)
    then ok (public_base s ++ (lit "/" ++ (s.bucket ++ (lit "/" ++ name))))
    else if not (is_empty (o.json body (lit "url")))
    then ok (public_base s ++ (lit "/" ++ (s.bucket ++ (lit "/" ++ key))))
    else raw_url body

abbrev pub answer_of : Outside → S3Store → Text → Option (ℕ × Text) → Result Text
unfolding address_of
answer_of o s key none = err storage_error
answer_of o s key (some (status, body)) =
    if ltb status 200 || leb 300 status then err storage_error else address_of o s key body

-- `forms` is whether the form and the request are made.
unfoldable pub put_seaweed_http : Outside → S3Store → Text → Result Text × List Call
put_seaweed_http o s key =
    if o.forms
    then (answer_of o s key (o.post s.fid_upload_url), post s.fid_upload_url ∷ [])
    else (err storage_error, [])

abbrev pub or_parse_error : Option Text → Result Text
or_parse_error none = err storage_error
or_parse_error (some url) = ok url

-- The address of an object in S3.
unfoldable pub object_url : Outside → S3Store → Text → Result Text
unfolding trim_right_slashes
object_url o s key = or_parse_error (
    o.with_path (or_text s.public_download_url s.public_base_url)
      (λ path. trim_right_slashes path ++ lit "/" ++ s.bucket ++ lit "/" ++ key))

abbrev pub before : List Call → Result Text × List Call → Result Text × List Call
before calls (r, later) = (r, calls ++ later)

abbrev pub put_http_if : Bool → Outside → S3Store → Text → Result Text × List Call
unfolding put_seaweed_http
put_http_if true o s key = put_seaweed_http o s key
put_http_if false o s key = (err storage_error, [])

-- What follows PutObject.
abbrev pub after_put_object : Outside → S3Store → Text → Option Text → Result Text × List Call
unfolding object_url is_retryable_s3_err
after_put_object o s key none = (object_url o s key, [])
after_put_object o s key (some e) =
    put_http_if (is_retryable_s3_err e && s.use_seaweed_http_fid && not (is_empty s.fid_upload_url))
      o s key

-- Put.
unfoldable pub put : Outside → S3Store → Text → Result Text × List Call
put o s key =
    if not o.reads
    then (err storage_error, [])
    else if not (is_empty s.fid_upload_url) && not s.use_s3_signed_put
    then put_http_if true o s key
    else if not s.use_seaweed_http_fid || s.use_s3_signed_put
    then before (put_object key ∷ []) (after_put_object o s key (o.put_object key))
    else put_http_if (s.use_seaweed_http_fid && not (is_empty s.fid_upload_url)) o s key
