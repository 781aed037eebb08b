-- ===== src/Examples/Attachments.antt =====
-- internal/storage/s3.go: the upload of an attachment with a store that signs nothing.
use aba_go_orchestrator.Common.{lit, trim_right_slashes, none, some, [], false, true, ◌≡◌, refl}
use aba_go_orchestrator.Repository.Store.{ok}
use aba_go_orchestrator.Storage.{S3StoreConfig, S3Store, new_s3_store, Outside, put}
use aba_go_orchestrator.Storage.Calls.{OnlyPosts, submit_url, put-unsigned}

abbrev config : S3StoreConfig
config = record {
  endpoint = lit "http://s3/";
  region = [];
  bucket = lit "b";
  public_base_url = [];
  fid_upload_url = [];
  use_s3_signed_put = false;
  seaweed_submit_url = lit "http://filer//";
  force_http_upload = false;
  http_public_base_url = [];
  public_download_url = [];
}

abbrev store : S3Store
store = record {
  bucket = lit "b";
  public_base_url = lit "http://s3";
  public_download_url = [];
  endpoint = lit "http://s3";
  fid_upload_url = lit "http://filer/";
  use_s3_signed_put = false;
  use_seaweed_http_fid = true;
  http_public_base_url = [];
}

abbrev outside : Outside
outside = record {
  reads = true;
  put_object = λ key. none;
  forms = true;
  post = λ url. some (201, lit "{}");
  json = λ body name. lit "k";
  with_path = λ base f. none;
}

made : new_s3_store true config ≡ ok store
unfolding new_s3_store trim_right_slashes
made = refl

put-unsigned_example : OnlyPosts (submit_url config) (put outside store (lit "k"))
put-unsigned_example = put-unsigned true config outside store (lit "k") made refl
