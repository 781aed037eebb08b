-- ===== src/Storage/Calls.antt =====
-- internal/storage/s3.go: which servers an upload calls.
use aba_go_orchestrator.Common.{
  Text, lit, is_empty, trim_right_slashes, Bool, true, false, not, ◌&&◌, List, [], ◌∷◌, ◌++◌,
  if◌then◌else◌, ◌≡◌, refl, ap, ◌⊎◌, inl, inr, arith,
}
use aba_go_orchestrator.Repository.Store.{Result, ok, err, storage_error}
use aba_go_orchestrator.Storage.{
  S3StoreConfig, S3Store, new_s3_store, Outside, Call, post, put, put_http_if, put_seaweed_http,
}

ends-nonempty : (s : Text) → is_empty (s ++ lit "/") ≡ false
ends-nonempty [] = refl
ends-nonempty (c ∷ s) = refl

made :
    (loads : Bool) (c : S3StoreConfig) (s : S3Store)
    → new_s3_store loads c ≡ ok s
    → (s.fid_upload_url ≡ trim_right_slashes c.seaweed_submit_url ++ lit "/")
      × (s.use_s3_signed_put ≡ c.use_s3_signed_put)
unfolding new_s3_store
made loads c s h = ground arith

abbrev pub submit_url : S3StoreConfig → Text
submit_url c = trim_right_slashes c.seaweed_submit_url ++ lit "/"

-- Nothing is called, or one address is posted to.
abbrev pub OnlyPosts : Text → Result Text × List Call → Type 0
OnlyPosts url r = (r.1 ≡ []) ⊎ (r.1 ≡ post url ∷ [])

-- A store that is made without signed puts never calls PutObject, however the upload ends and whether or
-- not an address for HTTP uploads is configured: if it calls anything, it posts to the configured submit
-- address with one slash at its end, which is "/" where none is configured.
pub put-unsigned :
    (loads : Bool) (c : S3StoreConfig) (o : Outside) (s : S3Store) (key : Text)
    → new_s3_store loads c ≡ ok s
    → c.use_s3_signed_put ≡ false
    → OnlyPosts (submit_url c) (put o s key)
unfolding put put_seaweed_http put_http_if
put-unsigned loads c o s key h u =
    let (url, signed) = made loads c s h in
    let there : is_empty s.fid_upload_url ≡ false = rw url (ends-nonempty _) in
    let unsigned : s.use_s3_signed_put ≡ false = cc in
    by_tests o.reads (is_empty s.fid_upload_url) s.use_s3_signed_put o.forms _ _ _ there unsigned
      (ap (λ a. post a ∷ []) url)
  where
    by_tests :
        (x w v y : Bool) (r : Result Text) (other : Result Text × List Call) (calls : List Call)
        → w ≡ false
        → v ≡ false
        → calls ≡ post (submit_url c) ∷ []
        → OnlyPosts (submit_url c) (
            if not x
            then (err storage_error, [])
            else if not w && not v
            then if y then (r, calls) else (err storage_error, [])
            else other)
    by_tests true false false true r other calls e k l = inr l
    by_tests true false false false r other calls e k l = inl refl
    by_tests false w v y r other calls e k l = inl refl
    by_tests true true v y r other calls e k l = absurd (cc)
    by_tests true false true y r other calls e k l = absurd (cc)
