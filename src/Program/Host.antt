-- ===== src/Program/Host.antt =====
-- cmd/orchestrator/main.go: deriveHost, and the base of the addresses of uploads that it gives.
use aba_go_orchestrator.Common.{
  ℕ, suc, ◌+◌, Text, lit, is_empty, trim_right_slashes, length, length-append, take, drop, ltb,
  ◌==◌, Bool, true, false, Option, some, List, [], ◌∷◌, ◌++◌, All, ◌≡◌, refl, sym, ap, ◌∙◌, arith,
  ◌⊎◌, inl, inr,
}
use aba_go_orchestrator.Repository.Store.{Result, ok, err, ◌>>=◌}
use aba_go_orchestrator.Logging.{index_slashes}
use aba_go_orchestrator.Config.Environment.{Environ}
use aba_go_orchestrator.Storage.{
  S3StoreConfig, S3Store, Outside, new_s3_store, public_base, put_seaweed_http,
}
use aba_go_orchestrator.Storage.Addresses.{IsRaw, answered, address_of-base}
use aba_go_orchestrator.Program.{
  or_derived, config_with, submit_url_of, store_or_none, store_of, until_slash, host_at,
  derive_host, store_config, attachment_store,
}

abbrev pub NoSlash : Text → Type 0
NoSlash s = All (λ c. (c == b'/') ≡ false) s

-- The end of an address, or a path.
abbrev pub starts_path : Text → Bool
starts_path [] = true
starts_path (c ∷ s) = c == b'/'

module _ {A : Type 0} where
  take-append : (xs ys : List A) (n : ℕ) → take (length xs + n) (xs ++ ys) ≡ xs ++ take n ys
  take-append [] ys n = let e : 0 + n ≡ n = omega arith in ap (λ k. take k ys) e
  take-append (x ∷ xs) ys n =
      let e : suc (length xs) + n ≡ suc (length xs + n) = omega arith in
      ap (λ k. take k (x ∷ (xs ++ ys))) e ∙ ap (◌∷◌ x) (take-append xs ys n)

  drop-append : (xs ys : List A) (n : ℕ) → drop (length xs + n) (xs ++ ys) ≡ drop n ys
  drop-append [] ys n = let e : 0 + n ≡ n = omega arith in ap (λ k. drop k ys) e
  drop-append (x ∷ xs) ys n =
      let e : suc (length xs) + n ≡ suc (length xs + n) = omega arith in
      ap (λ k. drop k (x ∷ (xs ++ ys))) e ∙ drop-append xs ys n

append_assoc : (a b c : Text) → (a ++ b) ++ c ≡ a ++ (b ++ c)
append_assoc [] b c = refl
append_assoc (x ∷ a) b c = ap (◌∷◌ x) (append_assoc a b c)

until_slash-append :
    (host path : Text) → NoSlash host → starts_path path ≡ true → until_slash (host ++ path) ≡ host
unfolding until_slash
until_slash-append [] [] h p = refl
until_slash-append [] (c ∷ path) h p = rw p refl
until_slash-append (c ∷ host) path h p = rw h.0 (ap (◌∷◌ c) (until_slash-append host path h.1 p))

first_slashes :
    (scheme rest : Text)
    → NoSlash scheme
    → index_slashes (scheme ++ (lit "//" ++ rest)) ≡ some (length scheme)
unfolding index_slashes
first_slashes [] rest h = refl
first_slashes (c ∷ []) rest h = rw h.0 refl
first_slashes (c ∷ d ∷ scheme) rest h = rw (h.0, first_slashes (d ∷ scheme) rest h.1) refl

-- Of an address with a host, deriveHost gives the part up to the end of the host: the scheme without a
-- slash, two slashes, and the host, whose characters behind the first are no slashes, whether a path
-- follows or not.
pub derive_host_lem :
    (scheme host path : Text) (c : ℕ)
    → NoSlash scheme
    → NoSlash host
    → starts_path path ≡ true
    → derive_host (scheme ++ (lit "//" ++ c ∷ (host ++ path)))
      ≡ ok (scheme ++ (lit "//" ++ c ∷ host))
unfolding derive_host
derive_host_lem scheme host path c s h p =
    let rest : Text = b'/' ∷ b'/' ∷ c ∷ (host ++ path) in
    let raw : Text = scheme ++ rest in
    let size : length raw ≡ length scheme + length rest = length-append scheme rest in
    let long : ltb (length raw) (length scheme + 1 + 2) ≡ false = ground (arith, size) in
    let at : length scheme + 1 + 2 ≡ length scheme + 3 = omega arith in
    let kept : take (length scheme + 1 + 2) raw ≡ scheme ++ b'/' ∷ b'/' ∷ c ∷ [] =
      ap (λ k. take k raw) at ∙ take-append scheme rest 3 in
    let left : drop (length scheme + 1 + 2) raw ≡ host ++ path =
      ap (λ k. drop k raw) at ∙ drop-append scheme rest 3 in
    ap (host_at raw) (first_slashes scheme (c ∷ (host ++ path)) s)
    ∙ rw (long, kept, left, until_slash-append host path h p)
        (ap ok (append_assoc scheme (b'/' ∷ b'/' ∷ c ∷ []) host))

trim-kept : (c : ℕ) (s : Text) → NoSlash (c ∷ s) → trim_right_slashes (c ∷ s) ≡ c ∷ s
unfolding trim_right_slashes
trim-kept c [] h = rw h.0 refl
trim-kept c (d ∷ s) h = rw (trim-kept d s h.1) refl

trim-prefix :
    (p s : Text) (c : ℕ)
    → trim_right_slashes (c ∷ s) ≡ c ∷ s
    → trim_right_slashes (p ++ c ∷ s) ≡ p ++ c ∷ s
unfolding trim_right_slashes
trim-prefix [] s c h = h
trim-prefix (d ∷ []) s c h = rw h refl
trim-prefix (d ∷ e ∷ p) s c h = rw (trim-prefix (e ∷ p) s c h) refl

trim-slashes :
    (p s : Text) (c : ℕ)
    → trim_right_slashes (c ∷ s) ≡ c ∷ s
    → trim_right_slashes (p ++ (lit "//" ++ c ∷ s)) ≡ p ++ (lit "//" ++ c ∷ s)
trim-slashes p s c h = trim-prefix p (b'/' ∷ c ∷ s) b'/' (trim-prefix (b'/' ∷ b'/' ∷ []) s c h)

trim-empty : trim_right_slashes [] ≡ []
unfolding trim_right_slashes
trim-empty = refl

some_text : (a : Text) (c : ℕ) (b : Text) → is_empty (a ++ c ∷ b) ≡ false
some_text [] c b = refl
some_text (d ∷ a) c b = refl

stored :
    (loads : Bool) (k : S3StoreConfig) (s : S3Store)
    → new_s3_store loads k ≡ ok s
    → (s.http_public_base_url ≡ trim_right_slashes k.http_public_base_url)
      × (s.public_download_url ≡ trim_right_slashes k.public_download_url)
unfolding new_s3_store
stored loads k s h = ground (arith, h)

ok_injective : (k k' : S3StoreConfig) → ok k ≡ ok k' → k ≡ k'
ok_injective k k' h = cc (h)

some_store : (r : Result S3Store) (s : S3Store) → ok (store_or_none r) ≡ ok (some s) → r ≡ ok s
some_store (ok t) s h = ground (arith, h)
some_store (err e) s h = absurd (ground (arith, h))

made_from :
    (loads : Bool) (r : Result S3StoreConfig) (s : S3Store)
    → store_of loads r ≡ ok (some s)
    → (k : S3StoreConfig) × (r ≡ ok k) × (new_s3_store loads k ≡ ok s)
unfolding store_of
made_from loads (err e) s h = absurd (ground (arith, h))
made_from loads (ok k) s h = (k, refl, some_store (new_s3_store loads k) s h)

made_of :
    (loads : Bool) (parse_bool : Text → Option Bool) (env : Environ) (s : S3Store)
    → attachment_store loads parse_bool env ≡ ok (some s)
    → (k : S3StoreConfig) × (store_config parse_bool env ≡ ok k) × (new_s3_store loads k ≡ ok s)
unfolding attachment_store
made_of loads parse_bool env s h = made_from loads (store_config parse_bool env) s h

configured :
    (parse_bool : Text → Option Bool) (env : Environ) (base : Text) (k : S3StoreConfig)
    → is_empty base ≡ false
    → is_empty (env (lit "SEAWEED_SUBMIT_URL")) ≡ false
    → is_empty (env (lit "SEAWEED_HTTP_PUBLIC_BASE_URL")) ≡ true
    → env (lit "SEAWEED_PUBLIC_DOWNLOAD_URL") ≡ []
    → derive_host (env (lit "SEAWEED_SUBMIT_URL")) ≡ ok base
    → store_config parse_bool env ≡ ok k
    → (k.http_public_base_url ≡ base) × (k.public_download_url ≡ [])
unfolding store_config submit_url_of
configured parse_bool env base k f submit http download derived h =
    let configured_url : submit_url_of env ≡ env (lit "SEAWEED_SUBMIT_URL") = rw submit refl in
    let derives : or_derived (env (lit "SEAWEED_HTTP_PUBLIC_BASE_URL")) (submit_url_of env)
        ≡ ok base =
      rw (http, configured_url) derived in
    let given : store_config parse_bool env ≡ ok (config_with parse_bool env base) =
      ap (λ r. r >>= λ b. ok (config_with parse_bool env b)) derives in
    let same : k ≡ config_with parse_bool env base = ok_injective _ _ (sym h ∙ given) in
    (
      ap (λ x. x.http_public_base_url) same ∙ rw f refl,
      ap (λ x. x.public_download_url) same ∙ (ap trim_right_slashes download ∙ trim-empty),
    )

based :
    (s : S3Store) (base : Text)
    → is_empty base ≡ false
    → trim_right_slashes base ≡ base
    → s.http_public_base_url ≡ base
    → s.public_download_url ≡ []
    → public_base s ≡ base
unfolding public_base
based s base f t h d = rw (d, h, f) t

base_under_submit_host :
    (loads : Bool) (parse_bool : Text → Option Bool) (env : Environ) (scheme host path : Text)
    (c : ℕ) (s : S3Store)
    → NoSlash scheme
    → NoSlash (c ∷ host)
    → starts_path path ≡ true
    → env (lit "SEAWEED_SUBMIT_URL") ≡ scheme ++ (lit "//" ++ c ∷ (host ++ path))
    → env (lit "SEAWEED_HTTP_PUBLIC_BASE_URL") ≡ []
    → env (lit "SEAWEED_PUBLIC_DOWNLOAD_URL") ≡ []
    → attachment_store loads parse_bool env ≡ ok (some s)
    → public_base s ≡ scheme ++ (lit "//" ++ c ∷ host)
base_under_submit_host loads parse_bool env scheme host path c s a b p submit http download made =
    let base : Text = scheme ++ (lit "//" ++ c ∷ host) in
    let (k, of_env, of_config) = made_of loads parse_bool env s made in
    let some_base : is_empty base ≡ false = some_text scheme b'/' (b'/' ∷ c ∷ host) in
    let some_submit : is_empty (env (lit "SEAWEED_SUBMIT_URL")) ≡ false =
      ap is_empty submit ∙ some_text scheme b'/' (b'/' ∷ c ∷ (host ++ path)) in
    let derived : derive_host (env (lit "SEAWEED_SUBMIT_URL")) ≡ ok base =
      ap derive_host submit ∙ derive_host_lem scheme host path c a b.1 p in
    let (public, nothing) =
      configured parse_bool env base k some_base some_submit (ap is_empty http) download derived
        of_env in
    let (kept, left) = stored loads k s of_config in
    let same : trim_right_slashes base ≡ base = trim-slashes scheme host c (trim-kept c host b) in
    based s base some_base same (kept ∙ (ap trim_right_slashes public ∙ same))
      (left ∙ (ap trim_right_slashes nothing ∙ trim-empty))

-- Where the address of the uploads is configured, and neither of the two public addresses is: an address
-- that an upload over HTTP hands out begins with the scheme and the host of the uploads and a slash, so
-- that the file is asked for where it was put; or else the answer to the upload was a success whose body
-- has none of the fields fid, name and url, and the address is this body without quotes.
pub uploads_under_submit_host :
    (loads : Bool) (parse_bool : Text → Option Bool) (env : Environ) (scheme host path : Text)
    (c : ℕ) (s : S3Store) (o : Outside) (key url : Text)
    → NoSlash scheme
    → NoSlash (c ∷ host)
    → starts_path path ≡ true
    → env (lit "SEAWEED_SUBMIT_URL") ≡ scheme ++ (lit "//" ++ c ∷ (host ++ path))
    → env (lit "SEAWEED_HTTP_PUBLIC_BASE_URL") ≡ []
    → env (lit "SEAWEED_PUBLIC_DOWNLOAD_URL") ≡ []
    → attachment_store loads parse_bool env ≡ ok (some s)
    → (put_seaweed_http o s key).0 ≡ ok url
    → ((rest : Text) × (url ≡ (scheme ++ (lit "//" ++ c ∷ host)) ++ (lit "/" ++ rest)))
      ⊎ ((status : ℕ) × (body : Text) × (o.post s.fid_upload_url ≡ some (status, body))
          × IsRaw o body url)
uploads_under_submit_host loads parse_bool env scheme host path c s o key url a b p submit http
      download made given =
    let base : public_base s ≡ scheme ++ (lit "//" ++ c ∷ host) =
      base_under_submit_host loads parse_bool env scheme host path c s a b p submit http download
        made in
    let (status, body, sent, address) = answered o s key url given in
    elim (address_of-base o s key body url address) [
      | inl (rest, e) ↦ inl (rest, e ∙ ap (λ x. x ++ (lit "/" ++ rest)) base)
      | inr raw ↦ inr (status, body, sent, raw)
    ]
