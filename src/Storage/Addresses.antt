-- ===== src/Storage/Addresses.antt =====
-- internal/storage/s3.go: what an upload over HTTP gives as the address of the file.
use aba_go_orchestrator.Common.{
  ℕ, Text, lit, is_empty, true, not, Option, none, some, [], ◌∷◌, ◌++◌, if◌then◌else◌, ◌≡◌, refl,
  sym, ◌⊎◌, inl, inr, arith,
}
use aba_go_orchestrator.Repository.Store.{Result, ok}
use aba_go_orchestrator.Storage.{
  Outside, S3Store, public_base, raw_url, address_of, answer_of, put_seaweed_http,
}

ok_injective : (a b : Text) → ok a ≡ ok b → a ≡ b
ok_injective a b h = cc (h)

-- The body of an answer that has none of the three fields, as an address.
abbrev pub IsRaw : Outside → Text → Text → Type 0
IsRaw o body url =
    (is_empty (o.json body (lit "fid")) ≡ true)
    × (is_empty (o.json body (lit "name")) ≡ true)
    × (is_empty (o.json body (lit "url")) ≡ true)
    × (raw_url body ≡ ok url)

picked :
    (base bucket key fid name address url : Text) (raw : Result Text)
    → (if not (is_empty fid)
        then ok (base ++ (lit "/" ++ fid))
        else if not (is_empty name)
        then ok (base ++ (lit "/" ++ (bucket ++ (lit "/" ++ name))))
        else if not (is_empty address)
        then ok (base ++ (lit "/" ++ (bucket ++ (lit "/" ++ key))))
        else raw)
      ≡ ok url
    → ((rest : Text) × (url ≡ base ++ (lit "/" ++ rest)))
      ⊎ ((is_empty fid ≡ true)
          × (is_empty name ≡ true)
          × (is_empty address ≡ true)
          × (raw ≡ ok url))
picked base bucket key (c ∷ fid) name address url raw h = inl (c ∷ fid, sym (ok_injective _ _ h))
picked base bucket key [] (c ∷ name) address url raw h =
    inl (bucket ++ (lit "/" ++ c ∷ name), sym (ok_injective _ _ h))
picked base bucket key [] [] (c ∷ address) url raw h =
    inl (bucket ++ (lit "/" ++ key), sym (ok_injective _ _ h))
picked base bucket key [] [] [] url raw h = inr (refl, refl, refl, h)

pub address_of-base :
    (o : Outside) (s : S3Store) (key body url : Text)
    → address_of o s key body ≡ ok url
    → ((rest : Text) × (url ≡ public_base s ++ (lit "/" ++ rest))) ⊎ IsRaw o body url
unfolding address_of raw_url
address_of-base o s key body url h =
    picked (public_base s) s.bucket key (o.json body (lit "fid")) (o.json body (lit "name"))
      (o.json body (lit "url")) url (raw_url body) h

posted :
    (o : Outside) (s : S3Store) (key url : Text)
    → (put_seaweed_http o s key).0 ≡ ok url
    → answer_of o s key (o.post s.fid_upload_url) ≡ ok url
unfolding put_seaweed_http answer_of
posted o s key url h = ground (arith, h)

pub answered :
    (o : Outside) (s : S3Store) (key url : Text)
    → (put_seaweed_http o s key).0 ≡ ok url
    → (status : ℕ) × (body : Text) × (o.post s.fid_upload_url ≡ some (status, body))
      × (address_of o s key body ≡ ok url)
unfolding answer_of
answered o s key url h = from (o.post s.fid_upload_url) refl (posted o s key url h)
  where
    from :
        (a : Option (ℕ × Text))
        → o.post s.fid_upload_url ≡ a
        → answer_of o s key a ≡ ok url
        → (status : ℕ) × (body : Text) × (o.post s.fid_upload_url ≡ some (status, body))
          × (address_of o s key body ≡ ok url)
    from none e k = absurd (ground (arith, k))
    from (some (status, body)) e k = (status, body, e, ground (arith, k))
