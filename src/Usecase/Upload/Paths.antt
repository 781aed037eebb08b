-- ===== src/Usecase/Upload/Paths.antt =====
-- internal/usecase/campaign.go: where the file of an upload lies.
use aba_go_orchestrator.Common.{
  ℕ, Text, lit, ◌==◌, Bool, true, false, [], ◌∷◌, ◌++◌, exists, if◌then◌else◌, ◌≡◌, refl, arith,
}
use aba_go_orchestrator.Usecase.Upload.{
  Outside, Upload, valid_char, sanitized, generate_semantic_filename, file_ext, ext_or,
  original_path,
}

abbrev pub has_slash : Text → Bool
has_slash = exists λ d. d == b'/'

has_slash-append :
    (s t : Text) → has_slash s ≡ false → has_slash t ≡ false → has_slash (s ++ t) ≡ false
has_slash-append [] t h k = k
has_slash-append (c ∷ s) t h k = ground (arith, has_slash-append s t)

sanitized_char : (c : ℕ) → ((if valid_char c then c else b'_') == b'/') ≡ false
sanitized_char c = ground arith

has_slash-sanitized : (s : Text) → has_slash (sanitized s) ≡ false
unfolding sanitized
has_slash-sanitized [] = refl
has_slash-sanitized (c ∷ s) = rw (sanitized_char c) (has_slash-sanitized s)

has_slash-file_ext : (s : Text) → has_slash (file_ext s) ≡ false
unfolding file_ext
has_slash-file_ext [] = refl
has_slash-file_ext (c ∷ s) = ground (arith, has_slash-file_ext s)

has_slash-ext_or :
    (d s : Text) → has_slash d ≡ false → has_slash s ≡ false → has_slash (ext_or d s) ≡ false
has_slash-ext_or d [] h k = h
has_slash-ext_or d (c ∷ s) h k = k

exists-append_right : (p : ℕ → Bool) (s t : Text) → exists p t ≡ true → exists p (s ++ t) ≡ true
exists-append_right p [] t h = h
exists-append_right p (c ∷ s) t h = ground (arith, exists-append_right p s t h)

exists-append_left : (p : ℕ → Bool) (s t : Text) → exists p s ≡ true → exists p (s ++ t) ≡ true
exists-append_left p [] t h = absurd (cc)
exists-append_left p (c ∷ s) t h = ground (arith, exists-append_left p s t)

-- Whatever name the campaign and the uploaded file have: where the day and the hash have no slash,
-- the file lies in the upload directory itself, and has a dash in its name, so it is none of `.` and
-- `..`.
pub original_path-IsInside :
    (o : Outside) (u : Upload)
    → has_slash o.date ≡ false
    → has_slash (o.hash 0) ≡ false
    → (file : Text) × (original_path o u ≡ lit "uploads/" ++ file)
      × (has_slash file ≡ false)
      × (exists (λ c. c == b'-') file ≡ true)
unfolding original_path generate_semantic_filename
original_path-IsInside o u d h =
    let ext = ext_or (lit ".xlsx") (file_ext u.original_name) in
    let day = sanitized u.name ++ b'-' ∷ o.date in
    let stem = day ++ b'-' ∷ o.hash 0 in
    let clean_day : has_slash day ≡ false =
      has_slash-append (sanitized u.name) (b'-' ∷ o.date) (has_slash-sanitized u.name) d in
    let clean_ext : has_slash ext ≡ false =
      has_slash-ext_or (lit ".xlsx") (file_ext u.original_name) refl
        (has_slash-file_ext u.original_name) in
    (
      stem ++ ext,
      refl,
      has_slash-append stem ext (has_slash-append day (b'-' ∷ o.hash 0) clean_day h) clean_ext,
      exists-append_left (λ c. c == b'-') stem ext
          (exists-append_right (λ c. c == b'-') day (b'-' ∷ o.hash 0) refl),
    )
