-- ===== src/Config/Unsubscribe/Match.antt =====
-- internal/config/config.go: which replies unsubscribe.
use aba_go_orchestrator.Common.{
  Text, text_eq, text_eq_iff, is_empty, split, trim_space, ◌==◌, Bool, true, false, List, [], ◌∷◌,
  ◌++◌, exists, if◌then◌else◌, All, Some, ◌≡◌, ◌↔◌, ◌⊎◌, refl, sym, ap, ◌∙◌, subst, arith, inl, inr,
  Bool-cases,
}
use aba_go_orchestrator.Config.Unsubscribe.{
  normalize_unsubscribe, default_variant, or_default, parse_unsubscribe_variants, normal_forms,
  trimmed_variants, words, join_space, build_unsubscribe_set, is_unsubscribe_reply, unsubscribes,
}
use aba_go_orchestrator.Config.Unsubscribe.Words.{
  IsBlank, Spells, Spells-words, words-Spells, words_equal, join_space-empty,
}

-- The variant has a normal form, and the text has it too.
abbrev HasForm : (Text → Text) → Text → Text → Type 0
HasForm lower text v =
    (normalize_unsubscribe lower text ≡ normalize_unsubscribe lower v)
    × (is_empty (normalize_unsubscribe lower v) ≡ false)

forms_iff :
    (lower : Text → Text) (text : Text) (vs : List Text)
    → (exists (text_eq (normalize_unsubscribe lower text)) (normal_forms lower vs) ≡ true)
      ↔ Some (HasForm lower text) vs
unfolding normal_forms
forms_iff lower text [] = (λ h. absurd (cc), λ h. absurd h)
forms_iff lower text (v ∷ vs) =
    by_form (is_empty (normalize_unsubscribe lower v)) refl (forms_iff lower text vs)
  where
    by_form :
        (b : Bool)
        → is_empty (normalize_unsubscribe lower v) ≡ b
        → (exists (text_eq (normalize_unsubscribe lower text)) (normal_forms lower vs) ≡ true)
          ↔ Some (HasForm lower text) vs
        → (exists (text_eq (normalize_unsubscribe lower text)) (
              if b
              then normal_forms lower vs
              else normalize_unsubscribe lower v ∷ normal_forms lower vs)
            ≡ true)
          ↔ Some (HasForm lower text) (v ∷ vs)
    by_form true e (to, from) =
        (λ h. inr (to h), λ s. elim s [ inl (same, form) ↦ absurd (cc) | inr rest ↦ from rest ])
    by_form false e (to, from) = ground (
      arith,
      to,
      from,
      e,
      text_eq_iff (normalize_unsubscribe lower text) (normalize_unsubscribe lower v),
    )

set_iff :
    (lower : Text → Text) (text : Text) (ns : List Text)
    → (is_unsubscribe_reply lower (or_default (normalize_unsubscribe lower default_variant) ns) text
        ≡ true)
      ↔ ((exists (text_eq (normalize_unsubscribe lower text)) ns ≡ true)
          ⊎ ((ns ≡ [])
              × (normalize_unsubscribe lower text ≡ normalize_unsubscribe lower default_variant)))
unfolding is_unsubscribe_reply
set_iff lower text [] = ground (
  arith,
  text_eq_iff (normalize_unsubscribe lower text) (normalize_unsubscribe lower default_variant),
)
set_iff lower text (n ∷ ns) = (λ h. inl h, λ s. elim s [ inl h ↦ h | inr (e, same) ↦ absurd (cc) ])

-- The reply by normal forms.
unsubscribes-forms :
    (lower : Text → Text) (vs : List Text) (text : Text)
    → (is_unsubscribe_reply lower (build_unsubscribe_set lower vs) text ≡ true) ↔ (
        Some (HasForm lower text) vs
        ⊎ ((normal_forms lower vs ≡ [])
            × (normalize_unsubscribe lower text ≡ normalize_unsubscribe lower default_variant)))
unfolding build_unsubscribe_set
unsubscribes-forms lower vs text =
    let (to, from) = set_iff lower text (normal_forms lower vs) in
    let (to', from') = forms_iff lower text vs in
    (
      λ h. elim (to h) [ inl k ↦ inl (to' k) | inr k ↦ inr k ],
      λ s. from (elim s [ inl k ↦ inl (from' k) | inr k ↦ inr k ]),
    )

-- Parts with semicolons between them.
abbrev pub with_semicolons : Text → List Text → Text
with_semicolons part [] = part
with_semicolons part (p ∷ ps) = part ++ b';' ∷ with_semicolons p ps

abbrev pub NoSemicolon : Text → Type 0
NoSemicolon s = All (λ c. (c == b';') ≡ false) s

split-last : (s : Text) → NoSemicolon s → split s b';' ≡ s ∷ []
unfolding split
split-last [] h = refl
split-last (c ∷ s) h = rw (h.0, split-last s h.1) refl

split-part : (s rest : Text) → NoSemicolon s → split (s ++ b';' ∷ rest) b';' ≡ s ∷ split rest b';'
unfolding split
split-part [] rest h = refl
split-part (c ∷ s) rest h = rw (h.0, split-part s rest h.1) refl

split-with_semicolons :
    (part : Text) (parts : List Text)
    → All NoSemicolon (part ∷ parts)
    → split (with_semicolons part parts) b';' ≡ part ∷ parts
split-with_semicolons part [] h = split-last part h.0
split-with_semicolons part (p ∷ ps) h =
    split-part part (with_semicolons p ps) h.0
    ∙ ap (λ ps'. part ∷ ps') (split-with_semicolons p ps h.1)

-- Two texts have the same words, in lower case: `s` and `t` are trimmed before.
abbrev pub SameWords : (Text → Text) → Text → Text → Type 0
SameWords lower s t =
    (ws : List Text) × Spells ws (lower (trim_space s)) × Spells ws (lower (trim_space t))

-- They are not blank, and have the same words.
abbrev pub Matches : (Text → Text) → Text → Text → Type 0
Matches lower text part =
    (w : Text) × (ws : List Text) × Spells (w ∷ ws) (lower (trim_space text))
    × Spells (w ∷ ws) (lower (trim_space (trim_space part)))

-- A part without words.
abbrev pub IsWordless : (Text → Text) → Text → Type 0
IsWordless lower part = IsBlank (lower (trim_space (trim_space part)))

module _ (lower : Text → Text) where
  SameWords-forms :
      (s t : Text)
      → (normalize_unsubscribe lower s ≡ normalize_unsubscribe lower t) ↔ SameWords lower s t
  unfolding normalize_unsubscribe
  SameWords-forms s t =
      let a = lower (trim_space s) in
      let b = lower (trim_space t) in
      (
        λ h. (
          words a,
          words-Spells a,
          subst (λ ws. Spells ws b) (sym (words_equal a b h)) (words-Spells b),
        ),
        λ (ws, p, q). ap join_space (Spells-words ws a p ∙ sym (Spells-words ws b q)),
      )

  Matches-forms :
      (text part : Text) → HasForm lower text (trim_space part) ↔ Matches lower text part
  unfolding normalize_unsubscribe
  Matches-forms text part = (to, from)
    where
      a : Text
      a = lower (trim_space text)

      b : Text
      b = lower (trim_space (trim_space part))

      by_words :
          (vs : List Text)
          → Spells vs a
          → Spells vs b
          → is_empty (join_space vs) ≡ false
          → Matches lower text part
      by_words [] p q e = absurd (cc (e))
      by_words (w ∷ ws) p q e = (w, ws, p, q)

      to : HasForm lower text (trim_space part) → Matches lower text part
      to (same, some_form) =
          by_words (words b) (subst (λ ws. Spells ws a) (words_equal a b same) (words-Spells a))
            (words-Spells b) some_form

      from : Matches lower text part → HasForm lower text (trim_space part)
      from (w, ws, p, q) =
          let left : words a ≡ w ∷ ws = Spells-words (w ∷ ws) a p in
          let right : words b ≡ w ∷ ws = Spells-words (w ∷ ws) b q in
          let word = q.4 in
          (
            ap join_space (left ∙ sym right),
            ap (λ vs. is_empty (join_space vs)) right ∙ join_space-empty w ws word,
          )

  normal_words :
      (s : Text)
      → (is_empty (normalize_unsubscribe lower s) ≡ true) ↔ IsBlank (lower (trim_space s))
  unfolding normalize_unsubscribe
  normal_words s = (to (words b) (words-Spells b), from)
    where
      b : Text
      b = lower (trim_space s)

      to : (ws : List Text) → Spells ws b → is_empty (join_space ws) ≡ true → IsBlank b
      to [] p e = p
      to (w ∷ ws) p e = absurd (cc (e, join_space-empty w ws p.4))

      from : IsBlank b → is_empty (join_space (words b)) ≡ true
      from h = ap (λ ws. is_empty (join_space ws)) (Spells-words [] b h)

  module _ (text : Text) (keeps_empty : lower [] ≡ []) where
    part-IsBlank : (v : Text) → is_empty v ≡ true → IsBlank (lower (trim_space v))
    unfolding trim_space
    part-IsBlank [] e = subst IsBlank (sym keeps_empty) tt
    part-IsBlank (c ∷ v) e = absurd (cc (e))

    trimmed-Matches :
        (parts : List Text)
        → Some (HasForm lower text) (trimmed_variants parts) ↔ Some (Matches lower text) parts
    unfolding trimmed_variants
    trimmed-Matches [] = (λ h. h, λ h. h)
    trimmed-Matches (part ∷ parts) =
        let (to, from) = trimmed-Matches parts in
        let (to', from') = Matches-forms text part in
        elim (Bool-cases (is_empty (trim_space part))) [
          | inl e ↦
              let no_form : is_empty (normalize_unsubscribe lower (trim_space part)) ≡ true =
                (normal_words (trim_space part)).1 (part-IsBlank (trim_space part) e) in
              rw e (
                λ h. inr (to h),
                λ s. elim s [ inl m ↦ absurd (cc (no_form, (from' m).1)) | inr m ↦ from m ],
              )
          | inr e ↦ rw e (
            λ h. elim h [ inl m ↦ inl (to' m) | inr m ↦ inr (to m) ],
            λ s. elim s [ inl m ↦ inl (from' m) | inr m ↦ inr (from m) ],
          )
        ]

    trimmed-IsWordless :
        (parts : List Text)
        → (normal_forms lower (trimmed_variants parts) ≡ []) ↔ All (IsWordless lower) parts
    unfolding trimmed_variants normal_forms
    trimmed-IsWordless [] = (λ h. tt, λ h. refl)
    trimmed-IsWordless (part ∷ parts) =
        let v = trim_space part in
        let (to, from) = trimmed-IsWordless parts in
        let (blank, form) = normal_words v in
        elim (Bool-cases (is_empty v)) [
          | inl e ↦ rw e (λ h. (part-IsBlank v e, to h), λ h. from h.1)
          | inr e ↦ elim (Bool-cases (is_empty (normalize_unsubscribe lower v))) [
            | inl k ↦ rw (e, k) (λ h. (blank k, to h), λ h. from h.1)
            | inr k ↦ rw (e, k) (λ h. absurd (cc (h)), λ h. absurd (cc (k, form h.0)))
          ]
        ]

    by_variants :
        (parts vs : List Text)
        → Some (HasForm lower text) vs ↔ Some (Matches lower text) parts
        → (normal_forms lower vs ≡ []) ↔ All (IsWordless lower) parts
        → (is_unsubscribe_reply lower
              (build_unsubscribe_set lower (or_default default_variant vs))
              text
            ≡ true)
          ↔ (Some (Matches lower text) parts
              ⊎ (All (IsWordless lower) parts × SameWords lower text default_variant))
    unfolding normal_forms
    by_variants parts [] (to, from) (to', from') =
        let (f, g) = unsubscribes-forms lower (default_variant ∷ []) text in
        let (p, q) = SameWords-forms text default_variant in
        (
          λ h. elim (f h) [
            | inl (inl (same, _)) ↦ inr (to' refl, p same)
            | inl (inr x) ↦ absurd x
            | inr (_, same) ↦ inr (to' refl, p same)
          ],
          λ s. elim s [
            | inl m ↦ absurd (from m)
            | inr (_, same) ↦
                elim (Bool-cases (is_empty (normalize_unsubscribe lower default_variant))) [
                  | inl e ↦ g (inr (rw e refl, q same))
                  | inr e ↦ g (inl (inl (q same, e)))
                ]
          ],
        )
    by_variants parts (v ∷ vs) (to, from) (to', from') =
        let (f, g) = unsubscribes-forms lower (v ∷ vs) text in
        let (p, q) = SameWords-forms text default_variant in
        (
          λ h. elim (f h) [ inl m ↦ inl (to m) | inr (e, same) ↦ inr (to' e, p same) ],
          λ s. elim s [ inl m ↦ g (inl (from m)) | inr (e, same) ↦ g (inr (from' e, q same)) ],
        )

-- With the variants of a setting, the parts between its semicolons, a reply unsubscribes exactly if it has
-- the words of one of the parts, at least one, in lower case and apart from the white space between and
-- around them; or if no part has a word and the reply has those of "@". `lower` is the lower case of a
-- text, which leaves the empty text empty; trimming comes before it.
pub unsubscribes_iff :
    (lower : Text → Text) (part : Text) (parts : List Text) (text : Text)
    → lower [] ≡ []
    → All NoSemicolon (part ∷ parts)
    → (unsubscribes lower (with_semicolons part parts) text ≡ true) ↔ (
        Some (Matches lower text) (part ∷ parts)
        ⊎ (All (IsWordless lower) (part ∷ parts) × SameWords lower text default_variant))
unfolding unsubscribes parse_unsubscribe_variants
unsubscribes_iff lower part parts text keeps_empty free =
    let ps = part ∷ parts in
    subst
      (λ qs.
        (is_unsubscribe_reply lower
            (build_unsubscribe_set lower (or_default default_variant (trimmed_variants qs))) text
          ≡ true)
        ↔ (Some (Matches lower text) ps
            ⊎ (All (IsWordless lower) ps × SameWords lower text default_variant)))
      (sym (split-with_semicolons part parts free))
      (by_variants lower text keeps_empty ps (trimmed_variants ps)
        (trimmed-Matches lower text keeps_empty ps) (trimmed-IsWordless lower text keeps_empty ps))
