-- ===== src/Config/Unsubscribe/Words.antt =====
-- internal/config/config.go: the words of a text, apart from how the code finds them.
use aba_go_orchestrator.Common.{
  ℕ, Text, is_empty, is_space, true, false, List, [], ◌∷◌, ◌++◌, All, ◌≡◌, refl, sym, ap, ◌∙◌,
  Bool-cases, inl, inr, arith,
}
use aba_go_orchestrator.Config.Unsubscribe.{add_char, at_space, words, join_space}

abbrev pub IsBlank : Text → Type 0
IsBlank s = All (λ c. is_space c ≡ true) s

abbrev pub IsWord : Text → Type 0
IsWord w = (is_empty w ≡ false) × All (λ c. is_space c ≡ false) w

-- The text is these words, with white space between them, and with or without it around them.
abbrev pub Spells : List Text → Text → Type 0
Spells [] s = IsBlank s
Spells (w ∷ ws) s =
    (gap : Text) × (rest : Text) × (s ≡ gap ++ (w ++ rest))
    × IsBlank gap
    × IsWord w
    × (at_space rest ≡ true)
    × Spells ws rest

words-blank : (s : Text) → IsBlank s → words s ≡ []
unfolding words
words-blank [] h = refl
words-blank (c ∷ s) h = rw h.0 (words-blank s h.1)

words-gap : (gap s : Text) → IsBlank gap → words (gap ++ s) ≡ words s
unfolding words
words-gap [] s h = refl
words-gap (c ∷ gap) s h = rw h.0 (words-gap gap s h.1)

words-word : (w rest : Text) → IsWord w → at_space rest ≡ true → words (w ++ rest) ≡ w ∷ words rest
unfolding words
words-word [] rest h k = absurd (cc (h.0))
words-word (c ∷ []) rest h k = rw (h.1.0, k) refl
words-word (c ∷ d ∷ w) rest h k =
    rw (h.1.0, words-word (d ∷ w) rest (refl, h.1.1) k) (rw h.1.1.0 refl)

-- The code finds these words in a text that spells them.
pub Spells-words : (ws : List Text) (s : Text) → Spells ws s → words s ≡ ws
Spells-words [] s h = words-blank s h
Spells-words (w ∷ ws) s (gap, rest, e, blank, word, end, h) =
    ap words e
    ∙ (words-gap gap (w ++ rest) blank
        ∙ (words-word w rest word end ∙ ap (λ vs. w ∷ vs) (Spells-words ws rest h)))

Spells-space :
    (c : ℕ) (ws : List Text) (s : Text) → is_space c ≡ true → Spells ws s → Spells ws (c ∷ s)
Spells-space c [] s e h = (e, h)
Spells-space c (w ∷ ws) s e (gap, rest, same, blank, word, end, more) =
    (c ∷ gap, rest, ap (λ x. c ∷ x) same, (e, blank), word, end, more)

-- The first word goes on to the left.
Spells-char :
    (c : ℕ) (ws : List Text) (s : Text)
    → is_space c ≡ false
    → Spells ws s
    → Spells (add_char c (at_space s) ws) (c ∷ s)
Spells-char c ws [] e h = ([], [], refl, tt, (refl, (e, tt)), refl, h)
Spells-char c ws (d ∷ s) e h = elim (Bool-cases (is_space d)) [
  | inl k ↦ rw k ([], d ∷ s, refl, tt, (refl, (e, tt)), k, h)
  | inr k ↦ rw k (go ws k h)
]
  where
    go :
        (vs : List Text)
        → is_space d ≡ false
        → Spells vs (d ∷ s)
        → Spells (add_char c false vs) (c ∷ d ∷ s)
    go [] k h = absurd (cc (k, h.0))
    go (w ∷ vs) k ([], rest, same, blank, word, end, more) =
        ([], rest, ap (λ x. c ∷ x) same, tt, (refl, (e, word.1)), end, more)
    go (w ∷ vs) k (b ∷ gap, rest, same, blank, word, end, more) =
        let head : d ≡ b = ground (arith, same) in absurd (cc (k, blank.0, ap is_space head))

pub words-Spells : (s : Text) → Spells (words s) s
unfolding words
words-Spells [] = tt
words-Spells (c ∷ s) = elim (Bool-cases (is_space c)) [
  | inl e ↦ rw e (Spells-space c (words s) s e (words-Spells s))
  | inr e ↦ rw e (Spells-char c (words s) s e (words-Spells s))
]

Spells-IsWord : (ws : List Text) (s : Text) → Spells ws s → All IsWord ws
Spells-IsWord [] s h = tt
Spells-IsWord (w ∷ ws) s (gap, rest, e, blank, word, end, h) = (word, Spells-IsWord ws rest h)

append_nil : (s : Text) → s ++ [] ≡ s
append_nil [] = refl
append_nil (c ∷ s) = ap (λ x. c ∷ x) (append_nil s)

join_space-Spells : (ws : List Text) → All IsWord ws → Spells ws (join_space ws)
unfolding join_space is_space
join_space-Spells [] h = tt
join_space-Spells (w ∷ []) h = ([], [], sym (append_nil w), tt, h.0, refl, tt)
join_space-Spells (w ∷ v ∷ ws) h = (
  [],
  b' ' ∷ join_space (v ∷ ws),
  refl,
  tt,
  h.0,
  refl,
  Spells-space b' ' (v ∷ ws) (join_space (v ∷ ws)) refl (join_space-Spells (v ∷ ws) h.1),
)

-- Texts with equal normal forms have equal words.
pub words_equal : (s t : Text) → join_space (words s) ≡ join_space (words t) → words s ≡ words t
words_equal s t h =
    let back = λ (u : Text).
      Spells-words (words u) (join_space (words u))
        (join_space-Spells (words u) (Spells-IsWord (words u) u (words-Spells u))) in
    sym (back s) ∙ (ap words h ∙ back t)

pub join_space-empty :
    (w : Text) (ws : List Text) → IsWord w → is_empty (join_space (w ∷ ws)) ≡ false
unfolding join_space
join_space-empty [] ws h = absurd (cc (h.0))
join_space-empty (c ∷ w) [] h = refl
join_space-empty (c ∷ w) (v ∷ ws) h = refl
