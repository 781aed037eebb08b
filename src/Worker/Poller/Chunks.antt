-- ===== src/Worker/Poller/Chunks.antt =====
-- internal/worker/poller.go: the chunks of a campaign's targets.
use mathlib.Core.List.{append-nil}
use native.Mathlib.Nat.{suc-add}
use aba_go_orchestrator.Common.{
  ℕ, zero, suc, ◌+◌, ◌-◌, ◌≤◌, ◌<◌, ltb, List, [], ◌∷◌, ◌++◌, take, drop, length, length-drop,
  length-take, All, take-append-drop, ap₂, ◌⊎◌, Bool-cases, ltb→lt, if◌then◌else◌, ◌≡◌, refl, sym,
  ap, ◌∙◌, inl, inr, arith,
}
use aba_go_orchestrator.Worker.Poller.{chunk_size, slice, chunks_from, chunks}

abbrev pub flatten {ℓ} : {A : Type ℓ} → List (List A) → List A
flatten [] = []
flatten (xs ∷ xss) = xs ++ flatten xss

module _ {ℓ} {A : Type ℓ} where
  drop-nil : (k : ℕ) (xs : List A) → xs ≡ [] → drop k xs ≡ []
  drop-nil zero xs h = h
  drop-nil (suc k) [] h = refl
  drop-nil (suc k) (x ∷ xs) h = absurd (cc)

  drop-drop : (i k : ℕ) (xs : List A) → drop k (drop i xs) ≡ drop (i + k) xs
  drop-drop zero k xs = ap (λ j. drop j xs) (omega arith)
  drop-drop (suc i) k [] = drop-nil k [] refl ∙ sym (drop-nil (suc i + k) [] refl)
  drop-drop (suc i) k (x ∷ xs) = rw (suc-add) (drop-drop i k xs)

  drop_all : (i : ℕ) (xs : List A) → length xs ≤ i → drop i xs ≡ []
  drop_all zero [] h = refl
  drop_all zero (x ∷ xs) h = absurd (omega arith)
  drop_all (suc i) [] h = refl
  drop_all (suc i) (x ∷ xs) h = drop_all i xs (omega arith)

  take_all : (n : ℕ) (xs : List A) → length xs ≤ n → take n xs ≡ xs
  take_all n xs h =
      sym (append-nil (take n xs))
      ∙ ap (λ l. take n xs ++ l) (sym (drop_all n xs h))
      ∙ take-append-drop n xs

  -- A cut of the rest of a list, at an end that is its own or fifty further.
  cut :
      (i e : ℕ) (ts : List A)
      → ((e ≡ length ts) × (length ts ≤ i + chunk_size)) ⊎ (e ≡ i + chunk_size)
      → take (e - i) (drop i ts) ++ drop (i + chunk_size) ts ≡ drop i ts
  cut i e ts (inl (h, l)) =
      ap₂ ◌++◌ (take_all (e - i) (drop i ts) (omega (arith, length-drop i ts)))
        (drop_all (i + chunk_size) ts l)
      ∙ append-nil (drop i ts)
  cut i e ts (inr h) =
      let wide : e - i ≡ chunk_size = omega arith in
      ap₂ (λ n l. take n (drop i ts) ++ l) wide (sym (drop-drop i chunk_size ts))
      ∙ take-append-drop chunk_size (drop i ts)

  slice-drop : (i : ℕ) (ts : List A) → slice i ts ++ drop (i + chunk_size) ts ≡ drop i ts
  slice-drop i ts = cut i _ ts (ground arith)

  slice_bounds :
      (i : ℕ) (ts : List A)
      → i < length ts
      → (0 < length (slice i ts)) × (length (slice i ts) ≤ chunk_size)
  slice_bounds i ts h =
      let end = if ltb (length ts) (i + chunk_size) then length ts else i + chunk_size in
      ground (arith, length-take (end - i) (drop i ts), length-drop i ts)

  flatten-chunks_from :
      (n i : ℕ) (ts : List A) → length ts ≤ i + n → flatten (chunks_from n i ts) ≡ drop i ts
  unfolding chunks_from
  flatten-chunks_from zero i ts h = sym (drop_all i ts (omega arith))
  flatten-chunks_from (suc n) i ts h = elim (Bool-cases (ltb i (length ts))) [
    | inl e ↦ rw e (
        ap (λ l. slice i ts ++ l) (flatten-chunks_from n (i + chunk_size) ts (omega arith))
        ∙ slice-drop i ts)
    | inr e ↦ rw e (sym (drop_all i ts (ground (arith, e))))
  ]

  chunks_from-All :
      (n i : ℕ) (ts : List A)
      → All (λ c. (0 < length c) × (length c ≤ chunk_size)) (chunks_from n i ts)
  unfolding chunks_from
  chunks_from-All zero i ts = tt
  chunks_from-All (suc n) i ts = elim (Bool-cases (ltb i (length ts))) [
    | inl e ↦ rw e (slice_bounds i ts (ltb→lt _ _ e), chunks_from-All n (i + chunk_size) ts)
    | inr e ↦ rw e tt
  ]

-- The chunks of any number of targets hold each target exactly once and in order, and every chunk
-- has between one and 50 of them. As much fuel as there are targets is enough.
pub chunks_complete {ℓ} :
    {A : Type ℓ} (ts : List A)
    → (flatten (chunks ts) ≡ ts) × All (λ c. (0 < length c) × (length c ≤ chunk_size)) (chunks ts)
chunks_complete ts =
    (flatten-chunks_from (length ts) 0 ts (omega arith), chunks_from-All (length ts) 0 ts)
