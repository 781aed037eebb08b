-- ===== src/Worker/Running.antt =====
-- internal/worker: the flag isRunning, by which PollActiveCampaigns (poller.go), checkAndStartCampaigns
-- (scheduler.go) and Run of the result consumer (result_consumer.go) keep a second goroutine out. The
-- mutex makes the test with the setting of the flag one step, and its clearing another.
use aba_go_orchestrator.Common.{
  ℕ, suc, arith, length, ◌==◌, Bool, true, false, not, ◌||◌, List, [], ◌∷◌, select, exists,
  if◌then◌else◌, ◌≡◌, refl, ◌⊎◌, inl, inr,
}

-- `inside` are the goroutines between the setting of the flag and its deferred clearing.
pub record Guarded : Type 0 where
  pub is_running : Bool
  pub inside : List ℕ
  pub skipped : ℕ

abbrev pub idle : Guarded
idle = record { is_running = false; inside = []; skipped = 0 }

unfoldable pub enter : ℕ → Guarded → Guarded
enter g s =
    if s.is_running
    then record s { skipped = suc s.skipped }
    else record s { is_running = true; inside = g ∷ s.inside }

unfoldable pub leave : ℕ → Guarded → Guarded
leave g s = record s { is_running = false; inside = select (λ h. not (h == g)) s.inside }

-- The goroutines that run, in any order; one that is inside leaves.
pub data Turns (s : Guarded) : Guarded → Type 0 where
  here : Turns s s
  enters : {s' : Guarded} (g : ℕ) → Turns s s' → Turns s (enter g s')
  leaves :
      {s' : Guarded} (g : ℕ)
      → Turns s s'
      → exists (λ h. h == g) s'.inside ≡ true
      → Turns s (leave g s')

data Inside : Bool → List ℕ → Type 0 where
  none_inside : Inside false []
  one_inside : (g : ℕ) → Inside true (g ∷ [])

abbrev state : Bool → List ℕ → ℕ → Guarded
state b gs n = record { is_running = b; inside = gs; skipped = n }

enter-Inside :
    (g n : ℕ) (b : Bool) (gs : List ℕ)
    → Inside b gs
    → Inside (enter g (state b gs n)).is_running (enter g (state b gs n)).inside
unfolding enter
enter-Inside g n b gs none_inside = one_inside g
enter-Inside g n b gs (one_inside h) = one_inside h

left_empty :
    (g h : ℕ) → (h == g) || false ≡ true → Inside false (select (λ k. not (k == g)) (h ∷ []))
left_empty g h e = let same : (h == g) ≡ true = ground (arith, e) in rw same none_inside

leave-Inside :
    (g n : ℕ) (b : Bool) (gs : List ℕ)
    → exists (λ h. h == g) gs ≡ true
    → Inside b gs
    → Inside (leave g (state b gs n)).is_running (leave g (state b gs n)).inside
unfolding leave
leave-Inside g n b gs e none_inside = none_inside
leave-Inside g n b gs e (one_inside h) = left_empty g h e

one_or_none :
    (b : Bool) (gs : List ℕ)
    → Inside b gs
    → ((b ≡ false) × (gs ≡ [])) ⊎ ((b ≡ true) × (length gs ≡ 1))
one_or_none b gs none_inside = inl (refl, refl)
one_or_none b gs (one_inside g) = inr (refl, refl)

Turns-Inside : {s : Guarded} → Turns idle s → Inside s.is_running s.inside
Turns-Inside here = none_inside
Turns-Inside (enters {s'} g r) = enter-Inside g s'.skipped s'.is_running s'.inside (Turns-Inside r)
Turns-Inside (leaves {s'} g r e) =
    leave-Inside g s'.skipped s'.is_running s'.inside e (Turns-Inside r)

-- However the goroutines take turns, at most one is inside, and the flag is set exactly while one is.
pub never_two_inside :
    (s : Guarded)
    → Turns idle s
    → ((s.is_running ≡ false) × (s.inside ≡ [])) ⊎ ((s.is_running ≡ true) × (length s.inside ≡ 1))
never_two_inside s r = one_or_none s.is_running s.inside (Turns-Inside r)
