-- ===== src/Examples/Scheduling.antt =====
-- internal/config and internal/worker: a zone three hours ahead of UTC, and a round of two accounts.
use aba_go_orchestrator.Common.{
  ℕ, ◌∷◌, [], ◌++◌, map, take, drop, ◌+◌, ◌*◌, ◌%◌, ◌≤◌, ◌<◌, true, ◌≡◌, refl, ◌↔◌, arith, some,
}
use aba_go_orchestrator.Config.{day, is_within_work_window, next_day_work_start}
use aba_go_orchestrator.Config.Window.{IsSteady, minute_of_day, window_iff, next_start}
use aba_go_orchestrator.Domain.Models.{TenantAccount}
use aba_go_orchestrator.Worker.Accounts.RoundRobin.{picks, full_round}
use aba_go_orchestrator.Examples.Data.{account, three_hours, moscow, config}

moscow-IsSteady : IsSteady moscow three_hours
moscow-IsSteady = record {
  wall_ahead = λ t. refl;
  instant_behind = λ w. refl;
  within_day = omega arith;
}

-- Noon of the second day, in UTC.
abbrev noon : ℕ
noon = 129_600_000_000_000

window_iff_example :
    (is_within_work_window config noon ≡ true)
    ↔ ((9 * 60 + 0 ≤ minute_of_day config noon) × (minute_of_day config noon < 20 * 60 + 30))
window_iff_example = window_iff config noon three_hours moscow-IsSteady (omega arith)

next_start_example :
    (noon < next_day_work_start config noon)
    × (next_day_work_start config noon ≤ noon + day)
    × (minute_of_day config (next_day_work_start config noon) ≡ 9 * 60 + 0)
next_start_example =
    next_start config noon three_hours moscow-IsSteady (omega arith) (omega arith) (omega arith)

abbrev second : TenantAccount
second = record account { id = 4 }

full_round_example :
    picks 2 1 (account ∷ second ∷ []) (λ i. 5)
    ≡ map some (drop (5 % 2) (account ∷ second ∷ []))
      ++ map some (take (5 % 2) (account ∷ second ∷ []))
full_round_example = full_round 1 account (second ∷ []) (λ i. 5)
