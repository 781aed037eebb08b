-- ===== src/Repository/Targets.antt =====
-- internal/repository/postgres.go: UpdateTargetStatus.
pub mod Report
pub mod Counters
use aba_go_orchestrator.Common.{
  ℕ, ◌+◌, Text, Bool, true, false, not, ltb, ◌&&◌, ◌||◌, Option, none, some, first, update,
  if◌then◌else◌,
}
use aba_go_orchestrator.Domain.Status.{
  TaskStatus, other, pending, sent, delivered, is, is_error_status, rank,
}
use aba_go_orchestrator.Domain.Models.{Campaign, CampaignTarget}
use aba_go_orchestrator.Repository.Store.{
  Db, Result, ok, err, ◌>>=◌, ◌>>◌, Faults, exec, scan, commit, campaign_has_id, target_has_id,
  or_else,
}

-- sent_at as it will be written: the given time, or the clock for `delivered` and `sent`.
abbrev pub final_sent_at : Option ℕ → TaskStatus → ℕ → Option ℕ
final_sent_at (some t) status now = some t
final_sent_at none status now = if is status delivered || is status sent then some now else none

unfoldable pub status_to_write : TaskStatus → TaskStatus → TaskStatus
status_to_write old status =
    if not (is_error_status status) && ltb (rank status) (rank old) then old else status

-- A text that is no member of task_status_enum is refused by the database.
abbrev pub in_enum : TaskStatus → Bool
in_enum (other s) = false
in_enum pending = true
in_enum _ = true

abbrev pub write_status : TaskStatus → Option Text → Option ℕ → ℕ → CampaignTarget → CampaignTarget
write_status status last_error sent_at now t = record t {
  status = status;
  last_error = last_error;
  sent_at = or_else sent_at t.sent_at;
  updated_at = now;
}

-- The campaign's counters after a report of `status` on a target that was `old`.
unfoldable pub count_report : TaskStatus → TaskStatus → ℕ → Campaign → Campaign
count_report old status now c =
    if is status delivered && not (is old delivered)
    then record c { processed_count = c.processed_count + 1; updated_at = now }
    else if is_error_status status && not (is_error_status old)
    then record c { error_count = c.error_count + 1; updated_at = now }
    else c

abbrev pub after_report : ℕ → TaskStatus → Option Text → Option ℕ → ℕ → CampaignTarget → Db → Db
after_report target_id status last_error sent_at now t db = record db {
  targets =
      update (target_has_id target_id)
        (write_status (status_to_write t.status status) last_error
          (final_sent_at sent_at status now) now)
        db.targets;
  campaigns =
      update (campaign_has_id t.campaign_id) (count_report t.status status now) db.campaigns;
}

unfoldable pub update_target_status :
    Faults → ℕ → ℕ → TaskStatus → Option Text → Option ℕ → Db → Result Campaign × Db
update_target_status f now target_id status last_error sent_at db = commit db do
  exec (f 0)
  exec (f 1)
  t ← scan (first (target_has_id target_id) db.targets)
  exec (f 2 || not (in_enum (status_to_write t.status status)))
  exec (f 3)
  let db' = after_report target_id status last_error sent_at now t db
  c ← scan (first (campaign_has_id t.campaign_id) db'.campaigns)
  exec (f 4)
  ok (c, db')
