-- ===== src/Transport/Webhooks/Steps.antt =====
-- internal/transport/http.go: what the webhooks do to the targets.
use aba_go_orchestrator.Common.{
  ℕ, ◌+◌, Text, Option, none, some, List, [], ◌∷◌, ◌≡◌, ◌≢◌, refl, sym, subst, Bool-cases, inl, inr,
}
use aba_go_orchestrator.Domain.Status.{TaskStatus, retry_pending}
use aba_go_orchestrator.Domain.Models.{Campaign}
use aba_go_orchestrator.Repository.Store.{Db, Result, ok, err, Faults}
use aba_go_orchestrator.Repository.Replies.{register_reply}
use aba_go_orchestrator.Repository.Attempts.{
  Step, keep, report, reply, Reach, here, next, reach_trans,
}
use aba_go_orchestrator.Usecase.Callback.{is_deferred, non_empty, update_target_status_with_code}
use aba_go_orchestrator.Transport.{Parsers}
use aba_go_orchestrator.Transport.Hub.{Hub}
use aba_go_orchestrator.Transport.Webhooks.{
  Callback, time_of, time_or, callback_answer, worker_callback, Reply, Replying, last_of,
  register_each, replies_answer, replies_webhook,
}

answer-db : (h : Hub) (r : Result Campaign × Db) → (callback_answer h r).db ≡ r.1
answer-db h (ok c, db) = refl
answer-db h (err e, db) = refl

answered-db : (h : Hub) (r : Option Campaign × Db) → (replies_answer h r).db ≡ r.1
answered-db h (none, db) = refl
answered-db h (some c, db) = refl

module _ (limit : ℕ) (p : Parsers) where
  with_code-Step :
      (f g : Faults) (now target_id : ℕ) (status : TaskStatus) (code message : Text)
      (sent_at : Option ℕ) (db : Db)
      → status ≢ retry_pending
      → Step limit db
          (update_target_status_with_code f g now target_id status code message sent_at db).1
  unfolding update_target_status_with_code
  with_code-Step f g now target_id status code message sent_at db n =
      elim (Bool-cases (is_deferred status code)) [
        | inl e ↦ rw e (keep refl)
        | inr e ↦ rw e (report g now target_id status (non_empty message) sent_at n)
      ]

  pub worker_callback-Step :
      (f g : Faults) (now : ℕ) (h : Hub) (k : Callback) (db : Db)
      → k.status ≢ retry_pending
      → Step limit db (worker_callback p f g now h (some k) db).db
  unfolding worker_callback
  worker_callback-Step f g now h k db n =
      subst (Step limit db)
        (sym (
          answer-db h (
            update_target_status_with_code f g now k.task_id k.status k.error_code k.error_message
              (time_of p k.sent_at) db)))
        (with_code-Step f g now k.task_id k.status k.error_code k.error_message
          (time_of p k.sent_at) db n)

  register_each-Reach :
      (o : Replying) (campaign_id i : ℕ) (rs : List Reply) (last : Option Campaign) (db : Db)
      → Reach limit db (register_each p o campaign_id i rs last db).1
  unfolding register_each
  register_each-Reach o campaign_id i [] last db = here
  register_each-Reach o campaign_id i (r ∷ rs) last db =
      let at = time_or (o.now i) (p.parse_time r.replied_at) in
      let done =
        register_reply o.matcher (o.faults i) (o.now i) campaign_id r.phone r.reply_text at db in
      reach_trans
        (next here (reply o.matcher (o.faults i) (o.now i) campaign_id r.phone r.reply_text at))
        (register_each-Reach o campaign_id (i + 1) rs (last_of last done.0) done.1)

  -- The replies of a webhook, in any number and with any failures, are steps of the tables.
  pub replies_webhook-Reach :
      (o : Replying) (h : Hub) (body : Option (ℕ × List Reply)) (db : Db)
      → Reach limit db (replies_webhook p o h body db).db
  unfolding replies_webhook
  replies_webhook-Reach o h none db = here
  replies_webhook-Reach o h (some (campaign_id, rs)) db =
      subst (Reach limit db) (sym (answered-db h (register_each p o campaign_id 0 rs none db)))
        (register_each-Reach o campaign_id 0 rs none db)
