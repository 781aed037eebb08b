-- ===== src/Transport/Webhooks.antt =====
-- internal/transport/http.go: WorkerCallback and RepliesWebhook, with RegisterReply of the use case.
pub mod Steps
pub mod Told
use aba_go_orchestrator.Common.{
  ℕ, ◌+◌, Text, is_empty, Bool, Option, none, some, List, [], ◌∷◌, if◌then◌else◌,
}
use aba_go_orchestrator.Domain.Status.{TaskStatus}
use aba_go_orchestrator.Domain.Models.{Campaign}
use aba_go_orchestrator.Repository.Store.{Db, Result, ok, err, Faults}
use aba_go_orchestrator.Repository.Replies.{register_reply}
use aba_go_orchestrator.Usecase.Callback.{update_target_status_with_code}
use aba_go_orchestrator.Transport.{Response, http_error, status_ok, Parsers, state_of}
use aba_go_orchestrator.Transport.Hub.{Hub, Push, broadcast_status}

-- The payload of a callback.
pub record Callback : Type 0 where
  pub task_id : ℕ
  pub status : TaskStatus
  pub error_code : Text
  pub error_message : Text
  pub sent_at : Text

-- What a handler leaves: its answer, the tables and the messages to the clients.
pub record Answer : Type 0 where
  pub response : Response
  pub db : Db
  pub pushed : List Push

abbrev pub time_of : Parsers → Text → Option ℕ
time_of p s = if is_empty s then none else p.parse_time s

abbrev pub broadcast : Hub → Campaign → List Push
unfolding broadcast_status
broadcast h c = broadcast_status h c.id (state_of c)

abbrev pub callback_answer : Hub → Result Campaign × Db → Answer
callback_answer h (err e, db) = record { response = http_error 500; db = db; pushed = [] }
callback_answer h (ok c, db) = record { response = status_ok; db = db; pushed = broadcast h c }

-- `none` is a body that is no JSON of this form. `f` and `g` are the faults of the use case.
unfoldable pub worker_callback : Parsers → Faults → Faults → ℕ → Hub → Option Callback → Db → Answer
unfolding update_target_status_with_code
worker_callback p f g now h none db = record { response = http_error 400; db = db; pushed = [] }
worker_callback p f g now h (some k) db = callback_answer h (
    update_target_status_with_code f g now k.task_id k.status k.error_code k.error_message
      (time_of p k.sent_at) db)

-- RegisterReply of the use case: the time is `now` where it does not parse.
abbrev pub time_or : ℕ → Option ℕ → ℕ
time_or now none = now
time_or now (some t) = t

pub record Reply : Type 0 where
  pub phone : Text
  pub reply_text : Text
  pub replied_at : Text

-- The matcher of unsubscribe texts, and for the i-th reply its faults and its time.
pub record Replying : Type 0 where
  pub matcher : Option (Text → Bool)
  pub faults : ℕ → Faults
  pub now : ℕ → ℕ

-- The last campaign, after a reply.
abbrev pub last_of : Option Campaign → Result Campaign → Option Campaign
last_of last (ok c) = some c
last_of last (err e) = last

-- The loop over the replies; the error of one is only logged.
unfoldable pub register_each :
    Parsers → Replying → ℕ → ℕ → List Reply → Option Campaign → Db → Option Campaign × Db
unfolding register_reply
register_each p o campaign_id i [] last db = (last, db)
register_each p o campaign_id i (r ∷ rs) last db =
    let (c, db') =
      register_reply o.matcher (o.faults i) (o.now i) campaign_id r.phone r.reply_text
        (time_or (o.now i) (p.parse_time r.replied_at)) db in
    register_each p o campaign_id (i + 1) rs (last_of last c) db'

abbrev pub replies_answer : Hub → Option Campaign × Db → Answer
replies_answer h (none, db) = record { response = status_ok; db = db; pushed = [] }
replies_answer h (some c, db) = record { response = status_ok; db = db; pushed = broadcast h c }

unfoldable pub replies_webhook : Parsers → Replying → Hub → Option (ℕ × List Reply) → Db → Answer
unfolding register_each
replies_webhook p o h none db = record { response = http_error 400; db = db; pushed = [] }
replies_webhook p o h (some (campaign_id, rs)) db =
    replies_answer h (register_each p o campaign_id 0 rs none db)
