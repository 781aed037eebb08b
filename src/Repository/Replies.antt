-- ===== src/Repository/Replies.antt =====
-- internal/repository/postgres.go: RegisterReply and the persistent blocklist.
pub mod Completion
use aba_go_orchestrator.Common.{
  ℕ, Text, text_eq, lit, trim_space, leb, Bool, true, false, not, ◌==◌, ◌&&◌, ◌||◌, Option, none,
  some, List, [], ◌∷◌, ◌++◌, first, select, update, exists, count_where, if◌then◌else◌,
}
use aba_go_orchestrator.Domain.Status.{replied, completed, is}
use aba_go_orchestrator.Domain.Models.{
  Campaign, CampaignTarget, CampaignReply, TenantAccount, BlockedRecipient,
}
use aba_go_orchestrator.Repository.Store.{
  Db, Result, ok, ◌>>=◌, ◌>>◌, Faults, exec, scan, commit, campaign_has_id, target_has_id, or_else,
}

-- isUnsubscribeReply: the installed matcher, or the legacy one.
unfoldable pub is_unsubscribe_reply : Option (Text → Bool) → Text → Bool
is_unsubscribe_reply none text = text_eq (trim_space text) (lit "@")
is_unsubscribe_reply (some matches) text = matches text

-- `WHERE campaign_id = $5 AND phone_normalized = $6`.
abbrev pub answers : ℕ → Text → CampaignTarget → Bool
answers campaign_id phone t = t.campaign_id == campaign_id && text_eq t.phone_normalized phone

abbrev pub write_reply : Text → ℕ → ℕ → CampaignTarget → CampaignTarget
write_reply text replied_at now t = record t {
  status = replied;
  last_reply_text = some text;
  replied_at = some replied_at;
  updated_at = now;
}

abbrev account_id_of : Option TenantAccount → Option ℕ
account_id_of none = none
account_id_of (some a) = some a.id

-- The account of the target, or the tenant's first one.
abbrev pub reply_account : Db → CampaignTarget → Option ℕ
reply_account db t =
    or_else t.tenant_account_id
      (account_id_of (first (λ a. a.tenant_id == t.tenant_id) db.accounts))

-- The column tenant_account_id of a reply is NOT NULL.
abbrev pub violates : Option ℕ → Bool
violates none = true
violates (some id) = false

abbrev pub reply_row : Db → CampaignTarget → Text → ℕ → CampaignReply
reply_row db t text replied_at = record {
  campaign_target_id = t.id;
  tenant_id = t.tenant_id;
  tenant_account_id = reply_account db t;
  message_text = text;
  received_at = replied_at;
}

abbrev pub blocks : ℕ → Text → BlockedRecipient → Bool
blocks tenant_id phone b = b.tenant_id == tenant_id && text_eq b.phone_normalized phone

-- The insert of a blocked recipient; on a conflict the row keeps its blocked_at.
unfoldable pub add_blocked : ℕ → Text → ℕ → List BlockedRecipient → List BlockedRecipient
add_blocked tenant_id phone at bs =
    if exists (blocks tenant_id phone) bs
    then bs
    else bs ++ record { tenant_id = tenant_id; phone_normalized = phone; blocked_at = at } ∷ []

abbrev pub of_campaign : ℕ → CampaignTarget → Bool
of_campaign campaign_id t = t.campaign_id == campaign_id

abbrev pub has_replied : ℕ → CampaignTarget → Bool
has_replied campaign_id t = of_campaign campaign_id t && is t.status replied

-- `repliedTargets >= totalTargets`.
unfoldable pub all_replied : ℕ → List CampaignTarget → Bool
all_replied campaign_id ts =
    leb (count_where (of_campaign campaign_id) ts) (count_where (has_replied campaign_id) ts)

-- The row of the campaign, and the copy of it that is returned.
abbrev pub complete_row : Bool → ℕ → Campaign → Campaign
complete_row true now c = record c { status = completed; updated_at = now }
complete_row false now c = c

abbrev pub complete : Bool → Campaign → Campaign
complete true c = record c { status = completed }
complete false c = c

abbrev pub after_reply : Bool → ℕ → Text → Text → ℕ → ℕ → CampaignTarget → Campaign → Db → Db
after_reply unsubscribe campaign_id phone text replied_at now t c db =
    let targets' : List CampaignTarget =
      update (answers campaign_id phone) (write_reply text replied_at now) db.targets in
    record db {
      campaigns =
          update (campaign_has_id campaign_id) (complete_row (all_replied campaign_id targets') now)
            db.campaigns;
      targets = targets';
      replies = db.replies ++ reply_row db t text replied_at ∷ [];
      blocked =
          if unsubscribe then add_blocked c.tenant_id phone replied_at db.blocked else db.blocked;
    }

-- The query returns the first row that it updates. The insert of the reply fails where neither the target
-- nor its tenant has an account.
unfoldable pub register_reply :
    Option (Text → Bool) → Faults → ℕ → ℕ → Text → Text → ℕ → Db → Result Campaign × Db
register_reply matcher f now campaign_id phone text replied_at db = commit db do
  exec (f 0)
  exec (f 1)
  t ← scan (first (answers campaign_id phone) db.targets)
  exec (violates (reply_account db t) || f 2)
  exec (f 3)
  c ← scan (first (campaign_has_id campaign_id) db.campaigns)
  let unsubscribe = is_unsubscribe_reply matcher text
  exec (unsubscribe && f 4)
  exec (f 5)
  let db' = after_reply unsubscribe campaign_id phone text replied_at now t c db
  let done = all_replied campaign_id db'.targets
  exec (done && f 6)
  exec (f 7)
  ok (complete done c, db')

unfoldable pub add_blocked_recipient : Faults → ℕ → ℕ → Text → Db → Result (Unit {0}) × Db
add_blocked_recipient f now tenant_id phone db =
    commit db
      do exec (f 0); ok (tt, record db { blocked = add_blocked tenant_id phone now db.blocked })

unfoldable pub list_blocked_recipients : Faults → Db → Result (List BlockedRecipient)
list_blocked_recipients f db = do exec (f 0); ok db.blocked
