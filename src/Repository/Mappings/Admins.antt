-- ===== src/Repository/Mappings/Admins.antt =====
-- internal/repository/postgres.go: what a stored admin chat is found by.
use aba_go_orchestrator.Common.{
  ℕ, Text, text_eq_refl, is_empty, trim_space, trim_left, trim_right, is_space, ==_refl, Bool, true,
  false, some, List, [], ◌∷◌, ◌++◌, first, update, exists, select, Bool-cases, ◌≡◌, ◌≢◌, refl, inl,
  inr, arith,
}
use aba_go_orchestrator.Domain.Models.{AdminChatPhoneMapping, uuid_nil}
use aba_go_orchestrator.Domain.Phone.{normalize_phone, canonical_digits, is_digit}
use aba_go_orchestrator.Repository.Store.{Db, ok, Faults}
use aba_go_orchestrator.Repository.Mappings.{
  admin_key, admin_of, admin_row, put_admin, upsert_admin_chat_mapping,
  get_admin_chat_phone_mapping_by_phone,
}

-- What a call that succeeds has written.
upsert_admin_ok :
    (f : Faults) (chat_id : Text) (tenant_id account_id : ℕ) (phone messenger : Text) (db db' : Db)
    → upsert_admin_chat_mapping f chat_id tenant_id account_id phone messenger db ≡ (ok tt, db')
    → (is_empty (normalize_phone phone) ≡ false)
      × (account_id ≢ uuid_nil)
      × (db'.admin_mappings
          ≡ put_admin (admin_row chat_id tenant_id account_id phone messenger) db.admin_mappings)
unfolding upsert_admin_chat_mapping
upsert_admin_ok f chat_id tenant_id account_id phone messenger db db' h = ground arith

-- A normalized phone begins with a 9.
canonical_digits-nine :
    (d : Text)
    → is_empty (canonical_digits d) ≡ false
    → (t : Text) × (canonical_digits d ≡ b'9' ∷ t)
unfolding canonical_digits
canonical_digits-nine [] h = absurd (cc)
canonical_digits-nine (c ∷ []) h = absurd (cc)
canonical_digits-nine (c ∷ e ∷ d) h = ground arith

trim_space-nine : (t : Text) → is_empty (trim_space (b'9' ∷ t)) ≡ false
unfolding trim_space trim_left trim_right is_space
trim_space-nine t = ground arith

normalized_not_blank :
    (phone : Text)
    → is_empty (normalize_phone phone) ≡ false
    → is_empty (trim_space (normalize_phone phone)) ≡ false
unfolding normalize_phone
normalized_not_blank phone h =
    let (t, e) = canonical_digits-nine (select is_digit phone) h in rw e (trim_space-nine t)

-- The row under the key of `row`, with its chat.
abbrev Holds : AdminChatPhoneMapping → List AdminChatPhoneMapping → Type 0
Holds row ms =
    (m : AdminChatPhoneMapping) × (first
        (admin_of row.tenant_id row.tenant_account_id row.phone_normalized row.messenger_type) ms
      ≡ some m)
    × (m.chat_id ≡ row.chat_id)

abbrev same_key : AdminChatPhoneMapping → AdminChatPhoneMapping → Bool
same_key row = admin_key row.tenant_account_id row.phone_normalized row.messenger_type

abbrev overwrite : AdminChatPhoneMapping → AdminChatPhoneMapping → AdminChatPhoneMapping
overwrite row m = record m { chat_id = row.chat_id; tenant_id = row.tenant_id }

same_key_refl : (row : AdminChatPhoneMapping) → same_key row row ≡ true
same_key_refl row =
    rw
      (
        ==_refl row.tenant_account_id,
        text_eq_refl row.phone_normalized,
        text_eq_refl row.messenger_type,
      )
      refl

update-Holds :
    (row : AdminChatPhoneMapping) (ms : List AdminChatPhoneMapping)
    → exists (same_key row) ms ≡ true
    → Holds row (update (same_key row) (overwrite row) ms)
update-Holds row [] h = absurd (cc)
update-Holds row (m ∷ ms) h = elim (Bool-cases (same_key row m)) [
  | inl e ↦ (overwrite row m, rw e (rw (==_refl row.tenant_id, e) refl), refl)
  | inr e ↦ ground (arith, update-Holds row ms, e)
]

append-Holds :
    (row : AdminChatPhoneMapping) (ms : List AdminChatPhoneMapping)
    → exists (same_key row) ms ≡ false
    → Holds row (ms ++ row ∷ [])
append-Holds row [] h = (row, rw (==_refl row.tenant_id, same_key_refl row) refl, refl)
append-Holds row (m ∷ ms) h = elim (Bool-cases (same_key row m)) [
  | inl e ↦ ground (arith, e)
  | inr e ↦ ground (arith, append-Holds row ms, e)
]

put_admin-Holds :
    (row : AdminChatPhoneMapping) (ms : List AdminChatPhoneMapping) → Holds row (put_admin row ms)
unfolding put_admin
put_admin-Holds row ms = elim (Bool-cases (exists (same_key row) ms)) [
  | inl e ↦ rw e (update-Holds row ms e)
  | inr e ↦ rw e (append-Holds row ms e)
]

-- An admin chat that was stored is found under the sender account, the tenant and the phone, however
-- the phone was spelled.
pub admin_chat_found :
    (f g : Faults) (chat_id : Text) (tenant_id account_id : ℕ) (phone messenger : Text)
    (db db' : Db)
    → upsert_admin_chat_mapping f chat_id tenant_id account_id phone messenger db ≡ (ok tt, db')
    → g 0 ≡ false
    → (m : AdminChatPhoneMapping) × (get_admin_chat_phone_mapping_by_phone g tenant_id account_id
          (normalize_phone phone)
          messenger
          db'
        ≡ ok m)
      × (m.chat_id ≡ trim_space chat_id)
unfolding get_admin_chat_phone_mapping_by_phone
admin_chat_found f g chat_id tenant_id account_id phone messenger db db' h p =
    let (spelled, known, e) =
      upsert_admin_ok f chat_id tenant_id account_id phone messenger db db' h in
    let (m, found, same) =
      put_admin-Holds (admin_row chat_id tenant_id account_id phone messenger) db.admin_mappings in
    (m, rw (normalized_not_blank phone spelled, p, e, found) (ground arith), same)
