-- ===== src/Identity/Auth/Sound/Writes.antt =====
-- The sessions stay sound: the writer's transactions, and the operations on accounts and two-factor
-- settings.
use hegira.Base.{ℕ, String, Bool, true, false, Option, none, some, List, arith}
use hegira.Base.Keeps.{Keeps, Keeps-bind, Keeps-pure}
use hegira.Identity.Mail.{TransactionalMail}
use hegira.Identity.Store.{statement, UserRow, World, Payload}
use hegira.Identity.Sessions.Sound.{
  HasSoundSessions, statement-Sound, outside-Sound, transaction-Sound,
}
use hegira.Identity.Users.{User}
use hegira.Identity.Outbox.{
  writer_error, run, enqueue_outbox, enqueue_mail, enqueue_search, enqueue_user_upsert,
  enqueue_upsert,
}
use hegira.Identity.Writer.{
  RegisterManagedUser, fetch_user, insert_user, mail_if_some, register_managed_user, publish,
  publish_changed, verify_managed_email, update_token_with_mail,
}
use hegira.Identity.Emails.{
  request_rows, confirm_rows, publish_deletion, finish_deletion, delete_managed_user,
}
use hegira.Identity.Emails
use hegira.Identity.Auth.Sound.{service_rules}

pub run-Sound :
    {A : Type 0} (f : World → A × World)
    → ((s : World) → HasSoundSessions s → HasSoundSessions (f s).1)
    → Keeps HasSoundSessions (run f)
run-Sound f keeps = statement-Sound _ _ keeps

-- A statement that leaves the sessions alone.
pub begin-Sound : {A : Type 0} (f : World → A) → Keeps HasSoundSessions (run (λ s. (f s, s)))
begin-Sound f = run-Sound _ λ s h. h

pub enqueue_outbox-Sound :
    (name : String) (payload : Payload) (key : Option String)
    → Keeps HasSoundSessions (enqueue_outbox name payload key)
unfolding enqueue_outbox
enqueue_outbox-Sound name payload key =
    Keeps-bind _ _ (outside-Sound _)
      λ now. Keeps-bind _ _ (outside-Sound _) λ id. statement-Sound _ _ λ s h. h

pub enqueue_mail-Sound :
    (mail : TransactionalMail) (purpose username : String) (timestamp : ℕ)
    → Keeps HasSoundSessions (enqueue_mail mail purpose username timestamp)
unfolding enqueue_mail
enqueue_mail-Sound mail purpose username timestamp = enqueue_outbox-Sound _ _ _

pub mail_if_some-Sound :
    (mail : Option TransactionalMail) (purpose username : String) (timestamp : ℕ)
    → Keeps HasSoundSessions (mail_if_some mail purpose username timestamp)
unfolding mail_if_some
mail_if_some-Sound none purpose username timestamp = Keeps-pure tt
mail_if_some-Sound (some mail) purpose username timestamp =
    enqueue_mail-Sound mail purpose username timestamp

pub enqueue_upsert-Sound :
    (user : User) (roles : List String) (revision : ℕ)
    → Keeps HasSoundSessions (enqueue_upsert user roles revision)
unfolding enqueue_upsert enqueue_user_upsert enqueue_search
enqueue_upsert-Sound user roles revision = enqueue_outbox-Sound _ _ _

pub fetch_user-Sound : (username : String) → Keeps HasSoundSessions (fetch_user username)
unfolding fetch_user
fetch_user-Sound username = begin-Sound _

insert_user-Sound :
    (row : UserRow) (s : World) → HasSoundSessions s → HasSoundSessions (insert_user row s).1
unfolding insert_user
insert_user-Sound row s h = ground arith

pub insert_user-Keeps :
    (f : World → UserRow)
    → Keeps HasSoundSessions (statement writer_error (λ s. insert_user (f s) s))
insert_user-Keeps f = statement-Sound _ _ λ s h. insert_user-Sound (f s) s h

pub ruleset write_rules = (
  service_rules, begin-Sound, enqueue_outbox-Sound, enqueue_mail-Sound, mail_if_some-Sound,
  enqueue_upsert-Sound, fetch_user-Sound, insert_user-Keeps,
)

pub register_managed_user-Sound :
    (command : RegisterManagedUser) → Keeps HasSoundSessions (register_managed_user command)
unfolding register_managed_user
register_managed_user-Sound command = transaction-Sound _ (search write_rules depth 30)

publish-Sound :
    (published : Bool) (missing username : String) (revision : ℕ)
    → Keeps HasSoundSessions (publish published missing username revision)
unfolding publish
publish-Sound false missing username revision = Keeps-pure tt
publish-Sound true missing username revision = search write_rules depth 16

publish_changed-Sound :
    (row : Option UserRow) (published : Bool) (missing : String)
    → Keeps HasSoundSessions (publish_changed row published missing)
unfolding publish_changed
publish_changed-Sound none published missing = Keeps-pure false
publish_changed-Sound (some row) published missing = search (write_rules, publish-Sound) depth 16

pub verify_managed_email-Sound :
    (token : String) (verified_at : ℕ) (published : Bool)
    → Keeps HasSoundSessions (verify_managed_email token verified_at published)
unfolding verify_managed_email
verify_managed_email-Sound token verified_at published = transaction-Sound _ (
    Keeps-bind _ _ (begin-Sound _)
      λ _. Keeps-bind _ _ (run-Sound _ λ s h. h) λ row. publish_changed-Sound row published _)

pub update_token_with_mail-Sound :
    (put : UserRow → UserRow) (extra : UserRow → Bool) (username : String) (time : ℕ)
    (mail : TransactionalMail) (purpose : String)
    → Keeps HasSoundSessions (update_token_with_mail put extra username time mail purpose)
unfolding update_token_with_mail
update_token_with_mail-Sound put extra username time mail purpose = transaction-Sound _ (
    Keeps-bind _ _ (begin-Sound _)
      λ _. Keeps-bind _ _ (run-Sound _ λ s h. h) λ updated. search write_rules depth 16)

request_rows-Sound :
    (username new_email token : String) (sent_at : ℕ) (s : World)
    → HasSoundSessions s
    → HasSoundSessions (request_rows username new_email token sent_at s).1
unfolding request_rows
request_rows-Sound username new_email token sent_at s h = ground arith

pub request_email_change-Sound :
    (username new_email token : String) (sent_at : ℕ) (mail : Option TransactionalMail)
    → Keeps HasSoundSessions (Emails.request_email_change username new_email token sent_at mail)
unfolding Emails.request_email_change
request_email_change-Sound username new_email token sent_at mail = transaction-Sound _ (
    Keeps-bind _ _ (begin-Sound _) λ _.
      Keeps-bind _ _ (statement-Sound _ _ (request_rows-Sound username new_email token sent_at))
        λ updated. search write_rules depth 16)

confirm_rows-Sound :
    (token : String) (confirmed_at : ℕ) (s : World)
    → HasSoundSessions s
    → HasSoundSessions (confirm_rows token confirmed_at s).1
unfolding confirm_rows
confirm_rows-Sound token confirmed_at s h = ground arith

pub confirm_email_change-Sound :
    (token : String) (confirmed_at : ℕ) (published : Bool)
    → Keeps HasSoundSessions (Emails.confirm_email_change token confirmed_at published)
unfolding Emails.confirm_email_change
confirm_email_change-Sound token confirmed_at published = transaction-Sound _ (
    Keeps-bind _ _ (begin-Sound _) λ _.
      Keeps-bind _ _ (statement-Sound _ _ (confirm_rows-Sound token confirmed_at))
        λ row. publish_changed-Sound row published _)

publish_deletion-Sound :
    (published : Bool) (row : UserRow) → Keeps HasSoundSessions (publish_deletion published row)
unfolding publish_deletion enqueue_search
publish_deletion-Sound false row = Keeps-pure tt
publish_deletion-Sound true row = enqueue_outbox-Sound _ _ _

finish_deletion-Sound :
    (row : Option UserRow) (published : Bool)
    → Keeps HasSoundSessions (finish_deletion row published)
unfolding finish_deletion
finish_deletion-Sound none published = Keeps-pure false
finish_deletion-Sound (some row) published = search (write_rules, publish_deletion-Sound) depth 16

pub delete_managed_user-Sound :
    (username : String) (published : Bool)
    → Keeps HasSoundSessions (delete_managed_user username published)
unfolding delete_managed_user
delete_managed_user-Sound username published = transaction-Sound _ (
    Keeps-bind _ _ (begin-Sound _) λ _.
      Keeps-bind _ _ (outside-Sound _)
        λ now. Keeps-bind _ _ (run-Sound _ λ s h. h) λ row. finish_deletion-Sound row published)
