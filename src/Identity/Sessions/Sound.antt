-- ===== src/Identity/Sessions/Sound.antt =====
-- The ways in which an action of modules/identity is built, and the statements on `sessions`, keep
-- the sessions sound.
use hegira.Base.{ℕ, ◌+◌, ◌≤◌, String, Option, none, some, Result, ok, err, find}
use hegira.Base.Actions.{Action, transaction}
use hegira.Base.Keeps.{
  Keeps, keeps_rules, Keeps-bind, Keeps-transaction, Keeps-gets, Keeps-lift, Keeps-pure, Keeps-if,
  Keeps-raise,
}
use hegira.Identity.Store.{World, IdentityServices, outside, answer, statement, query, restore}
use hegira.Identity.Sessions.{
  is_user, find_by_token, exists, insert, update_token, refresh, delete, list_for_user,
  delete_for_user,
}
use hegira.Identity.Sessions.Rows.{
  AreSound, insert_for-AreSound, update_live-AreSound, extend-AreSound, retain-AreSound,
}

-- The invariant of the table `sessions`.
abbrev pub HasSoundSessions : World → Type 0
HasSoundSessions s = AreSound s.sessions

module _ {E A : Type 0} where
  answer-Sound :
      (f : String → E) (o : Option String) (m : Result String A × World) (s : World)
      → HasSoundSessions m.1
      → HasSoundSessions s
      → HasSoundSessions (answer f o m s).1
  unfolding answer
  answer-Sound f none (ok a, t) s h k = h
  answer-Sound f none (err e, t) s h k = k
  answer-Sound f (some e) m s h k = k

  pub statement-Sound :
      (g : String → E) (f : World → Result String A × World)
      → ((s : World) → HasSoundSessions s → HasSoundSessions (f s).1)
      → Keeps HasSoundSessions (statement g f)
  unfolding statement
  statement-Sound g f keeps = record {
    at = λ r s h.
        let s' : World = record s { ticks = s.ticks + 1 } in
        answer-Sound g (r.db_error_at s.ticks) (f s') s' (keeps s' h) h;
  }

  pub outside-Sound : (f : IdentityServices → ℕ → A) → Keeps {E = E} HasSoundSessions (outside f)
  unfolding outside
  outside-Sound f = record { at = λ r s h. h }

  pub transaction-Sound :
      (m : Action IdentityServices World E A)
      → Keeps HasSoundSessions m
      → Keeps HasSoundSessions (transaction restore m)
  transaction-Sound m km = Keeps-transaction restore m (λ before after h k. h) km

pub query-Sound : {A : Type 0} (f : World → A) → Keeps HasSoundSessions (query f)
query-Sound f = statement-Sound _ _ λ s h. h

pub ruleset sound_rules = (keeps_rules, outside-Sound, transaction-Sound, query-Sound)

pub find_by_token-Sound : (token : String) → Keeps HasSoundSessions (find_by_token token)
unfolding find_by_token
find_by_token-Sound token = search sound_rules

pub exists-Sound : (token : String) → Keeps HasSoundSessions (exists token)
unfolding exists
exists-Sound token = search sound_rules

pub insert-Sound :
    (token username : String) (expires_at max_expires_at : ℕ)
    → expires_at ≤ max_expires_at
    → Keeps HasSoundSessions (insert token username expires_at max_expires_at)
unfolding insert
insert-Sound token username expires_at max_expires_at b = Keeps-bind _ _ (outside-Sound _) λ pid.
    Keeps-bind _ _ (outside-Sound _) λ created_at.
      Keeps-bind _ _
        (statement-Sound _ _ λ s h.
          insert_for-AreSound (find (is_user username) s.users) pid token created_at expires_at
            max_expires_at s b h)
        λ inserted. search sound_rules

pub update_token-Sound :
    (old new : String) (expires_at max_expires_at : ℕ)
    → expires_at ≤ max_expires_at
    → Keeps HasSoundSessions (update_token old new expires_at max_expires_at)
unfolding update_token
update_token-Sound old new expires_at max_expires_at b = Keeps-bind _ _ (outside-Sound _) λ now.
    statement-Sound _ _ λ s h. update_live-AreSound old new expires_at max_expires_at now s b h

pub refresh-Sound :
    (token : String) (expires_at : ℕ) → Keeps HasSoundSessions (refresh token expires_at)
unfolding refresh
refresh-Sound token expires_at =
    Keeps-bind _ _ (outside-Sound _)
      λ now. statement-Sound _ _ λ s h. extend-AreSound _ expires_at s.sessions h

pub delete-Sound : (token : String) → Keeps HasSoundSessions (delete token)
unfolding delete
delete-Sound token = statement-Sound _ _ λ s h. retain-AreSound _ s.sessions h

pub list_for_user-Sound : (username : String) → Keeps HasSoundSessions (list_for_user username)
unfolding list_for_user
list_for_user-Sound username = search sound_rules

pub delete_for_user-Sound :
    (username pid : String) → Keeps HasSoundSessions (delete_for_user username pid)
unfolding delete_for_user
delete_for_user-Sound username pid = statement-Sound _ _ λ s h. retain-AreSound _ s.sessions h
