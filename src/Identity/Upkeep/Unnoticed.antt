-- ===== src/Identity/Upkeep/Unnoticed.antt =====
-- What the removal of expired rows (modules/identity/sqlx/src/identity/cleanup.rs) leaves behind.
use hegira.Base.{
  ℕ, ◌+◌, ◌≤◌, String, ◌≡◌, refl, sym, ap, ◌∙◌, Bool, true, false, not, List, [], ◌∷◌, ltb, find,
  retain, arith, Result, ok, any,
}
use hegira.Base.Actions.{◌>>=◌, pure, bind-eq-ok, transaction}
use hegira.Base.Keeps.{Keeps}
use hegira.Identity.Store.{
  SessionRow, OAuthState, PendingOAuthSignup, World, IdentityServices, outside, statement,
}
use hegira.Identity.Sessions.{is_live}
use hegira.Identity.Sessions.Rows.{retain-AreSound}
use hegira.Identity.Sessions.Sound.{HasSoundSessions, sound_rules, statement-Sound}
use hegira.Identity.Auth.Once.{statement_last}
use hegira.Identity.Auth.Success.{tick}
use hegira.Identity.Auth.Taken.{settle-eq-ok}
use hegira.Identity.OAuth.{is_current, is_pending}
use hegira.Identity.Upkeep.{
  Task, as_is, session_is_over, delete_sessions, delete_states, delete_signups, delete_before,
  delete_expired,
}

find-retain :
    {A : Type 0} (p q : A → Bool) (rows : List A)
    → ((row : A) → p row ≡ true → q row ≡ true)
    → find p (retain q rows) ≡ find p rows
unfolding find retain
find-retain p q [] h = refl
find-retain p q (row ∷ rows) h = ground (arith, h row, find-retain p q rows h)

live-IsKept :
    (token : String) (now later : ℕ) (row : SessionRow)
    → now ≤ later
    → is_live token later row ≡ true
    → not (session_is_over now row) ≡ true
unfolding is_live
live-IsKept token now later row order h = ground (arith, order, h)

current-IsKept :
    (state : String) (now later : ℕ) (row : OAuthState)
    → now ≤ later
    → is_current state later row ≡ true
    → not (ltb row.expires_at now) ≡ true
unfolding is_current
current-IsKept state now later row order h = ground (arith, order, h)

pending-IsKept :
    (token : String) (now later : ℕ) (row : PendingOAuthSignup)
    → now ≤ later
    → is_pending token later row ≡ true
    → not (ltb row.expires_at now) ≡ true
unfolding is_pending
pending-IsKept token now later row order h = ground (arith, order, h)

step-eq-ok :
    {A B : Type 0} (f : World → Result String A × World) (k : A → Task B) (r : IdentityServices)
    (s : World) {b : B} {t : World}
    → (statement as_is f >>= k) r s ≡ (ok b, t)
    → (a : A) × (s' : World) × (f (tick s) ≡ (ok a, s')) × (k a r s' ≡ (ok b, t))
step-eq-ok f k r s h =
    let (a, s', ran, h1) = bind-eq-ok _ k r s h in (a, s', statement_last _ f r s ran, h1)

pure_last :
    {A : Type 0} (a : A) (r : IdentityServices) (s : World) {b : A} {t : World}
    → pure {E = String} a r s ≡ (ok b, t)
    → s ≡ t
unfolding ◌>>=◌
pure_last {A = A} a r s h = ap (λ (p : Result String A × World). p.1) h

-- The tables without the rows that are over, after some calls to the outside.
abbrev pub swept : ℕ → ℕ → World → World
swept now ticks s = record s {
  sessions = retain (λ row. not (session_is_over now row)) s.sessions;
  oauth_states = retain (λ row. not (ltb row.expires_at now)) s.oauth_states;
  oauth_signups = retain (λ row. not (ltb row.expires_at now)) s.oauth_signups;
  ticks = ticks;
}

state_after :
    {A : Type 0} {m : Result String A × World} {a : A} {s : World} → m ≡ (ok a, s) → m.1 ≡ s
state_after {A = A} h = ap (λ (p : Result String A × World). p.1) h

abbrev without_sessions : ℕ → World → World
without_sessions now s = record s {
  sessions = retain (λ row. not (session_is_over now row)) s.sessions;
}

abbrev without_states : ℕ → World → World
without_states now s = record s {
  oauth_states = retain (λ row. not (ltb row.expires_at now)) s.oauth_states;
}

abbrev without_signups : ℕ → World → World
without_signups now s = record s {
  oauth_signups = retain (λ row. not (ltb row.expires_at now)) s.oauth_signups;
}

delete_before-swept :
    (now : ℕ) (r : IdentityServices) (s : World) {n : ℕ} {t : World}
    → delete_before now r s ≡ (ok n, t)
    → t ≡ swept now t.ticks s
unfolding delete_before transaction delete_sessions delete_states delete_signups
delete_before-swept now r s {n = n} {t = t} h =
    let (_, s1, ran1, h1) = step-eq-ok _ _ r s (settle-eq-ok s _ h) in
    let (_, s2, ran2, h2) = step-eq-ok _ _ r s1 h1 in
    let (_, s3, ran3, h3) = step-eq-ok _ _ r s2 h2 in
    let (_, s4, ran4, h4) = step-eq-ok _ _ r s3 h3 in
    let (_, s5, ran5, h5) = step-eq-ok _ _ r s4 h4 in
    let whole : ◌≡◌ {A = World} (swept now (s.ticks + 1 + 1 + 1 + 1 + 1) s) t =
      ap
        (λ (w : World).
          tick (
            without_signups now (tick (without_states now (tick (without_sessions now (tick w)))))))
        (state_after ran1)
      ∙ ap (λ (w : World). tick (without_signups now (tick (without_states now (tick w)))))
          (state_after ran2)
      ∙ ap (λ (w : World). tick (without_signups now (tick w))) (state_after ran3)
      ∙ ap tick (state_after ran4)
      ∙ state_after ran5
      ∙ pure_last _ r s5 h5 in
    sym whole ∙ ap (λ (w : World). swept now w.ticks s) whole

now-eq-ok :
    {A B : Type 0} (f : IdentityServices → ℕ → A) (k : A → Task B) (r : IdentityServices)
    (s : World) {b : B} {t : World}
    → (outside f >>= k) r s ≡ (ok b, t)
    → k (f r s.ticks) r (tick s) ≡ (ok b, t)
unfolding ◌>>=◌ outside
now-eq-ok f k r s h = h

any-retain :
    {A : Type 0} (p : A → Bool) (rows : List A) → any p (retain (λ row. not (p row)) rows) ≡ false
unfolding any retain
any-retain p [] = refl
any-retain p (row ∷ rows) = ground (arith, any-retain p rows)

-- The removal of what is over takes exactly the sessions, OAuth states and pending signups that are
-- over at its instant, and changes nothing else in any table. At that instant and at any later time,
-- the live session of a token, the current OAuth state and the pending signup that are found are the
-- same with it and without it.
pub delete_expired-unnoticed :
    (token state signup : String) (later : ℕ) (r : IdentityServices) (s : World) {n : ℕ} {t : World}
    → delete_expired r s ≡ (ok n, t)
    → r.now_at s.ticks ≤ later
    → (t ≡ swept (r.now_at s.ticks) t.ticks s)
      × (any (session_is_over (r.now_at s.ticks)) t.sessions ≡ false)
      × (any (λ row. ltb row.expires_at (r.now_at s.ticks)) t.oauth_states ≡ false)
      × (any (λ row. ltb row.expires_at (r.now_at s.ticks)) t.oauth_signups ≡ false)
      × (find (is_live token later) t.sessions ≡ find (is_live token later) s.sessions)
      × (find (is_current state later) t.oauth_states
          ≡ find (is_current state later) s.oauth_states)
      × (find (is_pending signup later) t.oauth_signups
          ≡ find (is_pending signup later) s.oauth_signups)
unfolding delete_expired
delete_expired-unnoticed token state signup later r s h order =
    let now = r.now_at s.ticks in
    let whole = delete_before-swept now r (tick s) (now-eq-ok _ _ r s h) in
    let sessions = ap (λ (w : World). w.sessions) whole in
    let states = ap (λ (w : World). w.oauth_states) whole in
    let signups = ap (λ (w : World). w.oauth_signups) whole in
    (
      whole,
      ap (any (session_is_over now)) sessions ∙ any-retain _ s.sessions,
      ap (any λ row. ltb row.expires_at now) states ∙ any-retain _ s.oauth_states,
      ap (any λ row. ltb row.expires_at now) signups ∙ any-retain _ s.oauth_signups,
      ap (find (is_live token later)) sessions
          ∙ find-retain _ _ s.sessions (λ row. live-IsKept token now later row order),
      ap (find (is_current state later)) states
          ∙ find-retain _ _ s.oauth_states (λ row. current-IsKept state now later row order),
      ap (find (is_pending signup later)) signups
          ∙ find-retain _ _ s.oauth_signups (λ row. pending-IsKept signup now later row order),
    )

delete_sessions-Sound : (now : ℕ) → Keeps HasSoundSessions (delete_sessions now)
unfolding delete_sessions
delete_sessions-Sound now = statement-Sound _ _ λ s h. retain-AreSound _ s.sessions h

-- The sessions stay sound.
delete_expired-Sound : Keeps HasSoundSessions delete_expired
unfolding delete_expired delete_before delete_states delete_signups
delete_expired-Sound = search (sound_rules, statement-Sound, delete_sessions-Sound) depth 30
