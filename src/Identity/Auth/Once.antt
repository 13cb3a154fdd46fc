-- ===== src/Identity/Auth/Once.antt =====
-- What can be used once: login tokens and backup codes of the second factor.
use hegira.Base.{
  ℕ, ◌≤◌, String, ◌≡◌, refl, sym, ap, ◌∙◌, Bool, false, ◌&&◌, Option, none, some, List, [], ◌∷◌,
  str_eq, any, update_where, arith, Result, ok, err, ok-injective,
}
use hegira.Base.Actions.{◌>>=◌}
use hegira.Identity.Store.{UserRow, World, IdentityServices, outside, answer, statement}
use hegira.Identity.TwoFactor.{update_users, is_awaiting, consume_login_token}
use hegira.Identity.Auth.Success.{tick}

module _ {E A : Type 0} where
  answer_last :
      (g : String → E) (o : Option String) (m : Result String A × World) (s : World) {a : A}
      {t : World}
      → answer g o m s ≡ (ok a, t)
      → m ≡ (ok a, t)
  unfolding answer
  answer_last g none (ok a, s') s h =
      cc (ap (λ (p : Result E A × World). p.0) h, ap (λ (p : Result E A × World). p.1) h)
  answer_last g none (err e, s') s h = cc (ap (λ (p : Result E A × World). p.0) h)
  answer_last g (some e) m s h = cc (ap (λ (p : Result E A × World). p.0) h)

  pub statement_last :
      (g : String → E) (f : World → Result String A × World) (r : IdentityServices) (s : World)
      {a : A} {t : World}
      → statement g f r s ≡ (ok a, t)
      → f (tick s) ≡ (ok a, t)
  unfolding statement
  statement_last g f r s h = answer_last g (r.db_error_at s.ticks) (f (tick s)) (tick s) h

any-consumed :
    (username token : String) (now later : ℕ) (rows : List UserRow)
    → now ≤ later
    → any
        (λ row. str_eq row.username username && is_awaiting token later row)
        (update_where
          (λ row. str_eq row.username username && is_awaiting token now row)
          (λ row. record row { totp_login_token = none; totp_login_expires_at = none })
          rows)
      ≡ false
unfolding any update_where is_awaiting
any-consumed username token now later [] h = refl
any-consumed username token now later (row ∷ rows) h =
    ground (arith, any-consumed username token now later rows)

-- A login token of an account is consumed only while the account awaits it, and once: a consumption
-- at the same time or later, by whoever finds the accounts as the first one left them, is refused.
pub consume_login_token-once :
    (username token : String) (r v : IdentityServices) (s s' : World) {first second : Bool}
    {t t' : World}
    → consume_login_token username token r s ≡ (ok first, t)
    → s'.users ≡ t.users
    → r.now_at s.ticks ≤ v.now_at s'.ticks
    → consume_login_token username token v s' ≡ (ok second, t')
    → (first
        ≡ any
            (λ row. str_eq row.username username && is_awaiting token (r.now_at s.ticks) row)
            s.users)
      × (second ≡ false)
unfolding consume_login_token update_users ◌>>=◌ outside
consume_login_token-once username token r v s s' h same order k =
    let now = r.now_at s.ticks in
    let later = v.now_at s'.ticks in
    let ran = statement_last _ _ _ _ h in
    let again = statement_last _ _ _ _ k in
    (
      sym (ok-injective (ap (λ (p : Result String Bool × World). p.0) ran)),
      sym (ok-injective (ap (λ (p : Result String Bool × World). p.0) again))
          ∙ ap
              (λ (users : List UserRow).
                any (λ row. str_eq row.username username && is_awaiting token later row) users)
              (same ∙ sym (ap (λ (p : Result String Bool × World). p.1.users) ran))
          ∙ any-consumed username token now later s.users order,
    )
