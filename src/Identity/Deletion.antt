-- ===== src/Identity/Deletion.antt =====
-- The deletion of an account, whether it ends well or fails: what the requests of
-- modules/identity/application that delete an account have in common.
use hegira.Base.{
  ℕ, ◌+◌, String, ◌≡◌, refl, sym, ap, ◌∙◌, subst, Bool, true, false, Option, List, [], ◌∷◌, any,
  update_where, arith, ◌⊎◌, inl, inr, Result, ok, err,
}
use hegira.Base.Actions.{◌>>=◌, gets, after, settle, transaction}
use hegira.Base.Keeps.{Keeps}
use hegira.Identity.Errors.{ApplicationError}
use hegira.Identity.Store.{UserRow, World, IdentityServices, Service, restore}
use hegira.Identity.Sessions.{is_user}
use hegira.Identity.Emails.{delete_row, delete_managed_user}
use hegira.Identity.Auth.Success.{outside-eq-ok}
use hegira.Identity.Auth.Taken.{settle-eq-ok, begin-eq-ok, write-eq-ok}
use hegira.Identity.Frame.{HasAccountsOf, kept, finish_deletion-Frame}

abbrev pub is_ok : {A : Type 0} → Result ApplicationError A → Bool
is_ok (ok a) = true
is_ok (err e) = false

module _ {A B : Type 0} where
  -- A chain either ends with its first action, which fails, or goes on.
  after-cases :
      (m : Result ApplicationError A) (f : A → Service B) (r : IdentityServices) (s : World)
      {o : Result ApplicationError B} {t : World}
      → after m f r s ≡ (o, t)
      → ((e : ApplicationError) × (m ≡ err e) × (is_ok o ≡ false) × (s ≡ t))
        ⊎ ((a : A) × (m ≡ ok a) × (f a r s ≡ (o, t)))
  after-cases (ok a) f r s h = inr (a, refl, h)
  after-cases (err e) f r s {o = o} h = inl (
    e,
    refl,
    sym (ap (λ (p : Result ApplicationError B × World). is_ok p.0) h),
    ap (λ (p : Result ApplicationError B × World). p.1) h,
  )

  bind-cases :
      (m : Service A) (f : A → Service B) (r : IdentityServices) (s : World)
      {o : Result ApplicationError B} {t : World}
      → (m >>= f) r s ≡ (o, t)
      → ((e : ApplicationError) × (m r s ≡ (err e, t)) × (is_ok o ≡ false))
        ⊎ ((a : A) × (s' : World) × (m r s ≡ (ok a, s')) × (f a r s' ≡ (o, t)))
  unfolding ◌>>=◌
  bind-cases m f r s {o = o} {t = t} h =
      let (p, s') = m r s in
      elim (after-cases p f r s' h) [
        | inl (e, failed, wrong, same) ↦ inl (e, cc (failed, same), wrong)
        | inr (a, done, h1) ↦ inr (a, s', ap (λ (x : Result ApplicationError A). (x, s')) done, h1)
      ]

  -- A chain whose first action leaves the accounts alone: the accounts are as before and the chain has
  -- failed, or it goes on with these accounts.
  pub proceed :
      {Q : Type 0} (s0 : World) (m : Service A) (f : A → Service B) (r : IdentityServices)
      (s : World) {o : Result ApplicationError B} {t : World}
      → Keeps (HasAccountsOf s0) m
      → HasAccountsOf s0 s
      → (m >>= f) r s ≡ (o, t)
      → (is_ok o ≡ false → HasAccountsOf s0 t → Q)
      → ((a : A) (s' : World) → HasAccountsOf s0 s' → m r s ≡ (ok a, s') → f a r s' ≡ (o, t) → Q)
      → Q
  proceed s0 m f r s {o = o} {t = t} km before h stopped goes = elim (bind-cases m f r s h) [
    | inl (e, failed, wrong) ↦ stopped wrong (
        subst (HasAccountsOf s0) (ap (λ (p : Result ApplicationError A × World). p.1) failed)
          (km.at r s before))
    | inr (a, s', done, h1) ↦
        goes a s'
          (subst (HasAccountsOf s0) (ap (λ (p : Result ApplicationError A × World). p.1) done)
            (km.at r s before))
          done h1
  ]

settle-eq-err :
    {A : Type 0} (s : World) (m : Result ApplicationError A × World) {e : ApplicationError}
    {t : World}
    → settle restore s m ≡ (err e, t)
    → HasAccountsOf s t
settle-eq-err {A = A} s (ok a, s') h =
    cc (ap (λ (p : Result ApplicationError A × World). is_ok p.0) h)
settle-eq-err {A = A} s (err e, s') h =
    subst (HasAccountsOf s) (ap (λ (p : Result ApplicationError A × World). p.1) h)
      (refl, refl, refl, refl, refl, refl)

delete_managed_user-rows :
    (username : String) (published : Bool) (r : IdentityServices) (s : World) {deleted : Bool}
    {t : World}
    → delete_managed_user username published r s ≡ (ok deleted, t)
    → (now : ℕ) × HasAccountsOf
        (record s { users = update_where (is_user username) (delete_row now) s.users })
        t
unfolding delete_managed_user transaction
delete_managed_user-rows username published r s h =
    let h1 = outside-eq-ok _ _ r _ (begin-eq-ok _ _ _ (settle-eq-ok s _ h)) in
    let (row, s', ran, h2) = write-eq-ok _ _ _ h1 in
    let same = ap (λ (p : Result String (Option UserRow) × World). p.1) ran in
    let now = r.now_at (s.ticks + 1) in
    (
      now,
      kept _ (finish_deletion-Frame row published) r s'
          (subst
            (HasAccountsOf
              (record s { users = update_where (is_user username) (delete_row now) s.users }))
            same (refl, refl, refl, refl, refl, refl))
          h2,
    )

any-deleted :
    (username : String) (now : ℕ) (rows : List UserRow)
    → any (is_user username) (update_where (is_user username) (delete_row now) rows) ≡ false
unfolding any update_where is_user
any-deleted username now [] = refl
any-deleted username now (row ∷ rows) = ground (arith, any-deleted username now rows)

-- What a deletion of the account of a name comes to: it is refused or fails, and the accounts are as
-- before, or the rows of the name that stood are marked as deleted, no account of the name stands, and
-- every other account, all roles and the OAuth connections are as before.
abbrev pub IsDone : String → World → World → Type 0
IsDone username s t =
    (now : ℕ) × (any (is_user username) t.users ≡ false)
    × HasAccountsOf (record s { users = update_where (is_user username) (delete_row now) s.users })
        t

-- The deletion itself with what a request does after it.
delete_managed_user-cases :
    {B : Type 0} (username : String) (published : Bool) (k : Bool → Service B) (s0 : World)
    (r : IdentityServices) (s : World) {o : Result ApplicationError B} {t : World}
    → ((w : World) (deleted : Bool) → Keeps (HasAccountsOf w) (k deleted))
    → HasAccountsOf s0 s
    → (delete_managed_user username published >>= k) r s ≡ (o, t)
    → ((is_ok o ≡ false) × HasAccountsOf s0 t) ⊎ IsDone username s0 t
unfolding delete_managed_user transaction
delete_managed_user-cases {B = B} username published k s0 r s {t = t} rest before h =
    elim (bind-cases _ k r s h) [
      | inl (e, failed, wrong) ↦
          let same = settle-eq-err s _ failed in
          inl (
            wrong,
            (
              same.0 ∙ before.0,
              same.1 ∙ before.1,
              same.2 ∙ before.2,
              same.3 ∙ before.3,
              same.4 ∙ before.4,
              same.5 ∙ before.5,
            ),
          )
      | inr (deleted, s', ran, h1) ↦
          let (now, rows) = delete_managed_user-rows username published r s ran in
          let same : HasAccountsOf
              (record s { users = update_where (is_user username) (delete_row now) s.users }) t =
            subst
              (HasAccountsOf
                (record s { users = update_where (is_user username) (delete_row now) s.users }))
              (ap (λ (p : Result ApplicationError B × World). p.1) h1)
              ((rest (record s { users = update_where (is_user username) (delete_row now) s.users })
                  deleted).at
                r s' rows) in
          let users : ◌≡◌ {A = List UserRow} t.users
              (update_where (is_user username) (delete_row now) s0.users) =
            same.0
            ∙ ap (λ (us : List UserRow). update_where (is_user username) (delete_row now) us)
                before.0 in
          inr (
            now,
            ap (any (is_user username)) users ∙ any-deleted username now s0.users,
            (
              users,
              same.1 ∙ before.1,
              same.2 ∙ before.2,
              same.3 ∙ before.3,
              same.4 ∙ before.4,
              same.5 ∙ before.5,
            ),
          )
    ]

gets-eq :
    {A B : Type 0} (f : IdentityServices → World → A) (k : A → Service B) (r : IdentityServices)
    (s : World) {o : Result ApplicationError B} {t : World}
    → (gets f >>= k) r s ≡ (o, t)
    → k (f r s) r s ≡ (o, t)
unfolding ◌>>=◌
gets-eq f k r s h = h

-- The end of a request that deletes an account: it reads a setting, deletes, and goes on.
pub delete_then :
    {B Q : Type 0} (username : String) (k : Bool → Service B) (s0 : World) (r : IdentityServices)
    (s : World) {o : Result ApplicationError B} {t : World}
    → ((w : World) (deleted : Bool) → Keeps (HasAccountsOf w) (k deleted))
    → HasAccountsOf s0 s
    → (gets (λ r s. r.publish_search) >>= λ published. delete_managed_user username published >>= k)
        r s
      ≡ (o, t)
    → (is_ok o ≡ false → HasAccountsOf s0 t → Q)
    → (IsDone username s0 t → Q)
    → Q
delete_then username k s0 r s rest before h stopped done =
    elim (delete_managed_user-cases username r.publish_search k s0 r s rest before
      (gets-eq _ _ r s h)) [ inl (wrong, same) ↦ stopped wrong same | inr deleted ↦ done deleted ]
