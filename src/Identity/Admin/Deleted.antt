-- ===== src/Identity/Admin/Deleted.antt =====
-- What the deletion of a user by an administrator does.
use hegira.Base.{String, ◌≡◌, refl, false, Result, ◌⊎◌, inl, inr}
use hegira.Base.Keeps.{Keeps-bind, Keeps-raise_if}
use hegira.Identity.Errors.{ApplicationError}
use hegira.Identity.Validation.{is_protected_admin_username}
use hegira.Identity.Store.{World, IdentityServices}
use hegira.Identity.Auth.Success.{raise_if-last}
use hegira.Identity.UserAdmin
use hegira.Identity.Frame.{
  HasAccountsOf, require_permission-Frame, invalidate-Frame, record_audit-Frame,
}
use hegira.Identity.Deletion.{is_ok, proceed, IsDone, delete_then}

-- Whatever the deletion of a user by an administrator answers, and wherever it fails: either it has
-- failed and every account, role, grant and OAuth connection is as before, or the name is none of a
-- protected administrator, the rows of the name that stood are marked as deleted, no account of the
-- name stands, and every other row of these tables is as before.
pub delete-IsGuarded :
    (token username : String) (r : IdentityServices) (s : World)
    {o : Result ApplicationError (Unit {0})} {t : World}
    → UserAdmin.delete token username r s ≡ (o, t)
    → ((is_ok o ≡ false) × HasAccountsOf s t)
      ⊎ ((is_protected_admin_username username ≡ false) × IsDone username s t)
unfolding UserAdmin.delete
delete-IsGuarded token username r s h =
    proceed s _ _ r s (require_permission-Frame token _) (refl, refl, refl, refl, refl, refl) h
      (λ wrong same. inl (wrong, same))
      λ _ s1 before _ h1.
        proceed s _ _ r s1 (Keeps-raise_if _ _) before h1 (λ wrong same. inl (wrong, same))
          λ _ s2 before unprotected h2.
            delete_then username _ s r s2
              (λ w deleted.
                Keeps-bind _ _ (Keeps-raise_if _ _)
                  λ _. Keeps-bind _ _ invalidate-Frame λ _. record_audit-Frame token _ _ username)
              before h2 (λ wrong same. inl (wrong, same))
              λ done. inr ((raise_if-last _ _ _ _ unprotected).0, done)
