-- ===== src/Identity/Errors.antt =====
-- The errors of the identity module: `DomainError` (domain_shared/src/common/errors.rs),
-- `ApplicationError` (application/src/shared/errors.rs) and the messages that it localizes
-- (application_contracts/src/localization.rs), all below modules/identity.
use hegira.Base.{String, Result}

pub data DomainError : Type 0 where
  validation conflict not_found forbidden : String → DomainError
  unauthorized : DomainError

pub data ApplicationErrorKind : Type 0 where
  validation conflict not_found unauthorized forbidden infrastructure unexpected :
      ApplicationErrorKind

pub data ApplicationError : Type 0 where
  validation conflict not_found forbidden infrastructure unexpected : String → ApplicationError
  unauthorized : ApplicationError
  coded : ApplicationErrorKind → String → String → ApplicationError

pub data IdentityMessage : Type 0 where
  username_required password_required_for_new_users password_required user_not_found
        user_already_exists role_name_required role_not_found session_expired
        protected_admin_cannot_be_deleted protected_admin_role_cannot_be_deleted invalid_credentials
        permission_users permission_users_create permission_users_update permission_users_delete
        permission_authorization :
      IdentityMessage

abbrev pub ApplicationResult : Type 0 → Type 0
ApplicationResult A = Result ApplicationError A

-- `IdentityMessage::default_text`
pub default_text : IdentityMessage → String
default_text username_required = "Username is required"
default_text password_required_for_new_users = "Password is required for new users."
default_text password_required = "Password is required."
default_text user_not_found = "User not found"
default_text user_already_exists = "User already exists"
default_text role_name_required = "Role name is required"
default_text role_not_found = "Role not found"
default_text session_expired = "Session expired. Please log in again."
default_text protected_admin_cannot_be_deleted = "Admin user cannot be deleted"
default_text protected_admin_role_cannot_be_deleted = "Admin role cannot be deleted."
default_text invalid_credentials = "Invalid username or password."
default_text permission_users = "View identity users"
default_text permission_users_create = "Create identity users"
default_text permission_users_update = "Update identity users"
default_text permission_users_delete = "Delete identity users"
default_text permission_authorization = "Manage identity roles and permissions"

pub localized_error_code : IdentityMessage → String → String
localized_error_code username_required fallback = "identity:username_required"
localized_error_code password_required fallback = "identity:password_required"
localized_error_code password_required_for_new_users fallback = "identity:password_required"
localized_error_code user_not_found fallback = "identity:user_not_found"
localized_error_code user_already_exists fallback = "identity:user_already_exists"
localized_error_code role_name_required fallback = "identity:role_name_required"
localized_error_code role_not_found fallback = "identity:role_not_found"
localized_error_code protected_admin_cannot_be_deleted fallback =
    "identity:protected_admin_cannot_be_deleted"
localized_error_code protected_admin_role_cannot_be_deleted fallback =
    "identity:protected_admin_role_cannot_be_deleted"
localized_error_code session_expired fallback = "auth:session_expired"
localized_error_code invalid_credentials fallback = "auth:invalid_credentials"
localized_error_code _ fallback = fallback

abbrev localized : ApplicationErrorKind → String → IdentityMessage → ApplicationError
localized kind fallback key = coded kind (localized_error_code key fallback) (default_text key)

abbrev pub localized_validation : IdentityMessage → ApplicationError
localized_validation key = localized ApplicationErrorKind.validation "general:validation_error" key

abbrev pub localized_conflict : IdentityMessage → ApplicationError
localized_conflict key = localized ApplicationErrorKind.conflict "general:conflict" key

abbrev pub localized_not_found : IdentityMessage → ApplicationError
localized_not_found key = localized ApplicationErrorKind.not_found "general:not_found" key

abbrev pub localized_forbidden : IdentityMessage → ApplicationError
localized_forbidden key = localized ApplicationErrorKind.forbidden "general:forbidden" key

-- `ApplicationError::code`
pub error_code : ApplicationError → String
error_code (ApplicationError.validation _) = "general:validation_error"
error_code (ApplicationError.conflict _) = "general:conflict"
error_code (ApplicationError.not_found _) = "general:not_found"
error_code ApplicationError.unauthorized = "auth:unauthorized"
error_code (ApplicationError.forbidden _) = "general:forbidden"
error_code (ApplicationError.infrastructure _) = "system:infrastructure_error"
error_code (ApplicationError.unexpected _) = "system:unexpected_error"
error_code (coded _ code _) = code

-- `ApplicationError::kind`
unfoldable pub error_kind : ApplicationError → ApplicationErrorKind
error_kind (ApplicationError.validation _) = ApplicationErrorKind.validation
error_kind (ApplicationError.conflict _) = ApplicationErrorKind.conflict
error_kind (ApplicationError.not_found _) = ApplicationErrorKind.not_found
error_kind ApplicationError.unauthorized = ApplicationErrorKind.unauthorized
error_kind (ApplicationError.forbidden _) = ApplicationErrorKind.forbidden
error_kind (ApplicationError.infrastructure _) = ApplicationErrorKind.infrastructure
error_kind (ApplicationError.unexpected _) = ApplicationErrorKind.unexpected
error_kind (coded kind _ _) = kind

-- `impl From<DomainError> for ApplicationError`
unfoldable pub from_domain : DomainError → ApplicationError
from_domain (DomainError.validation message) = ApplicationError.validation message
from_domain (DomainError.conflict message) = ApplicationError.conflict message
from_domain (DomainError.not_found message) = ApplicationError.not_found message
from_domain DomainError.unauthorized = ApplicationError.unauthorized
from_domain (DomainError.forbidden message) = ApplicationError.forbidden message
