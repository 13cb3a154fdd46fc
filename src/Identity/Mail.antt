-- ===== src/Identity/Mail.antt =====
-- `TransactionalMail` of modules/identity/application/src/shared/mail.rs, and the mails that
-- modules/identity/application/src/identity/auth/service.rs composes.
use Prim.Native.Char.{code}
use Prim.Native.String.{◌++◌}
use hegira.Base.{ℕ, String, Option, some, ◌==◌, if◌then◌else◌}

pub data TransactionalMail : Type 0 where
  verify_email reset_password magic_link confirm_email_change :
      String → String → String → TransactionalMail

pub record MailMessage : Type 0 where
  pub recipient : String
  pub subject : String
  pub text_body : String
  pub html_body : Option String

pub recipient : TransactionalMail → String
recipient (verify_email to _ _) = to
recipient (reset_password to _ _) = to
recipient (magic_link to _ _) = to
recipient (confirm_email_change to _ _) = to

-- The replacements one after the other leave of each character what this table says: `&` comes
-- first, and no later replacement produces it anew in an unescaped place.
escape_char : ℕ → String → String
escape_char c s =
    if c == b'&'
    then "&amp;"
    else if c == b'<'
    then "&lt;"
    else if c == b'>'
    then "&gt;"
    else if c == b'"'
    then "&quot;"
    else if c == 0x27
    then "&#39;"
    else s

-- `escape_html`
unfoldable pub escape_html : String → String
unfolding escape_char
escape_html String.[] = ""
escape_html (String.◌∷◌ c s) = escape_char (code c) (String.◌∷◌ c "") ++ escape_html s

message : String → String → String → String → String → MailMessage
message to subject heading action url = record {
  recipient = to;
  subject = subject;
  text_body = heading ++ ": " ++ url;
  html_body = some (
      "<!doctype html><html><body><h1>"
      ++ heading
      ++ "</h1><p><a href=\""
      ++ escape_html url
      ++ "\">"
      ++ action
      ++ "</a></p></body></html>");
}

-- `TransactionalMail::render`
unfoldable pub render : TransactionalMail → MailMessage
unfolding message
render (verify_email to app_name url) =
    message to ("Verify your " ++ app_name ++ " account") "Verify your account" "Verify email" url
render (reset_password to app_name url) =
    message to ("Reset your " ++ app_name ++ " password") "Reset your password" "Reset password" url
render (magic_link to app_name url) =
    message to ("Your " ++ app_name ++ " magic link") "Sign in to your account" "Sign in" url
render (confirm_email_change to app_name url) =
    message to ("Confirm your new " ++ app_name ++ " email") "Confirm your new email address"
      "Confirm email" url

pub welcome_mail : String → String → String → String → TransactionalMail
welcome_mail username app_name public_url token =
    verify_email username app_name (public_url ++ "/auth/verify/" ++ token)

pub reset_password_mail : String → String → String → String → TransactionalMail
reset_password_mail username app_name public_url token =
    reset_password username app_name (public_url ++ "/auth/reset/" ++ token)

pub magic_link_mail : String → String → String → String → TransactionalMail
magic_link_mail username app_name public_url token =
    magic_link username app_name (public_url ++ "/auth/magic-link/" ++ token)
