-- ===== src/Forms/Accounts.antt =====
-- The forms for accounts of frontend/app.jsx: `SetupPage`, `LoginPage`, `UserFormModal`, and the
-- password in `ProfileModal`.
use korechat.Common.{
  Text, lit, text_eq, is_empty, or_text, trim, length, ltb, Bool, not, ◌&&◌, ◌||◌, Option, none,
  some, if◌then◌else◌,
}
use korechat.Forms.{Submitted, refused, requests}

pub record SetupForm : Type 0 where
  pub username : Text
  pub password : Text
  pub password2 : Text
  pub display_name : Text

pub record NewAdmin : Type 0 where
  pub username : Text
  pub password : Text
  pub display_name : Text

-- `submit` of `SetupPage`
unfoldable pub setup : SetupForm → Submitted NewAdmin
setup form =
    if is_empty (trim form.username)
    then refused (lit "Username is required.")
    else if ltb (length form.password) 8
    then refused (lit "Password must be at least 8 characters.")
    else if not (text_eq form.password form.password2)
    then refused (lit "Passwords do not match.")
    else requests (record {
      username = trim form.username;
      password = form.password;
      display_name = or_text (trim form.display_name) (trim form.username);
    })

pub record Login : Type 0 where
  pub username : Text
  pub password : Text

-- `submit` of `LoginPage`
unfoldable pub login : Login → Submitted Login
login form =
    if is_empty form.username || is_empty form.password
    then refused (lit "Username and password are required.")
    else requests form

pub record UserForm : Type 0 where
  pub username : Text
  pub display_name : Text
  pub role : Text
  pub password : Text
  pub password2 : Text

-- The body; a property that is not set is absent.
pub record UserBody : Type 0 where
  pub display_name : Text
  pub role : Text
  pub username : Option Text
  pub password : Option Text

-- `submit` of `UserFormModal`
unfoldable pub save_user : Bool → UserForm → Submitted UserBody
save_user is_edit form =
    if not is_edit && is_empty form.username
    then refused (lit "Username is required.")
    else if not is_edit && ltb (length form.password) 8
    then refused (lit "Password must be at least 8 characters.")
    else if not (is_empty form.password) && not (text_eq form.password form.password2)
    then refused (lit "Passwords do not match.")
    else requests (record {
      display_name = form.display_name;
      role = form.role;
      username = if is_edit then none else some form.username;
      password = if is_empty form.password then none else some form.password;
    })

pub record Passwords : Type 0 where
  pub current : Text
  pub new : Text
  pub repeated : Text

-- The current and the new password of the request.
pub record Change : Type 0 where
  pub current_password : Text
  pub new_password : Text

-- `handlePassword`
unfoldable pub change_password : Passwords → Submitted Change
change_password p =
    if not (text_eq p.new p.repeated)
    then refused (lit "Passwords do not match")
    else if ltb (length p.new) 8
    then refused (lit "Password must be at least 8 characters")
    else requests (record { current_password = p.current; new_password = p.new })
