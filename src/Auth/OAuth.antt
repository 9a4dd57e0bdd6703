-- ===== src/Auth/OAuth.antt =====
-- handleOAuthLogin, revokeSession and removeDevice of src/modules/auth/auth.service.ts.
pub mod SameAccount
use flow_ai.Common.{ℕ, Bool, true, false, ◌&&◌, Option, none, some, ◌==◌, Text, lower, or_else}
use flow_ai.Database.{Table}
use flow_ai.RefreshTokens.{RefreshToken, revoke_all}
use flow_ai.Auth.{User, Secret, JwtPayload, AuthResponse, Jtis, has_email, respond}

pub data Provider : Type 0 where
  google github microsoft : Provider

pub record Profile : Type 0 where
  pub provider : Provider
  pub provider_id : ℕ
  pub email : Text
  pub first_name : Text
  pub last_name : Text
  pub avatar : Option ℕ

-- user[providerField]
abbrev pub provider_id_of : Provider → User → Option ℕ
provider_id_of google u = u.google_id
provider_id_of github u = u.github_id
provider_id_of microsoft u = u.microsoft_id

abbrev pub with_provider_id : Provider → ℕ → User → User
with_provider_id google id u = record u { google_id = some id }
with_provider_id github id u = record u { github_id = some id }
with_provider_id microsoft id u = record u { microsoft_id = some id }

abbrev pub is_linked : Provider → ℕ → ℕ → User → Bool
is_linked provider id i u = elim (provider_id_of provider u) [ none ↦ false | some j ↦ j == id ]

abbrev pub linked : Profile → User → User
linked p u = record (with_provider_id p.provider p.provider_id u) {
  is_email_verified = true;
  avatar = or_else u.avatar p.avatar;
}

abbrev pub oauth_user : Profile → User
oauth_user p = with_provider_id p.provider p.provider_id (record {
  email = lower p.email;
  password_hash = none;
  first_name = p.first_name;
  last_name = p.last_name;
  phone = none;
  avatar = p.avatar;
  is_active = true;
  is_email_verified = true;
  is_super_admin = false;
  last_login_at = none;
  google_id = none;
  github_id = none;
  microsoft_id = none;
})

module _ (users : Table User) where
  -- The account of the profile, with its row as it was read, and the users.
  unfoldable pub account_of : Profile → users.State → ℕ × User × users.State
  account_of p s = elim (users.find_first s (is_linked p.provider p.provider_id)) [
    | some (id, u) ↦ (id, u, s)
    | none ↦ elim (users.find_first s (has_email (lower p.email))) [
      | some (id, u) ↦ (id, u, (users.update s id (linked p)).1)
      | none ↦ let (id, s') = users.create s (oauth_user p) in (id, oauth_user p, s')
    ]
  ]

  unfoldable pub handle_oauth_login :
      (sign : Secret → JwtPayload → ℕ) (tokens : Table RefreshToken)
      → Profile
      → Jtis
      → ℕ
      → users.State
      → tokens.State
      → AuthResponse × users.State × tokens.State
  handle_oauth_login sign tokens p jtis now s t =
      let (id, u, s') = account_of p s in
      let s'' = (users.update s' id (λ r. record r { last_login_at = some now })).1 in
      let (response, t') = respond sign tokens id u jtis now t in (response, s'', t')

pub record Session : Type 0 where
  pub user_id : ℕ
  pub expires_at : ℕ

pub record Device : Type 0 where
  pub user_id : ℕ

pub revoke_session : (sessions : Table Session) → (user id : ℕ) → sessions.State → sessions.State
revoke_session sessions user id s = sessions.delete_many s (λ i r. i == id && r.user_id == user)

pub logout_all :
    (sessions : Table Session) (tokens : Table RefreshToken)
    → (user : ℕ) → sessions.State
    → tokens.State
    → sessions.State × tokens.State
logout_all sessions tokens user s t =
    (sessions.delete_many s (λ i r. r.user_id == user), revoke_all tokens user t)

pub remove_device : (devices : Table Device) → (user id : ℕ) → devices.State → devices.State
remove_device devices user id s = devices.delete_many s (λ i r. i == id && r.user_id == user)
