-- ===== src/Auth.antt =====
-- src/modules/auth/auth.service.ts: the accounts, apart from the rotation of their refresh tokens
-- (RefreshTokens). Hashes, tokens and avatars are opaque numbers. The JWT library is the parameter
-- `sign`, given the secret's name and the payload; the ids that uuid makes are arguments.
pub mod Counters
pub mod Lockout
pub mod Login
pub mod Links
pub mod TwoFactor
pub mod OAuth
pub mod Tests
pub mod SignInTests
use flow_ai.Common.{ℕ, Bool, false, Option, none, some, List, Text, same_text, ◌==◌}
use flow_ai.Database.{Table}
use flow_ai.RefreshTokens.{RefreshToken, store_refresh_token}

pub record User : Type 0 where
  pub email : Text
  pub password_hash : Option ℕ
  pub first_name : Text
  pub last_name : Text
  pub phone : Option ℕ
  pub avatar : Option ℕ
  pub is_active : Bool
  pub is_email_verified : Bool
  pub is_super_admin : Bool
  pub last_login_at : Option ℕ
  pub google_id : Option ℕ
  pub github_id : Option ℕ
  pub microsoft_id : Option ℕ

pub record TwoFactorAuth : Type 0 where
  pub user_id : ℕ
  pub secret : ℕ
  pub is_enabled : Bool
  pub backup_codes : List Text

pub data Secret : Type 0 where
  access_secret refresh_secret : Secret

pub record JwtPayload : Type 0 where
  pub sub : ℕ
  pub email : Text
  pub is_super_admin : Bool
  pub jti : ℕ

pub record AuthUser : Type 0 where
  pub id : ℕ
  pub email : Text
  pub first_name : Text
  pub last_name : Text
  pub avatar : Option ℕ
  pub is_email_verified : Bool
  pub is_super_admin : Bool

pub record AuthResponse : Type 0 where
  pub access_token : ℕ
  pub refresh_token : ℕ
  pub user : AuthUser

-- The random parts of a pair of tokens.
pub record Jtis : Type 0 where
  pub access : ℕ
  pub refresh : ℕ

abbrev pub has_email : Text → ℕ → User → Bool
has_email email i u = same_text u.email email

abbrev pub auth_user : ℕ → User → AuthUser
auth_user id u = record {
  id = id;
  email = u.email;
  first_name = u.first_name;
  last_name = u.last_name;
  avatar = u.avatar;
  is_email_verified = u.is_email_verified;
  is_super_admin = u.is_super_admin;
}

-- The user's `twoFactorAuth?.isEnabled`.
abbrev pub is_enabled_for : (two_factor : Table TwoFactorAuth) → ℕ → two_factor.State → Bool
is_enabled_for two_factor id f = elim (two_factor.find_first f (λ i r. r.user_id == id)) [
  | none ↦ false
  | some (i, r) ↦ r.is_enabled
]

module _ (sign : Secret → JwtPayload → ℕ) where
  abbrev pub payload : ℕ → User → ℕ → JwtPayload
  payload id u jti = record {
    sub = id;
    email = u.email;
    is_super_admin = u.is_super_admin;
    jti = jti;
  }

  -- The access token and the refresh token.
  abbrev pub generate_tokens : ℕ → User → Jtis → ℕ × ℕ
  generate_tokens id u jtis = (
    sign access_secret (payload id u jtis.access),
    sign refresh_secret (payload id u jtis.refresh),
  )

  module _ (tokens : Table RefreshToken) where
    -- What every way to sign in ends with: the tokens are made and the refresh token is stored.
    unfoldable pub respond : ℕ → User → Jtis → ℕ → tokens.State → AuthResponse × tokens.State
    respond id u jtis now t =
        let (access, refresh) = generate_tokens id u jtis in
        let response : AuthResponse = record {
          access_token = access;
          refresh_token = refresh;
          user = auth_user id u;
        } in
        (response, store_refresh_token tokens refresh id now t)
