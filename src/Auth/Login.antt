-- ===== src/Auth/Login.antt =====
-- register, login and changePassword of src/modules/auth/auth.service.ts. bcrypt is `hash` and
-- `compare`. The mails are handed to mail.service.ts, which answers whether they went out.
pub mod Locked
use flow_ai.Common.{
  ℕ, Bool, true, false, Option, none, some, ◌==◌, if◌then◌else◌, Result, ok, failed, HttpError,
  bad_request, unauthorized, forbidden, conflict, server_error, Text, lower,
}
use flow_ai.Database.{Table}
use flow_ai.Redis.{Keys, Redis}
use flow_ai.RefreshTokens.{RefreshToken}
use flow_ai.Auth.{
  User, TwoFactorAuth, Secret, JwtPayload, AuthUser, AuthResponse, Jtis, has_email, auth_user,
  respond, is_enabled_for,
}
use flow_ai.Auth.Counters.{Counters}
use flow_ai.Auth.Lockout.{assert_not_locked_out, record_failed_login, clear_failed_logins}

pub record RegisterDto : Type 0 where
  pub email : Text
  pub password : Text
  pub first_name : Text
  pub last_name : Text
  pub phone : Option ℕ

pub record LoginDto : Type 0 where
  pub email : Text
  pub password : Text

pub record ChangePasswordDto : Type 0 where
  pub current_password : Text
  pub new_password : Text

pub data LoginReply : Type 0 where
  signed_in : AuthResponse → LoginReply
  requires_2fa : (temp_token : ℕ) → AuthUser → LoginReply

-- The columns that a registration leaves out have the defaults of the schema.
abbrev pub registered : RegisterDto → ℕ → User
registered dto password_hash = record {
  email = lower dto.email;
  password_hash = some password_hash;
  first_name = dto.first_name;
  last_name = dto.last_name;
  phone = dto.phone;
  avatar = none;
  is_active = true;
  is_email_verified = false;
  is_super_admin = false;
  last_login_at = none;
  google_id = none;
  github_id = none;
  microsoft_id = none;
}

module _ (sign : Secret → JwtPayload → ℕ) (hash : Text → ℕ) (compare : Text → ℕ → Bool)
    (users : Table User) (tokens : Table RefreshToken) {keys : Keys ℕ}
    (pending : Redis keys ℕ) where
  -- `pending` holds the keys `email-verify:`; a Redis that throws leaves the user made.
  pub register :
      RegisterDto
      → (verification now : ℕ) → Jtis
      → users.State
      → tokens.State
      → pending.State
      → Result AuthResponse × users.State × tokens.State × pending.State
  register dto verification now jtis s t p =
      elim (users.find_first s (has_email (lower dto.email))) [
        | some existing ↦ (failed conflict, s, t, p)
        | none ↦
            let row = registered dto (hash dto.password) in
            let (id, s') = users.create s row in
            elim (pending.set p verification id 86400) [
              | none ↦ (failed server_error, s', t, p)
              | some p' ↦
                  let (response, t') = respond sign tokens id row jtis now t in
                  (ok response, s', t', p')
            ]
      ]

  -- The error, if any.
  pub change_password : ℕ → ChangePasswordDto → users.State → Option HttpError × users.State
  change_password id dto s =
      let s' =
        (users.update s id (λ u. record u { password_hash = some (hash dto.new_password) })).1 in
      elim (users.find s id) [
        | none ↦ (some bad_request, s)
        | some u ↦ elim u.password_hash [
          | none ↦ (some bad_request, s)
          | some h ↦ if compare dto.current_password h then (none, s') else (some unauthorized, s)
        ]
      ]

  module _ (two_factor : Table TwoFactorAuth) (counters : Counters) where
    -- After the password: `pending` holds the keys `2fa-pending:`.
    unfoldable pub admit :
        ℕ
        → User
        → (temp_token now : ℕ) → Jtis
        → two_factor.State
        → users.State
        → tokens.State
        → pending.State
        → Result LoginReply × users.State × tokens.State × pending.State
    admit id u temp_token now jtis f s t p =
        if is_enabled_for two_factor id f
        then elim (pending.set p temp_token id 300) [
          | none ↦ (failed server_error, s, t, p)
          | some p' ↦ (ok (requires_2fa temp_token (auth_user id u)), s, t, p')
        ]
        else (let s' = (users.update s id (λ r. record r { last_login_at = some now })).1 in
            let (response, t') = respond sign tokens id u jtis now t in
            (ok (signed_in response), s', t', p))

    unfoldable pub login :
        LoginDto
        → (temp_token now : ℕ) → Jtis
        → two_factor.State
        → users.State
        → tokens.State
        → pending.State
        → counters.State
        → Result LoginReply × users.State × tokens.State × pending.State × counters.State
    login dto temp_token now jtis f s t p c =
        let email = lower dto.email in
        let refused = record_failed_login counters email now c in
        elim (assert_not_locked_out counters email now c) [
          | some minutes ↦ (failed forbidden, s, t, p, c)
          | none ↦ elim (users.find_first s (has_email email)) [
            | none ↦ (failed unauthorized, s, t, p, refused)
            | some (id, u) ↦ elim u.password_hash [
              | none ↦ (failed unauthorized, s, t, p, refused)
              | some h ↦
                  if u.is_active
                  then (if compare dto.password h
                      then (let (reply, s', t', p') = admit id u temp_token now jtis f s t p in
                          (reply, s', t', p', clear_failed_logins counters email c))
                      else (failed unauthorized, s, t, p, refused))
                  else (failed unauthorized, s, t, p, c)
            ]
          ]
        ]
