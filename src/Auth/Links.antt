-- ===== src/Auth/Links.antt =====
-- The links that src/modules/auth/auth.service.ts sends by mail: forgotPassword, resetPassword,
-- sendMagicLink, verifyMagicLink and verifyEmail. The mails themselves change nothing here.
pub mod Once
pub mod Reset
use flow_ai.Common.{
  ℕ, ◌+◌, Bool, true, false, ◌&&◌, not, Option, none, some, ltb, ◌==◌, if◌then◌else◌, Result, ok,
  failed, HttpError, bad_request, server_error, Text, [], lower, before, is_some,
}
use flow_ai.Database.{Table}
use flow_ai.Redis.{Keys, Redis}
use flow_ai.RefreshTokens.{RefreshToken, revoke_all}
use flow_ai.Auth.{User, Secret, JwtPayload, AuthResponse, Jtis, has_email, respond}

pub record PasswordReset : Type 0 where
  pub token : ℕ
  pub user_id : ℕ
  pub expires_at : ℕ
  pub used_at : Option ℕ

pub record MagicLink : Type 0 where
  pub token : ℕ
  pub user_id : ℕ
  pub email : Text
  pub expires_at : ℕ
  pub used_at : Option ℕ

abbrev pub reset_ms : ℕ
reset_ms = 3600000

abbrev pub magic_link_ms : ℕ
magic_link_ms = 600000

abbrev pub is_reset : ℕ → ℕ → PasswordReset → Bool
is_reset token i r = r.token == token

abbrev pub is_link : ℕ → ℕ → MagicLink → Bool
is_link token i r = r.token == token

-- Neither expired nor used.
abbrev pub is_open : (expires_at : ℕ) → (used_at : Option ℕ) → ℕ → Bool
is_open expires_at used_at now = not (ltb expires_at now) && not (is_some used_at)

-- The user that a magic link makes for a new address.
abbrev pub linked_user : Text → User
linked_user email = record {
  email = lower email;
  password_hash = none;
  first_name = before b'@' email;
  last_name = [];
  phone = none;
  avatar = none;
  is_active = true;
  is_email_verified = true;
  is_super_admin = false;
  last_login_at = none;
  google_id = none;
  github_id = none;
  microsoft_id = none;
}

module _ (users : Table User) where
  module _ (resets : Table PasswordReset) where
    pub forgot_password : Text → (token now : ℕ) → users.State → resets.State → resets.State
    forgot_password email token now s r = elim (users.find_first s (has_email (lower email))) [
      | none ↦ r
      | some (id, u) ↦
          let row : PasswordReset = record {
            token = token;
            user_id = id;
            expires_at = now + reset_ms;
            used_at = none;
          } in
          (resets.create r row).1
    ]

    -- The three writes are one transaction, which fails if the user is gone.
    unfoldable pub reset_password :
        (tokens : Table RefreshToken)
        → (token new_hash now : ℕ) → users.State
        → resets.State
        → tokens.State
        → Option HttpError × users.State × resets.State × tokens.State
    reset_password tokens token new_hash now s r t = elim (resets.find_first r (is_reset token)) [
      | none ↦ (some bad_request, s, r, t)
      | some (i, row) ↦
          let s' =
            (users.update s row.user_id (λ u. record u { password_hash = some new_hash })).1 in
          let r' = (resets.update r i (λ q. record q { used_at = some now })).1 in
          let t' = revoke_all tokens row.user_id t in
          if is_open row.expires_at row.used_at now
          then elim (users.find s row.user_id) [
            | none ↦ (some server_error, s, r, t)
            | some u ↦ (none, s', r', t')
          ]
          else (some bad_request, s, r, t)
    ]

  module _ (links : Table MagicLink) where
    link_row : Text → (user token now : ℕ) → MagicLink
    link_row email user token now = record {
      token = token;
      user_id = user;
      email = lower email;
      expires_at = now + magic_link_ms;
      used_at = none;
    }

    unfoldable pub send_magic_link :
        Text → (token now : ℕ) → users.State → links.State → users.State × links.State
    unfolding link_row
    send_magic_link email token now s l = elim (users.find_first s (has_email (lower email))) [
      | some (id, u) ↦ (s, (links.create l (link_row email id token now)).1)
      | none ↦
          let (id, s') = users.create s (linked_user email) in
          (s', (links.create l (link_row email id token now)).1)
    ]

    -- The user of the row is read with it, and answered as verified.
    unfoldable pub verify_magic_link :
        (sign : Secret → JwtPayload → ℕ) (tokens : Table RefreshToken)
        → (token now : ℕ) → Jtis
        → users.State
        → links.State
        → tokens.State
        → Result AuthResponse × users.State × links.State × tokens.State
    verify_magic_link sign tokens token now jtis s l t = elim (links.find_first l (is_link token)) [
      | none ↦ (failed bad_request, s, l, t)
      | some (i, row) ↦
          let l' = (links.update l i (λ q. record q { used_at = some now })).1 in
          let s' =
            (users.update s row.user_id
              (λ u. record u { is_email_verified = true; last_login_at = some now })).1 in
          if is_open row.expires_at row.used_at now
          then elim (users.find s row.user_id) [
            | none ↦ (failed server_error, s, l, t)
            | some u ↦
                let verified : User = record u { is_email_verified = true } in
                let (response, t') = respond sign tokens row.user_id verified jtis now t in
                (ok response, s', l', t')
          ]
          else (failed bad_request, s, l, t)
    ]

  -- `pending` holds the keys `email-verify:`; a Redis that throws is an error of the server.
  pub verify_email :
      {keys : Keys ℕ} (pending : Redis keys ℕ)
      → ℕ
      → users.State
      → pending.State
      → Option HttpError × users.State × pending.State
  verify_email pending token s p = elim (pending.get p token) [
    | none ↦ (some server_error, s, p)
    | some none ↦ (some bad_request, s, p)
    | some (some id) ↦
        let (row, s') = users.update s id (λ u. record u { is_email_verified = true }) in
        elim row [
          | none ↦ (some server_error, s, p)
          | some u ↦ elim (pending.del p token) [
            | none ↦ (some server_error, s', p)
            | some p' ↦ (none, s', p')
          ]
        ]
  ]
