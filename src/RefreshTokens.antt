-- ===== src/RefreshTokens.antt =====
-- The refresh tokens of src/modules/auth/auth.service.ts. A new token, which the JWT library makes,
-- is an argument; a token lives for seven days of 24 hours.
pub mod Rotation
pub mod Tests
use flow_ai.Common.{
  ℕ, ◌+◌, Bool, ◌&&◌, Option, none, some, ltb, ◌==◌, if◌then◌else◌, Result, ok, failed,
  unauthorized,
}
use flow_ai.Database.{Table}

pub record RefreshToken : Type 0 where
  pub token : ℕ
  pub user_id : ℕ
  pub expires_at : ℕ

abbrev pub week_ms : ℕ
week_ms = 604800000

abbrev pub is_token : ℕ → ℕ → RefreshToken → Bool
is_token token i r = r.token == token

module _ (tokens : Table RefreshToken) where
  -- The new row is made, and then the expired ones of the user are removed.
  unfoldable pub store_refresh_token : ℕ → ℕ → ℕ → tokens.State → tokens.State
  store_refresh_token token user now s =
      let row : RefreshToken = record {
        token = token;
        user_id = user;
        expires_at = now + week_ms;
      } in
      tokens.delete_many (tokens.create s row).1 (λ i r. r.user_id == user && ltb r.expires_at now)

  pub refresh_tokens : ℕ → ℕ → ℕ → tokens.State → Result ℕ × tokens.State
  refresh_tokens token now fresh s = elim (tokens.find_first s (is_token token)) [
    | none ↦ (failed unauthorized, s)
    | some (i, r) ↦
        let rotated = tokens.delete_many s (λ j _. j == i) in
        if ltb r.expires_at now
        then (failed unauthorized, s)
        else (ok fresh, store_refresh_token fresh r.user_id now rotated)
  ]

  pub logout : Option ℕ → tokens.State → tokens.State
  logout none s = s
  logout (some token) s = tokens.delete_many s (is_token token)

  -- Also what resetPassword does to the tokens of the user.
  unfoldable pub revoke_all : ℕ → tokens.State → tokens.State
  revoke_all user s = tokens.delete_many s (λ i r. r.user_id == user)
