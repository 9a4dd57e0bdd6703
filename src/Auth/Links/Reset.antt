-- ===== src/Auth/Links/Reset.antt =====
-- A password reset signs the user out everywhere.
use flow_ai.Common.{
  ℕ, Bool, ◌≡◌, false, Option, none, some, arith, ◌==◌, Option-cases, Bool-cases, inl, inr, ==_refl,
  HttpError,
}
use mathlib.Core.Option
use flow_ai.Database.{Table}
use flow_ai.RefreshTokens.{RefreshToken, revoke_all}
use flow_ai.Auth.{User}
use flow_ai.Auth.Links.{PasswordReset, is_reset, is_open, reset_password}

module _ (users : Table User) (resets : Table PasswordReset) (tokens : Table RefreshToken) where
  abbrev reset :
      (token new_hash now : ℕ)
      → users.State
      → resets.State
      → tokens.State
      → Option HttpError × users.State × resets.State × tokens.State
  reset = reset_password users resets tokens

  -- Whether the refresh token of an id is one of the user.
  abbrev pub token_of : ℕ → tokens.State → ℕ → Bool
  token_of user t j = elim (tokens.find t j) [ none ↦ false | some q ↦ q.user_id == user ]

  none_left : (user j : ℕ) (t : tokens.State) → token_of user (revoke_all tokens user t) j ≡ false
  unfolding revoke_all
  none_left user j t = elim (Option-cases (tokens.find t j)) [
    | inl n ↦ ground (arith, tokens.find-delete_many t (λ i r. r.user_id == user) j)
    | inr (r, f) ↦ ground (arith, tokens.find-delete_many t (λ i r. r.user_id == user) j)
  ]

  -- A reset that succeeds leaves the user of the link with the new password and no refresh token,
  -- the accounts of the others as they were, and the link used.
  pub reset_signs_out :
      (token new_hash now i other j : ℕ) (s : users.State) (r : resets.State) (t : tokens.State)
      (row : PasswordReset)
      → (reset token new_hash now s r t).0 ≡ none
      → resets.find_first r (is_reset token) ≡ some (i, row)
      → (row.user_id == other) ≡ false
      → (Option.map
            (λ (u : User). u.password_hash)
            (users.find (reset token new_hash now s r t).1 row.user_id)
          ≡ some (some new_hash))
        × (users.find (reset token new_hash now s r t).1 other ≡ users.find s other)
        × (Option.map
              (λ (x : PasswordReset). x.used_at)
              (resets.find (reset token new_hash now s r t).2 i)
            ≡ some (some now))
        × (token_of row.user_id (reset token new_hash now s r t).3 j ≡ false)
  unfolding reset_password
  reset_signs_out token new_hash now i other j s r t row done e apart =
      let (g, k) = resets.find_first-some r (is_reset token) i row e in
      let f = λ (u : User). record u { password_hash = some new_hash } in
      let m = λ (x : PasswordReset). record x { used_at = some now } in
      elim (Bool-cases (is_open row.expires_at row.used_at now)) [
        | inr shut ↦ absurd (ground arith)
        | inl fine ↦ elim (Option-cases (users.find s row.user_id)) [
          | inl n ↦ absurd (ground arith)
          | inr (u, h) ↦ (
            ground (arith, users.find-update s row.user_id f row.user_id, ==_refl row.user_id),
            ground (arith, users.find-update s row.user_id f other),
            ground (arith, resets.find-update r i m i, ==_refl i),
            ground (arith, none_left row.user_id j t),
          )
        ]
      ]
