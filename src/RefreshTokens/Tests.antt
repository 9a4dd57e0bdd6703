-- ===== src/RefreshTokens/Tests.antt =====
-- The rotation theorem at a token that is refreshed, while its user signs in again and logs out.
use flow_ai.Common.{
  ℕ, zero, suc, sym, ◌∙◌, ◌≡◌, refl, Option, some, List, [], ◌∷◌, arith, failed, unauthorized,
}
use flow_ai.Database.Rows.{rows}
use flow_ai.RefreshTokens.{RefreshToken, refresh_tokens}
use flow_ai.RefreshTokens.Rotation.{Request, issues, refreshes, logs_out, run, used_once}

abbrev table : List (Option RefreshToken)
table = some (record { token = 7; user_id = 1; expires_at = 1000 }) ∷ []

abbrev requests : List Request
requests = issues 9 1 510 ∷ refreshes 8 520 10 ∷ logs_out (some 9) ∷ []

abbrev after : List (Option RefreshToken)
after = run (rows RefreshToken) requests (refresh_tokens (rows RefreshToken) 7 500 8 table).1

only_first : (i : ℕ) (r : RefreshToken) → (rows RefreshToken).find table i ≡ some r → i ≡ 0
only_first zero r e = refl
only_first (suc i) r e = ground arith

used_once_example : refresh_tokens (rows RefreshToken) 7 600 11 after ≡ (failed unauthorized, after)
unfolding refresh_tokens
used_once_example =
    used_once (rows RefreshToken) 7 500 8 table requests 600 11
      (λ i j r q ei ej hi hj. only_first i r ei ∙ sym (only_first j q ej)) refl refl
      (refl, (refl, (refl, tt)))
