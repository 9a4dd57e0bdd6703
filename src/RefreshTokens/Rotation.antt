-- ===== src/RefreshTokens/Rotation.antt =====
-- A refresh token is good for one refresh.
use flow_ai.Common.{
  ℕ, ◌+◌, ◌≡◌, refl, Bool, true, false, Option, none, some, List, [], ◌∷◌, arith, ltb, ◌==◌, All,
  Option-cases, Bool-cases, inl, inr, ok, failed, unauthorized, not,
}
use flow_ai.Database.{Table}
use flow_ai.Database.Laws.{AtMostOne}
use flow_ai.RefreshTokens.{
  RefreshToken, week_ms, is_token, store_refresh_token, refresh_tokens, logout, revoke_all,
}

pub data Request : Type 0 where
  issues : (token user now : ℕ) → Request
  refreshes : (token now fresh : ℕ) → Request
  logs_out : (token : Option ℕ) → Request
  logs_out_all : (user : ℕ) → Request

-- The request does not make this token anew.
abbrev pub spares : ℕ → Request → Bool
spares t (issues token user now) = not (token == t)
spares t (refreshes token now fresh) = not (fresh == t)
spares t _ = true

module _ (tokens : Table RefreshToken) where
  unfoldable pub step : Request → tokens.State → tokens.State
  step (issues token user now) s = store_refresh_token tokens token user now s
  step (refreshes token now fresh) s = (refresh_tokens tokens token now fresh s).1
  step (logs_out token) s = logout tokens token s
  step (logs_out_all user) s = revoke_all tokens user s

  unfoldable pub run : List Request → tokens.State → tokens.State
  run [] s = s
  run (x ∷ xs) s = run xs (step x s)

  Absent : ℕ → tokens.State → Type 0
  Absent t s = (i : ℕ) (r : RefreshToken) → tokens.find s i ≡ some r → is_token t i r ≡ false

  delete-Absent :
      (t : ℕ) (s : tokens.State) (p : ℕ → RefreshToken → Bool)
      → Absent t s
      → Absent t (tokens.delete_many s p)
  unfolding Absent
  delete-Absent t s p h i r e = elim (Option-cases (tokens.find s i)) [
    | inl n ↦ ground (arith, tokens.find-delete_many s p i)
    | inr (q, f) ↦ ground (arith, tokens.find-delete_many s p i, h i q f)
  ]

  store-Absent :
      (t token user now : ℕ) (s : tokens.State)
      → (token == t) ≡ false
      → Absent t s
      → Absent t (store_refresh_token tokens token user now s)
  unfolding store_refresh_token Absent
  store-Absent t token user now s other h =
      let row : RefreshToken = record {
        token = token;
        user_id = user;
        expires_at = now + week_ms;
      } in
      delete-Absent t (tokens.create s row).1 _
        (λ i r e. ground (arith, tokens.find-create s row i, h i r))

  refresh-Absent :
      (t token now fresh : ℕ) (s : tokens.State)
      → (fresh == t) ≡ false
      → Absent t s
      → Absent t (refresh_tokens tokens token now fresh s).1
  unfolding refresh_tokens
  refresh-Absent t token now fresh s other h =
      elim (Option-cases (tokens.find_first s (is_token token))) [
        | inl n ↦ rw (n, refresh_tokens) h
        | inr ((i, r), e) ↦ elim (Bool-cases (ltb r.expires_at now)) [
          | inl late ↦ rw (e, late, refresh_tokens) h
          | inr early ↦
              rw (e, early, refresh_tokens)
                (store-Absent t fresh r.user_id now _ other (delete-Absent t s (λ j _. j == i) h))
        ]
      ]

  step-Absent :
      (t : ℕ) (x : Request) (s : tokens.State)
      → spares t x ≡ true
      → Absent t s
      → Absent t (step x s)
  unfolding step logout revoke_all
  step-Absent t (issues token user now) s k h = store-Absent t token user now s (ground arith) h
  step-Absent t (refreshes token now fresh) s k h =
      refresh-Absent t token now fresh s (ground arith) h
  step-Absent t (logs_out none) s k h = h
  step-Absent t (logs_out (some token)) s k h = delete-Absent t s (is_token token) h
  step-Absent t (logs_out_all user) s k h = delete-Absent t s _ h

  run-Absent :
      (t : ℕ) (xs : List Request) (s : tokens.State)
      → All (λ x. spares t x ≡ true) xs
      → Absent t s
      → Absent t (run xs s)
  unfolding run
  run-Absent t [] s k h = h
  run-Absent t (x ∷ xs) s k h = run-Absent t xs (step x s) k.1 (step-Absent t x s k.0 h)

  refused-Absent :
      (t now fresh : ℕ) (s : tokens.State)
      → Absent t s
      → refresh_tokens tokens t now fresh s ≡ (failed unauthorized, s)
  unfolding refresh_tokens Absent
  refused-Absent t now fresh s h = elim (Option-cases (tokens.find_first s (is_token t))) [
    | inl n ↦ rw (n, refresh_tokens) refl
    | inr ((i, r), e) ↦
        let (f, k) = tokens.find_first-some s (is_token t) i r e in ground (arith, h i r f)
  ]

  rotated-Absent :
      (t i : ℕ) (r : RefreshToken) (s : tokens.State)
      → AtMostOne tokens s (is_token t)
      → tokens.find_first s (is_token t) ≡ some (i, r)
      → Absent t (tokens.delete_many s (λ j _. j == i))
  unfolding Absent
  rotated-Absent t i r s unique e j q f =
      let (g, k) = tokens.find_first-some s (is_token t) i r e in
      let left = tokens.find-delete_many s (λ m _. m == i) j in
      elim (Bool-cases (is_token t j q)) [
        | inr no_match ↦ no_match
        | inl same ↦ elim (Option-cases (tokens.find s j)) [
          | inl n ↦ ground arith
          | inr (x, h) ↦ ground (arith, unique i j r x g h k)
        ]
      ]

  -- After a refresh that was granted the old token is gone.
  spent-Absent :
      (t now fresh : ℕ) (s : tokens.State)
      → AtMostOne tokens s (is_token t)
      → (fresh == t) ≡ false
      → (refresh_tokens tokens t now fresh s).0 ≡ ok fresh
      → Absent t (refresh_tokens tokens t now fresh s).1
  unfolding refresh_tokens
  spent-Absent t now fresh s unique other granted =
      elim (Option-cases (tokens.find_first s (is_token t))) [
        | inl n ↦ absurd (ground arith)
        | inr ((i, r), e) ↦ elim (Bool-cases (ltb r.expires_at now)) [
          | inl late ↦ absurd (ground arith)
          | inr early ↦
              rw (e, early, refresh_tokens)
                (store-Absent t fresh r.user_id now _ other (rotated-Absent t i r s unique e))
        ]
      ]

  -- A refresh token that was granted a refresh, being unique in the table, is refused ever after,
  -- at any time and whatever tokens are issued, refreshed and revoked meanwhile, as long as no
  -- request makes the very same token again.
  pub used_once :
      (t now fresh : ℕ) (s : tokens.State) (xs : List Request) (later fresh' : ℕ)
      → AtMostOne tokens s (is_token t)
      → (fresh == t) ≡ false
      → (refresh_tokens tokens t now fresh s).0 ≡ ok fresh
      → All (λ x. spares t x ≡ true) xs
      → let s' = run xs (refresh_tokens tokens t now fresh s).1 in
        refresh_tokens tokens t later fresh' s' ≡ (failed unauthorized, s')
  used_once t now fresh s xs later fresh' unique other granted k =
      refused-Absent t later fresh' _
        (run-Absent t xs _ k (spent-Absent t now fresh s unique other granted))
