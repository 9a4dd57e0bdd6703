-- ===== src/Auth/TwoFactor/BackupCodes.antt =====
-- A backup code is good for one login.
use flow_ai.Common.{
  ℕ, zero, suc, ◌≤◌, ◌≡◌, refl, Bool, false, none, some, List, [], ◌∷◌, arith, ◌==◌, if◌then◌else◌,
  Option-cases, Bool-cases, inl, inr, Result, ok, failed, unauthorized, Text, same_text, upper,
  subst,
}
use flow_ai.Database.{Table}
use flow_ai.Database.Laws.{AtMostOne}
use flow_ai.Redis.{Keys, Redis}
use flow_ai.RefreshTokens.{RefreshToken}
use flow_ai.Auth.{User, TwoFactorAuth, Secret, JwtPayload, AuthResponse, Jtis}
use flow_ai.Auth.TwoFactor.{index_of, splice, of_user, checked, verify_2fa}

-- How often a code is in the list.
abbrev pub occurrences : Text → List Text → ℕ
occurrences code [] = 0
occurrences code (c ∷ codes) =
    let rest = occurrences code codes in if same_text c code then suc rest else rest

splice_one :
    (code : Text) (codes : List Text) (i : ℕ)
    → index_of code codes ≡ some i
    → suc (occurrences code (splice i codes)) ≡ occurrences code codes
splice_one code [] i e = ground arith
splice_one code (c ∷ codes) zero e = ground arith
splice_one code (c ∷ codes) (suc i) e = ground (arith, splice_one code codes i)

absent : (code : Text) (codes : List Text) → occurrences code codes ≡ 0 → index_of code codes ≡ none
absent code [] h = refl
absent code (c ∷ codes) h = ground (arith, absent code codes)

spent :
    (code code' : Text) (codes left : List Text)
    → occurrences (upper code) codes ≤ 1
    → upper code' ≡ upper code
    → checked false code codes ≡ some left
    → checked false code' left ≡ none
spent code code' codes left once same h = elim (Option-cases (index_of (upper code) codes)) [
  | inl n ↦ absurd (ground arith)
  | inr (i, e) ↦
      ground (arith, splice_one (upper code) codes i e, absent (upper code) (splice i codes))
]

module _ (totp : ℕ → Text → ℕ → Bool) (two_factor : Table TwoFactorAuth)
    (sign : Secret → JwtPayload → ℕ) (users : Table User) (tokens : Table RefreshToken)
    {keys : Keys ℕ} (pending : Redis keys ℕ) where
  abbrev verify :
      (temp_token now : ℕ)
      → (code : Text) → Jtis
      → two_factor.State
      → users.State
      → tokens.State
      → pending.State
      → Result AuthResponse × two_factor.State × users.State × tokens.State × pending.State
  verify = verify_2fa totp two_factor sign users tokens pending

  -- The user's row with other backup codes.
  rewritten :
      (f : two_factor.State) (user i : ℕ) (r : TwoFactorAuth) (left : List Text)
      → AtMostOne two_factor f (of_user user)
      → two_factor.find_first f (of_user user) ≡ some (i, r)
      → two_factor.find_first
          (two_factor.update f i (λ q. record q { backup_codes = left })).1
          (of_user user)
        ≡ some (i, record r { backup_codes = left })
  rewritten f user i r left unique e =
      let (g, k) = two_factor.find_first-some f (of_user user) i r e in
      let f' = (two_factor.update f i (λ q. record q { backup_codes = left })).1 in
      let changed =
        λ (j : ℕ). two_factor.find-update f i (λ q. record q { backup_codes = left }) j in
      elim (Option-cases (two_factor.find_first f' (of_user user))) [
        | inl n ↦ absurd (
            ground (
              arith,
              changed i,
              two_factor.find_first-none f' (of_user user) i (record r { backup_codes = left }) n,
            ))
        | inr ((j, q), e') ↦
            let (g', k') = two_factor.find_first-some f' (of_user user) j q e' in
            elim (Bool-cases (i == j)) [
              | inl here ↦ ground (arith, changed j)
              | inr other ↦
                  let old : two_factor.find f j ≡ some q = ground (arith, changed j) in
                  absurd (ground (arith, unique i j r q g old k k'))
            ]
      ]

  refused :
      (temp_token now : ℕ) (code : Text) (jtis : Jtis) (f : two_factor.State) (s : users.State)
      (t : tokens.State) (p : pending.State) (user i : ℕ) (r : TwoFactorAuth)
      → pending.get p temp_token ≡ some (some user)
      → two_factor.find_first f (of_user user) ≡ some (i, r)
      → totp now code r.secret ≡ false
      → checked false code r.backup_codes ≡ none
      → verify temp_token now code jtis f s t p ≡ (failed unauthorized, f, s, t, p)
  unfolding verify_2fa
  refused temp_token now code jtis f s t p user i r here e wrong n =
      rw (here, e, wrong, n, verify_2fa) refl

  stored :
      (temp_token now : ℕ) (code : Text) (jtis : Jtis) (f : two_factor.State) (s : users.State)
      (t : tokens.State) (p : pending.State) (user i : ℕ) (r : TwoFactorAuth) (left : List Text)
      → pending.get p temp_token ≡ some (some user)
      → two_factor.find_first f (of_user user) ≡ some (i, r)
      → totp now code r.secret ≡ false
      → checked false code r.backup_codes ≡ some left
      → (two_factor.update f i (λ q. record q { backup_codes = left })).1
        ≡ (verify temp_token now code jtis f s t p).1
  unfolding verify_2fa
  stored temp_token now code jtis f s t p user i r left here e wrong m = ground arith

  -- A backup code that let its user in, being once among the codes and no code of the
  -- authenticator, is refused to the user's next pending login, however its letters are cased and
  -- whatever happened to the other tables meanwhile, as long as the authenticator does not come to
  -- show it; the refusal changes nothing.
  pub backup_code_once :
      (temp_token temp_token' now later : ℕ) (code code' : Text) (jtis jtis' : Jtis)
      (f : two_factor.State) (s s' : users.State) (t t' : tokens.State) (p p' : pending.State)
      (user i : ℕ) (r : TwoFactorAuth) (response : AuthResponse)
      → AtMostOne two_factor f (of_user user)
      → two_factor.find_first f (of_user user) ≡ some (i, r)
      → occurrences (upper code) r.backup_codes ≤ 1
      → pending.get p temp_token ≡ some (some user)
      → pending.get p' temp_token' ≡ some (some user)
      → totp now code r.secret ≡ false
      → totp later code' r.secret ≡ false
      → upper code' ≡ upper code
      → (verify temp_token now code jtis f s t p).0 ≡ ok response
      → let f' = (verify temp_token now code jtis f s t p).1 in
        verify temp_token' later code' jtis' f' s' t' p' ≡ (failed unauthorized, f', s', t', p')
  unfolding verify_2fa
  backup_code_once temp_token temp_token' now later code code' jtis jtis' f s s' t t' p p' user i r
        response unique e once here here' wrong wrong' same granted =
      elim (Option-cases (checked false code r.backup_codes)) [
        | inl n ↦ absurd (ground arith)
        | inr (left, m) ↦
            let after = rewritten f user i r left unique e in
            let kept = stored temp_token now code jtis f s t p user i r left here e wrong m in
            let row : TwoFactorAuth = record r { backup_codes = left } in
            refused temp_token' later code' jtis' _ s' t' p' user i row here'
              (subst (λ g. two_factor.find_first g (of_user user) ≡ some (i, row)) kept after)
              wrong' (spent code code' r.backup_codes left once same m)
      ]
