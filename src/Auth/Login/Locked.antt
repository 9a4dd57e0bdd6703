-- ===== src/Auth/Login/Locked.antt =====
-- What a login that is granted has passed, and the lockout seen from the login.
use flow_ai.Common.{
  not, ◌&&◌, map, [], unauthorized, HttpError, ℕ, ◌+◌, ◌≤◌, ◌<◌, ◌≡◌, refl, Bool, true, false, none,
  some, List, ◌∷◌, arith, Result, ok, failed, forbidden, Text, lower, length, All, Option-cases,
  Bool-cases, inl, inr, ◌⊎◌,
}
use flow_ai.Database.{Table}
use flow_ai.Redis.{Keys, Redis}
use flow_ai.RefreshTokens.{RefreshToken}
use flow_ai.Auth.{
  User, TwoFactorAuth, Secret, JwtPayload, Jtis, has_email, auth_user, respond, is_enabled_for,
}
use flow_ai.Auth.Counters.{Counters, live}
use flow_ai.Auth.Lockout.{assert_not_locked_out}
use flow_ai.Auth.Lockout.Window.{
  window_ms, Answers, Inside, fail, fail_all, locked-Inside, open_after,
}
use flow_ai.Auth.Login.{LoginDto, LoginReply, signed_in, requires_2fa, admit, login}

All-map {κ} :
    {A B : Type 0} (g : A → B) (P : B → Type κ) (xs : List A)
    → All (λ x. P (g x)) xs
    → All P (map g xs)
All-map g P [] h = tt
All-map g P (x ∷ xs) h = (h.0, All-map g P xs h.1)

length-map : {A B : Type 0} (g : A → B) (xs : List A) → length (map g xs) ≡ length xs
length-map g [] = refl
length-map g (x ∷ xs) = ground (arith, length-map g xs)

-- A call of login.
pub record Try : Type 0 where
  pub dto : LoginDto
  pub temp_token : ℕ
  pub now : ℕ
  pub jtis : Jtis

module _ (sign : Secret → JwtPayload → ℕ) (hash : Text → ℕ) (compare : Text → ℕ → Bool)
    (users : Table User) (tokens : Table RefreshToken) {keys : Keys ℕ} (pending : Redis keys ℕ)
    (two_factor : Table TwoFactorAuth) (counters : Counters) where
  abbrev attempt :
      LoginDto
      → (temp_token now : ℕ) → Jtis
      → two_factor.State
      → users.State
      → tokens.State
      → pending.State
      → counters.State
      → Result LoginReply × users.State × tokens.State × pending.State × counters.State
  attempt = login sign hash compare users tokens pending two_factor counters

  -- The logins one after the other, whatever they answer.
  unfoldable pub login_all :
      two_factor.State
      → List Try
      → users.State
      → tokens.State
      → pending.State
      → counters.State
      → users.State × tokens.State × pending.State × counters.State
  login_all f [] s t p c = (s, t, p, c)
  login_all f (x ∷ xs) s t p c =
      let (reply, s', t', p', c') = attempt x.dto x.temp_token x.now x.jtis f s t p c in
      login_all f xs s' t' p' c'

  -- No account, no password, or another password than that of an active user.
  abbrev pub is_wrong : users.State → LoginDto → Bool
  is_wrong s dto = elim (users.find_first s (has_email (lower dto.email))) [
    | none ↦ true
    | some (id, u) ↦ elim u.password_hash [
      | none ↦ true
      | some h ↦ u.is_active && not (compare dto.password h)
    ]
  ]

  abbrev pub Wrong : Text → users.State → Try → Type 0
  Wrong email s x = (lower x.dto.email ≡ email) × (is_wrong s x.dto ≡ true)

  login-fail :
      (dto : LoginDto) (temp_token now : ℕ) (jtis : Jtis) (f : two_factor.State) (s : users.State)
      (t : tokens.State) (p : pending.State) (c : counters.State)
      → is_wrong s dto ≡ true
      → (e : HttpError) × (attempt dto temp_token now jtis f s t p c
          ≡ (failed e, s, t, p, fail counters (lower dto.email) now c))
  unfolding login fail
  login-fail dto temp_token now jtis f s t p c wrong =
      elim (Option-cases (assert_not_locked_out counters (lower dto.email) now c)) [
        | inr (m, e) ↦ (forbidden, rw (e, login, fail) refl)
        | inl e ↦ (
          unauthorized,
          elim (Option-cases (users.find_first s (has_email (lower dto.email)))) [
            | inl n ↦ rw (e, n, login, fail) refl
            | inr ((id, u), found) ↦ elim (Option-cases u.password_hash) [
              | inl n ↦ rw (e, found, n, login, fail) refl
              | inr (h, stored) ↦
                  let active : u.is_active ≡ true = ground arith in
                  let other : compare dto.password h ≡ false = ground arith in
                  rw (e, found, stored, active, other, login, fail) refl
            ]
          ],
        )
      ]

  login_all-fail_all :
      (email : Text) (f : two_factor.State) (xs : List Try) (s : users.State) (t : tokens.State)
      (p : pending.State) (c : counters.State)
      → All (Wrong email s) xs
      → login_all f xs s t p c ≡ (s, t, p, fail_all counters email (map (λ x. x.now) xs) c)
  unfolding login_all fail_all
  login_all-fail_all email f [] s t p c h = refl
  login_all-fail_all email f (x ∷ xs) s t p c h =
      let (e, one) = login-fail x.dto x.temp_token x.now x.jtis f s t p c h.0.1 in
      rw (one, login_all, h.0.0)
        (login_all-fail_all email f xs s t p (fail counters email x.now c) h.1)

  -- Ten logins for one address with a wrong password, or none that fits, within a quarter of an
  -- hour of the first of them, at which no counter of the address is running, by whatever clients,
  -- lock the account until that quarter of an hour is over: with Redis answering every call, a login
  -- of the account is forbidden, whatever its password, and changes nothing.
  pub ten_failures_lock :
      (up : Answers counters) (dto : LoginDto) (temp_token now : ℕ) (jtis : Jtis) (x : Try)
      (xs : List Try) (f : two_factor.State) (s : users.State) (t : tokens.State)
      (p : pending.State) (c : counters.State)
      → live x.now (counters.entry c (lower dto.email)) ≡ none
      → All (Wrong (lower dto.email) s) (x ∷ xs)
      → All (λ y. Inside counters x.now y.now) xs
      → 9 ≤ length xs
      → now < x.now + window_ms
      → let (s', t', p', c') = login_all f (x ∷ xs) s t p c in
        attempt dto temp_token now jtis f s' t' p' c' ≡ (failed forbidden, s', t', p', c')
  unfolding login
  ten_failures_lock up dto temp_token now jtis x xs f s t p c fresh wrong inside many early =
      let email = lower dto.email in
      let times = map (λ (y : Try). y.now) xs in
      let c' = fail_all counters email (x.now ∷ times) c in
      let locked =
        locked-Inside counters up email x.now now times c fresh
          (All-map (λ y. y.now) (Inside counters x.now) xs inside)
          (ground (arith, length-map (λ (y : Try). y.now) xs)) early in
      rw (login_all-fail_all email f (x ∷ xs) s t p c wrong)
        (elim (Option-cases (assert_not_locked_out counters email now c')) [
          | inl e ↦ absurd (ground arith)
          | inr (minutes, e) ↦ rw (e, login) refl
        ])

  -- A quarter of an hour after the last of any number of logins with a wrong password, before which
  -- the address had no counter, and with Redis answering every call, the user of the address, if
  -- active and without a second factor, gets tokens for the right password.
  pub lock_ends :
      (up : Answers counters) (dto : LoginDto) (temp_token now last : ℕ) (jtis : Jtis)
      (xs : List Try) (f : two_factor.State) (s : users.State) (t : tokens.State)
      (p : pending.State) (c : counters.State) (id h : ℕ) (u : User)
      → counters.entry c (lower dto.email) ≡ none
      → All (Wrong (lower dto.email) s) xs
      → All (λ x. x.now ≤ last) xs
      → last + window_ms ≤ now
      → users.find_first s (has_email (lower dto.email)) ≡ some (id, u)
      → u.is_active ≡ true
      → u.password_hash ≡ some h
      → compare dto.password h ≡ true
      → is_enabled_for two_factor id f ≡ false
      → let (s', t', p', c') = login_all f xs s t p c in
        (attempt dto temp_token now jtis f s' t' p' c').0
        ≡ ok (signed_in (respond sign tokens id u jtis now t').0)
  unfolding login admit
  lock_ends up dto temp_token now last jtis xs f s t p c id h u fresh wrong before over found active
        stored right single =
      let email = lower dto.email in
      let times = map (λ (y : Try). y.now) xs in
      let e =
        open_after counters up email last now times c fresh
          (All-map (λ y. y.now) (λ x. x ≤ last) xs before) over in
      rw (login_all-fail_all email f xs s t p c wrong) (ground (arith, e))

  -- A login is granted only to the user of the address, who is active and has given the password,
  -- and only when the account is not locked; it gets tokens only if the second factor is off, and
  -- otherwise no refresh token is stored.
  pub granted_login :
      (dto : LoginDto) (temp_token now : ℕ) (jtis : Jtis) (f : two_factor.State) (s : users.State)
      (t : tokens.State) (p : pending.State) (c : counters.State) (reply : LoginReply)
      → (attempt dto temp_token now jtis f s t p c).0 ≡ ok reply
      → (assert_not_locked_out counters (lower dto.email) now c ≡ none)
        × (id : ℕ) × (u : User) × (h : ℕ) × (users.find_first s (has_email (lower dto.email))
            ≡ some (id, u))
        × (u.is_active ≡ true)
        × (u.password_hash ≡ some h)
        × (compare dto.password h ≡ true)
        × (((is_enabled_for two_factor id f ≡ true)
              × (reply ≡ requires_2fa temp_token (auth_user id u))
              × ((attempt dto temp_token now jtis f s t p c).2 ≡ t))
            ⊎ ((is_enabled_for two_factor id f ≡ false)
                × (reply ≡ signed_in (respond sign tokens id u jtis now t).0)
                × ((attempt dto temp_token now jtis f s t p c).2
                    ≡ (respond sign tokens id u jtis now t).1)))
  unfolding login admit
  granted_login dto temp_token now jtis f s t p c reply granted =
      elim (Option-cases (assert_not_locked_out counters (lower dto.email) now c)) [
        | inr (m, e) ↦ absurd (ground arith)
        | inl e ↦ elim (Option-cases (users.find_first s (has_email (lower dto.email)))) [
          | inl n ↦ absurd (ground arith)
          | inr ((id, u), found) ↦ elim (Option-cases u.password_hash) [
            | inl n ↦ absurd (ground arith)
            | inr (h, stored) ↦ elim (Bool-cases u.is_active) [
              | inr gone ↦ absurd (ground arith)
              | inl active ↦ elim (Bool-cases (compare dto.password h)) [
                | inr wrong ↦ absurd (ground arith)
                | inl right ↦ (
                  e,
                  id,
                  u,
                  h,
                  found,
                  active,
                  stored,
                  right,
                  elim (Bool-cases (is_enabled_for two_factor id f)) [
                    | inl on ↦ inl (on, ground arith, ground arith)
                    | inr off ↦ inr (off, ground arith, ground arith)
                  ],
                )
              ]
            ]
          ]
        ]
      ]
