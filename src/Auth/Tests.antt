-- ===== src/Auth/Tests.antt =====
-- The theorems on accounts at the account of the address "a".
use flow_ai.Common.{
  map, ℕ, ◌≡◌, refl, Bool, true, false, Option, none, some, List, [], ◌∷◌, arith, ◌==◌, ==_iff,
  Result, ok, failed, ◌⊎◌, forbidden, Text, same_text, lower, All, ◌≤◌,
}
use flow_ai.Database.Rows.{rows}
use flow_ai.Redis.{Keys}
use flow_ai.Redis.Entries.{Server, server}
use flow_ai.RefreshTokens.{RefreshToken}
use flow_ai.Auth.{
  User, TwoFactorAuth, Secret, JwtPayload, Jtis, auth_user, respond, has_email, is_enabled_for,
}
use flow_ai.Auth.Counters.Entries.{entries}
use flow_ai.Auth.Counters.{Counter}
use flow_ai.Auth.Lockout.{assert_not_locked_out}
use flow_ai.Auth.Lockout.Window.{Answers, Inside}
use flow_ai.Auth.Login.{LoginDto, LoginReply, signed_in, requires_2fa, login, admit}
use flow_ai.Auth.Login.Locked.{Try, login_all, ten_failures_lock, lock_ends, granted_login}

abbrev pub keys : Keys ℕ
keys = record { same = ◌==◌; same_iff = ==_iff }

abbrev pub redis : Server ℕ ℕ
redis = record { is_up = true; entries = [] }

abbrev pub sign : Secret → JwtPayload → ℕ
sign secret p = p.jti

abbrev compare : Text → ℕ → Bool
compare password h = same_text password (h ∷ [])

abbrev pub user : User
user = record {
  email = b'a' ∷ [];
  password_hash = some 7;
  first_name = [];
  last_name = [];
  phone = none;
  avatar = none;
  is_active = true;
  is_email_verified = true;
  is_super_admin = false;
  last_login_at = none;
  google_id = none;
  github_id = none;
  microsoft_id = none;
}

abbrev pub users : List (Option User)
users = some user ∷ []

abbrev dto : LoginDto
dto = record { email = b'A' ∷ []; password = 7 ∷ [] }

abbrev pub jtis : Jtis
jtis = record { access = 1; refresh = 2 }

up : Answers entries
up = record {
  gets = λ s k now. refl;
  ttls = λ s k now. refl;
  incrs = λ s k now. refl;
  expires = λ s k seconds now. refl;
}

abbrev nine : List ℕ
nine = 1 ∷ 2 ∷ 3 ∷ 4 ∷ 5 ∷ 6 ∷ 7 ∷ 8 ∷ 9 ∷ []

abbrev log_in :
    ℕ
    → Result LoginReply
      × List (Option User)
      × List (Option RefreshToken)
      × Server ℕ ℕ
      × (Text → Option Counter)
log_in now =
    login sign (λ p. 0) compare (rows User) (rows RefreshToken) (server keys ℕ) (rows TwoFactorAuth)
      entries dto 5 now jtis [] users [] redis (λ k. none)

nine-Inside : All (Inside entries 0) nine
nine-Inside = (
  (omega arith, omega arith),
  (
    (omega arith, omega arith),
    (
      (omega arith, omega arith),
      (
        (omega arith, omega arith),
        (
          (omega arith, omega arith),
          (
            (omega arith, omega arith),
            (
              (omega arith, omega arith),
              ((omega arith, omega arith), ((omega arith, omega arith), tt)),
            ),
          ),
        ),
      ),
    ),
  ),
)

nine_before : All (λ t. t ≤ 9) nine
nine_before = (
  omega arith,
  (
    omega arith,
    (
      omega arith,
      (omega arith, (omega arith, (omega arith, (omega arith, (omega arith, (omega arith, tt)))))),
    ),
  ),
)

abbrev guess : LoginDto
guess = record dto { password = [] }

abbrev try_at : ℕ → Try
try_at t = record { dto = guess; temp_token = 5; now = t; jtis = jtis }

abbrev tries : List Try
tries = map try_at nine

abbrev Around : Type 0
Around = List (Option User) × List (Option RefreshToken) × Server ℕ ℕ × (Text → Option Counter)

abbrev after : List Try → Around
after xs =
    login_all sign (λ p. 0) compare (rows User) (rows RefreshToken) (server keys ℕ)
      (rows TwoFactorAuth) entries [] xs users [] redis (λ k. none)

ten_failures_lock_example :
    login sign
      (λ p. 0)
      compare
      (rows User)
      (rows RefreshToken)
      (server keys ℕ)
      (rows TwoFactorAuth)
      entries
      dto
      5
      100
      jtis
      []
      (after (try_at 0 ∷ tries)).0
      (after (try_at 0 ∷ tries)).1
      (after (try_at 0 ∷ tries)).2
      (after (try_at 0 ∷ tries)).3
    ≡ (
      failed forbidden,
      (after (try_at 0 ∷ tries)).0,
      (after (try_at 0 ∷ tries)).1,
      (after (try_at 0 ∷ tries)).2,
      (after (try_at 0 ∷ tries)).3,
    )
ten_failures_lock_example =
    ten_failures_lock sign (λ p. 0) compare (rows User) (rows RefreshToken) (server keys ℕ)
      (rows TwoFactorAuth) entries up dto 5 100 jtis (try_at 0) tries [] users [] redis (λ k. none)
      refl
      (
        (refl, refl),
        (
          (refl, refl),
          (
            (refl, refl),
            (
              (refl, refl),
              (
                (refl, refl),
                ((refl, refl), ((refl, refl), ((refl, refl), ((refl, refl), ((refl, refl), tt))))),
              ),
            ),
          ),
        ),
      )
      nine-Inside (omega arith) (omega arith)

lock_ends_example :
    (login sign
      (λ p. 0)
      compare
      (rows User)
      (rows RefreshToken)
      (server keys ℕ)
      (rows TwoFactorAuth)
      entries
      dto
      5
      900009
      jtis
      []
      (after tries).0
      (after tries).1
      (after tries).2
      (after tries).3).0
    ≡ ok (signed_in (respond sign (rows RefreshToken) 0 user jtis 900009 (after tries).1).0)
lock_ends_example =
    lock_ends sign (λ p. 0) compare (rows User) (rows RefreshToken) (server keys ℕ)
      (rows TwoFactorAuth) entries up dto 5 900009 9 jtis tries [] users [] redis (λ k. none) 0 7
      user refl
      (
        (refl, refl),
        (
          (refl, refl),
          (
            (refl, refl),
            (
              (refl, refl),
              ((refl, refl), ((refl, refl), ((refl, refl), ((refl, refl), ((refl, refl), tt))))),
            ),
          ),
        ),
      )
      nine_before (omega arith) refl refl refl refl refl

granted_login_example :
    (assert_not_locked_out entries (lower dto.email) 0 (λ k. none) ≡ none)
    × (id : ℕ) × (u : User) × (h : ℕ) × ((rows User).find_first users (has_email (lower dto.email))
        ≡ some (id, u))
    × (u.is_active ≡ true)
    × (u.password_hash ≡ some h)
    × (compare dto.password h ≡ true)
    × (((is_enabled_for (rows TwoFactorAuth) id [] ≡ true)
          × (signed_in (respond sign (rows RefreshToken) 0 user jtis 0 []).0
              ≡ requires_2fa 5 (auth_user id u))
          × ((log_in 0).2 ≡ []))
        ⊎ ((is_enabled_for (rows TwoFactorAuth) id [] ≡ false)
            × (signed_in (respond sign (rows RefreshToken) 0 user jtis 0 []).0
                ≡ signed_in (respond sign (rows RefreshToken) id u jtis 0 []).0)
            × ((log_in 0).2 ≡ (respond sign (rows RefreshToken) id u jtis 0 []).1)))
unfolding login admit assert_not_locked_out
granted_login_example =
    granted_login sign (λ p. 0) compare (rows User) (rows RefreshToken) (server keys ℕ)
      (rows TwoFactorAuth) entries dto 5 0 jtis [] users [] redis (λ k. none)
      (signed_in (respond sign (rows RefreshToken) 0 user jtis 0 []).0) refl
