-- ===== src/Auth/TwoFactor.antt =====
-- The second factor of src/modules/auth/auth.service.ts: setup2FA, enable2FA, verify2FA and
-- disable2FA. otplib is `totp`, given the time, the code and the secret; the random numbers of the
-- backup codes are an argument. `setups` holds the keys `2fa-setup:`, `pending` the keys
-- `2fa-pending:`; a Redis that throws is an error of the server.
pub mod BackupCodes
use flow_ai.Common.{
  ℕ, zero, suc, Bool, true, false, Option, none, some, List, [], ◌∷◌, map, ◌==◌, if◌then◌else◌,
  Result, ok, failed, HttpError, bad_request, unauthorized, not_found, server_error, Text,
  same_text, upper,
}
use mathlib.Core.Option
use flow_ai.Database.{Table}
use flow_ai.Redis.{Keys, Redis}
use flow_ai.RefreshTokens.{RefreshToken}
use flow_ai.Auth.{User, TwoFactorAuth, Secret, JwtPayload, AuthResponse, Jtis, respond}

-- codes.indexOf(code)
abbrev pub index_of : Text → List Text → Option ℕ
index_of code [] = none
index_of code (c ∷ codes) =
    let rest = index_of code codes in
    if same_text c code then some 0 else Option.map (λ i. suc i) rest

-- codes.splice(index, 1)
abbrev pub splice : ℕ → List Text → List Text
splice i [] = []
splice zero (c ∷ codes) = codes
splice (suc i) (c ∷ codes) = c ∷ splice i codes

abbrev pub backup_codes : (ℕ → Text) → List Text
backup_codes random = map random (0 ∷ 1 ∷ 2 ∷ 3 ∷ 4 ∷ 5 ∷ 6 ∷ 7 ∷ 8 ∷ 9 ∷ [])

abbrev pub of_user : ℕ → ℕ → TwoFactorAuth → Bool
of_user user i r = r.user_id == user

-- What the code leaves of the backup codes, `none` for a code that is not accepted.
abbrev pub checked : Bool → Text → List Text → Option (List Text)
checked true code codes = some codes
checked false code codes = elim (index_of (upper code) codes) [
  | none ↦ none
  | some i ↦ some (splice i codes)
]

module _ (totp : ℕ → Text → ℕ → Bool) (two_factor : Table TwoFactorAuth) where
  module _ {keys : Keys ℕ} (setups : Redis keys ℕ) where
    pub setup_2fa :
        (users : Table User)
        → (user secret : ℕ) → users.State
        → setups.State
        → Result ℕ × setups.State
    setup_2fa users user secret s p = elim (users.find s user) [
      | none ↦ (failed not_found, p)
      | some u ↦ elim (setups.set p user secret 600) [
        | none ↦ (failed server_error, p)
        | some p' ↦ (ok secret, p')
      ]
    ]

    -- The upsert on the user's row, and then the setup is forgotten.
    pub enable_2fa :
        (random : ℕ → Text)
        → (user now : ℕ) → (code : Text) → two_factor.State
        → setups.State
        → Result (List Text) × two_factor.State × setups.State
    enable_2fa random user now code f p =
        let codes = backup_codes random in
        elim (setups.get p user) [
          | none ↦ (failed server_error, f, p)
          | some none ↦ (failed bad_request, f, p)
          | some (some secret) ↦
              let row : TwoFactorAuth = record {
                user_id = user;
                secret = secret;
                is_enabled = true;
                backup_codes = codes;
              } in
              let f' : two_factor.State = elim (two_factor.find_first f (of_user user)) [
                | none ↦ (two_factor.create f row).1
                | some (i, r) ↦
                    (two_factor.update f i (λ q. record q {
                      secret = secret;
                      is_enabled = true;
                      backup_codes = codes;
                    })).1
              ] in
              if totp now code secret
              then elim (setups.del p user) [
                | none ↦ (failed server_error, f', p)
                | some p' ↦ (ok codes, f', p')
              ]
              else (failed bad_request, f, p)
        ]

  pub disable_2fa :
      (user now : ℕ) → (code : Text) → two_factor.State → Option HttpError × two_factor.State
  disable_2fa user now code f = elim (two_factor.find_first f (of_user user)) [
    | none ↦ (some bad_request, f)
    | some (i, r) ↦
        let f' = two_factor.delete_many f (λ j _. j == i) in
        if totp now code r.secret then (none, f') else (some unauthorized, f)
  ]

  module _ (sign : Secret → JwtPayload → ℕ) (users : Table User) (tokens : Table RefreshToken)
      {keys : Keys ℕ} (pending : Redis keys ℕ) where
    -- After the code: the pending login is forgotten, and the user signed in.
    unfoldable pub finish :
        (user temp_token now : ℕ)
        → Jtis
        → users.State
        → tokens.State
        → pending.State
        → Result AuthResponse × users.State × tokens.State × pending.State
    finish user temp_token now jtis s t p = elim (pending.del p temp_token) [
      | none ↦ (failed server_error, s, t, p)
      | some p' ↦ elim (users.find s user) [
        | none ↦ (failed not_found, s, t, p')
        | some u ↦
            let s' = (users.update s user (λ r. record r { last_login_at = some now })).1 in
            let (response, t') = respond sign tokens user u jtis now t in (ok response, s', t', p')
      ]
    ]

    -- A row is written only if a backup code was used.
    unfoldable pub verify_2fa :
        (temp_token now : ℕ)
        → (code : Text) → Jtis
        → two_factor.State
        → users.State
        → tokens.State
        → pending.State
        → Result AuthResponse × two_factor.State × users.State × tokens.State × pending.State
    unfolding finish
    verify_2fa temp_token now code jtis f s t p = elim (pending.get p temp_token) [
      | none ↦ (failed server_error, f, s, t, p)
      | some none ↦ (failed bad_request, f, s, t, p)
      | some (some user) ↦ elim (two_factor.find_first f (of_user user)) [
        | none ↦ (failed bad_request, f, s, t, p)
        | some (i, r) ↦
            let valid = totp now code r.secret in
            elim (checked valid code r.backup_codes) [
              | none ↦ (failed unauthorized, f, s, t, p)
              | some codes ↦
                  let f' =
                    if valid
                    then f
                    else (two_factor.update f i (λ q. record q { backup_codes = codes })).1 in
                  let (reply, s', t', p') = finish user temp_token now jtis s t p in
                  (reply, f', s', t', p')
            ]
      ]
    ]
