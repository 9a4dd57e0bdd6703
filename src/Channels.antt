-- ===== src/Channels.antt =====
-- src/modules/channels/channels.service.ts: the accounts of an organization on the channels, whose
-- tokens are stored encrypted. The adapters are parameters. Where the source orders a findFirst, the
-- laws of `find_first` leave open which of the rows that match it gives.
pub mod Secrets
pub mod Tokens
pub mod Isolation
pub mod Tests
use flow_ai.Common.{
  ℕ, Bool, true, false, ◌&&◌, Option, none, some, or_else, List, [], ◌∷◌, ltb, ◌==◌, is_empty,
  if◌then◌else◌, Result, ok, failed, server_error, not_found, Text,
}
use flow_ai.Database.{Table}
use flow_ai.AgentSettings.{PublishChannel, instagram, linkedin, email, website, same_channel}
use Secrets.{Cipher, encrypt_secret, decrypt_secret}

pub data SocialAccountStatus : Type 0 where
  connected expired revoked error_status paused : SocialAccountStatus

abbrev pub is_connected : SocialAccountStatus → Bool
is_connected connected = true
is_connected _ = false

pub record SocialAccount : Type 0 where
  pub organization_id : ℕ
  pub platform : PublishChannel
  pub account_name : ℕ
  pub external_id : Option ℕ
  pub access_token : Option Text
  pub refresh_token : Option Text
  pub token_expires_at : Option ℕ
  pub status : SocialAccountStatus
  pub last_checked_at : Option ℕ

pub record ConnectAccountDto : Type 0 where
  pub platform : PublishChannel
  pub account_name : ℕ
  pub external_id : Option ℕ
  pub access_token : Option Text
  pub refresh_token : Option Text
  pub token_expires_at : Option ℕ

pub record ChannelCredentials : Type 0 where
  pub access_token : Option Text
  pub refresh_token : Option Text
  pub external_id : Option ℕ
  pub account_name : ℕ

-- The key of the upsert, and the where clauses.
abbrev pub is_account : ℕ → PublishChannel → ℕ → ℕ → SocialAccount → Bool
is_account org platform name i a =
    a.organization_id == org && same_channel a.platform platform && a.account_name == name

abbrev pub is_live : ℕ → PublishChannel → ℕ → SocialAccount → Bool
is_live org platform i a =
    a.organization_id == org && same_channel a.platform platform && is_connected a.status

abbrev pub owned : ℕ → ℕ → ℕ → SocialAccount → Bool
owned org id i a = i == id && a.organization_id == org

-- A string that is missing or empty is falsy.
abbrev pub given : Option Text → Option Text
given none = none
given (some t) = if is_empty t then none else some t

abbrev pub all_channels : List PublishChannel
all_channels = instagram ∷ linkedin ∷ email ∷ website ∷ []

-- Whether the token of an account has run out.
abbrev pub has_expired : ℕ → SocialAccount → Bool
has_expired now a = elim a.token_expires_at [
  | none ↦ false
  | some t ↦ ltb t now && is_connected a.status
]

module _ (c : Cipher) (key : Option Text) where
  -- A key that is not configured throws, and so does a text that was not encrypted with it.
  abbrev pub encrypted : List ℕ → Option Text → Result (Option Text)
  encrypted iv token = elim (given token) [
    | none ↦ ok none
    | some t ↦ elim key [
      | none ↦ failed server_error
      | some k ↦ ok (some (encrypt_secret c iv t k))
    ]
  ]

  abbrev pub decrypted : Option Text → Result (Option Text)
  decrypted stored = elim (given stored) [
    | none ↦ ok none
    | some t ↦ elim key [
      | none ↦ failed server_error
      | some k ↦ elim (decrypt_secret c t k) [ none ↦ failed server_error | some p ↦ ok (some p) ]
    ]
  ]

  abbrev pub credentials_of : SocialAccount → Result (Option ChannelCredentials)
  credentials_of a = elim (decrypted a.access_token) [
    | failed e ↦ failed e
    | ok access ↦ elim (decrypted a.refresh_token) [
      | failed e ↦ failed e
      | ok refresh ↦ ok (
          some (record {
            access_token = access;
            refresh_token = refresh;
            external_id = a.external_id;
            account_name = a.account_name;
          }))
    ]
  ]

  module _ (accounts : Table SocialAccount) where
    abbrev pub new_account : ℕ → ConnectAccountDto → Option Text → Option Text → ℕ → SocialAccount
    new_account org dto access refresh now = record {
      organization_id = org;
      platform = dto.platform;
      account_name = dto.account_name;
      external_id = dto.external_id;
      access_token = access;
      refresh_token = refresh;
      token_expires_at = dto.token_expires_at;
      status = connected;
      last_checked_at = some now;
    }

    -- An update leaves the columns that the dto does not give.
    abbrev pub reconnected :
        ConnectAccountDto → Option Text → Option Text → ℕ → SocialAccount → SocialAccount
    reconnected dto access refresh now a = record a {
      external_id = or_else dto.external_id a.external_id;
      access_token = or_else access a.access_token;
      refresh_token = or_else refresh a.refresh_token;
      token_expires_at = or_else dto.token_expires_at a.token_expires_at;
      status = connected;
      last_checked_at = some now;
    }

    abbrev pub upsert :
        ℕ → ConnectAccountDto → Option Text → Option Text → ℕ → accounts.State → ℕ × accounts.State
    upsert org dto access refresh now s =
        elim (accounts.find_first s (is_account org dto.platform dto.account_name)) [
          | none ↦ accounts.create s (new_account org dto access refresh now)
          | some (i, a) ↦ (i, (accounts.update s i (reconnected dto access refresh now)).1)
        ]

    -- The two initialisation vectors are arguments.
    unfoldable pub connect_account :
        ℕ → ConnectAccountDto → (iv iv' : List ℕ) → ℕ → accounts.State → Result ℕ × accounts.State
    connect_account org dto iv iv' now s = elim (encrypted iv dto.access_token) [
      | failed e ↦ (failed e, s)
      | ok access ↦ elim (encrypted iv' dto.refresh_token) [
        | failed e ↦ (failed e, s)
        | ok refresh ↦ let (id, s') = upsert org dto access refresh now s in (ok id, s')
      ]
    ]

    unfoldable pub disconnect_account : ℕ → ℕ → accounts.State → Result ℕ × accounts.State
    disconnect_account org id s =
        let s' =
          (accounts.update s id
            (λ a. record a { access_token = none; refresh_token = none; status = revoked })).1 in
        elim (accounts.find_first s (owned org id)) [
          | none ↦ (failed not_found, s)
          | some _ ↦ (ok id, s')
        ]

    unfoldable pub get_credentials :
        ℕ → PublishChannel → accounts.State → Result (Option ChannelCredentials)
    get_credentials org channel s = elim (accounts.find_first s (is_live org channel)) [
      | none ↦ ok none
      | some (i, a) ↦ credentials_of a
    ]

    -- What the channel's adapter is called with, and its answer.
    unfoldable pub publish :
        {Payload Answer : Type 0}
        → (adapters : PublishChannel → Payload → Option ChannelCredentials → Answer) → ℕ
        → PublishChannel
        → Payload
        → accounts.State
        → Result Answer
    publish adapters org channel payload s = elim (get_credentials org channel s) [
      | failed e ↦ failed e
      | ok credentials ↦ ok (adapters channel payload credentials)
    ]

    -- One channel of healthCheck: whether its credentials are good, none being tried when they
    -- cannot be read, and the flag on an account whose token has run out.
    abbrev pub credentials_or_none : Result (Option ChannelCredentials) → Option ChannelCredentials
    credentials_or_none (failed e) = none
    credentials_or_none (ok credentials) = credentials

    abbrev pub on_platform : ℕ → PublishChannel → ℕ → SocialAccount → Bool
    on_platform org channel i a = a.organization_id == org && same_channel a.platform channel

    abbrev pub flagged : ℕ → ℕ → PublishChannel → accounts.State → accounts.State
    flagged org now channel s = elim (accounts.find_first s (on_platform org channel)) [
      | none ↦ s
      | some (i, a) ↦
          if has_expired now a
          then (accounts.update s i (λ q. record q { status = expired })).1
          else s
    ]

    unfoldable pub check_channels :
        (verify : PublishChannel → Option ChannelCredentials → Bool)
        → ℕ
        → ℕ
        → List PublishChannel
        → accounts.State
        → List (PublishChannel × Bool) × accounts.State
    check_channels verify org now [] s = ([], s)
    check_channels verify org now (channel ∷ channels) s =
        let good = verify channel (credentials_or_none (get_credentials org channel s)) in
        let (results, s') = check_channels verify org now channels (flagged org now channel s) in
        ((channel, good) ∷ results, s')

    unfoldable pub health_check :
        (verify : PublishChannel → Option ChannelCredentials → Bool)
        → ℕ
        → ℕ
        → accounts.State
        → List (PublishChannel × Bool) × accounts.State
    health_check verify org now s =
        let (results, s') = check_channels verify org now all_channels s in
        (
          results,
          accounts.update_many s' (λ i a. a.organization_id == org)
              (λ a. record a { last_checked_at = some now }),
        )
