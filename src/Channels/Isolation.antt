-- ===== src/Channels/Isolation.antt =====
-- The accounts of other organizations.
use flow_ai.Common.{
  ℕ, refl, Bool, Option, none, some, List, [], ◌∷◌, arith, Option-cases, Bool-cases, inl, inr,
  Result-cases, Text, ◌==◌,
}
use flow_ai.Database.{Table}
use flow_ai.Database.Ownership.{
  owned, Isolated, Isolated-refl, Isolated-trans, Isolated-update, Isolated-touch, Isolated-create,
  Isolated-update_many,
}
use flow_ai.AgentSettings.{PublishChannel}
use flow_ai.Channels.Secrets.{Cipher}
use flow_ai.Channels.{
  SocialAccount, ConnectAccountDto, ChannelCredentials, is_account, encrypted, upsert, reconnected,
  connect_account, disconnect_account, on_platform, has_expired, flagged, check_channels,
  health_check, all_channels, expired, revoked,
}

pub data Request : Type 0 where
  connects : (dto : ConnectAccountDto) (iv iv' : List ℕ) (now : ℕ) → Request
  disconnects : (id : ℕ) → Request
  checks : (now : ℕ) → Request

module _ (c : Cipher) (key : Option Text) (accounts : Table SocialAccount)
    (verify : PublishChannel → Option ChannelCredentials → Bool) (org : ℕ) where
  abbrev org_of : SocialAccount → ℕ
  org_of a = a.organization_id

  unfoldable pub step : Request → accounts.State → accounts.State
  step (connects dto iv iv' now) s = (connect_account c key accounts org dto iv iv' now s).1
  step (disconnects id) s = (disconnect_account c key accounts org id s).1
  step (checks now) s = (health_check c key accounts verify org now s).1

  unfoldable pub run : List Request → accounts.State → accounts.State
  run [] s = s
  run (x ∷ xs) s = run xs (step x s)

  upsert-Isolated :
      (dto : ConnectAccountDto) (access refresh : Option Text) (now : ℕ) (s : accounts.State)
      → Isolated accounts org_of org s (upsert c key accounts org dto access refresh now s).1
  upsert-Isolated dto access refresh now s =
      elim (Option-cases (accounts.find_first s (is_account org dto.platform dto.account_name))) [
        | inl n ↦ rw (n, upsert) (Isolated-create accounts org_of org s _ refl)
        | inr ((i, a), e) ↦
            let (f, k) =
              accounts.find_first-some s (is_account org dto.platform dto.account_name) i a e in
            rw (e, upsert)
              (Isolated-touch accounts org_of org s i a
                (reconnected c key accounts dto access refresh now) f (ground arith) (λ q. refl))
      ]

  connect-Isolated :
      (dto : ConnectAccountDto) (iv iv' : List ℕ) (now : ℕ) (s : accounts.State)
      → Isolated accounts org_of org s (connect_account c key accounts org dto iv iv' now s).1
  unfolding connect_account
  connect-Isolated dto iv iv' now s = elim (Result-cases (encrypted c key iv dto.access_token)) [
    | inl (e, f) ↦ rw (f, connect_account) (Isolated-refl accounts org_of org s)
    | inr (access, f) ↦ elim (Result-cases (encrypted c key iv' dto.refresh_token)) [
      | inl (e, g) ↦ rw (f, g, connect_account) (Isolated-refl accounts org_of org s)
      | inr (refresh, g) ↦ rw (f, g, connect_account) (upsert-Isolated dto access refresh now s)
    ]
  ]

  disconnect-Isolated :
      (id : ℕ) (s : accounts.State)
      → Isolated accounts org_of org s (disconnect_account c key accounts org id s).1
  unfolding disconnect_account
  disconnect-Isolated id s =
      elim (Option-cases (accounts.find_first s (owned accounts org_of org id))) [
        | inl n ↦ rw (n, disconnect_account) (Isolated-refl accounts org_of org s)
        | inr ((i, a), e) ↦
            rw (e, disconnect_account)
              (Isolated-update accounts org_of org s id i a
                (λ q. record q { access_token = none; refresh_token = none; status = revoked }) e
                (λ q. refl))
      ]

  flagged-Isolated :
      (now : ℕ) (channel : PublishChannel) (s : accounts.State)
      → Isolated accounts org_of org s (flagged c key accounts org now channel s)
  flagged-Isolated now channel s =
      elim (Option-cases (accounts.find_first s (on_platform c key accounts org channel))) [
        | inl n ↦ rw (n, flagged) (Isolated-refl accounts org_of org s)
        | inr ((i, a), e) ↦
            let (f, k) =
              accounts.find_first-some s (on_platform c key accounts org channel) i a e in
            elim (Bool-cases (has_expired now a)) [
              | inr fine ↦ rw (e, fine, flagged) (Isolated-refl accounts org_of org s)
              | inl over ↦
                  rw (e, over, flagged)
                    (Isolated-touch accounts org_of org s i a (λ q. record q { status = expired }) f
                      (ground arith) (λ q. refl))
            ]
      ]

  check-Isolated :
      (now : ℕ) (channels : List PublishChannel) (s : accounts.State)
      → Isolated accounts org_of org s (check_channels c key accounts verify org now channels s).1
  unfolding check_channels
  check-Isolated now [] s = Isolated-refl accounts org_of org s
  check-Isolated now (channel ∷ channels) s =
      Isolated-trans accounts org_of org s (flagged c key accounts org now channel s) _
        (flagged-Isolated now channel s) (check-Isolated now channels _)

  step-Isolated : (x : Request) (s : accounts.State) → Isolated accounts org_of org s (step x s)
  unfolding step health_check
  step-Isolated (connects dto iv iv' now) s = connect-Isolated dto iv iv' now s
  step-Isolated (disconnects id) s = disconnect-Isolated id s
  step-Isolated (checks now) s =
      Isolated-trans accounts org_of org s
        (check_channels c key accounts verify org now all_channels s).1 _
        (check-Isolated now all_channels s)
        (Isolated-update_many accounts org_of org _ (λ i a. a.organization_id == org)
          (λ a. record a { last_checked_at = some now }) (λ i q k. ground arith) (λ q. refl))

  -- Whatever accounts an organization connects, disconnects and has checked, by whatever ids, the
  -- accounts of every other organization, their tokens among them, are exactly those that were
  -- there before.
  pub accounts-Isolated :
      (xs : List Request) (s : accounts.State)
      → Isolated accounts (λ a. a.organization_id) org s (run xs s)
  unfolding run
  accounts-Isolated [] s = Isolated-refl accounts org_of org s
  accounts-Isolated (x ∷ xs) s =
      Isolated-trans accounts org_of org s (step x s) (run xs (step x s)) (step-Isolated x s)
        (accounts-Isolated xs (step x s))
