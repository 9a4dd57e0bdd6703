-- ===== src/Channels/Tokens.antt =====
-- The tokens that an adapter is called with.
use flow_ai.Common.{
  ℕ, ◌≡◌, refl, true, false, Option, some, List, [], ◌∷◌, ◌++◌, arith, Option-cases, inl, inr, ok,
  Text, is_empty, ==_refl, ap, ◌∙◌, subst,
}
use flow_ai.Database.{Table}
use flow_ai.Database.Laws.{AtMostOne, find_first_unique}
use flow_ai.AgentSettings.{PublishChannel, same_channel}
use flow_ai.Channels.Secrets.{Cipher, encrypt_secret, decrypt-encrypt}
use flow_ai.Channels.{
  SocialAccount, ConnectAccountDto, ChannelCredentials, is_account, is_live, encrypted, decrypted,
  credentials_of, new_account, upsert, reconnected, connect_account, get_credentials, publish,
}

same_channel_refl : (p : PublishChannel) → same_channel p p ≡ true
same_channel_refl PublishChannel.instagram = refl
same_channel_refl PublishChannel.linkedin = refl
same_channel_refl PublishChannel.email = refl
same_channel_refl PublishChannel.website = refl

longer : (x : Text) (d : ℕ) (y : Text) → is_empty (x ++ d ∷ y) ≡ false
longer [] d y = refl
longer (a ∷ x) d y = refl

module _ (c : Cipher) (k : Text) (accounts : Table SocialAccount) where
  encrypted_token :
      (iv : List ℕ) (token : Option Text) (t : Text)
      → token ≡ some t
      → is_empty t ≡ false
      → encrypted c (some k) iv token ≡ ok (some (encrypt_secret c iv t k))
  encrypted_token iv token t e h = ground arith

  encrypted_long : (iv : List ℕ) (t : Text) → is_empty (encrypt_secret c iv t k) ≡ false
  unfolding encrypt_secret
  encrypted_long iv t = longer (c.base64 iv) b':' _

  decrypted_token :
      (iv : List ℕ) (t : Text)
      → is_empty iv ≡ false
      → is_empty t ≡ false
      → decrypted c (some k) (some (encrypt_secret c iv t k)) ≡ ok (some t)
  decrypted_token iv t hiv h = ground (arith, decrypt-encrypt c iv t k hiv, encrypted_long iv t)

  -- The row of the account after the upsert.
  upserted :
      (org : ℕ) (dto : ConnectAccountDto) (x y : Text) (now : ℕ) (s : accounts.State)
      → let (id, s') = upsert c (some k) accounts org dto (some x) (some y) now s in
        (row : SocialAccount) × (accounts.find s' id ≡ some row)
        × (is_live org dto.platform id row ≡ true)
        × (row.access_token ≡ some x)
        × (row.refresh_token ≡ some y)
        × (row.account_name ≡ dto.account_name)
  upserted org dto x y now s =
      elim (Option-cases (accounts.find_first s (is_account org dto.platform dto.account_name))) [
        | inl n ↦
            let row = new_account c (some k) accounts org dto (some x) (some y) now in
            let id = (accounts.create s row).0 in
            rw (n, upsert)
              (
                row,
                ground (arith, accounts.find-create s row id, ==_refl id),
                ground (arith, ==_refl org, same_channel_refl dto.platform),
                refl,
                refl,
                refl,
              )
        | inr ((i, a), e) ↦
            let (f, h) =
              accounts.find_first-some s (is_account org dto.platform dto.account_name) i a e in
            let change = reconnected c (some k) accounts dto (some x) (some y) now in
            rw (e, upsert)
              (
                change a,
                ground (arith, accounts.find-update s i change i, ==_refl i),
                ground arith,
                refl,
                refl,
                ground arith,
              )
      ]

  read_back :
      (iv iv' : List ℕ) (x y : Text) (row : SocialAccount)
      → is_empty iv ≡ false
      → is_empty iv' ≡ false
      → is_empty x ≡ false
      → is_empty y ≡ false
      → row.access_token ≡ some (encrypt_secret c iv x k)
      → row.refresh_token ≡ some (encrypt_secret c iv' y k)
      → credentials_of c (some k) row
        ≡ ok (
            some (record {
              access_token = some x;
              refresh_token = some y;
              external_id = row.external_id;
              account_name = row.account_name;
            }))
  read_back iv iv' x y row hi hi' hx hy ex ey =
      let dx : decrypted c (some k) row.access_token ≡ ok (some x) =
        ap (decrypted c (some k)) ex ∙ decrypted_token iv x hi hx in
      let dy : decrypted c (some k) row.refresh_token ≡ ok (some y) =
        ap (decrypted c (some k)) ey ∙ decrypted_token iv' y hi' hy in
      ground arith

  adapter_called :
      {Payload Answer : Type 0}
      (adapters : PublishChannel → Payload → Option ChannelCredentials → Answer) (payload : Payload)
      (org : ℕ) (channel : PublishChannel) (s : accounts.State) (id : ℕ) (row : SocialAccount)
      (used : ChannelCredentials)
      → accounts.find_first s (is_live org channel) ≡ some (id, row)
      → credentials_of c (some k) row ≡ ok (some used)
      → publish c (some k) accounts adapters org channel payload s
        ≡ ok (adapters channel payload (some used))
  unfolding publish get_credentials
  adapter_called adapters payload org channel s id row used e f =
      rw (e, f, publish, get_credentials) refl

  -- When a key is configured, an account is connected with both tokens, neither empty, and no other
  -- account of the organization is connected on the platform afterwards, publishing there calls the
  -- adapter with those very tokens and the name of the account, while the columns of its row hold
  -- their ciphertexts. No initialization vector is empty.
  pub published_with_tokens :
      {Payload Answer : Type 0}
      (adapters : PublishChannel → Payload → Option ChannelCredentials → Answer) (payload : Payload)
      (org : ℕ) (dto : ConnectAccountDto) (iv iv' : List ℕ) (now : ℕ) (s : accounts.State)
      (x y : Text)
      → dto.access_token ≡ some x
      → dto.refresh_token ≡ some y
      → is_empty x ≡ false
      → is_empty y ≡ false
      → is_empty iv ≡ false
      → is_empty iv' ≡ false
      → AtMostOne accounts
          (connect_account c (some k) accounts org dto iv iv' now s).1
          (is_live org dto.platform)
      → let (id, s') = connect_account c (some k) accounts org dto iv iv' now s in
        (used : ChannelCredentials) × (publish c
            (some k)
            accounts
            adapters
            org
            dto.platform
            payload
            s'
          ≡ ok (adapters dto.platform payload (some used)))
        × (used.access_token ≡ some x)
        × (used.refresh_token ≡ some y)
        × (used.account_name ≡ dto.account_name)
        × (i : ℕ) × (row : SocialAccount) × (id ≡ ok i)
        × (accounts.find s' i ≡ some row)
        × (row.access_token ≡ some (encrypt_secret c iv x k))
        × (row.refresh_token ≡ some (encrypt_secret c iv' y k))
  unfolding connect_account
  published_with_tokens adapters payload org dto iv iv' now s x y ex ey hx hy hi hi' unique =
      let fx = encrypted_token iv dto.access_token x ex hx in
      let fy = encrypted_token iv' dto.refresh_token y ey hy in
      let (id, s') =
        upsert c (some k) accounts org dto (some (encrypt_secret c iv x k))
          (some (encrypt_secret c iv' y k)) now s in
      let (row, found, live, ax, ay, an) =
        upserted org dto (encrypt_secret c iv x k) (encrypt_secret c iv' y k) now s in
      let same : (connect_account c (some k) accounts org dto iv iv' now s).1 ≡ s' = ground arith in
      let one : AtMostOne accounts s' (is_live org dto.platform) =
        subst (λ t. AtMostOne accounts t (is_live org dto.platform)) same unique in
      let first = find_first_unique accounts s' (is_live org dto.platform) id row one found live in
      let used : ChannelCredentials = record {
        access_token = some x;
        refresh_token = some y;
        external_id = row.external_id;
        account_name = row.account_name;
      } in
      let back = read_back iv iv' x y row hi hi' hx hy ax ay in
      (
        used,
        ap (publish c (some k) accounts adapters org dto.platform payload) same
            ∙ adapter_called adapters payload org dto.platform s' id row used first back,
        refl,
        refl,
        an,
        id,
        row,
        ground arith,
        ap (λ t. accounts.find t id) same ∙ found,
        ax,
        ay,
      )
