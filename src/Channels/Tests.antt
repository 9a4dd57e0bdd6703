-- ===== src/Channels/Tests.antt =====
-- The theorems on channels with a cipher that hides nothing.
use flow_ai.Common.{
  ℕ, zero, suc, ◌+◌, ◌-◌, ◌≡◌, refl, sym, ◌∙◌, false, Option, none, some, List, [], ◌∷◌, map, arith,
  includes, is_empty, ok, Text, Result,
}
use flow_ai.Database.Rows.{rows}
use flow_ai.Database.Laws.{AtMostOne}
use flow_ai.AgentSettings.{linkedin}
use flow_ai.Channels.Secrets.{Cipher, encrypt_secret, decrypt_secret, decrypt-encrypt}
use flow_ai.Channels.{
  SocialAccount, ConnectAccountDto, ChannelCredentials, is_live, connect_account, publish,
}
use flow_ai.Channels.Tokens.{published_with_tokens}

abbrev shifted : List ℕ → Text
shifted b = map (λ x. x + 100) b

abbrev unshifted : Text → List ℕ
unshifted t = map (λ x. x - 100) t

unshifted-shifted : (b : List ℕ) → unshifted (shifted b) ≡ b
unshifted-shifted [] = refl
unshifted-shifted (x ∷ b) = ground (arith, unshifted-shifted b)

shifted_empty : (b : List ℕ) → is_empty (shifted b) ≡ is_empty b
shifted_empty [] = refl
shifted_empty (x ∷ b) = refl

shifted_clean : (b : List ℕ) → includes b':' (shifted b) ≡ false
shifted_clean [] = refl
shifted_clean (x ∷ b) = ground (arith, shifted_clean b)

abbrev cipher : Cipher
cipher = record {
  Key = Text;
  derive_key = λ secret. secret;
  seal = λ k iv p. (p, 1 ∷ []);
  unseal = λ k iv tag d. some d;
  base64 = shifted;
  from_base64 = unshifted;
  unseal-seal = λ k iv p. refl;
  seal_empty = λ k iv p. refl;
  seal_tag = λ k iv p. refl;
  from_base64-base64 = unshifted-shifted;
  base64_empty = shifted_empty;
  base64_clean = shifted_clean;
}

decrypt-encrypt_example :
    decrypt_secret cipher (encrypt_secret cipher (9 ∷ []) (5 ∷ 6 ∷ []) (7 ∷ [])) (7 ∷ [])
    ≡ some (5 ∷ 6 ∷ [])
decrypt-encrypt_example = decrypt-encrypt cipher (9 ∷ []) (5 ∷ 6 ∷ []) (7 ∷ []) refl

abbrev dto : ConnectAccountDto
dto = record {
  platform = linkedin;
  account_name = 4;
  external_id = none;
  access_token = some (5 ∷ 6 ∷ []);
  refresh_token = some (8 ∷ []);
  token_expires_at = some 50;
}

only_first :
    (x : SocialAccount) (i : ℕ) (a : SocialAccount)
    → (rows SocialAccount).find (some x ∷ []) i ≡ some a
    → i ≡ 0
only_first x zero a e = refl
only_first x (suc i) a e = ground arith

abbrev after : List (Option SocialAccount)
after =
    (connect_account cipher (some (7 ∷ [])) (rows SocialAccount) 1 dto (9 ∷ []) (3 ∷ []) 10 []).1

abbrev connected : Result ℕ
connected =
    (connect_account cipher (some (7 ∷ [])) (rows SocialAccount) 1 dto (9 ∷ []) (3 ∷ []) 10 []).0

alone : AtMostOne (rows SocialAccount) after (is_live 1 linkedin)
unfolding connect_account
alone i j a b ei ej hi hj = only_first _ i a ei ∙ sym (only_first _ j b ej)

published_with_tokens_example :
    (used : ChannelCredentials) × (publish cipher
        (some (7 ∷ []))
        (rows SocialAccount)
        (λ channel (payload : ℕ) credentials. credentials)
        1
        linkedin
        2
        after
      ≡ ok (some used))
    × (used.access_token ≡ some (5 ∷ 6 ∷ []))
    × (used.refresh_token ≡ some (8 ∷ []))
    × (used.account_name ≡ 4)
    × (i : ℕ) × (row : SocialAccount) × (connected ≡ ok i)
    × ((rows SocialAccount).find after i ≡ some row)
    × (row.access_token ≡ some (encrypt_secret cipher (9 ∷ []) (5 ∷ 6 ∷ []) (7 ∷ [])))
    × (row.refresh_token ≡ some (encrypt_secret cipher (3 ∷ []) (8 ∷ []) (7 ∷ [])))
published_with_tokens_example =
    published_with_tokens cipher (7 ∷ []) (rows SocialAccount)
      (λ channel (payload : ℕ) credentials. credentials) 2 1 dto (9 ∷ []) (3 ∷ []) 10 []
      (5 ∷ 6 ∷ []) (8 ∷ []) refl refl refl refl refl refl alone
