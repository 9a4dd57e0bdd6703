-- ===== src/Channels/Secrets.antt =====
-- src/common/utils/crypto.util.ts. Node's crypto and Buffer are the parameter `Cipher`, with their
-- documented behaviour: AES-GCM opens what it sealed under the same key and initialisation vector,
-- and its ciphertext is as long as the plaintext.
use flow_ai.Common.{
  ℕ, ◌≡◌, false, ◌||◌, Option, none, some, List, [], ◌∷◌, ◌++◌, arith, is_empty, if◌then◌else◌,
  Text, split, split_none, split-append, includes, ap, ◌∙◌,
}

pub record Cipher : Type 1 where
  pub Key : Type 0
  -- the SHA-256 digest of the secret
  pub derive_key : Text → Key
  -- the ciphertext and the tag, from a key, an initialisation vector and a plaintext
  pub seal : Key → List ℕ → Text → List ℕ × List ℕ
  -- from a key, an initialisation vector, a tag and a ciphertext; `none` when final() throws
  pub unseal : Key → List ℕ → List ℕ → List ℕ → Option Text
  pub base64 : List ℕ → Text
  pub from_base64 : Text → List ℕ
  pub unseal-seal :
      (k : Key) (iv : List ℕ) (p : Text) → unseal k iv (seal k iv p).1 (seal k iv p).0 ≡ some p
  pub seal_empty : (k : Key) (iv : List ℕ) (p : Text) → is_empty (seal k iv p).0 ≡ is_empty p
  pub seal_tag : (k : Key) (iv : List ℕ) (p : Text) → is_empty (seal k iv p).1 ≡ false
  pub from_base64-base64 : (b : List ℕ) → from_base64 (base64 b) ≡ b
  pub base64_empty : (b : List ℕ) → is_empty (base64 b) ≡ is_empty b
  pub base64_clean : (b : List ℕ) → includes b':' (base64 b) ≡ false

module _ (c : Cipher) where
  -- The random initialisation vector is an argument.
  unfoldable pub encrypt_secret : List ℕ → Text → Text → Text
  encrypt_secret iv plaintext secret =
      let (data_, tag) = c.seal (c.derive_key secret) iv plaintext in
      c.base64 iv ++ b':' ∷ (c.base64 tag ++ b':' ∷ c.base64 data_)

  abbrev pub decrypt_parts : Text → List Text → Option Text
  decrypt_parts secret (iv ∷ tag ∷ payload ∷ rest) =
      if is_empty iv || is_empty tag || is_empty payload
      then none
      else c.unseal (c.derive_key secret) (c.from_base64 iv) (c.from_base64 tag)
          (c.from_base64 payload)
  decrypt_parts secret _ = none

  -- `none` when it throws.
  unfoldable pub decrypt_secret : Text → Text → Option Text
  decrypt_secret ciphertext secret = decrypt_parts secret (split b':' ciphertext)

  -- What was encrypted is decrypted again under the same secret, except the empty text, whose
  -- ciphertext is refused.
  pub decrypt-encrypt :
      (iv : List ℕ) (plaintext secret : Text)
      → is_empty iv ≡ false
      → decrypt_secret (encrypt_secret iv plaintext secret) secret
        ≡ (if is_empty plaintext then none else some plaintext)
  unfolding encrypt_secret decrypt_secret
  decrypt-encrypt iv plaintext secret h =
      let k = c.derive_key secret in
      let sealed = c.seal k iv plaintext in
      let parts : split b':' (encrypt_secret iv plaintext secret)
          ≡ c.base64 iv ∷ c.base64 sealed.1 ∷ c.base64 sealed.0 ∷ [] =
        split-append b':' (c.base64 iv) _ (c.base64_clean iv)
        ∙ ap (λ ps. c.base64 iv ∷ ps)
            (split-append b':' (c.base64 sealed.1) _ (c.base64_clean sealed.1)
              ∙ ap (λ ps. c.base64 sealed.1 ∷ ps)
                  (split_none b':' (c.base64 sealed.0) (c.base64_clean sealed.0))) in
      ap (decrypt_parts secret) parts
      ∙ ground (
        arith,
        c.base64_empty iv,
        c.base64_empty sealed.1,
        c.base64_empty sealed.0,
        c.seal_tag k iv plaintext,
        c.seal_empty k iv plaintext,
        c.from_base64-base64 iv,
        c.from_base64-base64 sealed.1,
        c.from_base64-base64 sealed.0,
        c.unseal-seal k iv plaintext,
      )
