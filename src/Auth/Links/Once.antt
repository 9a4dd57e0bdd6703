-- ===== src/Auth/Links/Once.antt =====
-- A magic link signs in once.
use flow_ai.Common.{
  ℕ, ◌≡◌, refl, Bool, true, false, some, List, [], ◌∷◌, arith, ◌==◌, All, Option-cases, Bool-cases,
  inl, inr, Result, ok, failed, bad_request, not, is_some, Text, lower,
}
use flow_ai.Database.{Table}
use flow_ai.Database.Laws.{AtMostOne}
use flow_ai.RefreshTokens.{RefreshToken}
use flow_ai.Auth.{User, Secret, JwtPayload, AuthResponse, Jtis, has_email}
use flow_ai.Auth.Links.{MagicLink, is_link, is_open, link_row, send_magic_link, verify_magic_link}

pub data Request : Type 0 where
  sends : (email : Text) → (token now : ℕ) → Request
  verifies : (token now : ℕ) → Jtis → Request

-- The request does not make this token anew.
abbrev pub spares : ℕ → Request → Bool
spares t (sends email token now) = not (token == t)
spares t (verifies token now jtis) = true

module _ (sign : Secret → JwtPayload → ℕ) (users : Table User) (tokens : Table RefreshToken)
    (links : Table MagicLink) where
  abbrev verify :
      (token now : ℕ)
      → Jtis
      → users.State
      → links.State
      → tokens.State
      → Result AuthResponse × users.State × links.State × tokens.State
  verify = verify_magic_link users links sign tokens

  unfoldable pub step :
      Request → users.State × links.State × tokens.State → users.State × links.State × tokens.State
  step (sends email token now) (s, l, t) =
      let (s', l') = send_magic_link users links email token now s l in (s', l', t)
  step (verifies token now jtis) (s, l, t) =
      let (reply, s', l', t') = verify token now jtis s l t in (s', l', t')

  unfoldable pub run :
      List Request
      → users.State × links.State × tokens.State
      → users.State × links.State × tokens.State
  run [] w = w
  run (x ∷ xs) w = run xs (step x w)

  -- Every link of the token has been used.
  Spent : ℕ → links.State → Type 0
  Spent t l =
      (i : ℕ) (r : MagicLink)
      → links.find l i ≡ some r
      → is_link t i r ≡ true
      → is_some r.used_at ≡ true

  create-Spent :
      (t token user now : ℕ) (email : Text) (l : links.State)
      → (token == t) ≡ false
      → Spent t l
      → Spent t (links.create l (link_row users links email user token now)).1
  unfolding Spent link_row
  create-Spent t token user now email l other h i r e k =
      ground (arith, links.find-create l (link_row users links email user token now) i, h i r)

  use-Spent :
      (t j now : ℕ) (l : links.State)
      → Spent t l
      → Spent t (links.update l j (λ q. record q { used_at = some now })).1
  unfolding Spent
  use-Spent t j now l h i r e k = elim (Option-cases (links.find l i)) [
    | inl n ↦ ground (arith, links.find-update l j (λ q. record q { used_at = some now }) i)
    | inr (q, f) ↦
        ground (arith, links.find-update l j (λ q. record q { used_at = some now }) i, h i q f)
  ]

  used-Spent :
      (t j now : ℕ) (q : MagicLink) (l : links.State)
      → AtMostOne links l (is_link t)
      → links.find_first l (is_link t) ≡ some (j, q)
      → Spent t (links.update l j (λ q. record q { used_at = some now })).1
  unfolding Spent
  used-Spent t j now q l unique e i r f k =
      let (g, m) = links.find_first-some l (is_link t) j q e in
      let after = links.find-update l j (λ q. record q { used_at = some now }) i in
      elim (Bool-cases (j == i)) [
        | inl here ↦ ground (arith, after)
        | inr other ↦
            let old : links.find l i ≡ some r = ground (arith, after) in
            ground (arith, unique j i q r g old m k)
      ]

  verify-Spent :
      (t token now : ℕ) (jtis : Jtis) (s : users.State) (l : links.State) (v : tokens.State)
      → Spent t l
      → Spent t (verify token now jtis s l v).2
  unfolding verify_magic_link
  verify-Spent t token now jtis s l v h = elim (Option-cases (links.find_first l (is_link token))) [
    | inl n ↦ rw (n, verify_magic_link) h
    | inr ((i, r), e) ↦ elim (Bool-cases (is_open r.expires_at r.used_at now)) [
      | inr shut ↦ rw (e, shut, verify_magic_link) h
      | inl fine ↦ elim (Option-cases (users.find s r.user_id)) [
        | inl n ↦ rw (e, fine, n, verify_magic_link) h
        | inr (u, f) ↦ rw (e, fine, f, verify_magic_link) (use-Spent t i now l h)
      ]
    ]
  ]

  send-Spent :
      (t token now : ℕ) (email : Text) (s : users.State) (l : links.State)
      → (token == t) ≡ false
      → Spent t l
      → Spent t (send_magic_link users links email token now s l).1
  unfolding send_magic_link
  send-Spent t token now email s l other h =
      elim (Option-cases (users.find_first s (has_email (lower email)))) [
        | inl n ↦ rw (n, send_magic_link) (create-Spent t token _ now email l other h)
        | inr ((id, u), e) ↦ rw (e, send_magic_link) (create-Spent t token id now email l other h)
      ]

  run-Spent :
      (t : ℕ) (xs : List Request) (s : users.State) (l : links.State) (v : tokens.State)
      → All (λ x. spares t x ≡ true) xs
      → Spent t l
      → Spent t (run xs (s, l, v)).1
  unfolding run step
  run-Spent t [] s l v k h = h
  run-Spent t (sends email token now ∷ xs) s l v k h =
      run-Spent t xs _ _ v k.1 (send-Spent t token now email s l (ground arith) h)
  run-Spent t (verifies token now jtis ∷ xs) s l v k h =
      run-Spent t xs _ _ _ k.1 (verify-Spent t token now jtis s l v h)

  refused-Spent :
      (t now : ℕ) (jtis : Jtis) (s : users.State) (l : links.State) (v : tokens.State)
      → Spent t l
      → verify t now jtis s l v ≡ (failed bad_request, s, l, v)
  unfolding verify_magic_link Spent
  refused-Spent t now jtis s l v h = elim (Option-cases (links.find_first l (is_link t))) [
    | inl n ↦ rw (n, verify_magic_link) refl
    | inr ((i, r), e) ↦
        let (f, k) = links.find_first-some l (is_link t) i r e in
        let shut : is_open r.expires_at r.used_at now ≡ false = ground (arith, h i r f k) in
        rw (e, shut, verify_magic_link) refl
  ]

  granted-Spent :
      (t now : ℕ) (jtis : Jtis) (s : users.State) (l : links.State) (v : tokens.State)
      (response : AuthResponse)
      → AtMostOne links l (is_link t)
      → (verify t now jtis s l v).0 ≡ ok response
      → Spent t (verify t now jtis s l v).2
  unfolding verify_magic_link
  granted-Spent t now jtis s l v response unique granted =
      elim (Option-cases (links.find_first l (is_link t))) [
        | inl n ↦ absurd (ground arith)
        | inr ((i, r), e) ↦ elim (Bool-cases (is_open r.expires_at r.used_at now)) [
          | inr shut ↦ absurd (ground arith)
          | inl fine ↦ elim (Option-cases (users.find s r.user_id)) [
            | inl n ↦ absurd (ground arith)
            | inr (u, f) ↦ rw (e, fine, f, verify_magic_link) (used-Spent t i now r l unique e)
          ]
        ]
      ]

  -- A magic link that signed its user in, its token being unique in the table, is refused ever
  -- after, at any time and whatever links are sent and followed meanwhile, as long as no link is
  -- made with the very same token.
  pub link_used_once :
      (t now later : ℕ) (jtis jtis' : Jtis) (xs : List Request) (s : users.State) (l : links.State)
      (v : tokens.State) (response : AuthResponse)
      → AtMostOne links l (is_link t)
      → (verify t now jtis s l v).0 ≡ ok response
      → All (λ x. spares t x ≡ true) xs
      → let w =
          run xs (
            (verify t now jtis s l v).1,
            (verify t now jtis s l v).2,
            (verify t now jtis s l v).3,
          ) in
        verify t later jtis' w.0 w.1 w.2 ≡ (failed bad_request, w.0, w.1, w.2)
  link_used_once t now later jtis jtis' xs s l v response unique granted k =
      refused-Spent t later jtis' _ _ _
        (run-Spent t xs _ _ _ k (granted-Spent t now jtis s l v response unique granted))
