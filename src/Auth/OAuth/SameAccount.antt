-- ===== src/Auth/OAuth/SameAccount.antt =====
-- A provider's user keeps the account.
use flow_ai.Common.{
  Bool, false, List, [], ◌∷◌, All, sym, subst, ℕ, ◌≡◌, refl, true, Option, some, arith, ◌==◌,
  Option-cases, Bool-cases, inl, inr, lower, ==_refl, ◌∙◌,
}
use flow_ai.Database.{Table}
use flow_ai.Database.Laws.{AtMostOne}
use flow_ai.RefreshTokens.{RefreshToken}
use flow_ai.Auth.{User, Secret, JwtPayload, Jtis, has_email, respond}
use flow_ai.Auth.OAuth.{
  Provider, google, github, microsoft, Profile, is_linked, with_provider_id, linked, oauth_user,
  account_of, handle_oauth_login,
}

-- A call of handleOAuthLogin.
pub record SignIn : Type 0 where
  pub profile : Profile
  pub jtis : Jtis
  pub now : ℕ

set_provider :
    (v : Provider) (id i : ℕ) (u : User) → is_linked v id i (with_provider_id v id u) ≡ true
set_provider google id i u = ==_refl id
set_provider github id i u = ==_refl id
set_provider microsoft id i u = ==_refl id

set_verified :
    (v : Provider) (id i : ℕ) (u : User) (a : Option ℕ)
    → is_linked v id i (record u { is_email_verified = true; avatar = a }) ≡ is_linked v id i u
set_verified google id i u a = refl
set_verified github id i u a = refl
set_verified microsoft id i u a = refl

set_login :
    (v : Provider) (id i : ℕ) (u : User) (t : Option ℕ)
    → is_linked v id i (record u { last_login_at = t }) ≡ is_linked v id i u
set_login google id i u t = refl
set_login github id i u t = refl
set_login microsoft id i u t = refl

abbrev pub is_same : Provider → Provider → Bool
is_same google google = true
is_same github github = true
is_same microsoft microsoft = true
is_same _ _ = false

-- An identity of another provider says nothing of this one's.
other_linked :
    (v : Provider) (q : Profile) (id i : ℕ) (u : User)
    → is_same v q.provider ≡ false
    → is_linked v id i (linked q u) ≡ is_linked v id i u
other_linked google q id i u other = ground arith
other_linked github q id i u other = ground arith
other_linked microsoft q id i u other = ground arith

other_new :
    (v : Provider) (q : Profile) (id i : ℕ)
    → is_same v q.provider ≡ false
    → is_linked v id i (oauth_user q) ≡ false
other_new google q id i other = ground arith
other_new github q id i other = ground arith
other_new microsoft q id i other = ground arith

linked_self :
    (p : Profile) (i : ℕ) (u : User) → is_linked p.provider p.provider_id i (linked p u) ≡ true
linked_self p i u =
    set_verified p.provider p.provider_id i (with_provider_id p.provider p.provider_id u) _
    ∙ set_provider p.provider p.provider_id i u

module _ (users : Table User) where
  -- The account `id` is linked to the provider's user, and no other is.
  record Sole (p : Profile) (id : ℕ) (s : users.State) : Type 0 where
    row : User
    found : users.find s id ≡ some row
    mine : is_linked p.provider p.provider_id id row ≡ true
    alone :
        (j : ℕ) (q : User)
        → users.find s j ≡ some q
        → is_linked p.provider p.provider_id j q ≡ true
        → j ≡ id

  account-Sole :
      (p : Profile) (s : users.State)
      → AtMostOne users s (is_linked p.provider p.provider_id)
      → Sole p (account_of users p s).0 (account_of users p s).2
  unfolding account_of
  account-Sole p s unique =
      elim (Option-cases (users.find_first s (is_linked p.provider p.provider_id))) [
        | inr ((id, u), e) ↦
            let (f, k) = users.find_first-some s _ id u e in
            rw (e, account_of)
              (record { row = u; found = f; mine = k; alone = λ j q g h. unique j id q u g f h k })
        | inl n ↦ elim (Option-cases (users.find_first s (has_email (lower p.email)))) [
          | inr ((id, u), e) ↦
              let (f, k) = users.find_first-some s _ id u e in
              rw (n, e, account_of)
                (record {
                  row = linked p u;
                  found = ground (arith, users.find-update s id (linked p) id, ==_refl id);
                  mine = linked_self p id u;
                  alone = λ j q g h. elim (Bool-cases (id == j)) [
                    | inl here ↦ ground arith
                    | inr other ↦ absurd (
                        ground (
                          arith,
                          users.find-update s id (linked p) j,
                          users.find_first-none s (is_linked p.provider p.provider_id) j q n,
                        ))
                  ];
                })
          | inl m ↦
              let id = (users.create s (oauth_user p)).0 in
              rw (n, m, account_of)
                (record {
                  row = oauth_user p;
                  found = ground (arith, users.find-create s (oauth_user p) id, ==_refl id);
                  mine = set_provider p.provider p.provider_id id _;
                  alone = λ j q g h. elim (Bool-cases (id == j)) [
                    | inl here ↦ ground arith
                    | inr other ↦ absurd (
                        ground (
                          arith,
                          users.find-create s (oauth_user p) j,
                          users.find_first-none s (is_linked p.provider p.provider_id) j q n,
                        ))
                  ];
                })
        ]
      ]

  still_alone :
      (p : Profile) (id k : ℕ) (f : User → User) (s : users.State)
      → ((i : ℕ) (u : User)
          → is_linked p.provider p.provider_id i (f u) ≡ is_linked p.provider p.provider_id i u)
      → Sole p id s
      → (j : ℕ) (q : User) → users.find (users.update s k f).1 j ≡ some q
      → is_linked p.provider p.provider_id j q ≡ true
      → j ≡ id
  still_alone p id k f s same h j q g l = elim (Bool-cases (k == j)) [
    | inr other ↦ h.alone j q (ground (arith, users.find-update s k f j)) l
    | inl here ↦ elim (Option-cases (users.find s j)) [
      | inl n ↦ absurd (ground (arith, users.find-update s k f j))
      | inr (r, e) ↦
          let now : q ≡ f r = ground (arith, users.find-update s k f j) in
          h.alone j r e
            (sym (same j r) ∙ subst (λ x. is_linked p.provider p.provider_id j x ≡ true) now l)
    ]
  ]

  touch-Sole :
      (p : Profile) (id k : ℕ) (f : User → User) (s : users.State)
      → ((i : ℕ) (u : User)
          → is_linked p.provider p.provider_id i (f u) ≡ is_linked p.provider p.provider_id i u)
      → Sole p id s
      → Sole p id (users.update s k f).1
  touch-Sole p id k f s same h = elim (Bool-cases (k == id)) [
    | inl here ↦ record {
      row = f h.row;
      found = ground (arith, users.find-update s k f id, h.found);
      mine = same id h.row ∙ h.mine;
      alone = λ j q g l. still_alone p id k f s same h j q g l;
    }
    | inr other ↦ record {
      row = h.row;
      found = ground (arith, users.find-update s k f id, h.found);
      mine = h.mine;
      alone = λ j q g l. still_alone p id k f s same h j q g l;
    }
  ]

  login-Sole :
      (p : Profile) (id k now : ℕ) (s : users.State)
      → Sole p id s
      → Sole p id (users.update s k (λ r. record r { last_login_at = some now })).1
  login-Sole p id k now s h =
      touch-Sole p id k (λ r. record r { last_login_at = some now }) s
        (λ i u. set_login p.provider p.provider_id i u (some now)) h

  create-Sole :
      (p q : Profile) (id : ℕ) (s : users.State)
      → is_same p.provider q.provider ≡ false
      → Sole p id s
      → Sole p id (users.create s (oauth_user q)).1
  create-Sole p q id s other h =
      let made = λ (j : ℕ). users.find-create s (oauth_user q) j in
      let fresh = users.create-fresh s (oauth_user q) in
      let new = (users.create s (oauth_user q)).0 in
      record {
        row = h.row;
        found = ground (arith, made id, fresh, h.found);
        mine = h.mine;
        alone = λ j r g l. elim (Bool-cases (new == j)) [
          | inl here ↦ absurd (ground (arith, made j, other_new p.provider q p.provider_id j other))
          | inr there ↦ h.alone j r (ground (arith, made j)) l
        ];
      }

  other-Sole :
      (p q : Profile) (id : ℕ) (s : users.State)
      → is_same p.provider q.provider ≡ false
      → Sole p id s
      → Sole p id (account_of users q s).2
  unfolding account_of
  other-Sole p q id s other h =
      elim (Option-cases (users.find_first s (is_linked q.provider q.provider_id))) [
        | inr ((k, u), e) ↦ rw (e, account_of) h
        | inl n ↦ elim (Option-cases (users.find_first s (has_email (lower q.email)))) [
          | inr ((k, u), e) ↦
              rw (n, e, account_of)
                (touch-Sole p id k (linked q) s
                  (λ i r. other_linked p.provider q p.provider_id i r other) h)
          | inl m ↦ rw (n, m, account_of) (create-Sole p q id s other h)
        ]
      ]

  again-Sole :
      (p q : Profile) (id : ℕ) (s : users.State)
      → q.provider ≡ p.provider
      → q.provider_id ≡ p.provider_id
      → Sole p id s
      → (account_of users q s).0 ≡ id
  unfolding account_of
  again-Sole p q id s same_provider same_id h =
      let same_test : is_linked q.provider q.provider_id ≡ is_linked p.provider p.provider_id =
        cc (same_provider, same_id) in
      elim (Option-cases (users.find_first s (is_linked p.provider p.provider_id))) [
        | inl n ↦ absurd (
            ground (
              arith,
              h.found,
              h.mine,
              users.find_first-none s (is_linked p.provider p.provider_id) id h.row n,
            ))
        | inr ((j, u), e) ↦
            let (f, k) = users.find_first-some s _ j u e in
            rw (same_test, e, account_of) (h.alone j u f k)
      ]

  module _ (sign : Secret → JwtPayload → ℕ) (tokens : Table RefreshToken) where
    -- The sign-ins one after the other.
    unfoldable pub sign_ins : List SignIn → users.State → tokens.State → users.State × tokens.State
    sign_ins [] s t = (s, t)
    sign_ins (x ∷ xs) s t =
        let (response, s', t') = handle_oauth_login users sign tokens x.profile x.jtis x.now s t in
        sign_ins xs s' t'

    sign_ins-Sole :
        (p : Profile) (id : ℕ) (xs : List SignIn) (s : users.State) (t : tokens.State)
        → All (λ x. is_same p.provider x.profile.provider ≡ false) xs
        → Sole p id s
        → Sole p id (sign_ins xs s t).0
    unfolding sign_ins handle_oauth_login
    sign_ins-Sole p id [] s t others h = h
    sign_ins-Sole p id (x ∷ xs) s t others h =
        let (k, u, s') = account_of users x.profile s in
        sign_ins-Sole p id xs _ _ others.1
          (login-Sole p id k x.now s' (other-Sole p x.profile id s others.0 h))

    -- Once a provider's user has signed in, and whoever has then signed in through the other
    -- providers, the next sign-in of the same user of the provider is to the same account, whatever
    -- e-mail address the provider then gives, where no two accounts were linked to that user before.
    pub same_account :
        (p q : Profile) (jtis jtis' : Jtis) (now later : ℕ) (between : List SignIn)
        (s : users.State) (t t' : tokens.State)
        → AtMostOne users s (is_linked p.provider p.provider_id)
        → q.provider ≡ p.provider
        → q.provider_id ≡ p.provider_id
        → All (λ x. is_same p.provider x.profile.provider ≡ false) between
        → let (response, s', t₁) = handle_oauth_login users sign tokens p jtis now s t in
          let (s'', t₂) = sign_ins between s' t₁ in
          (handle_oauth_login users sign tokens q jtis' later s'' t').0.user.id ≡ response.user.id
    unfolding handle_oauth_login respond
    same_account p q jtis jtis' now later between s t t' unique same_provider same_id others =
        again-Sole p q _ _ same_provider same_id
          (sign_ins-Sole p _ between _ _ others (login-Sole p _ _ now _ (account-Sole p s unique)))
