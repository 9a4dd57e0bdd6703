-- ===== src/Auth/Lockout/Window.antt =====
-- How long an account stays locked.
use flow_ai.Common.{
  min, ℕ, suc, ◌+◌, ◌≤◌, ◌<◌, ◌≡◌, true, none, some, List, [], ◌∷◌, arith, leb, if◌then◌else◌, Text,
  length, same_text_refl, is_some, Option-cases, inl, inr, All, ◌⊎◌, Bool-cases,
}
use flow_ai.Auth.Counters.{Counters, live}
use flow_ai.Auth.Lockout.{max_failed_logins, assert_not_locked_out, record_failed_login}

abbrev pub window_ms : ℕ
window_ms = 900000

module _ (counters : Counters) where
  -- Redis answers every call.
  pub record Answers : Type 0 where
    pub gets : (s : counters.State) (k : Text) (now : ℕ) → is_some (counters.get s k now) ≡ true
    pub ttls : (s : counters.State) (k : Text) (now : ℕ) → is_some (counters.ttl s k now) ≡ true
    pub incrs : (s : counters.State) (k : Text) (now : ℕ) → is_some (counters.incr s k now) ≡ true
    pub expires :
        (s : counters.State) (k : Text) (seconds now : ℕ)
        → is_some (counters.expire s k seconds now) ≡ true

  -- A counter that stands at `n` and goes at `d`.
  abbrev Standing : ℕ → ℕ → Text → counters.State → Type 0
  Standing n d email s = counters.entry s email ≡ some (record { count = n; deadline = some d })

  incr-some :
      (up : Answers) (s : counters.State) (k : Text) (now : ℕ)
      → (n : ℕ) × (t : counters.State) × (counters.incr s k now ≡ some (n, t))
  incr-some up s k now = elim (Option-cases (counters.incr s k now)) [
    | inl e ↦ absurd (ground (arith, up.incrs s k now))
    | inr ((n, t), e) ↦ (n, t, e)
  ]

  expire-some :
      (up : Answers) (s : counters.State) (k : Text) (seconds now : ℕ)
      → (t : counters.State) × (counters.expire s k seconds now ≡ some t)
  expire-some up s k seconds now = elim (Option-cases (counters.expire s k seconds now)) [
    | inl e ↦ absurd (ground (arith, up.expires s k seconds now))
    | inr (t, e) ↦ (t, e)
  ]

  first_failure :
      (up : Answers) (email : Text) (now : ℕ) (s : counters.State)
      → live now (counters.entry s email) ≡ none
      → Standing 1 (now + window_ms) email (record_failed_login counters email now s)
  unfolding record_failed_login
  first_failure up email now s h =
      let (n, t, e) = incr-some up s email now in
      let (u, f) = expire-some up t email 900 now in
      ground (
        arith,
        counters.incr_reply s t email now n e,
        counters.entry-incr s t email now n email e,
        counters.entry-expire t u email 900 now email f,
        same_text_refl email,
      )

  next_failure :
      (up : Answers) (email : Text) (now n d : ℕ) (s : counters.State)
      → Standing (suc n) d email s
      → now < d
      → Standing
          (suc (suc n))
          (if leb max_failed_logins (suc (suc n)) then now + window_ms else d)
          email
          (record_failed_login counters email now s)
  unfolding record_failed_login
  next_failure up email now n d s h early =
      let (m, t, e) = incr-some up s email now in
      let (u, f) = expire-some up t email 900 now in
      ground (
        arith,
        counters.incr_reply s t email now m e,
        counters.entry-incr s t email now m email e,
        counters.entry-expire t u email 900 now email f,
        same_text_refl email,
      )

  assert-locked :
      (up : Answers) (email : Text) (now n d : ℕ) (s : counters.State)
      → Standing n d email s
      → max_failed_logins ≤ n
      → now < d
      → is_some (assert_not_locked_out counters email now s) ≡ true
  unfolding assert_not_locked_out
  assert-locked up email now n d s h many early = elim (Option-cases (counters.get s email now)) [
    | inl e ↦ absurd (ground (arith, up.gets s email now))
    | inr (o, e) ↦ elim (Option-cases (counters.ttl s email now)) [
      | inl f ↦ absurd (ground (arith, up.ttls s email now))
      | inr (l, f) ↦ ground (arith, counters.get-entry s email now o e)
    ]
  ]

  assert-open :
      (email : Text) (now : ℕ) (s : counters.State)
      → live now (counters.entry s email) ≡ none
      → assert_not_locked_out counters email now s ≡ none
  unfolding assert_not_locked_out
  assert-open email now s h = elim (Option-cases (counters.get s email now)) [
    | inl e ↦ ground arith
    | inr (o, e) ↦ ground (arith, counters.get-entry s email now o e)
  ]

  abbrev pub Inside : ℕ → ℕ → Type 0
  Inside first t = (first ≤ t) × (t < first + window_ms)

  -- What a login with a wrong password does: nothing while the account is locked.
  unfoldable pub fail : Text → ℕ → counters.State → counters.State
  fail email t s = elim (assert_not_locked_out counters email t s) [
    | none ↦ record_failed_login counters email t s
    | some minutes ↦ s
  ]

  -- Failed logins of an account, at these times.
  unfoldable pub fail_all : Text → List ℕ → counters.State → counters.State
  fail_all email [] s = s
  fail_all email (t ∷ ts) s = fail_all email ts (fail email t s)

  locked-many :
      (email : Text) (now n d m : ℕ) (s : counters.State)
      → Standing n d email s
      → assert_not_locked_out counters email now s ≡ some m
      → max_failed_logins ≤ n
  unfolding assert_not_locked_out
  locked-many email now n d m s h e = elim (Option-cases (counters.get s email now)) [
    | inl f ↦ absurd (ground arith)
    | inr (o, f) ↦ ground (arith, counters.get-entry s email now o f)
  ]

  first_fail :
      (up : Answers) (email : Text) (now : ℕ) (s : counters.State)
      → live now (counters.entry s email) ≡ none
      → Standing 1 (now + window_ms) email (fail email now s)
  unfolding fail
  first_fail up email now s h =
      rw (assert-open email now s h, fail) (first_failure up email now s h)

  -- A failure within the window of the first one counts, unless the account is locked by then.
  next_fail :
      (up : Answers) (email : Text) (first now n d : ℕ) (s : counters.State)
      → Standing (suc n) d email s
      → first + window_ms ≤ d
      → Inside first now
      → (m : ℕ) × (e : ℕ) × Standing (suc m) e email (fail email now s)
        × (first + window_ms ≤ e)
        × (min max_failed_logins (suc (suc n)) ≤ suc m)
  unfolding fail
  next_fail up email first now n d s h late inside =
      elim (Option-cases (assert_not_locked_out counters email now s)) [
        | inl open_ ↦
            rw (open_, fail)
              (
                suc n,
                _,
                next_failure up email now n d s h (omega (arith, inside.1)),
                ground (arith, inside.0),
                omega arith,
              )
        | inr (m, locked) ↦
            rw (locked, fail)
              (n, d, h, late, omega (arith, locked-many email now (suc n) d m s h locked))
      ]

  Standing-fail_all :
      (up : Answers) (email : Text) (first n d : ℕ) (ts : List ℕ) (s : counters.State)
      → All (Inside first) ts
      → Standing (suc n) d email s
      → first + window_ms ≤ d
      → (m : ℕ) × (e : ℕ) × Standing (suc m) e email (fail_all email ts s)
        × (first + window_ms ≤ e)
        × (min max_failed_logins (suc n + length ts) ≤ suc m)
  unfolding fail_all
  Standing-fail_all up email first n d [] s inside h late = (n, d, h, late, omega arith)
  Standing-fail_all up email first n d (t ∷ ts) s inside h late =
      let (m, e, k, l, b) = next_fail up email first t n d s h late inside.0 in
      let (m', e', k', l', b') = Standing-fail_all up email first m e ts _ inside.1 k l in
      (m', e', k', l', omega (arith, b, b'))

  -- Nine more failures within the window of a first one lock the account for its rest.
  pub locked-Inside :
      (up : Answers) (email : Text) (first now : ℕ) (ts : List ℕ) (s : counters.State)
      → live first (counters.entry s email) ≡ none
      → All (Inside first) ts
      → 9 ≤ length ts
      → now < first + window_ms
      → is_some (assert_not_locked_out counters email now (fail_all email (first ∷ ts) s)) ≡ true
  unfolding fail_all
  locked-Inside up email first now ts s fresh inside many early =
      let (m, e, k, l, b) =
        Standing-fail_all up email first 0 (first + window_ms) ts _ inside
          (first_fail up email first s fresh) (omega arith) in
      assert-locked up email now _ e _ k (omega (arith, b, many)) (omega arith)

  -- A counter that is gone by the time `b`.
  abbrev Ends : ℕ → Text → counters.State → Type 0
  Ends b email s =
      (counters.entry s email ≡ none) ⊎ ((n : ℕ) × (d : ℕ) × Standing (suc n) d email s × (d ≤ b))

  fail-Ends :
      (up : Answers) (email : Text) (t last : ℕ) (s : counters.State)
      → t ≤ last
      → Ends (last + window_ms) email s
      → Ends (last + window_ms) email (record_failed_login counters email t s)
  fail-Ends up email t last s before (inl gone) =
      inr (0, _, first_failure up email t s (ground arith), omega arith)
  fail-Ends up email t last s before (inr (n, d, h, l)) = elim (Bool-cases (leb d t)) [
    | inl over ↦ inr (0, _, first_failure up email t s (ground arith), omega arith)
    | inr early ↦ inr (suc n, _, next_failure up email t n d s h (ground arith), ground arith)
  ]

  one_fail-Ends :
      (up : Answers) (email : Text) (t last : ℕ) (s : counters.State)
      → t ≤ last
      → Ends (last + window_ms) email s
      → Ends (last + window_ms) email (fail email t s)
  unfolding fail
  one_fail-Ends up email t last s before h =
      elim (Option-cases (assert_not_locked_out counters email t s)) [
        | inl e ↦ rw (e, fail) (fail-Ends up email t last s before h)
        | inr (m, e) ↦ rw (e, fail) h
      ]

  fail_all-Ends :
      (up : Answers) (email : Text) (last : ℕ) (ts : List ℕ) (s : counters.State)
      → All (λ t. t ≤ last) ts
      → Ends (last + window_ms) email s
      → Ends (last + window_ms) email (fail_all email ts s)
  unfolding fail_all
  fail_all-Ends up email last [] s before h = h
  fail_all-Ends up email last (t ∷ ts) s before h =
      fail_all-Ends up email last ts _ before.1 (one_fail-Ends up email t last s before.0 h)

  -- A quarter of an hour after the last failure the account is open.
  pub open_after :
      (up : Answers) (email : Text) (last now : ℕ) (ts : List ℕ) (s : counters.State)
      → counters.entry s email ≡ none
      → All (λ t. t ≤ last) ts
      → last + window_ms ≤ now
      → assert_not_locked_out counters email now (fail_all email ts s) ≡ none
  open_after up email last now ts s fresh before over =
      assert-open email now _ (elim (fail_all-Ends up email last ts s before (inl fresh)) [
        | inl gone ↦ ground arith
        | inr (n, d, h, l) ↦ ground arith
      ])
