-- ===== src/Auth/Lockout.antt =====
-- The lockout of src/modules/auth/auth.service.ts: failed logins counted per account. The key
-- `login-failures:` with an address is the address here.
pub mod Window
use flow_ai.Common.{
  ℕ, ◌+◌, ◌*◌, ◌/◌, max, Bool, Option, none, some, leb, ltb, ◌==◌, if◌then◌else◌, Text,
}
use flow_ai.Auth.Counters.{Counters}

abbrev pub max_failed_logins : ℕ
max_failed_logins = 10

abbrev pub lockout_seconds : ℕ
lockout_seconds = 15 * 60

abbrev pub failure_window_seconds : ℕ
failure_window_seconds = 15 * 60

-- The minutes that the refusal names, Math.ceil written out.
abbrev pub minutes_left : ℕ → ℕ
minutes_left ttl = max 1 (((if ltb 0 ttl then ttl else lockout_seconds) + 59) / 60)

module _ (counters : Counters) where
  -- The minutes to wait, `none` for an account that may sign in. A call of Redis that throws lets
  -- the login through.
  unfoldable pub assert_not_locked_out : Text → ℕ → counters.State → Option ℕ
  assert_not_locked_out email now s = elim (counters.get s email now) [
    | none ↦ none
    | some none ↦ none
    | some (some attempts) ↦
        if leb max_failed_logins attempts
        then elim (counters.ttl s email now) [ none ↦ none | some ttl ↦ some (minutes_left ttl) ]
        else none
  ]

  -- The error of a call is caught, and what the calls before it did stays.
  expire_locked : Text → ℕ → ℕ → counters.State → counters.State
  expire_locked email now count s =
      if leb max_failed_logins count
      then elim (counters.expire s email lockout_seconds now) [ none ↦ s | some t ↦ t ]
      else s

  unfoldable pub record_failed_login : Text → ℕ → counters.State → counters.State
  unfolding expire_locked
  record_failed_login email now s = elim (counters.incr s email now) [
    | none ↦ s
    | some (count, t) ↦
        if count == 1
        then elim (counters.expire t email failure_window_seconds now) [
          | none ↦ t
          | some u ↦ expire_locked email now count u
        ]
        else expire_locked email now count t
  ]

  unfoldable pub clear_failed_logins : Text → counters.State → counters.State
  clear_failed_logins email s = elim (counters.del s email) [ none ↦ s | some t ↦ t ]
