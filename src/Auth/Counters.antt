-- ===== src/Auth/Counters.antt =====
-- Redis as the lockout of src/modules/auth/auth.service.ts uses it: counters that expire. The
-- client is a third-party package behind src/database/redis.service.ts, so it is a parameter, and
-- every call may throw, here `none`. `entry` is what the server keeps of a key, with the time in
-- milliseconds at which it goes.
pub mod Entries
use flow_ai.Common.{
  ℕ, suc, ◌+◌, ◌*◌, ◌≡◌, refl, Bool, true, Option, none, some, leb, if◌then◌else◌, Text, same_text,
}

pub record Counter : Type 0 where
  pub count : ℕ
  pub deadline : Option ℕ

-- An entry is gone from its deadline on.
abbrev pub live : ℕ → Option Counter → Option Counter
live now none = none
live now (some c) = elim c.deadline [ none ↦ some c | some d ↦ if leb d now then none else some c ]

abbrev pub counted : Option Counter → Option ℕ
counted none = none
counted (some c) = some c.count

-- INCR makes a missing counter with no deadline, and keeps the deadline of the others.
abbrev pub bumped : Option Counter → Counter
bumped none = record { count = 1; deadline = none }
bumped (some c) = record c { count = suc c.count }

abbrev pub expiring : ℕ → Option Counter → Option Counter
expiring d none = none
expiring d (some c) = some (record c { deadline = some d })

pub record Counters : Type 1 where
  pub State : Type 0
  pub entry : State → Text → Option Counter
  pub get : State → Text → ℕ → Option (Option ℕ)
  -- the seconds left, 0 for the answers below zero
  pub ttl : State → Text → ℕ → Option ℕ
  pub incr : State → Text → ℕ → Option (ℕ × State)
  -- EXPIRE key seconds, at a time
  pub expire : State → Text → ℕ → ℕ → Option State
  pub del : State → Text → Option State
  pub get-entry :
      (s : State) (k : Text) (now : ℕ) (o : Option ℕ)
      → get s k now ≡ some o
      → o ≡ counted (live now (entry s k))
  pub incr_reply :
      (s t : State) (k : Text) (now n : ℕ)
      → incr s k now ≡ some (n, t)
      → n ≡ (bumped (live now (entry s k))).count
  pub entry-incr :
      (s t : State) (k : Text) (now n : ℕ) (j : Text)
      → incr s k now ≡ some (n, t)
      → entry t j ≡ (if same_text k j then some (bumped (live now (entry s k))) else entry s j)
  pub entry-expire :
      (s t : State) (k : Text) (seconds now : ℕ) (j : Text)
      → expire s k seconds now ≡ some t
      → entry t j ≡ (
          if same_text k j
          then expiring (now + seconds * 1000) (live now (entry s k))
          else entry s j)
  pub entry-del :
      (s t : State) (k j : Text)
      → del s k ≡ some t
      → entry t j ≡ (if same_text k j then none else entry s j)
