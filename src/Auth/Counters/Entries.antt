-- ===== src/Auth/Counters/Entries.antt =====
-- A server of counters that always answers: its state gives the entry of each key.
use flow_ai.Common.{
  ℕ, ◌+◌, ◌-◌, ◌*◌, ◌/◌, Option, none, some, arith, if◌then◌else◌, Text, same_text,
}
use flow_ai.Auth.Counters.{Counter, Counters, live, counted, bumped, expiring}

abbrev pub Entries : Type 0
Entries = Text → Option Counter

abbrev put : Text → Option Counter → Entries → Entries
put k o s j = if same_text k j then o else s j

abbrev pub left : ℕ → Option Counter → ℕ
left now none = 0
left now (some c) = elim c.deadline [ none ↦ 0 | some d ↦ (d - now) / 1000 ]

abbrev pub entries : Counters
entries = record {
  State = Entries;
  entry = λ s k. s k;
  get = λ s k now. some (counted (live now (s k)));
  ttl = λ s k now. some (left now (s k));
  incr =
      λ s k now. some ((bumped (live now (s k))).count, put k (some (bumped (live now (s k)))) s);
  expire = λ s k seconds now. some (put k (expiring (now + seconds * 1000) (live now (s k))) s);
  del = λ s k. some (put k none s);
  get-entry = λ s k now o e. ground arith;
  incr_reply = λ s t k now n e. ground arith;
  entry-incr = λ s t k now n j e. ground arith;
  entry-expire = λ s t k seconds now j e. ground arith;
  entry-del = λ s t k j e. ground arith;
}
