-- ===== src/Hr/Attendances.antt =====
-- One attendance for each user and day, and nobody leaves before coming.
use flow_ai.Common.{
  ℕ, ◌≤◌, ◌≡◌, refl, Bool, true, ◌&&◌, not, Option, none, some, List, [], ◌∷◌, arith, leb, ◌==◌,
  is_some, Option-cases, Bool-cases, inl, inr, sym, ◌∙◌,
}
use flow_ai.Database.{Table}
use flow_ai.Hr.{Attendance, is_day, check_in, check_out, left_at}

-- Checked in by the time `last`, and out no earlier than in.
abbrev pub is_ordered : ℕ → Attendance → Bool
is_ordered last a = elim a.check_in [
  | none ↦ not (is_some a.check_out)
  | some i ↦ leb i last && elim a.check_out [ none ↦ true | some o ↦ leb i o ]
]

pub data Request : Type 0 where
  comes : (user : ℕ) (notes : Option ℕ) (now : ℕ) → Request
  leaves : (user now : ℕ) → Request

abbrev pub time_of : Request → ℕ
time_of (comes user notes now) = now
time_of (leaves user now) = now

-- The requests come in the order of their times, from `last` on.
abbrev pub InTurn : ℕ → List Request → Type 0
InTurn last [] = Unit
InTurn last (x ∷ xs) = (last ≤ time_of x) × InTurn (time_of x) xs

abbrev pub end_of : ℕ → List Request → ℕ
end_of last [] = last
end_of last (x ∷ xs) = end_of (time_of x) xs

module _ (attendances : Table Attendance) (midnight : ℕ → ℕ) where
  unfoldable pub step : Request → attendances.State → attendances.State
  step (comes user notes now) s = (check_in attendances midnight user notes now s).1
  step (leaves user now) s = (check_out attendances midnight user now s).1

  unfoldable pub run : List Request → attendances.State → attendances.State
  run [] s = s
  run (x ∷ xs) s = run xs (step x s)

  pub record Tidy (last : ℕ) (s : attendances.State) : Type 0 where
    pub ordered :
        (i : ℕ) (a : Attendance) → attendances.find s i ≡ some a → is_ordered last a ≡ true
    pub one_a_day :
        (i j : ℕ) (a b : Attendance)
        → attendances.find s i ≡ some a
        → attendances.find s j ≡ some b
        → a.user_id ≡ b.user_id
        → a.date ≡ b.date
        → i ≡ j

  later-Tidy : (last now : ℕ) (s : attendances.State) → last ≤ now → Tidy last s → Tidy now s
  later-Tidy last now s h tidy = record {
    ordered = λ i a e. ground (arith, tidy.ordered i a e);
    one_a_day = tidy.one_a_day;
  }

  -- A row after an update, as it was before.
  older :
      (i : ℕ) (a : Attendance) (f : Attendance → Attendance) (s : attendances.State) (j : ℕ)
      (b : Attendance)
      → attendances.find s i ≡ some a
      → ((r : Attendance) → (f r).user_id ≡ r.user_id)
      → ((r : Attendance) → (f r).date ≡ r.date)
      → attendances.find (attendances.update s i f).1 j ≡ some b
      → (d : Attendance) × (attendances.find s j ≡ some d)
        × (b.user_id ≡ d.user_id)
        × (b.date ≡ d.date)
  older i a f s j b e same_user same_date g = elim (Bool-cases (i == j)) [
    | inl here ↦ (
      a,
      ground arith,
      ground (arith, attendances.find-update s i f j, same_user a),
      ground (arith, attendances.find-update s i f j, same_date a),
    )
    | inr other ↦ (b, ground (arith, attendances.find-update s i f j), refl, refl)
  ]

  -- A change of a row that keeps its user and its day, and its order.
  update-Tidy :
      (last now i : ℕ) (a : Attendance) (f : Attendance → Attendance) (s : attendances.State)
      → last ≤ now
      → Tidy last s
      → attendances.find s i ≡ some a
      → is_ordered now (f a) ≡ true
      → ((r : Attendance) → (f r).user_id ≡ r.user_id)
      → ((r : Attendance) → (f r).date ≡ r.date)
      → Tidy now (attendances.update s i f).1
  update-Tidy last now i a f s h tidy e good same_user same_date =
      let changed = λ (j : ℕ). attendances.find-update s i f j in
      record {
        ordered = λ j b g. elim (Bool-cases (i == j)) [
          | inl here ↦ ground (arith, changed j)
          | inr other ↦ ground (arith, changed j, tidy.ordered j b)
        ];
        one_a_day = λ j k b d ej ek u v.
            let (b', fj, uj, vj) = older i a f s j b e same_user same_date ej in
            let (d', fk, uk, vk) = older i a f s k d e same_user same_date ek in
            tidy.one_a_day j k b' d' fj fk (sym uj ∙ u ∙ uk) (sym vj ∙ v ∙ vk);
      }

  abbrev arrived : ℕ → Option ℕ → ℕ → Attendance
  arrived user notes now = record {
    user_id = user;
    date = midnight now;
    check_in = some now;
    check_out = none;
    total_hours = none;
    notes = notes;
  }

  -- A row made on a day on which the user has none.
  create-Tidy :
      (last now user : ℕ) (notes : Option ℕ) (s : attendances.State)
      → last ≤ now
      → Tidy last s
      → attendances.find_first s (is_day user (midnight now)) ≡ none
      → Tidy now (attendances.create s (arrived user notes now)).1
  create-Tidy last now user notes s h tidy n =
      let row = arrived user notes now in
      let id = (attendances.create s row).0 in
      let made = λ (j : ℕ). attendances.find-create s row j in
      let free = λ (j : ℕ) (b : Attendance).
        attendances.find_first-none s (is_day user (midnight now)) j b n in
      record {
        ordered = λ j b g. elim (Bool-cases (id == j)) [
          | inl here ↦ ground (arith, made j)
          | inr other ↦ ground (arith, made j, tidy.ordered j b)
        ];
        one_a_day = λ j k b d ej ek u v. elim (Bool-cases (id == j)) [
          | inl here ↦ elim (Bool-cases (id == k)) [
            | inl there ↦ ground arith
            | inr other ↦ absurd (ground (arith, made j, made k, free k d))
          ]
          | inr other ↦ elim (Bool-cases (id == k)) [
            | inl there ↦ absurd (ground (arith, made j, made k, free j b))
            | inr both ↦
                tidy.one_a_day j k b d (ground (arith, made j)) (ground (arith, made k)) u v
          ]
        ];
      }

  come-Tidy :
      (last now user : ℕ) (notes : Option ℕ) (s : attendances.State)
      → last ≤ now
      → Tidy last s
      → Tidy now (check_in attendances midnight user notes now s).1
  unfolding check_in
  come-Tidy last now user notes s h tidy =
      elim (Option-cases (attendances.find_first s (is_day user (midnight now)))) [
        | inl n ↦ rw (n, check_in) (create-Tidy last now user notes s h tidy n)
        | inr ((i, a), e) ↦
            let (f, k) = attendances.find_first-some s (is_day user (midnight now)) i a e in
            elim (Option-cases a.check_in) [
              | inr (t, c) ↦ rw (e, c, check_in) (later-Tidy last now s h tidy)
              | inl c ↦
                  rw (e, c, check_in)
                    (update-Tidy last now i a (λ r. record r { check_in = some now }) s h tidy f
                      (ground (arith, tidy.ordered i a f)) (λ r. refl) (λ r. refl))
            ]
      ]

  leave-Tidy :
      (last now user : ℕ) (s : attendances.State)
      → last ≤ now
      → Tidy last s
      → Tidy now (check_out attendances midnight user now s).1
  unfolding check_out
  leave-Tidy last now user s h tidy =
      elim (Option-cases (attendances.find_first s (is_day user (midnight now)))) [
        | inl n ↦ rw (n, check_out) (later-Tidy last now s h tidy)
        | inr ((i, a), e) ↦
            let (f, k) = attendances.find_first-some s (is_day user (midnight now)) i a e in
            elim (Option-cases a.check_in) [
              | inl c ↦ rw (e, c, check_out) (later-Tidy last now s h tidy)
              | inr (t, c) ↦
                  rw (e, c, check_out)
                    (update-Tidy last now i a (left_at attendances midnight now t) s h tidy f
                      (ground (arith, tidy.ordered i a f)) (λ r. refl) (λ r. refl))
            ]
      ]

  -- After any check-ins and check-outs, in the order of their times and from a table that is so,
  -- each user has at most one attendance for a day, checked in and then out, if at all, and none is
  -- checked out without a check-in.
  pub attendances-Tidy :
      (xs : List Request) (last : ℕ) (s : attendances.State)
      → InTurn last xs
      → Tidy last s
      → Tidy (end_of last xs) (run xs s)
  unfolding run step
  attendances-Tidy [] last s h tidy = tidy
  attendances-Tidy (comes user notes now ∷ xs) last s h tidy =
      attendances-Tidy xs now _ h.1 (come-Tidy last now user notes s h.0 tidy)
  attendances-Tidy (leaves user now ∷ xs) last s h tidy =
      attendances-Tidy xs now _ h.1 (leave-Tidy last now user s h.0 tidy)
