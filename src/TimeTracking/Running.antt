-- ===== src/TimeTracking/Running.antt =====
-- At most one timer runs for a user.
use flow_ai.Common.{
  ℕ, ◌≡◌, true, ◌&&◌, none, some, List, [], ◌∷◌, arith, ◌==◌, subst, Option-cases, Bool-cases, inl,
  inr,
}
use flow_ai.Database.{Table}
use flow_ai.Database.Laws.{AtMostOne, find_first_unique}
use flow_ai.TimeTracking.{
  TimeEntry, StartTimerDto, ManualTimeEntryDto, start_timer, stop_timer, create_manual_entry,
  delete, runs_for, stopped, seconds, get_running_timer,
}

pub data Request : Type 0 where
  starts : (user : ℕ) (dto : StartTimerDto) (now : ℕ) → Request
  stops : (user entry_id now : ℕ) → Request
  enters : (user : ℕ) (dto : ManualTimeEntryDto) → Request
  deletes : (user id : ℕ) → Request

module _ (entries : Table TimeEntry) where
  unfoldable pub step : Request → entries.State → entries.State
  step (starts user dto now) s = (start_timer entries user dto now s).1
  step (stops user entry_id now) s = (stop_timer entries user entry_id now s).1
  step (enters user dto) s = (create_manual_entry entries user dto s).1
  step (deletes user id) s = (delete entries user id s).1

  unfoldable pub run : List Request → entries.State → entries.State
  run [] s = s
  run (x ∷ xs) s = run xs (step x s)

  -- One timer at most for each user.
  unfoldable pub OneEach : entries.State → Type 0
  OneEach s = (user : ℕ) → AtMostOne entries s (runs_for user)

  clash :
      (s : entries.State) (row : TimeEntry) (user k : ℕ) (q : TimeEntry)
      → (row.is_running ≡ true → entries.find_first s (runs_for row.user_id) ≡ none)
      → entries.find s k ≡ some q
      → runs_for user k q ≡ true
      → runs_for user k row ≡ true
      → ⊥
  clash s row user k q h e rq rr =
      let running : row.is_running ≡ true = ground arith in
      let idle = entries.find_first-none s (runs_for row.user_id) k q (h running) e in ground arith

  -- A new row that does not run, or that runs for a user without a running timer.
  create-OneEach :
      (s : entries.State) (row : TimeEntry)
      → (row.is_running ≡ true → entries.find_first s (runs_for row.user_id) ≡ none)
      → OneEach s
      → OneEach (entries.create s row).1
  unfolding OneEach
  create-OneEach s row h one user i j r q ei ej ri rj =
      let new = (entries.create s row).0 in
      let fi = entries.find-create s row i in
      let fj = entries.find-create s row j in
      elim (Bool-cases (new == i)) [
        | inl a ↦ elim (Bool-cases (new == j)) [
          | inl b ↦ ground arith
          | inr b ↦
              let old : entries.find s j ≡ some q = ground (arith, fj) in
              let made : r ≡ row = ground (arith, fi) in
              absurd (clash s row user j q h old rj (subst (λ x. runs_for user j x ≡ true) made ri))
        ]
        | inr a ↦ elim (Bool-cases (new == j)) [
          | inl b ↦
              let old : entries.find s i ≡ some r = ground (arith, fi) in
              let made : q ≡ row = ground (arith, fj) in
              absurd (clash s row user i r h old ri (subst (λ x. runs_for user i x ≡ true) made rj))
          | inr b ↦
              let old_i : entries.find s i ≡ some r = ground (arith, fi) in
              let old_j : entries.find s j ≡ some q = ground (arith, fj) in
              one user i j r q old_i old_j ri rj
        ]
      ]

  update-OneEach :
      (s : entries.State) (id start now : ℕ)
      → OneEach s
      → OneEach (entries.update s id (stopped start now)).1
  unfolding OneEach
  update-OneEach s id start now one user i j r q ei ej ri rj = ground (
    arith,
    entries.find-update s id (stopped start now) i,
    entries.find-update s id (stopped start now) j,
    one user i j r q,
  )

  delete-OneEach :
      (s : entries.State) (id : ℕ) → OneEach s → OneEach (entries.delete_many s (λ i _. i == id))
  unfolding OneEach
  delete-OneEach s id one user i j r q ei ej ri rj = ground (
    arith,
    entries.find-delete_many s (λ k _. k == id) i,
    entries.find-delete_many s (λ k _. k == id) j,
    one user i j r q,
  )

  step-OneEach : (x : Request) (s : entries.State) → OneEach s → OneEach (step x s)
  unfolding step start_timer stop_timer create_manual_entry delete
  step-OneEach (starts user dto now) s one =
      elim (Option-cases (entries.find_first s (runs_for user))) [
        | inl e ↦ rw (e, step, start_timer) (create-OneEach s _ (λ _. e) one)
        | inr (x, e) ↦ rw (e, step, start_timer) one
      ]
  step-OneEach (stops user entry_id now) s one =
      elim (Option-cases (entries.find_first s (λ i r. i == entry_id && runs_for user i r))) [
        | inl e ↦ rw (e, step, stop_timer) one
        | inr ((i, entry), e) ↦
            rw (e, step, stop_timer) (update-OneEach s entry_id entry.start_time now one)
      ]
  step-OneEach (enters user dto) s one =
      elim (Bool-cases (seconds dto.start_time dto.end_time == 0)) [
        | inl e ↦ rw (e, step, create_manual_entry) one
        | inr e ↦ rw (e, step, create_manual_entry) (create-OneEach s _ (λ q. ground arith) one)
      ]
  step-OneEach (deletes user id) s one =
      elim (Option-cases (entries.find_first s (λ i r. i == id && r.user_id == user))) [
        | inl e ↦ rw (e, step, delete) one
        | inr (x, e) ↦ rw (e, step, delete) (delete-OneEach s id one)
      ]

  run-OneEach : (xs : List Request) (s : entries.State) → OneEach s → OneEach (run xs s)
  unfolding run
  run-OneEach [] s one = one
  run-OneEach (x ∷ xs) s one = run-OneEach xs (step x s) (step-OneEach x s one)

  -- After any requests, one after the other and from a table where at most one timer runs for each
  -- user, every timer that runs for a user is the one that the user is shown, so there is no
  -- second one.
  pub one_timer :
      (xs : List Request) (s : entries.State) (user i : ℕ) (r : TimeEntry)
      → OneEach s
      → entries.find (run xs s) i ≡ some r
      → runs_for user i r ≡ true
      → get_running_timer entries user (run xs s) ≡ some (i, r)
  unfolding OneEach get_running_timer
  one_timer xs s user i r one e h =
      find_first_unique entries (run xs s) (runs_for user) i r (run-OneEach xs s one user) e h
