-- ===== src/Directives/Progress.antt =====
-- No task stays in progress when the worker is through with it.
use flow_ai.Common.{
  ℕ, ◌≡◌, refl, Bool, true, false, none, some, List, [], ◌∷◌, arith, ◌==◌, ==_refl, if◌then◌else◌,
  Option-cases, Bool-cases, inl, inr, Option, ◌⊎◌, not, ◌&&◌,
}
use flow_ai.Database.{Table}
use flow_ai.Tasks.{TaskStatus, todo, in_progress, in_review}
use flow_ai.Directives.{
  AgentTask, is_in_progress, with_status, put_back, work, process_agent_tasks, is_passed_over,
}

module _ (tasks : Table AgentTask) (run_agent : ℕ → tasks.State → Option Bool × tasks.State) where
  abbrev pub is_busy : tasks.State → ℕ → Bool
  is_busy s j = elim (tasks.find s j) [ none ↦ false | some r ↦ is_in_progress r.status ]

  -- The run for the task `id` moves another task to IN_PROGRESS, as the tool update_task_status can.
  abbrev pub Moves : (id j : ℕ) → tasks.State → Type 0
  Moves id j s =
      ((id == j) ≡ false)
      × (is_busy s j ≡ false)
      × (is_busy (run_agent id (with_status tasks run_agent id in_progress s)).1 j ≡ true)

  -- One of the runs of a tick moves the task.
  pub Moved :
      (halted has_agent : ℕ → Bool) (found : List (ℕ × AgentTask)) → tasks.State → ℕ → Type 0
  Moved halted has_agent [] s j = ⊥
  Moved halted has_agent ((id, r) ∷ found) s j =
      let skip = is_passed_over halted has_agent r in
      let (threw, worked) = work tasks run_agent id s in
      ((skip ≡ false) × Moves id j s)
      ⊎ (((not skip && threw) ≡ false)
          × Moved halted has_agent found (if skip then s else worked) j)

  status_elsewhere :
      (id j : ℕ) (status : TaskStatus) (s : tasks.State)
      → (id == j) ≡ false
      → is_busy (with_status tasks run_agent id status s) j ≡ is_busy s j
  status_elsewhere id j status s other =
      ground (arith, tasks.find-update s id (λ r. record r { status = status }) j)

  status_here :
      (id : ℕ) (status : TaskStatus) (s : tasks.State)
      → is_in_progress status ≡ false
      → is_busy (with_status tasks run_agent id status s) id ≡ false
  status_here id status s idle = elim (Option-cases (tasks.find s id)) [
    | inl n ↦
        ground (arith, tasks.find-update s id (λ r. record r { status = status }) id, ==_refl id)
    | inr (r, e) ↦
        ground (arith, tasks.find-update s id (λ r. record r { status = status }) id, ==_refl id)
  ]

  put_back_here :
      (id : ℕ) (has_failed : Bool) (s : tasks.State)
      → is_busy (put_back tasks run_agent id has_failed s) id ≡ false
  put_back_here id has_failed s = elim (Option-cases (tasks.find s id)) [
    | inl n ↦ ground arith
    | inr (r, e) ↦ elim (Bool-cases (is_in_progress r.status)) [
      | inr idle ↦ ground arith
      | inl busy ↦ elim (Bool-cases has_failed) [
        | inl f ↦ ground (arith, status_here id todo s refl)
        | inr f ↦ ground (arith, status_here id in_review s refl)
      ]
    ]
  ]

  put_back_elsewhere :
      (id j : ℕ) (has_failed : Bool) (s : tasks.State)
      → (id == j) ≡ false
      → is_busy (put_back tasks run_agent id has_failed s) j ≡ is_busy s j
  put_back_elsewhere id j has_failed s other = elim (Option-cases (tasks.find s id)) [
    | inl n ↦ rw (n, put_back) refl
    | inr (r, e) ↦ elim (Bool-cases (is_in_progress r.status)) [
      | inr idle ↦ rw (e, idle, put_back) refl
      | inl busy ↦
          rw (e, busy, put_back)
            (status_elsewhere id j (if has_failed then todo else in_review) s other)
    ]
  ]

  work_new :
      (id j : ℕ) (s : tasks.State)
      → is_busy (work tasks run_agent id s).1 j ≡ true
      → (is_busy s j ≡ true) ⊎ ((((work tasks run_agent id s).0 ≡ true) × (id ≡ j)) ⊎ Moves id j s)
  unfolding work
  work_new id j s h =
      let started = with_status tasks run_agent id in_progress s in
      let (answer, s') = run_agent id started in
      elim (Bool-cases (id == j)) [
        | inl here ↦ elim (Option-cases answer) [
          | inl threw ↦ inr (inl (ground arith, ground arith))
          | inr (has_failed, e) ↦ absurd (ground (arith, put_back_here id has_failed s'))
        ]
        | inr other ↦
            let left : is_busy s' j ≡ true = elim (Option-cases answer) [
              | inl threw ↦ ground arith
              | inr (has_failed, e) ↦ ground (arith, put_back_elsewhere id j has_failed s' other)
            ] in
            elim (Bool-cases (is_busy s j)) [
              | inl busy ↦ inl busy
              | inr idle ↦ inr (inr (other, idle, left))
            ]
      ]

  -- After a tick of the worker, whatever tasks it found, whichever organizations are halted and
  -- whatever its agents did, each task that is in progress was so before, or is the one whose run
  -- threw and ended the tick, or a run of this tick for another task has moved it there with a tool.
  pub no_task_left_in_progress :
      (halted has_agent : ℕ → Bool) (found : List (ℕ × AgentTask)) (s : tasks.State) (j : ℕ)
      → is_busy (process_agent_tasks tasks run_agent halted has_agent found s).1 j ≡ true
      → (is_busy s j ≡ true)
        ⊎ (((process_agent_tasks tasks run_agent halted has_agent found s).0 ≡ some j)
            ⊎ Moved halted has_agent found s j)
  unfolding process_agent_tasks Moved
  no_task_left_in_progress halted has_agent [] s j h = inl h
  no_task_left_in_progress halted has_agent ((id, r) ∷ found) s j h =
      elim (Bool-cases (is_passed_over halted has_agent r)) [
        | inl skipped ↦
            rw (skipped, process_agent_tasks, Moved)
              (elim (no_task_left_in_progress halted has_agent found s j (ground arith)) [
                | inl still ↦ inl still
                | inr (inl threw) ↦ inr (inl threw)
                | inr (inr moved) ↦ inr (inr (inr (refl, moved)))
              ])
        | inr on ↦ elim (Bool-cases (work tasks run_agent id s).0) [
          | inl threw ↦ elim (work_new id j s (ground arith)) [
            | inl busy ↦ inl busy
            | inr (inl (t, here)) ↦ inr (inl (ground arith))
            | inr (inr moves) ↦ inr (inr (inl (on, moves)))
          ]
          | inr fine ↦
              rw (on, fine, process_agent_tasks, Moved)
                (elim (no_task_left_in_progress halted has_agent found (work tasks run_agent id s).1
                  j (ground arith)) [
                    | inl still ↦ elim (work_new id j s still) [
                      | inl busy ↦ inl busy
                      | inr (inl (t, here)) ↦ absurd (ground arith)
                      | inr (inr moves) ↦ inr (inr (inl (refl, moves)))
                    ]
                    | inr (inl threw) ↦ inr (inl threw)
                    | inr (inr moved) ↦ inr (inr (inr (refl, moved)))
                  ])
        ]
      ]
