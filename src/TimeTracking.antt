-- ===== src/TimeTracking.antt =====
-- src/modules/time-tracking/time-tracking.service.ts: timers and manual entries. Times are
-- milliseconds; the duration of a timer stops at 0 here should the clock be set back.
pub mod Running
pub mod Tests
use flow_ai.Common.{
  ℕ, ◌+◌, ◌-◌, ◌/◌, Bool, true, false, ◌&&◌, Option, none, some, or_default, ◌==◌, if◌then◌else◌,
  Result, ok, failed, not_found, bad_request,
}
use flow_ai.Database.{Table}

pub record TimeEntry : Type 0 where
  pub user_id : ℕ
  pub task_id : Option ℕ
  pub project_id : Option ℕ
  pub description : Option ℕ
  pub start_time : ℕ
  pub end_time : Option ℕ
  pub duration : Option ℕ
  pub is_billable : Bool
  pub is_running : Bool
  pub hourly_rate : Option ℕ

pub record StartTimerDto : Type 0 where
  pub task_id : Option ℕ
  pub project_id : Option ℕ
  pub description : Option ℕ
  pub is_billable : Option Bool

pub record ManualTimeEntryDto : Type 0 where
  pub task_id : Option ℕ
  pub project_id : Option ℕ
  pub description : Option ℕ
  pub start_time : ℕ
  pub end_time : ℕ
  pub is_billable : Option Bool
  pub hourly_rate : Option ℕ

-- Math.round of the milliseconds over 1000.
abbrev pub seconds : ℕ → ℕ → ℕ
seconds start end = (end - start + 500) / 1000

abbrev pub runs_for : ℕ → ℕ → TimeEntry → Bool
runs_for user i r = r.user_id == user && r.is_running

abbrev pub stopped : ℕ → ℕ → TimeEntry → TimeEntry
stopped start now r = record r {
  end_time = some now;
  duration = some (seconds start now);
  is_running = false;
}

module _ (entries : Table TimeEntry) where
  pub start_timer : ℕ → StartTimerDto → ℕ → entries.State → Result ℕ × entries.State
  start_timer user dto now s =
      let (id, s') = entries.create s (record {
        user_id = user;
        task_id = dto.task_id;
        project_id = dto.project_id;
        description = dto.description;
        start_time = now;
        end_time = none;
        duration = none;
        is_billable = or_default dto.is_billable true;
        is_running = true;
        hourly_rate = none;
      }) in
      elim (entries.find_first s (runs_for user)) [
        | some _ ↦ (failed bad_request, s)
        | none ↦ (ok id, s')
      ]

  pub stop_timer : ℕ → ℕ → ℕ → entries.State → Result (Option TimeEntry) × entries.State
  stop_timer user entry_id now s =
      elim (entries.find_first s (λ i r. i == entry_id && runs_for user i r)) [
        | none ↦ (failed not_found, s)
        | some (i, entry) ↦
            let (row, s') = entries.update s entry_id (stopped entry.start_time now) in (ok row, s')
      ]

  pub get_running_timer : ℕ → entries.State → Option (ℕ × TimeEntry)
  get_running_timer user s = entries.find_first s (runs_for user)

  pub create_manual_entry : ℕ → ManualTimeEntryDto → entries.State → Result ℕ × entries.State
  create_manual_entry user dto s =
      let duration = seconds dto.start_time dto.end_time in
      let (id, s') = entries.create s (record {
        user_id = user;
        task_id = dto.task_id;
        project_id = dto.project_id;
        description = dto.description;
        start_time = dto.start_time;
        end_time = some dto.end_time;
        duration = some duration;
        is_billable = or_default dto.is_billable true;
        is_running = false;
        hourly_rate = dto.hourly_rate;
      }) in
      if duration == 0 then (failed bad_request, s) else (ok id, s')

  pub delete : ℕ → ℕ → entries.State → Result ℕ × entries.State
  delete user id s =
      let s' = entries.delete_many s (λ i _. i == id) in
      elim (entries.find_first s (λ i r. i == id && r.user_id == user)) [
        | none ↦ (failed not_found, s)
        | some _ ↦ (ok id, s')
      ]
