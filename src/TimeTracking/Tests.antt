-- ===== src/TimeTracking/Tests.antt =====
-- The timer theorem at a user who starts twice, stops and starts again.
use flow_ai.Common.{◌≡◌, refl, true, none, some, List, [], ◌∷◌, arith}
use flow_ai.Database.Rows.{rows}
use flow_ai.TimeTracking.{TimeEntry, StartTimerDto, get_running_timer, start_timer, stop_timer}
use flow_ai.TimeTracking.Running.{Request, starts, stops, run, OneEach, step, one_timer}

abbrev work : StartTimerDto
work = record { task_id = none; project_id = none; description = none; is_billable = none }

abbrev requests : List Request
requests = starts 1 work 1000 ∷ starts 1 work 2000 ∷ stops 1 0 5000 ∷ starts 1 work 9000 ∷ []

abbrev second : TimeEntry
second = record {
  user_id = 1;
  task_id = none;
  project_id = none;
  description = none;
  start_time = 9000;
  end_time = none;
  duration = none;
  is_billable = true;
  is_running = true;
  hourly_rate = none;
}

one_timer_example :
    get_running_timer (rows TimeEntry) 1 (run (rows TimeEntry) requests []) ≡ some (1, second)
unfolding OneEach run step start_timer stop_timer
one_timer_example =
    one_timer (rows TimeEntry) requests [] 1 1 second (λ user i j r q ei ej ri rj. ground arith)
      refl refl
