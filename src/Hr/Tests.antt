-- ===== src/Hr/Tests.antt =====
-- A day of a user who comes twice and leaves twice.
use flow_ai.Common.{ℕ, ◌*◌, ◌/◌, none, some, List, [], ◌∷◌, arith}
use flow_ai.Database.Rows.{rows}
use flow_ai.Hr.{Attendance}
use flow_ai.Hr.Attendances.{Request, comes, leaves, end_of, run, Tidy, attendances-Tidy}

abbrev day_start : ℕ → ℕ
day_start t = t / 86400000 * 86400000

abbrev requests : List Request
requests = comes 1 none 100 ∷ leaves 1 200 ∷ comes 1 (some 5) 300 ∷ leaves 1 400 ∷ []

nobody : Tidy (rows Attendance) day_start 0 []
nobody = record { ordered = λ i a e. ground arith; one_a_day = λ i j a b ei ej u v. ground arith }

attendances-Tidy_example :
    Tidy
      (rows Attendance)
      day_start
      (end_of 0 requests)
      (run (rows Attendance) day_start requests [])
attendances-Tidy_example =
    attendances-Tidy (rows Attendance) day_start requests 0 []
      (omega arith, (omega arith, (omega arith, (omega arith, tt)))) nobody
