-- ===== src/Hr.antt =====
-- The attendance and the leaves of src/modules/hr/hr.module.ts. `midnight` is the start of the day
-- of a time, on the server's clock; hours are counted in hundredths, rounded as Math.round does.
pub mod Attendances
pub mod Tests
use flow_ai.Common.{
  ℕ, ◌+◌, ◌-◌, ◌*◌, ◌/◌, Bool, true, false, ◌&&◌, Option, none, some, is_some, ◌==◌, if◌then◌else◌,
  Result, ok, failed, not_found, server_error,
}
use flow_ai.Database.{Table}

pub record Attendance : Type 0 where
  pub user_id : ℕ
  pub date : ℕ
  pub check_in : Option ℕ
  pub check_out : Option ℕ
  pub total_hours : Option ℕ
  pub notes : Option ℕ

abbrev pub is_day : ℕ → ℕ → ℕ → Attendance → Bool
is_day user date i a = a.user_id == user && a.date == date

abbrev pub hundredths : ℕ → ℕ
hundredths ms = (ms * 100 + 1800000) / 3600000

module _ (attendances : Table Attendance) (midnight : ℕ → ℕ) where
  -- The first check-in of a day stays.
  unfoldable pub check_in : ℕ → Option ℕ → ℕ → attendances.State → ℕ × attendances.State
  check_in user notes now s = elim (attendances.find_first s (is_day user (midnight now))) [
    | none ↦ attendances.create s (record {
      user_id = user;
      date = midnight now;
      check_in = some now;
      check_out = none;
      total_hours = none;
      notes = notes;
    })
    | some (i, a) ↦
        let s' = (attendances.update s i (λ r. record r { check_in = some now })).1 in
        (i, if is_some a.check_in then s else s')
  ]

  abbrev pub left_at : ℕ → ℕ → Attendance → Attendance
  left_at now entered r = record r {
    check_out = some now;
    total_hours = some (hundredths (now - entered));
  }

  unfoldable pub check_out : ℕ → ℕ → attendances.State → Result ℕ × attendances.State
  check_out user now s = elim (attendances.find_first s (is_day user (midnight now))) [
    | none ↦ (failed not_found, s)
    | some (i, a) ↦ elim a.check_in [
      | none ↦ (failed not_found, s)
      | some entered ↦ (ok i, (attendances.update s i (left_at now entered)).1)
    ]
  ]

pub data LeaveStatus : Type 0 where
  pending approved rejected cancelled : LeaveStatus

pub record LeaveRequest : Type 0 where
  pub user_id : ℕ
  pub kind : ℕ
  pub start_date : ℕ
  pub end_date : ℕ
  pub total_days : ℕ
  pub reason : Option ℕ
  pub status : LeaveStatus
  pub approved_by_id : Option ℕ
  pub approved_at : Option ℕ

-- An update of a row that is not there throws.
module _ (leaves : Table LeaveRequest) where
  abbrev pub change_leave :
      ℕ → (LeaveRequest → LeaveRequest) → leaves.State → Result LeaveRequest × leaves.State
  change_leave id f s =
      let (row, s') = leaves.update s id f in
      elim row [ none ↦ (failed server_error, s) | some r ↦ (ok r, s') ]

  pub create_leave_request :
      ℕ → (kind start_date end_date total_days : ℕ) → Option ℕ → leaves.State → ℕ × leaves.State
  create_leave_request user kind start_date end_date total_days reason s = leaves.create s (record {
    user_id = user;
    kind = kind;
    start_date = start_date;
    end_date = end_date;
    total_days = total_days;
    reason = reason;
    status = pending;
    approved_by_id = none;
    approved_at = none;
  })

  pub approve_leave : (id user now : ℕ) → leaves.State → Result LeaveRequest × leaves.State
  approve_leave id user now s =
      change_leave id
        (λ r. record r { status = approved; approved_by_id = some user; approved_at = some now }) s

  pub reject_leave : ℕ → leaves.State → Result LeaveRequest × leaves.State
  reject_leave id s = change_leave id (λ r. record r { status = rejected }) s
