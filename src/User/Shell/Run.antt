-- ===== src/User/Shell/Run.antt =====
-- src/user/shell.c: the calls that `shell` makes for a command that it takes out of its queue, with
-- `now` the answer of `Time`. Behind the track's ten sensor groups, a byte of `sensor_readings` is out
-- of bounds; for a node number of -1 the shift has no defined value.
use the_polling_express.Base.{ℕ, ◌/◌, ◌%◌, ◌^◌, ltb, ◌==◌, if◌then◌else◌}
use the_polling_express.Base.Int.{ℤ, pos, negsuc}
use the_polling_express.Base.Outcome.{Outcome, ok, assert_failed, out_of_bounds}
use the_polling_express.User.Trainserver.Step.{TrainReq, speed, switch}
use the_polling_express.User.Shell.Parse.{Command, tr, sw, rv, quit, die, gt, reg, mock, random}

pub data ShellCall : Type 0 where
  train_command : TrainReq → ShellCall
  shutdown : ShellCall
  navigation_request : ℕ → ℕ → ℤ → ShellCall
  register_location : ℕ → ℕ → ShellCall
  mock_reading : ℕ → ℕ → ℕ → ShellCall
  create_random : ℕ → ℕ → ShellCall

unfoldable pub run_command : ℕ → Command → Outcome ShellCall
run_command now (tr v data') = ok (train_command (speed v data' now))
run_command now (sw n orientation) =
    ok (train_command (switch n (if orientation == 99 then 1 else 0) now))
run_command now (rv v) = ok (train_command (speed v 15 now))
run_command now quit = ok shutdown
run_command now die = assert_failed
run_command now (gt v dest offset) = ok (navigation_request v dest offset)
run_command now (reg v source) = ok (register_location v source)
run_command now (mock (negsuc n)) = out_of_bounds
run_command now (mock (pos n)) =
    if ltb (n / 8) 10 then ok (mock_reading (n / 8) (0x80 / 2 ^ (n % 8)) now) else out_of_bounds
run_command now (random v kind) = ok (create_random kind v)
