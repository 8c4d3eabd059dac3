-- ===== src/User/Trainserver/Client.antt =====
-- src/user/trainserver.c: a round of the worker `task_train_worker`, and the calls of the clients.
use the_polling_express.Base.{ℕ, List, [], ◌∷◌, ◌++◌, replicate, ◌==◌, if◌then◌else◌}
use the_polling_express.User.Trainserver.Step.{
  TrainReq, speed, TrainReply, run_cmd, run_sensor, run_nothing, ack, notify,
}

-- the calls that the worker makes for a reply, in order
pub data WorkerCall : Type 0 where
  putc : ℕ → WorkerCall
  getc time send_sensors : WorkerCall
  delay : ℕ → WorkerCall
  assert_false : WorkerCall

unfoldable pub worker_calls : TrainReply → List WorkerCall
worker_calls (run_cmd client a b len reqid) = putc a ∷ (if len == 2 then putc b ∷ [] else [])
worker_calls (run_sensor client) = putc 0x85 ∷ replicate 10 getc ++ time ∷ send_sensors ∷ []
worker_calls (run_nothing client) = delay 1 ∷ []
worker_calls (ack client) = assert_false ∷ []
worker_calls (notify client event) = assert_false ∷ []

-- `HardReverse` sends the speed 15.
unfoldable pub hard_reverse : ℕ → ℕ → TrainReq
hard_reverse train_num at = speed train_num 15 at
