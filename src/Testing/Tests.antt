-- ===== src/Testing/Tests.antt =====
-- Runs of the communicator, and its theorems at concrete inputs.
use asgire.Prelude.{ℕ, [], ◌∷◌, true, false, some, ◌≡◌, refl}
use asgire.Prelude.Result.{err}
use asgire.Testing.{
  Communicator, running, ended, cancelled, raised, application_error, init, Turn, Waiting, expires,
  send_input, receive_output, wait, stop, check_future, get_future, made_future, result,
}
use asgire.Testing.Ends.{ending_of, reported, goes, wait-Ends}
use asgire.Testing.Outputs.{expected, Told, receive_output-Answered}

abbrev talking : Communicator ℕ
talking = record {
  future = some running;
  cancel_requested = false;
  input_queue = [];
  output_queue = 4 ∷ 5 ∷ [];
}

abbrev silent : Communicator ℕ
silent = record talking { output_queue = [] }

abbrev failed : Communicator ℕ
failed = record talking { future = some (ended (raised 3)) }

sends : (send_input 8 (init {M = ℕ})).1.input_queue ≡ 8 ∷ []
unfolding send_input init check_future get_future made_future
sends = refl

refuses : send_input 8 failed ≡ (err (application_error 3), failed)
unfolding send_input check_future get_future made_future result
refuses = refl

stops : stop true failed ≡ (err (application_error 3), failed)
unfolding stop result
stops = refl

-- Until it has ended, the application sends a message.
abbrev sends_one : Turn ℕ
sends_one = record { taken = 0; sent = 9 ∷ [] }

wait-Ends_example :
    ((wait true cancelled sends_one silent).1.future
      ≡ some (ended (ending_of silent.future cancelled)))
    × ((wait true cancelled sends_one silent).0 ≡ reported (ending_of silent.future cancelled))
    × ((wait true cancelled sends_one silent).1.input_queue
        ≡ (goes silent.future sends_one silent).input_queue)
    × ((wait true cancelled sends_one silent).1.output_queue
        ≡ (goes silent.future sends_one silent).output_queue)
wait-Ends_example = wait-Ends true cancelled sends_one silent

-- The time is over, and the application sends a message when it is cancelled.
abbrev late : Waiting ℕ
late = expires running 0 cancelled sends_one

receive_output-Answered_example :
    ((receive_output late silent).0 ≡ expected (made_future silent.future) silent.output_queue late)
    × Told (made_future silent.future) silent.output_queue late (receive_output late silent)
receive_output-Answered_example = receive_output-Answered late silent
