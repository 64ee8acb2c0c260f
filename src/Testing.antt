-- ===== src/Testing.antt =====
-- asgiref/testing.py: ApplicationCommunicator. Messages are of any type; what the application does
-- while the communicator waits is an argument of the operation.
pub mod Ends
pub mod Outputs
mod Tests
use asgire.Prelude.{
  ℕ, zero, suc, List, [], ◌∷◌, ◌++◌, Bool, true, false, ◌||◌, Option, none, some, if◌then◌else◌,
}
use asgire.Prelude.Result.{Result, ok, err}
use asgire.Prelude.Exec.{Exec, ◌>>=◌, ◌>>◌}

-- How a task ends.
pub data Ending : Type 0 where
  returned cancelled : Ending
  raised : ℕ → Ending

pub data Future : Type 0 where
  running : Future
  ended : Ending → Future

-- `future` is missing until it is asked for first; the queues have no bound. `cancel_requested`
-- says that the application's task was asked to stop.
pub record Communicator (M : Type 0) : Type 0 where
  pub future : Option Future
  pub cancel_requested : Bool
  pub input_queue : List M
  pub output_queue : List M

pub data Error : Type 0 where
  timeout_error cancelled_error : Error
  application_error : ℕ → Error

abbrev pub Action : Type 0 → Type 0 → Type 0
Action M A = Exec (Communicator M) Error A

-- What the application does while the communicator awaits: it takes some inputs and sends messages.
pub record Turn (M : Type 0) : Type 0 where
  pub taken : ℕ
  pub sent : List M

abbrev pub drop : {M : Type 0} → ℕ → List M → List M
drop zero ms = ms
drop (suc n) [] = []
drop (suc n) (m ∷ ms) = drop n ms

abbrev pub take_turn : {M : Type 0} → Turn M → Communicator M → Communicator M
take_turn turn c = record c {
  input_queue = drop turn.taken c.input_queue;
  output_queue = c.output_queue ++ turn.sent;
}

unfoldable pub made_future : Option Future → Future
made_future none = running
made_future (some f) = f

module _ {M : Type 0} where
  -- `__init__`
  unfoldable pub init : Communicator M
  init = record { future = none; cancel_requested = false; input_queue = []; output_queue = [] }

  -- The property `future`, which makes the task.
  unfoldable pub get_future : Action M Future
  unfolding made_future
  get_future c = let f = made_future c.future in (ok f, record c { future = some f })

  -- `result()` of an ended task.
  unfoldable pub result : Ending → Action M Unit
  result returned c = (ok tt, c)
  result cancelled c = (err cancelled_error, c)
  result (raised x) c = (err (application_error x), c)

  -- `if self.future.done(): self.future.result()`
  raise_ended : Future → Action M Unit
  raise_ended running c = (ok tt, c)
  raise_ended (ended e) c = result e c

  unfoldable pub check_future : Action M Unit
  unfolding raise_ended
  check_future = do f ← get_future; raise_ended f

  abbrev end_future : Ending → Communicator M → Communicator M
  end_future e c = record c { future = some (ended e) }

  -- The await of the future where CancelledError is passed over.
  unfoldable pub pass_cancelled : Ending → Action M Unit
  pass_cancelled returned c = (ok tt, c)
  pass_cancelled cancelled c = (ok tt, c)
  pass_cancelled (raised x) c = (err (application_error x), c)

  -- `self.future.cancel()` and the await of its end.
  unfoldable pub cancel_and_wait : Ending → Turn M → Action M Unit
  cancel_and_wait e turn c =
      pass_cancelled e (end_future e (take_turn turn (record c { cancel_requested = true })))

  unfoldable pub send_input : M → Action M Unit
  send_input m = do check_future; λ c. (ok tt, record c { input_queue = c.input_queue ++ m ∷ [] })

-- While `output_queue.get()` waits: a message comes, after which more may have been put, or the
-- time is over, when the application may have ended. The queue and the future are those at the end
-- of the wait, and the number says how many inputs were taken; then come how the application ends
-- when it is cancelled, and what it does until then.
pub data Waiting (M : Type 0) : Type 0 where
  arrives : M → List M → Future → ℕ → Waiting M
  expires : Future → ℕ → Ending → Turn M → Waiting M

module _ {M : Type 0} where
  -- The handler of the TimeoutError.
  timed_out : Future → Ending → Turn M → Action M M
  timed_out (ended e) final turn = do result e; λ c. (err timeout_error, c)
  timed_out running final turn = do cancel_and_wait final turn; λ c. (err timeout_error, c)

  take_output : List M → Waiting M → Action M M
  unfolding timed_out
  take_output (m ∷ rest) w c = (ok m, record c { output_queue = rest })
  take_output [] (arrives m rest f taken) c = (
    ok m,
    record c { output_queue = rest; future = some f; input_queue = drop taken c.input_queue },
  )
  take_output [] (expires f taken final turn) c =
      timed_out f final turn (record c { future = some f; input_queue = drop taken c.input_queue })

  unfoldable pub receive_output : Waiting M → Action M M
  unfolding take_output
  receive_output w = do check_future; λ c. take_output c.output_queue w c

  -- `wait`: the application ends by itself in time, or is cancelled by the timeout, which the await
  -- hands on to it; either way the await goes on to its end.
  stop_waiting : Future → Bool → Ending → Turn M → Action M Unit
  stop_waiting (ended e) expired end turn c = pass_cancelled e c
  stop_waiting running expired end turn c = pass_cancelled end (
      end_future end
        (take_turn turn (record c { cancel_requested = expired || c.cancel_requested })))

  -- The `finally` block, by the future.
  finally_cancel : Option Future → Ending → Turn M → Action M Unit
  finally_cancel none end turn c = cancel_and_wait end turn (record c { future = some running })
  finally_cancel (some running) end turn c = cancel_and_wait end turn c
  finally_cancel (some (ended e)) end turn c = (ok tt, c)

  -- `expired` says whether the time is over before the application ends, `end` how it ends, and
  -- `turn` what it does until then.
  unfoldable pub wait : Bool → Ending → Turn M → Action M Unit
  unfolding stop_waiting finally_cancel
  wait expired end turn c =
      let (r, c') = (do f ← get_future; stop_waiting f expired end turn) c in
      (do λ d. finally_cancel d.future end turn d; λ d. (r, d)) c'

  stop_future : Option Future → Bool → Action M Unit
  stop_future none exceptions c = (ok tt, c)
  stop_future (some running) exceptions c = (ok tt, record c { cancel_requested = true })
  stop_future (some (ended e)) true c = result e c
  stop_future (some (ended e)) false c = (ok tt, c)

  unfoldable pub stop : Bool → Action M Unit
  unfolding stop_future
  stop exceptions c = stop_future c.future exceptions c

  abbrev pub is_empty : List M → Bool
  is_empty [] = true
  is_empty (m ∷ ms) = false

  -- The loop of `receive_nothing`: one sleep for each round that begins in time, in which the
  -- application goes on as the turn says.
  looks : List (Communicator M → Communicator M) → Communicator M → Bool × Communicator M
  looks [] c = (is_empty c.output_queue, c)
  looks (turn ∷ turns) c = elim (is_empty c.output_queue) [
    | true ↦ looks turns (turn c)
    | false ↦ (false, c)
  ]

  unfoldable pub receive_nothing : List (Communicator M → Communicator M) → Action M Bool
  unfolding looks
  receive_nothing turns = do check_future; λ c. let (b, c') = looks turns c in (ok b, c')
