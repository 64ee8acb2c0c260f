-- ===== src/Testing/Ends.antt =====
-- The application's task when `wait` or `receive_output` is over.
use asgire.Prelude.{Bool, Option, none, some, ◌≡◌, refl, ap, ◌∙◌, ◌++◌, ◌||◌}
use asgire.Prelude.Result.{Result, ok, err}
use asgire.Prelude.Exec.{continue}
use asgire.Testing.{
  Ending, returned, cancelled, raised, Future, running, ended, Communicator, Error,
  application_error, Turn, drop, take_turn, made_future, get_future, pass_cancelled, finally_cancel,
  stop_waiting, wait,
}

abbrev pub IsEnded : {M : Type 0} → Communicator M → Type 0
IsEnded c = (e : Ending) × (c.future ≡ some (ended e))

-- How the task ends that a wait waits for.
abbrev pub ending_of : Option Future → Ending → Ending
ending_of none end = end
ending_of (some running) end = end
ending_of (some (ended e)) end = e

-- What `wait` makes of the end.
abbrev pub reported : Ending → Result Error (Unit {0})
reported returned = ok tt
reported cancelled = ok tt
reported (raised x) = err (application_error x)

ending_of_made :
    (f : Option Future) (end : Ending) → ending_of (some (made_future f)) end ≡ ending_of f end
unfolding made_future
ending_of_made none end = refl
ending_of_made (some running) end = refl
ending_of_made (some (ended e)) end = refl

module _ {M : Type 0} where
  pass_cancelled_lem : (e : Ending) (c : Communicator M) → pass_cancelled e c ≡ (reported e, c)
  unfolding pass_cancelled
  pass_cancelled_lem returned c = refl
  pass_cancelled_lem cancelled c = refl
  pass_cancelled_lem (raised x) c = refl

  -- What a task that is not at its end does.
  abbrev pub goes : Option Future → Turn M → Communicator M → Communicator M
  goes (some (ended e)) turn c = c
  goes (some running) turn c = take_turn turn c
  goes none turn c = take_turn turn c

  goes_made :
      (f : Option Future) (turn : Turn M) (c : Communicator M)
      → ((goes (some (made_future f)) turn (record c { future = some (made_future f) })).input_queue
          ≡ (goes f turn c).input_queue)
        × ((goes
              (some (made_future f))
              turn
              (record c { future = some (made_future f) })).output_queue
            ≡ (goes f turn c).output_queue)
  unfolding made_future
  goes_made none turn c = (refl, refl)
  goes_made (some running) turn c = (refl, refl)
  goes_made (some (ended e)) turn c = (refl, refl)

  -- The end of a wait for the task: what is reported, and the communicator.
  record Stopped (end : Ending) (g : Communicator M) (r : Result Error (Unit {0}) × Communicator M)
      : Type 0 where
    report : r.0 ≡ reported end
    future : r.1.future ≡ some (ended end)
    input_queue : r.1.input_queue ≡ g.input_queue
    output_queue : r.1.output_queue ≡ g.output_queue

  stop_waiting-Stopped :
      (f : Future) (expired : Bool) (end : Ending) (turn : Turn M) (c : Communicator M)
      → c.future ≡ some f
      → Stopped (ending_of (some f) end) (goes (some f) turn c) (stop_waiting f expired end turn c)
  unfolding stop_waiting
  stop_waiting-Stopped running expired end turn c h =
      rw
        (pass_cancelled_lem end (record c {
          future = some (ended end);
          cancel_requested = expired || c.cancel_requested;
          input_queue = drop turn.taken c.input_queue;
          output_queue = c.output_queue ++ turn.sent;
        }))
        (record { report = refl; future = refl; input_queue = refl; output_queue = refl })
  stop_waiting-Stopped (ended e) expired end turn c h =
      rw (pass_cancelled_lem e c)
        (record { report = refl; future = h; input_queue = refl; output_queue = refl })

  with_future : Communicator M → Communicator M
  with_future c = record c { future = some (made_future c.future) }

  -- The `finally` block finds the task ended.
  wait_lem :
      (expired : Bool) (end : Ending) (turn : Turn M) (c : Communicator M)
      → wait expired end turn c
        ≡ stop_waiting (made_future c.future) expired end turn (with_future c)
  unfolding wait get_future with_future
  wait_lem expired end turn c =
      let r = stop_waiting (made_future c.future) expired end turn (with_future c) in
      let q =
        (stop_waiting-Stopped (made_future c.future) expired end turn (with_future c)
          refl).future in
      ap
        (λ (o : Option Future).
          continue (finally_cancel o end turn r.1).0 (λ _ d. (r.0, d))
            (finally_cancel o end turn r.1).1)
        q

  -- `wait` ends when the application's task has ended, by itself or by the timeout. It raises what
  -- the application raised, and nothing where the task returned or was cancelled, also by the
  -- timeout. The queues are as the application has left them, or as they were if the task had ended
  -- before.
  pub wait-Ends :
      (expired : Bool) (end : Ending) (turn : Turn M) (c : Communicator M)
      → ((wait expired end turn c).1.future ≡ some (ended (ending_of c.future end)))
        × ((wait expired end turn c).0 ≡ reported (ending_of c.future end))
        × ((wait expired end turn c).1.input_queue ≡ (goes c.future turn c).input_queue)
        × ((wait expired end turn c).1.output_queue ≡ (goes c.future turn c).output_queue)
  unfolding with_future
  wait-Ends expired end turn c =
      let s = stop_waiting-Stopped (made_future c.future) expired end turn (with_future c) refl in
      let (i, o) = goes_made c.future turn c in
      rw (wait_lem expired end turn c, ← (ending_of_made c.future end))
        (s.future, s.report, s.input_queue ∙ i, s.output_queue ∙ o)
