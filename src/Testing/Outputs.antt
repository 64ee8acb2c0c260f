-- ===== src/Testing/Outputs.antt =====
-- What `receive_output` and `receive_nothing` tell of the application's messages.
use asgire.Prelude.{
  List, [], ◌∷◌, Bool, true, false, some, ◌↔◌, All, ◌≡◌, refl, ◌∙◌, ap, Bool-cases, inl, inr, sym,
  subst,
}
use asgire.Prelude.Result.{Result, ok, err}
use asgire.Prelude.Exec.{◌>>◌}
use asgire.Testing.{
  Ending, returned, cancelled, raised, Future, running, ended, Communicator, Error, timeout_error,
  cancelled_error, application_error, made_future, get_future, result, raise_ended, check_future,
  pass_cancelled, cancel_and_wait, Waiting, arrives, expires, timed_out, take_output,
  receive_output, is_empty, looks, receive_nothing,
}
use asgire.Testing.Ends.{IsEnded}

-- The error of a task that has ended, or else the timeout.
abbrev reason : Ending → Error
reason returned = timeout_error
reason cancelled = cancelled_error
reason (raised x) = application_error x

-- The error when the task ends as it is cancelled for the timeout.
abbrev reason_cancelled : Ending → Error
reason_cancelled returned = timeout_error
reason_cancelled cancelled = timeout_error
reason_cancelled (raised x) = application_error x

module _ {M : Type 0} where
  abbrev from_queue : List M → Waiting M → Result Error M
  from_queue (m ∷ rest) w = ok m
  from_queue [] (arrives m rest f taken) = ok m
  from_queue [] (expires (ended e) taken final turn) = err (reason e)
  from_queue [] (expires running taken final turn) = err (reason_cancelled final)

  -- What `receive_output` is to answer, by the task before it, the queue and the wait.
  abbrev pub expected : Future → List M → Waiting M → Result Error M
  expected running q w = from_queue q w
  expected (ended returned) q w = from_queue q w
  expected (ended cancelled) q w = err cancelled_error
  expected (ended (raised x)) q w = err (application_error x)

  -- The messages in the order that the application put them.
  abbrev pub seen : List M → Waiting M → List M
  seen (m ∷ rest) w = m ∷ rest
  seen [] (arrives m rest f taken) = m ∷ rest
  seen [] (expires f taken final turn) = []

  -- The messages after an error: those of before, or what the application sends when it is
  -- cancelled.
  abbrev left_there : List M → Waiting M → List M
  left_there [] (expires running taken final turn) = turn.sent
  left_there q w = q

  abbrev pub remaining : Future → List M → Waiting M → List M
  remaining running q w = left_there q w
  remaining (ended returned) q w = left_there q w
  remaining (ended cancelled) q w = q
  remaining (ended (raised x)) q w = q

  -- A message is the oldest one, and the others stay in order; after an error the task has ended.
  abbrev pub Told : Future → List M → Waiting M → Result Error M × Communicator M → Type 0
  Told f q w (ok m, c) = m ∷ c.output_queue ≡ seen q w
  Told f q w (err e, c) = IsEnded c × (c.output_queue ≡ remaining f q w)

  abbrev communicator : Future → Bool → List M → List M → Communicator M
  communicator f b i q = record {
    future = some f;
    cancel_requested = b;
    input_queue = i;
    output_queue = q;
  }

  abbrev Answered : Future → List M → Waiting M → Result Error M × Communicator M → Type 0
  Answered f q w r = (r.0 ≡ expected f q w) × Told f q w r

  take_output-Told :
      (f : Future) (b : Bool) (i q : List M) (w : Waiting M)
      → (let r = take_output q w (communicator f b i q) in
          (r.0 ≡ from_queue q w) × Told running q w r)
  unfolding take_output timed_out result cancel_and_wait pass_cancelled
  take_output-Told f b i (m ∷ rest) w = (refl, refl)
  take_output-Told f b i [] (arrives m rest g taken) = (refl, refl)
  take_output-Told f b i [] (expires (ended returned) taken final turn) =
      (refl, ((returned, refl), refl))
  take_output-Told f b i [] (expires (ended cancelled) taken final turn) =
      (refl, ((cancelled, refl), refl))
  take_output-Told f b i [] (expires (ended (raised x)) taken final turn) =
      (refl, ((raised x, refl), refl))
  take_output-Told f b i [] (expires running taken returned turn) = (refl, ((returned, refl), refl))
  take_output-Told f b i [] (expires running taken cancelled turn) =
      (refl, ((cancelled, refl), refl))
  take_output-Told f b i [] (expires running taken (raised x) turn) =
      (refl, ((raised x, refl), refl))

  checked-Answered :
      (f : Future) (b : Bool) (i q : List M) (w : Waiting M)
      → Answered f q w
          ((raise_ended f >> λ c. take_output c.output_queue w c) (communicator f b i q))
  unfolding raise_ended result
  checked-Answered running b i q w = take_output-Told running b i q w
  checked-Answered (ended returned) b i q w = take_output-Told (ended returned) b i q w
  checked-Answered (ended cancelled) b i q w = (refl, ((cancelled, refl), refl))
  checked-Answered (ended (raised x)) b i q w = (refl, ((raised x, refl), refl))

  -- `receive_output` raises what a task that has failed raised, or that it was cancelled; else it
  -- gives the oldest message, which stood in the queue or came in time, and the others stay in
  -- order; else it raises the task's exception, if it failed meanwhile or on being cancelled, or a
  -- TimeoutError. After an error the task has ended, and the queue of messages
  -- is as it was, save for what the application sends when it is cancelled for the timeout.
  pub receive_output-Answered :
      (w : Waiting M) (c : Communicator M)
      → ((receive_output w c).0 ≡ expected (made_future c.future) c.output_queue w)
        × Told (made_future c.future) c.output_queue w (receive_output w c)
  unfolding receive_output check_future get_future
  receive_output-Answered w c =
      checked-Answered (made_future c.future) c.cancel_requested c.input_queue c.output_queue w

  -- The states at which the loop of `receive_nothing` may look.
  abbrev pub visited :
      List (Communicator M → Communicator M) → Communicator M → List (Communicator M)
  visited [] c = c ∷ []
  visited (turn ∷ turns) c = c ∷ visited turns (turn c)

  abbrev pub IsQuiet : Communicator M → Type 0
  IsQuiet c = c.output_queue ≡ []

  is_empty_iff : (q : List M) → (is_empty q ≡ true) ↔ (q ≡ [])
  is_empty_iff [] = (λ h. refl, λ h. refl)
  is_empty_iff (m ∷ q) = (λ h. cc, λ h. cc)

  looks_iff :
      (turns : List (Communicator M → Communicator M)) (c : Communicator M)
      → ((looks turns c).0 ≡ true) ↔ All IsQuiet (visited turns c)
  unfolding looks
  looks_iff [] c =
      (λ h. ((is_empty_iff c.output_queue).0 h, tt), λ h. (is_empty_iff c.output_queue).1 h.0)
  looks_iff (turn ∷ turns) c = elim (Bool-cases (is_empty c.output_queue)) [
    | inl y ↦
        let step : looks (turn ∷ turns) c ≡ looks turns (turn c) = rw (looks, y) refl in
        (
          λ h. (
            (is_empty_iff c.output_queue).0 y,
            (looks_iff turns (turn c)).0 (ap (λ r. r.0) (sym step) ∙ h),
          ),
          λ h. ap (λ r. r.0) step ∙ (looks_iff turns (turn c)).1 h.1,
        )
    | inr n ↦
        let step : (looks (turn ∷ turns) c).0 ≡ false = rw (looks, n) refl in
        (λ h. cc (step, h), λ h. cc (n, (is_empty_iff c.output_queue).1 h.0))
  ]

  nothing_iff :
      (turns : List (Communicator M → Communicator M)) (b : Bool) (i q : List M)
      → ((receive_nothing turns (communicator running b i q)).0 ≡ ok true)
        ↔ All IsQuiet (visited turns (communicator running b i q))
  unfolding receive_nothing check_future get_future raise_ended made_future
  nothing_iff turns b i q =
      let (there, back) = looks_iff turns (communicator running b i q) in
      (λ h. there (cc h), λ h. ap (λ (x : Bool). ok x) (back h))

  -- While the application runs: `receive_nothing` raises nothing, and says yes exactly if no message
  -- was there at the beginning, after any of the sleeps, or at the end.
  receive_nothing_iff :
      (turns : List (Communicator M → Communicator M)) (c : Communicator M)
      → c.future ≡ some running
      → ((receive_nothing turns c).0 ≡ ok true) ↔ All IsQuiet (visited turns c)
  receive_nothing_iff turns c h =
      subst
        (λ (d : Communicator M).
          ((receive_nothing turns d).0 ≡ ok true) ↔ All IsQuiet (visited turns d))
        (ap (λ f. record c { future = f }) (sym h))
        (nothing_iff turns c.cancel_requested c.input_queue c.output_queue)
