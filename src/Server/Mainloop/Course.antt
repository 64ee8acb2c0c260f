-- ===== src/Server/Mainloop/Course.antt =====
-- How a server's main loop goes, by what happens in it.
use asgire.Prelude.{none, some, ℕ, List, ◌∷◌, ◌++◌, none, some, ◌≡◌, Eq, map}
use asgire.Prelude.Dict.{Dict, get}
use asgire.Server.{Server, Details, Task, cancelled, cancelled_error}
use asgire.Server.Checker.{NoneCancelled}
use asgire.Server.History
use asgire.Server.History.{Call, checks, step}
use asgire.Server.Mainloop.{
  Turn, calls, handled, interrupts, of_checker, Exit, goes_on, returns, raises, of_handle, run,
}

module _ {K : Type 0} ⦃e : Eq K⦄ where
  -- The first cancelled task of a table.
  record FirstCancelled (tasks : ℕ → Task) (t : Dict K Details) : Type 0 where
    pub pre : Dict K Details
    pub post : Dict K Details
    pub key : K
    pub details : Details
    pub split : t ≡ pre ++ (key, details) ∷ post
    pub none_before : NoneCancelled tasks pre
    pub is_cancelled : (tasks details.future).state ≡ cancelled

  -- How turns go from a server on: all of them are calls; or the calls up to one turn are made, and
  -- that turn ends the loop.
  pub data Course (s : Server K) (ts : List (Turn K)) (r : Exit × Server K) : Type 0 where
    all_calls :
        (cs : List (Call K))
        → ts ≡ map (λ c. calls c) cs
        → r ≡ (goes_on, History.run s cs)
        → Course s ts r
    handle_returned :
        (cs : List (Call K)) (post : List (Turn K))
        → ts ≡ map (λ c. calls c) cs ++ handled none ∷ post
        → r ≡ (returns, History.run s cs)
        → Course s ts r
    handle_raised :
        (cs : List (Call K)) (x : ℕ) (post : List (Turn K))
        → ts ≡ map (λ c. calls c) cs ++ handled (some x) ∷ post
        → r ≡ (raises (of_handle x), History.run s cs)
        → Course s ts r
    was_interrupted :
        (cs : List (Call K)) (post : List (Turn K))
        → ts ≡ map (λ c. calls c) cs ++ interrupts ∷ post
        → r ≡ (returns, History.run s cs)
        → Course s ts r
    checker_raised :
        (cs : List (Call K)) (post : List (Turn K)) (k : K) (d : Details)
        → ts ≡ map (λ c. calls c) cs ++ calls checks ∷ post
        → get k (History.run s cs).application_instances ≡ some d
        → ((History.run s cs).tasks d.future).state ≡ cancelled
        → r ≡ (raises (of_checker cancelled_error), step (History.run s cs) checks)
        → Course s ts r
