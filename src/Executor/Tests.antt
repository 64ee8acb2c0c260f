-- ===== src/Executor/Tests.antt =====
-- Runs of the executor, and its theorems at concrete inputs.
use asgire.Prelude.{
  ℕ, ◌+◌, ◌≤◌, ◌<◌, ◌⊎◌, List, [], ◌∷◌, Bool, true, false, ◌≡◌, refl, arith, ◌=ℕ◌, if◌then◌else◌,
}
use asgire.Executor.{
  Executor, World, WorkItem, returns, pending, cancelled, accept, mark_done, poll, init, submit,
  walk, submitted, run_until_future,
}
use asgire.Executor.Submit.{SubmitResult, submit-SubmitResult}
use asgire.Executor.Concurrent.{
  System, Reach, here, next, submits, completes, polls, runs, leaves, start, at_lock, at_item,
  returned,
}
use asgire.Executor.Progress.{own_steps, CanStep, CanGoOn, returns_in_time}
use asgire.Executor.Waiting.{Extends, served_in_turn}
use asgire.Executor.Finish.{Settles, run_until_future-Settles}

abbrev old : Executor ℕ
old = record { work_thread = 1; work_items = 10 ∷ []; is_broken = false }

abbrev quit : Executor ℕ
quit = record { work_thread = 2; work_items = []; is_broken = true }

submit-SubmitResult_example : SubmitResult 7 quit (old ∷ []) 11 (submit 7 quit (old ∷ []) 11)
submit-SubmitResult_example = submit-SubmitResult 7 quit (old ∷ []) 11

submit_to_old :
    submit 7 quit (old ∷ []) 11 ≡ submitted (quit ∷ record old { work_items = 10 ∷ 11 ∷ [] } ∷ [])
unfolding submit walk
submit_to_old = refl

-- One item, and the awaited future completes while it runs.
abbrev system : List ℕ → Bool → System ℕ → System ℕ
system items broken s = record s {
  executor = record { work_thread = 1; work_items = items; is_broken = broken };
}

abbrev s1 : System ℕ
s1 =
    system (5 ∷ []) false (record { executor = old; runner = at_lock; accepted = 5 ∷ []; ran = [] })

abbrev s2 : System ℕ
s2 = system [] false (record s1 { runner = at_item 5 })

abbrev s3 : System ℕ
s3 = system [] true s2

abbrev s4 : System ℕ
s4 = record s3 { runner = at_lock; ran = 5 ∷ [] }

abbrev s5 : System ℕ
s5 = record s4 { runner = returned }

run_of_one : Reach (start 1) s5
unfolding accept mark_done poll init
run_of_one =
    next
      (next
        (next
          (next (next here (submits 5 s1.executor refl refl)) (polls 5 s2.executor refl refl refl))
          (completes refl))
        (runs 5 refl refl))
      (leaves refl refl refl)

-- From a queue with one item, when the future is done.
abbrev s6 : System ℕ
s6 = system (5 ∷ []) true s1

abbrev s7 : System ℕ
s7 = system [] true (record s1 { runner = at_item 5 })

rest_of_one : Reach s6 s5
unfolding poll
rest_of_one =
    next (next (next here (polls 5 s7.executor refl refl refl)) (runs 5 refl refl))
      (leaves refl refl refl)

returns_in_time_example : (own_steps rest_of_one ≤ 4) × CanGoOn s5
returns_in_time_example = returns_in_time rest_of_one refl

-- A second item comes while the first runs, and waits for it.
abbrev s8 : System ℕ
s8 = system (6 ∷ []) false (record s2 { accepted = 5 ∷ 6 ∷ [] })

abbrev s9 : System ℕ
s9 = record s8 { runner = at_lock; ran = 5 ∷ [] }

abbrev s10 : System ℕ
s10 = system [] false (record s9 { runner = at_item 6 })

second_waits : Reach (start 1) s8
unfolding accept poll init
second_waits =
    next (next (next here (submits 5 s1.executor refl refl)) (polls 5 s2.executor refl refl refl))
      (submits 6 s8.executor refl refl)

second_runs : Reach s8 (record s10 { runner = at_lock; ran = 5 ∷ 6 ∷ [] })
unfolding poll
second_runs =
    next (next (next here (runs 5 refl refl)) (polls 6 s10.executor refl refl refl))
      (runs 6 refl refl)

served_in_turn_example :
    Extends {A = ℕ} (5 ∷ 6 ∷ []) (5 ∷ 6 ∷ [])
    ⊎ ((own_steps second_runs < 3) × CanStep (record s10 { runner = at_lock; ran = 5 ∷ 6 ∷ [] }))
served_in_turn_example = served_in_turn 1 second_waits [] [] 6 refl second_runs

abbrev item : ℕ → WorkItem ℕ
item f = record { future = f; fn = λ n. (returns n, n + f) }

abbrev two_items : Executor (WorkItem ℕ)
two_items = record { work_thread = 1; work_items = item 3 ∷ item 4 ∷ []; is_broken = false }

abbrev world : World ℕ
world = record { futures = λ f. if f =ℕ 3 then cancelled else pending; user = 0 }

run_until_future-Settles_example :
    Settles world.futures 1 (item 3 ∷ item 4 ∷ []) world (run_until_future 3 1 true two_items world)
run_until_future-Settles_example =
    run_until_future-Settles 1 3 two_items world refl (omega arith)
      ((λ q. absurd (omega arith), tt), (tt, tt)) (tt, (tt, tt))
