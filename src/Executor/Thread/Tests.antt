-- ===== src/Executor/Thread/Tests.antt =====
-- An item that calls AsyncToSync, whose awaitable has an item run before it returns.
use asgire.Prelude.{some, ℕ, [], ◌∷◌, false, ◌≡◌, ◌⊎◌, refl, arith, ◌=ℕ◌, if◌then◌else◌}
use asgire.Executor.{pushed, walk, accept, mark_done, poll, init}
use asgire.Executor.Submit.{AllBroken}
use asgire.Executor.Concurrent
use asgire.Executor.Concurrent.{System, at_lock, at_item, returned, start}
use asgire.Executor.Thread.{
  Thread, set_at, chain, executors, moves, calls, returns, ThreadReach, begins, goes_on, outermost,
}
use asgire.Executor.Thread.Served.{IsAccepted, returned_call}

abbrev moved : ℕ → System ℕ → Thread ℕ → Thread ℕ
moved i u s = record s { at = set_at i u s.at }

abbrev new : System ℕ
new = start 1

abbrev with_item : ℕ → System ℕ
with_item x = record new {
  executor = record { work_thread = 1; work_items = x ∷ []; is_broken = false };
  accepted = x ∷ [];
}

abbrev at_work : ℕ → System ℕ
at_work x = record new { executor = init 1; runner = at_item x; accepted = x ∷ [] }

abbrev t1 : Thread ℕ
t1 = moved 0 (with_item 5) (outermost 1)

abbrev t2 : Thread ℕ
t2 = moved 0 (at_work 5) t1

abbrev t3 : Thread ℕ
t3 = record t2 { olds = λ j. if 1 =ℕ j then 0 ∷ [] else []; made = 2; stack = 1 ∷ 0 ∷ [] }

abbrev t4 : Thread ℕ
t4 = moved 1 (with_item 6) t3

abbrev t5 : Thread ℕ
t5 = moved 1 (at_work 6) t4

abbrev done_at_work : System ℕ
done_at_work = record (at_work 6) { executor = mark_done (init 1) }

abbrev t6 : Thread ℕ
t6 = moved 1 done_at_work t5

abbrev ran_all : System ℕ
ran_all = record done_at_work { runner = at_lock; ran = 6 ∷ [] }

abbrev t7 : Thread ℕ
t7 = moved 1 ran_all t6

abbrev t8 : Thread ℕ
t8 = record (moved 1 (record ran_all { runner = returned }) t7) { stack = 0 ∷ [] }

inner_call : ThreadReach (outermost 1) t3
unfolding accept poll init
inner_call =
    goes_on
      (goes_on
        (goes_on begins (
          moves 0 (with_item 5) (Concurrent.submits 5 (with_item 5).executor refl refl)
            (record {
              via = 0;
              via_made = omega arith;
              quit = [];
              up = [];
              is_up = refl;
              quit_broken = tt;
            })
            refl))
        (moves 0 (at_work 5) (Concurrent.polls 5 (init 1) refl refl refl)
          (record { outer = []; is_top = refl }) refl))
      (calls 0 (some 0) 5 (record { outer = []; is_top = refl }) refl (omega arith) refl)

inner_item : ThreadReach (outermost 1) t5
unfolding accept poll init
inner_item =
    goes_on
      (goes_on inner_call (
        moves 1 (with_item 6) (Concurrent.submits 6 (with_item 6).executor refl refl)
          (record {
            via = 1;
            via_made = omega arith;
            quit = [];
            up = 0 ∷ [];
            is_up = refl;
            quit_broken = tt;
          })
          refl))
      (moves 1 (at_work 6) (Concurrent.polls 6 (init 1) refl refl refl)
        (record { outer = 0 ∷ []; is_top = refl }) refl)

inner_returned : ThreadReach (outermost 1) t8
unfolding accept mark_done poll init
inner_returned =
    goes_on
      (goes_on
        (goes_on inner_item (moves 1 done_at_work (Concurrent.completes refl) (omega arith) refl))
        (moves 1 ran_all (Concurrent.runs 6 refl refl) (record { outer = 0 ∷ []; is_top = refl })
          refl))
      (returns 1 (record { outer = 0 ∷ []; is_top = refl }) refl refl refl)

returned_call_example :
    ((t8.at 1).ran ≡ (t8.at 1).accepted)
    × (walk (executors t8 (chain t8 1)) 7
        ≡ pushed (t8.at 1).executor (walk (executors t8 (t8.olds 1)) 7))
    × (AllBroken (executors t8 (t8.olds 1)) ⊎ IsAccepted (walk (executors t8 (chain t8 1)) 7))
returned_call_example = returned_call 1 inner_returned 1 (omega arith) refl 7
