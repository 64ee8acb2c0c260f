-- ===== src/Server/Tests.antt =====
-- Runs of the server's methods, and its theorems at concrete inputs. Scope ids are numbers here.
use asgire.Prelude.{
  true, Option, none, some, ◌=ℕ◌, if◌then◌else◌, ℕ, List, [], ◌∷◌, false, ◌≡◌, nat_eq, inl, refl,
  arith,
}
use asgire.Prelude.Int.{pos}
use asgire.Prelude.Dict.{get, insert, remove, IsDict}
use asgire.Server.{
  Server, Details, TaskState, cancelled, failed, set_task, fresh_task, cancelled_error, check,
  make_room, min_used, find_used, get_or_create_application_instance, delete_application_instance,
  delete_oldest_application_instance,
}
use asgire.Server.Invariant.{Inv, Remembered, without-Inv}
use asgire.Server.Requests.{Served, get_or_create-Served}
use asgire.Server.History.{
  Call, gets, deletes_oldest, checks, ends, step, run, init, Sound, run-Sound,
}
use asgire.Server.Mainloop
use asgire.Server.Mainloop.{Turn, calls, of_checker, raises, arun}
use asgire.Server.Mainloop.Course.{Course}
use asgire.Server.Evicts.{EvictsOne, get_or_create-EvictsOne, restart, check_forgets}

-- The application raises for the scope 9.
abbrev app : ℕ → ℕ → Option ℕ
app scope now = if scope =ℕ 9 then some 4 else none

abbrev instance_of : ℕ → ℕ → Details
instance_of n used = record { input_queue = n; future = n; scope = 0; last_used = used }

abbrev two : ℕ → Server ℕ
two max = record {
  application = app;
  is_true = λ x. true;
  max_applications = pos max;
  application_instances = (10, instance_of 0 5) ∷ (11, instance_of 1 4) ∷ [];
  tasks = λ i. fresh_task;
  next_id = 2;
}

abbrev history : List (Call ℕ)
history = gets 10 0 5 ∷ gets 11 0 6 ∷ gets 12 9 6 ∷ ends 0 (failed 3) ∷ checks ∷ deletes_oldest ∷ []

two_keys : IsDict (two 1).application_instances
two_keys = ((λ q. absurd (omega arith), tt), (tt, tt))

oldest_goes :
    (delete_oldest_application_instance (two 1)).1.application_instances
    ≡ (10, instance_of 0 5) ∷ []
unfolding delete_oldest_application_instance delete_application_instance min_used find_used get
    remove
oldest_goes = refl

run-Sound_example : Sound 1 (run (init 1 app) history)
run-Sound_example = run-Sound 1 app history

-- A second round that finds a cancelled task ends the main loop.
abbrev turns : List (Turn ℕ)
turns = calls (gets 10 0 5) ∷ calls checks ∷ calls (ends 0 cancelled) ∷ calls checks ∷ []

raised_at_round : (Mainloop.run turns (init 1 app)).0 ≡ raises (of_checker cancelled_error)
unfolding Mainloop.run arun init check get_or_create_application_instance make_room get insert step
raised_at_round = refl

still_makes : (run (init 1 app) history).application 0 9 ≡ none
unfolding run delete_oldest_application_instance min_used check get_or_create_application_instance
    get init make_room insert find_used remove
still_makes = refl

get_or_create-Served_example :
    Served 1
      (run (init 1 app) history)
      12
      9
      (get_or_create_application_instance 12 0 9 (run (init 1 app) history))
get_or_create-Served_example =
    get_or_create-Served 1 (run (init 1 app) history) 12 0 9 (run-Sound 1 app history).limit
      still_makes (run-Sound 1 app history).inv

get_or_create-EvictsOne_example : EvictsOne 12 0 9 (two 1)
unfolding get
get_or_create-EvictsOne_example = get_or_create-EvictsOne 12 0 9 1 (two 1) refl refl refl two_keys

-- The second task has ended.
abbrev ended : TaskState → Server ℕ
ended st = record (two 1) {
  tasks = set_task (λ i. fresh_task) 1 (record { state = st; cancel_requested = false });
}

abbrev one_failed : Server ℕ
one_failed = record {
  application = app;
  is_true = λ x. true;
  max_applications = pos 5;
  application_instances = (10, instance_of 0 5) ∷ [];
  tasks = λ i. record { state = failed 3; cancel_requested = false };
  next_id = 1;
}

one_failed-Inv : Inv one_failed
one_failed-Inv = record {
  dict = (tt, tt);
  fresh = ((omega arith, omega arith), tt);
  tasks_apart = (tt, tt);
  queues_apart = (tt, tt);
  wanted = (refl, tt);
  remembered = λ i lt. inl (inl refl);
}

deleted-Inv : Inv (delete_application_instance 10 one_failed).1
unfolding delete_application_instance get
deleted-Inv = without-Inv one_failed 10 (instance_of 0 5) refl one_failed-Inv

check_forgets_example : ¬ Remembered (check (restart 10 0 9) one_failed).1 1
unfolding delete_application_instance get_or_create_application_instance make_room get insert remove
check_forgets_example =
    check_forgets (restart 10 0 9) one_failed 10 (instance_of 0 5) (instance_of 1 9) 3 refl refl
      refl
      (get_or_create-Served 5 (delete_application_instance 10 one_failed).1 10 0 9 refl refl
        deleted-Inv).inv
      refl refl
