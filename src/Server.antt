-- ===== src/Server.antt =====
-- asgiref/server.py: StatelessServer's table of application instances. Scope ids are keys of any
-- type with an equality test, other Python objects are numbers; time.time() is an argument.
pub mod Oldest
pub mod Create
pub mod Invariant
pub mod Requests
pub mod Checker
pub mod History
pub mod Evicts
pub mod Mainloop
mod Tests
use asgire.Prelude
use asgire.Prelude.Result.{ok, err}
use asgire.Prelude.Exec.{◌>>◌}
use asgire.Prelude.{
  ℕ, zero, suc, ◌+◌, List, [], ◌∷◌, Bool, true, false, Option, none, some, ltb, leb, ◌=ℕ◌, length,
  if◌then◌else◌, Eq,
}
use asgire.Prelude.Int.{ℤ, pos, negsuc}
use asgire.Prelude.Dict.{Dict, get, insert, remove}

pub data TaskState : Type 0 where
  running returned cancelled : TaskState
  failed : ℕ → TaskState

-- An asyncio task: a request to cancel it does not end it yet.
pub record Task : Type 0 where
  pub state : TaskState
  pub cancel_requested : Bool

abbrev pub is_done : Task → Bool
is_done t = elim t.state [ running ↦ false | _ ↦ true ]

pub record Details : Type 0 where
  pub input_queue : ℕ
  pub future : ℕ
  pub scope : ℕ
  pub last_used : ℕ

pub data Error : Type 0 where
  key_error value_error cancelled_error out_of_fuel : Error
  application_error : ℕ → Error

abbrev pub Result : Type 0 → Type 0
Result A = Prelude.Result.Result Error A

-- `application` is what making an instance for a scope at a time raises, if it does: the call of the
-- application, or `ensure_future`. `is_true` is the truth value of an exception, and `next_id` the
-- number of the next queue and task to be made.
pub record Server (K : Type 0) : Type 0 where
  pub application : ℕ → ℕ → Option ℕ
  pub is_true : ℕ → Bool
  pub max_applications : ℤ
  pub application_instances : Dict K Details
  pub tasks : ℕ → Task
  pub next_id : ℕ

-- `n > max_applications`
abbrev pub exceeds : ℤ → ℕ → Bool
exceeds (pos max) n = ltb max n
exceeds (negsuc max) n = true

abbrev pub set_task : (ℕ → Task) → ℕ → Task → ℕ → Task
set_task tasks i t j = if i =ℕ j then t else tasks j

abbrev pub fresh_task : Task
fresh_task = record { state = running; cancel_requested = false }

abbrev pub Exec : Type 0 → Type 0 → Type 0
Exec K A = Prelude.Exec.Exec (Server K) Error A

-- `min` of the values' `last_used`, which is a ValueError on an empty table.
unfoldable pub min_used : {K : Type 0} → Dict K Details → Option ℕ
min_used [] = none
min_used ((k, d) ∷ rest) = elim (min_used rest) [
  | none ↦ some d.last_used
  | some t ↦ some (if leb d.last_used t then d.last_used else t)
]

unfoldable pub find_used : {K : Type 0} → ℕ → Dict K Details → Option K
find_used t [] = none
find_used t ((k, d) ∷ rest) = if d.last_used =ℕ t then some k else find_used t rest

module _ {K : Type 0} ⦃e : Eq K⦄ where
  abbrev pub cancel : ℕ → Server K → Server K
  cancel i s = record s {
    tasks = set_task s.tasks i (record (s.tasks i) { cancel_requested = true });
  }

  delete_found : K → Option Details → Exec K Unit
  delete_found scope_id none s = (err key_error, s)
  delete_found scope_id (some details) s =
      let s' = record s { application_instances = remove scope_id s.application_instances } in
      (ok tt, if is_done (s'.tasks details.future) then s' else cancel details.future s')

  pub delete_application_instance : K → Exec K Unit
  unfolding delete_found
  delete_application_instance scope_id s =
      delete_found scope_id (get scope_id s.application_instances) s

  delete_used : Option K → Exec K Unit
  unfolding delete_application_instance
  delete_used none s = (ok tt, s)
  delete_used (some scope_id) s = delete_application_instance scope_id s

  delete_since : Option ℕ → Exec K Unit
  unfolding delete_used
  delete_since none s = (err value_error, s)
  delete_since (some oldest_time) s = delete_used (find_used oldest_time s.application_instances) s

  pub delete_oldest_application_instance : Exec K Unit
  unfolding delete_since
  delete_oldest_application_instance s = delete_since (min_used s.application_instances) s

  -- `while len(self.application_instances) > self.max_applications`
  pub make_room : ℕ → Exec K Unit
  make_room zero s = (err out_of_fuel, s)
  make_room (suc fuel) s = elim (exceeds s.max_applications (length s.application_instances)) [
    | true ↦ (delete_oldest_application_instance >> make_room fuel) s
    | false ↦ (ok tt, s)
  ]

  pub create_by : Option ℕ → K → ℕ → ℕ → Exec K ℕ
  create_by (some x) scope_id scope now s = (err (application_error x), s)
  create_by none scope_id scope now s = (
    ok s.next_id,
    record s {
      application_instances =
          insert scope_id
            (record { input_queue = s.next_id; future = s.next_id; scope = scope; last_used = now })
            s.application_instances;
      tasks = set_task s.tasks s.next_id fresh_task;
      next_id = suc s.next_id;
    },
  )

  pub create : K → ℕ → ℕ → Exec K ℕ
  unfolding create_by
  create scope_id scope now s = create_by (s.application scope now) scope_id scope now s

  pub get_or_create_found : K → ℕ → ℕ → Option Details → Exec K ℕ
  unfolding create
  get_or_create_found scope_id scope now (some d) s = (
    ok d.input_queue,
    record s {
      application_instances =
          insert scope_id (record d { last_used = now }) s.application_instances;
    },
  )
  get_or_create_found scope_id scope now none s =
      (make_room (suc (length s.application_instances)) >> create scope_id scope now) s

  pub get_or_create_application_instance : K → ℕ → ℕ → Exec K ℕ
  unfolding get_or_create_found
  get_or_create_application_instance scope_id scope now s =
      get_or_create_found scope_id scope now (get scope_id s.application_instances) s

  -- One round of the checker, over the table as it was when the round began. The hook is what
  -- `await self.application_exception(exception, details)` does to the server, with all that runs
  -- in the meantime. A cancelled task's `exception()` raises CancelledError.
  check_done : (ℕ → Details → Server K → Server K) → TaskState → K → Details → Exec K Unit
  check_done hook running scope_id details s = (ok tt, s)
  check_done hook returned scope_id details s =
      (ok tt, record s { application_instances = remove scope_id s.application_instances })
  check_done hook cancelled scope_id details s = (err cancelled_error, s)
  check_done hook (failed x) scope_id details s =
      let s' = if s.is_true x then hook x details s else s in
      (ok tt, record s' { application_instances = remove scope_id s'.application_instances })

  check_items : (ℕ → Details → Server K → Server K) → List (K × Details) → Exec K Unit
  unfolding check_done
  check_items hook [] s = (ok tt, s)
  check_items hook ((scope_id, details) ∷ rest) s =
      (check_done hook (s.tasks details.future).state scope_id details >> check_items hook rest) s

  pub check : (ℕ → Details → Server K → Server K) → Exec K Unit
  unfolding check_items
  check hook s = check_items hook s.application_instances s
