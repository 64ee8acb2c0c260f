-- ===== src/Local/Critical.antt =====
-- asgiref/local.py: a Local that is thread critical, as one thread uses it: `_CVar` and
-- `_thread_critical_storage`.
use asgire.Prelude.{
  ℕ, suc, ◌=ℕ◌, [], Bool, true, false, Option, none, some, ◌≡◌, refl, ◌==◌, list_eq, if◌then◌else◌,
}
use asgire.Prelude.Dict.{Dict, get, insert, remove}
use asgire.Text.{Str, str}
use asgire.Local.{is_reserved}
use asgire.Local.Namespace.{Op, gets, sets, deletes}

-- What the `threading.local` has under a name: a value that was put there, a `_CVar`, known by its
-- number, or a `_CVar` whose `_data` a value has replaced.
pub data Attribute (V : Type 0) : Type 0 where
  plain : V → Attribute V
  cvar : ℕ → Attribute V
  without_data : V → Attribute V

-- `made` numbers the next `_CVar`.
pub record Thread (V : Type 0) : Type 0 where
  pub attributes : Dict Str (Attribute V)
  pub made : ℕ

-- What the context variable of each `_CVar` holds in a task's context.
abbrev pub Variables : Type 0 → Type 0
Variables V = ℕ → Option (Dict Str V)

-- What an access comes to: also a change of the Local object itself, a `_CVar` or its context
-- variable as what was read, a `_data` that is replaced, or an access that goes on in a value that
-- was put in the place of a `_CVar` or its `_data`.
pub data Answer (V : Type 0) : Type 0 where
  value : V → Answer V
  attribute_error done object_changed gave_cvar gave_data data_replaced : Answer V
  on_object : V → Answer V

module _ {V : Type 0} where
  abbrev pub set_variable : ℕ → Dict Str V → Variables V → Variables V
  set_variable n d vars m = if n =ℕ m then some d else vars m

  -- `self._data.get({})`
  abbrev pub data_of : Option (Dict Str V) → Dict Str V
  data_of none = []
  data_of (some d) = d

  abbrev pub of_read : Option V → Answer V
  of_read none = attribute_error
  of_read (some v) = value v

  delete_data : Str → ℕ → Option V → Variables V → Answer V × Variables V
  delete_data key n none vars = (attribute_error, vars)
  delete_data key n (some v) vars = (done, set_variable n (remove key (data_of (vars n))) vars)

  -- The three accessors of `_CVar`; `_data` itself is an attribute of the object, which a read
  -- finds and a write replaces.
  unfoldable pub cvar_access :
      ℕ → Op V → Thread V → Variables V → Answer V × (Thread V × Variables V)
  unfolding delete_data
  cvar_access n (gets key) thread vars = (
    if key == str "_data" then gave_data else of_read (get key (data_of (vars n))),
    (thread, vars),
  )
  cvar_access n (sets key v) thread vars =
      if key == str "_data"
      then (
        data_replaced,
        (
          record thread { attributes = insert (str "cvar") (without_data v) thread.attributes },
          vars,
        ),
      )
      else (done, (thread, set_variable n (insert key v (data_of (vars n))) vars))
  cvar_access n (deletes key) thread vars =
      let (r, vars') = delete_data key n (get key (data_of (vars n))) vars in (r, (thread, vars'))

  broken_access : V → Op V → Thread V → Answer V × Thread V
  broken_access x (gets key) thread = (if key == str "_data" then value x else on_object x, thread)
  broken_access x (sets key v) thread =
      if key == str "_data"
      then (
        data_replaced,
        record thread { attributes = insert (str "cvar") (without_data v) thread.attributes },
      )
      else (on_object x, thread)
  broken_access x (deletes key) thread = (on_object x, thread)

  ensured : Option (Attribute V) → Thread V → Thread V
  ensured none thread = record thread {
    attributes = insert (str "cvar") (cvar thread.made) thread.attributes;
    made = suc thread.made;
  }
  ensured (some a) thread = thread

  -- `if not hasattr(self._storage, "cvar"): self._storage.cvar = _CVar()`
  unfoldable pub ensure_cvar : Thread V → Thread V
  unfolding ensured
  ensure_cvar thread = ensured (get (str "cvar") thread.attributes) thread

  abbrev on_storage :
      Option (Attribute V) → Op V → Thread V → Variables V → Answer V × (Thread V × Variables V)
  on_storage none op thread vars = (attribute_error, (thread, vars))
  on_storage (some (plain v)) op thread vars = (on_object v, (thread, vars))
  on_storage (some (cvar n)) op thread vars = cvar_access n op thread vars
  on_storage (some (without_data v)) op thread vars =
      let (r, thread') = broken_access v op thread in (r, (thread', vars))

  -- An access where an event loop is running.
  unfoldable pub async_access : Op V → Thread V → Variables V → Answer V × (Thread V × Variables V)
  unfolding broken_access
  async_access op thread vars =
      let thread' = ensure_cvar thread in
      on_storage (get (str "cvar") thread'.attributes) op thread' vars

  of_attribute : Option (Attribute V) → Answer V
  of_attribute none = attribute_error
  of_attribute (some (plain v)) = value v
  of_attribute (some (cvar n)) = gave_cvar
  of_attribute (some (without_data v)) = gave_cvar

  deleted : Str → Option (Attribute V) → Thread V → Answer V × Thread V
  deleted key none thread = (attribute_error, thread)
  deleted key (some a) thread = (done, record thread { attributes = remove key thread.attributes })

  -- An access where no event loop is running: the plain `threading.local`.
  unfoldable pub sync_access : Op V → Thread V → Answer V × Thread V
  unfolding of_attribute deleted
  sync_access (gets key) thread = (of_attribute (get key thread.attributes), thread)
  sync_access (sets key v) thread =
      (done, record thread { attributes = insert key (plain v) thread.attributes })
  sync_access (deletes key) thread = deleted key (get key thread.attributes) thread

  unfoldable pub writes_reserved : Op V → Bool
  writes_reserved (gets key) = false
  writes_reserved (sets key v) = is_reserved key
  writes_reserved (deletes key) = false

  -- The three accessors of Local; the Boolean says whether an event loop is running.
  unfoldable pub critical_access :
      Bool → Op V → Thread V → Variables V → Answer V × (Thread V × Variables V)
  unfolding writes_reserved
  critical_access is_async op thread vars =
      if writes_reserved op
      then (object_changed, (thread, vars))
      else if is_async
      then async_access op thread vars
      else (let (r, thread') = sync_access op thread in (r, (thread', vars)))

  pub ensure_cvar_present :
      (a : Attribute V) (thread : Thread V)
      → get (str "cvar") thread.attributes ≡ some a
      → ensure_cvar thread ≡ thread
  unfolding ensure_cvar
  ensure_cvar_present a thread h = rw h refl

  pub async_access_lem :
      (n : ℕ) (op : Op V) (thread : Thread V) (vars : Variables V)
      → get (str "cvar") (ensure_cvar thread).attributes ≡ some (cvar n)
      → async_access op thread vars ≡ cvar_access n op (ensure_cvar thread) vars
  unfolding async_access
  async_access_lem n op thread vars h = rw h refl

  pub cvar_access_missing :
      (n : ℕ) (key : Str) (thread : Thread V) (vars : Variables V)
      → get key (data_of (vars n)) ≡ none
      → cvar_access n (deletes key) thread vars ≡ (attribute_error, (thread, vars))
  unfolding cvar_access
  cvar_access_missing n key thread vars h = rw h refl

  pub cvar_access_found :
      (n : ℕ) (key : Str) (v : V) (thread : Thread V) (vars : Variables V)
      → get key (data_of (vars n)) ≡ some v
      → cvar_access n (deletes key) thread vars
        ≡ (done, (thread, set_variable n (remove key (data_of (vars n))) vars))
  unfolding cvar_access
  cvar_access_found n key v thread vars h = rw h refl

  pub critical_access_unreserved :
      (op : Op V) (thread : Thread V) (vars : Variables V)
      → writes_reserved op ≡ false
      → critical_access true op thread vars ≡ async_access op thread vars
  unfolding critical_access
  critical_access_unreserved op thread vars h = rw h refl
