-- ===== src/Local/Tasks.antt =====
-- The tasks of one event loop and a thread-critical Local of asgiref/local.py.
use asgire.Prelude.{
  ℕ, List, [], ◌∷◌, true, false, Option, none, some, ◌≡◌, inl, inr, refl, ap, ◌∙◌, ◌=ℕ◌, ◌==◌,
  list_eq, if◌then◌else◌, Bool-cases, Option-cases, arith, =ℕ_iff, All,
}
use asgire.Prelude.Dict.{
  Dict, get, insert, remove, get-insert, get-remove, IsDict, IsDict-insert, IsDict-remove,
}
use asgire.Text.{Str, str}
use asgire.Local.Namespace.{Op, gets, sets, deletes, Reply, Namespace, answer, put}
use asgire.Local.Namespace
use asgire.Local.Critical.{
  cvar, Thread, Variables, Answer, value, attribute_error, done, object_changed, data_of,
  set_variable, of_read, ensure_cvar, cvar_access, critical_access, writes_reserved,
  ensure_cvar_present, async_access_lem, cvar_access_missing, cvar_access_found,
  critical_access_unreserved,
}

-- A task's access, or a task that another one makes, with a copy of its context.
pub data Event (V : Type 0) : Type 0 where
  does : ℕ → Op V → Event V
  spawns : ℕ → ℕ → Event V

abbrev set_of {ℓ} : {A : Type ℓ} → ℕ → A → (ℕ → A) → ℕ → A
set_of t a f u = if t =ℕ u then a else f u

module _ {V : Type 0} where
  -- As in Namespace, nothing is followed after a write to a reserved name.
  abbrev pub followed : Answer V → List (Answer V) → List (Answer V)
  followed object_changed rest = []
  followed _ rest = rest

  unfoldable pub task_answers : List (Event V) → Thread V → (ℕ → Variables V) → List (Answer V)
  task_answers [] thread contexts = []
  task_answers (does t op ∷ es) thread contexts =
      let (r, next) = critical_access true op thread (contexts t) in
      r ∷ followed r (task_answers es next.0 (set_of t next.1 contexts))
  task_answers (spawns t u ∷ es) thread contexts =
      task_answers es thread (set_of u (contexts t) contexts)

  abbrev pub of_reply : Reply V → Answer V
  of_reply (Namespace.value v) = value v
  of_reply Namespace.attribute_error = attribute_error
  of_reply Namespace.object_changed = object_changed
  of_reply Namespace.done = done

  -- One namespace for each task; a new task begins with its maker's.
  unfoldable pub space_answers : List (Event V) → (ℕ → Namespace V) → List (Answer V)
  space_answers [] spaces = []
  space_answers (does t op ∷ es) spaces =
      let (r, space) = answer op (spaces t) in
      of_reply r ∷ followed (of_reply r) (space_answers es (set_of t space spaces))
  space_answers (spawns t u ∷ es) spaces = space_answers es (set_of u (spaces t) spaces)

  -- An access that does not read or write the `_data` of the `_CVar`.
  abbrev pub Ordinary : Op V → Type 0
  Ordinary (gets key) = (key == str "_data") ≡ false
  Ordinary (sets key v) = (key == str "_data") ≡ false
  Ordinary (deletes key) = Unit

  abbrev pub IsOrdinary : Event V → Type 0
  IsOrdinary (does t op) = Ordinary op
  IsOrdinary (spawns t u) = Unit

  -- A namespace stands for the variable of the thread's `_CVar` in a task's context.
  abbrev Holds : ℕ → Variables V → Namespace V → Type 0
  Holds n vars space =
      IsDict (data_of (vars n)) × ((key : Str) → get key (data_of (vars n)) ≡ space key)

  abbrev Has : ℕ → Thread V → Type 0
  Has n thread = get (str "cvar") (ensure_cvar thread).attributes ≡ some (cvar n)

  set_variable_same :
      (n : ℕ) (d : Dict Str V) (vars : Variables V) → set_variable n d vars n ≡ some d
  set_variable_same n d vars = rw ((=ℕ_iff n n).1 refl) refl

  Holds-sets :
      (n : ℕ) (key : Str) (v : V) (vars : Variables V) (space : Namespace V)
      → Holds n vars space
      → Holds n (set_variable n (insert key v (data_of (vars n))) vars) (put key (some v) space)
  Holds-sets n key v vars space (u, h) =
      rw (set_variable_same n (insert key v (data_of (vars n))) vars) (
        IsDict-insert key v (data_of (vars n)) u,
        λ k. ground (arith, get-insert key k v (data_of (vars n)), h k),
      )

  Holds-deletes :
      (n : ℕ) (key : Str) (vars : Variables V) (space : Namespace V)
      → Holds n vars space
      → Holds n (set_variable n (remove key (data_of (vars n))) vars) (put key none space)
  Holds-deletes n key vars space (u, h) =
      rw (set_variable_same n (remove key (data_of (vars n))) vars) (
        IsDict-remove key (data_of (vars n)) u,
        λ k. ground (arith, get-remove key k (data_of (vars n)) u, h k),
      )

  -- One ordinary access: its answer, the thread's `_CVar`, and the namespace afterwards.
  record Same (n : ℕ) (r : Answer V × (Thread V × Variables V)) (a : Reply V × Namespace V)
      : Type 0 where
    reply : r.0 ≡ of_reply a.0
    has : Has n r.1.0
    holds : Holds n r.1.1 a.1

  of_read_lem : (o : Option V) → of_read o ≡ of_reply (Namespace.of_read o)
  of_read_lem none = refl
  of_read_lem (some v) = refl

  deletes-Same :
      (n : ℕ) (key : Str) (thread : Thread V) (vars : Variables V) (space : Namespace V)
      → Has n thread
      → Holds n vars space
      → Same n (cvar_access n (deletes key) thread vars) (answer (deletes key) space)
  unfolding answer
  deletes-Same n key thread vars space h sh = elim (Option-cases (space key)) [
    | inl e ↦
        rw (e, cvar_access_missing n key thread vars (sh.1 key ∙ e))
          (record { reply = refl; has = h; holds = sh })
    | inr (v, e) ↦
        rw (e, cvar_access_found n key v thread vars (sh.1 key ∙ e))
          (record { reply = refl; has = h; holds = Holds-deletes n key vars space sh })
  ]

  cvar_access-Same :
      (n : ℕ) (op : Op V) (thread : Thread V) (vars : Variables V) (space : Namespace V)
      → Has n thread
      → Holds n vars space
      → Ordinary op
      → writes_reserved op ≡ false
      → Same n (cvar_access n op thread vars) (answer op space)
  unfolding cvar_access answer writes_reserved
  cvar_access-Same n (gets key) thread vars space h sh o w =
      rw o (record { reply = ap of_read (sh.1 key) ∙ of_read_lem (space key); has = h; holds = sh })
  cvar_access-Same n (sets key v) thread vars space h sh o w =
      rw (o, w) (record { reply = refl; has = h; holds = Holds-sets n key v vars space sh })
  cvar_access-Same n (deletes key) thread vars space h sh o w =
      deletes-Same n key thread vars space h sh

  ensured-Has : (n : ℕ) (thread : Thread V) → Has n thread → Has n (ensure_cvar thread)
  ensured-Has n thread h = rw (ensure_cvar_present (cvar n) (ensure_cvar thread) h) h

  reserved-Same :
      (n : ℕ) (op : Op V) (thread : Thread V) (vars : Variables V) (space : Namespace V)
      → Has n thread
      → Holds n vars space
      → writes_reserved op ≡ true
      → Same n (critical_access true op thread vars) (answer op space)
  unfolding answer writes_reserved critical_access
  reserved-Same n (gets key) thread vars space h sh w = cc
  reserved-Same n (sets key v) thread vars space h sh w =
      rw w (record { reply = refl; has = h; holds = sh })
  reserved-Same n (deletes key) thread vars space h sh w = cc

  access-Same :
      (n : ℕ) (op : Op V) (thread : Thread V) (vars : Variables V) (space : Namespace V)
      → Has n thread
      → Holds n vars space
      → Ordinary op
      → Same n (critical_access true op thread vars) (answer op space)
  access-Same n op thread vars space h sh o = elim (Bool-cases (writes_reserved op)) [
    | inl y ↦ reserved-Same n op thread vars space h sh y
    | inr w ↦
        rw (critical_access_unreserved op thread vars w ∙ async_access_lem n op thread vars h)
          (cvar_access-Same n op (ensure_cvar thread) vars space (ensured-Has n thread h) sh o w)
  ]

  Holds-set_of :
      (n t : ℕ) (vars : Variables V) (space : Namespace V) (contexts : ℕ → Variables V)
      (spaces : ℕ → Namespace V)
      → Holds n vars space
      → ((u : ℕ) → Holds n (contexts u) (spaces u))
      → (u : ℕ) → Holds n (set_of t vars contexts u) (set_of t space spaces u)
  Holds-set_of n t vars space contexts spaces h hs u = elim (Bool-cases (t =ℕ u)) [
    | inl y ↦ rw y h
    | inr m ↦ rw m (hs u)
  ]

  task_answers-Holds :
      (n : ℕ) (es : List (Event V)) (thread : Thread V) (contexts : ℕ → Variables V)
      (spaces : ℕ → Namespace V)
      → Has n thread
      → ((t : ℕ) → Holds n (contexts t) (spaces t))
      → All IsOrdinary es
      → task_answers es thread contexts ≡ space_answers es spaces
  unfolding task_answers space_answers
  task_answers-Holds n [] thread contexts spaces h hs o = refl
  task_answers-Holds n (does t op ∷ es) thread contexts spaces h hs o =
      let r = critical_access true op thread (contexts t) in
      let a = answer op (spaces t) in
      let same = access-Same n op thread (contexts t) (spaces t) h (hs t) o.0 in
      cc (
        same.reply,
        task_answers-Holds n es r.1.0 (set_of t r.1.1 contexts) (set_of t a.1 spaces) same.has
            (Holds-set_of n t r.1.1 a.1 contexts spaces same.holds hs) o.1,
      )
  task_answers-Holds n (spawns t u ∷ es) thread contexts spaces h hs o =
      task_answers-Holds n es thread (set_of u (contexts t) contexts) (set_of u (spaces t) spaces) h
        (Holds-set_of n u (contexts t) (spaces t) contexts spaces (hs t) hs) o.1

  abbrev pub fresh_thread : Thread V
  fresh_thread = record { attributes = []; made = 0 }

  -- In a thread that runs an event loop and has not used the Local before, any interleaving of the
  -- tasks' calls of the accessors and of tasks that make tasks, up to a write to a reserved name,
  -- answers as one namespace for each task, empty at first and for a new task its maker's, if no
  -- call reads or writes the name `_data`.
  pub task_answers-eq-space_answers :
      (es : List (Event V))
      → All IsOrdinary es
      → task_answers es fresh_thread (λ t n. none) ≡ space_answers es (λ t key. none)
  unfolding ensure_cvar get insert
  task_answers-eq-space_answers es o =
      task_answers-Holds 0 es fresh_thread (λ t n. none) (λ t key. none) refl
        (λ t. (tt, λ key. refl)) o
