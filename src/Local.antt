-- ===== src/Local.antt =====
-- asgiref/local.py: the storage behind a Local that is not thread critical, and the move of a
-- context to another thread by `_restore_context` of asgiref/sync.py. Values are of any type,
-- threads and context variables are numbers.
pub mod Namespace
pub mod Restored
pub mod Critical
pub mod Tasks
pub mod Shadow
mod Tests
use asgire.Prelude.{
  ℕ, List, [], ◌∷◌, Bool, true, false, ◌||◌, ◌&&◌, Option, none, some, ◌=ℕ◌, ◌==◌, list_eq, nat_eq,
  if◌then◌else◌,
}
use asgire.Prelude.Dict.{Dict, get, insert, remove}
use asgire.Text.{Str, str}

-- The `(thread_id, data)` pair.
pub record Storage (V : Type 0) : Type 0 where
  pub thread_id : ℕ
  pub storage_data : Dict Str V

-- What a write comes to: an attribute of the Local object itself, or new storage.
pub data Written (V : Type 0) : Type 0 where
  own_attribute : Written V
  stored : Storage V → Written V

unfoldable pub is_reserved : Str → Bool
is_reserved key =
    key == str "_local"
    || (key == str "_storage" || (key == str "_cvar" || key == str "_thread_critical"))

module _ {V : Type 0} where
  -- The data that a thread may touch: none of what another thread's tag is on.
  unfoldable pub owned : ℕ → Option (Storage V) → Dict Str V
  owned ident none = []
  owned ident (some storage) = if storage.thread_id =ℕ ident then storage.storage_data else []

  -- `__getattr__`, `none` for an AttributeError.
  unfoldable pub getattr : ℕ → Str → Option (Storage V) → Option V
  getattr ident key none = none
  getattr ident key (some storage) =
      if storage.thread_id =ℕ ident then get key storage.storage_data else none

  -- `__setattr__`.
  unfoldable pub setattr : ℕ → Str → V → Option (Storage V) → Written V
  unfolding is_reserved
  setattr ident key value storage =
      if is_reserved key
      then own_attribute
      else stored
          (record { thread_id = ident; storage_data = insert key value (owned ident storage) })

  abbrev pub has_key : Option V → Bool
  has_key none = false
  has_key (some v) = true

  -- `__delattr__`, `none` for an AttributeError.
  unfoldable pub delattr : ℕ → Str → Option (Storage V) → Option (Storage V)
  delattr ident key none = none
  delattr ident key (some storage) =
      if (storage.thread_id =ℕ ident) && has_key (get key storage.storage_data)
      then some (record { thread_id = ident; storage_data = remove key storage.storage_data })
      else none

-- What a context variable holds: a tuple, which Local's is, or another object.
pub data CValue (V : Type 0) : Type 0 where
  pair : Storage V → CValue V
  object : ℕ → CValue V

abbrev pub Context : Type 0 → Type 0
Context V = Dict ℕ (CValue V)

-- `_rehome`, where the variable has the name of Local's and holds a tuple.
unfoldable pub rehome : {V : Type 0} → ℕ → Bool → CValue V → CValue V
rehome ident named (object x) = object x
rehome ident named (pair storage) =
    if named then pair (record storage { thread_id = ident }) else pair storage

-- `is_local` says which variables have the name of Local's; `same` is Python's `==` on what they
-- hold.
module _ {V : Type 0} (is_local : ℕ → Bool) (same : CValue V → CValue V → Bool) where
  unfoldable pub set_changed : ℕ → CValue V → Context V → Context V
  set_changed cvar value current = elim (get cvar current) [
    | none ↦ insert cvar value current
    | some old ↦ if same old value then current else insert cvar value current
  ]

  unfoldable pub restore_context : ℕ → Context V → Context V → Context V
  unfolding set_changed rehome
  restore_context ident [] current = current
  restore_context ident ((cvar, value) ∷ context) current =
      restore_context ident context (set_changed cvar (rehome ident (is_local cvar) value) current)
