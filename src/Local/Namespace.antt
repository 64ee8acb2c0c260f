-- ===== src/Local/Namespace.antt =====
-- A Local as one namespace to each thread and context: what its reads, writes and deletions answer.
use asgire.Prelude.{
  ℕ, List, [], ◌∷◌, Option, none, some, ◌≡◌, ◌≢◌, inl, inr, refl, sym, ap, ◌∙◌, ◌=ℕ◌, ◌==◌, list_eq,
  if◌then◌else◌, Bool-cases, Option-cases, arith, =ℕ_iff,
}
use asgire.Prelude.Dict.{
  Dict, get, insert, remove, get-insert, get-remove, IsDict, IsDict-insert, IsDict-remove,
}
use asgire.Text.{Str}
use asgire.Local.{
  Storage, Written, own_attribute, stored, is_reserved, owned, getattr, setattr, delattr,
}

-- Calls of `__getattr__`, `__setattr__` and `__delattr__`. Python makes the first only for a name
-- that no attribute of the object or its class has.
pub data Op (V : Type 0) : Type 0 where
  gets : Str → Op V
  sets : Str → V → Op V
  deletes : Str → Op V

pub data Reply (V : Type 0) : Type 0 where
  value : V → Reply V
  attribute_error object_changed done : Reply V

-- The namespace alone: a function from names, without threads or storage.
abbrev pub Namespace : Type 0 → Type 0
Namespace V = Str → Option V

module _ {V : Type 0} where
  abbrev pub of_read : Option V → Reply V
  of_read none = attribute_error
  of_read (some v) = value v

  abbrev of_write : Option (Storage V) → Written V → Reply V × Option (Storage V)
  of_write storage own_attribute = (object_changed, storage)
  of_write storage (stored s) = (done, some s)

  abbrev of_delete : Option (Storage V) → Option (Storage V) → Reply V × Option (Storage V)
  of_delete storage none = (attribute_error, storage)
  of_delete storage (some s) = (done, some s)

  -- A write to a reserved name replaces an attribute that the accessors use; what calls do after
  -- it is not followed.
  abbrev pub followed : Reply V → List (Reply V) → List (Reply V)
  followed object_changed rest = []
  followed _ rest = rest

  -- One call by a thread, with the context variable's storage before and after.
  unfoldable pub access : ℕ → Op V → Option (Storage V) → Reply V × Option (Storage V)
  access ident (gets key) storage = (of_read (getattr ident key storage), storage)
  access ident (sets key v) storage = of_write storage (setattr ident key v storage)
  access ident (deletes key) storage = of_delete storage (delattr ident key storage)

  unfoldable pub replies : ℕ → List (Op V) → Option (Storage V) → List (Reply V)
  unfolding access
  replies ident [] storage = []
  replies ident (op ∷ ops) storage =
      let (r, storage') = access ident op storage in r ∷ followed r (replies ident ops storage')

  abbrev pub put : Str → Option V → Namespace V → Namespace V
  put key v space k = if key == k then v else space k

  abbrev pub of_found : Option V → Str → Namespace V → Reply V × Namespace V
  of_found none key space = (attribute_error, space)
  of_found (some v) key space = (done, put key none space)

  unfoldable pub answer : Op V → Namespace V → Reply V × Namespace V
  answer (gets key) space = (of_read (space key), space)
  answer (sets key v) space =
      if is_reserved key then (object_changed, space) else (done, put key (some v) space)
  answer (deletes key) space = of_found (space key) key space

  unfoldable pub answers : List (Op V) → Namespace V → List (Reply V)
  unfolding answer
  answers [] space = []
  answers (op ∷ ops) space =
      let (r, space') = answer op space in r ∷ followed r (answers ops space')

  abbrev pub visible : ℕ → Option (Storage V) → Namespace V
  visible ident storage key = get key (owned ident storage)

  -- A namespace stands for what a thread sees of the storage, whose data is a dict.
  abbrev Shows : ℕ → Option (Storage V) → Namespace V → Type 0
  Shows ident storage space =
      IsDict (owned ident storage) × ((key : Str) → visible ident storage key ≡ space key)

  getattr-visible :
      (ident : ℕ) (key : Str) (storage : Option (Storage V))
      → getattr ident key storage ≡ visible ident storage key
  unfolding getattr owned get
  getattr-visible ident key none = refl
  getattr-visible ident key (some s) = elim (Bool-cases (s.thread_id =ℕ ident)) [
    | inl y ↦ rw y refl
    | inr n ↦ rw n refl
  ]

  owned_own :
      (ident : ℕ) (d : Dict Str V)
      → owned ident (some (record { thread_id = ident; storage_data = d })) ≡ d
  unfolding owned
  owned_own ident d = rw ((=ℕ_iff ident ident).1 refl) refl

  Shows-set :
      (ident : ℕ) (key : Str) (v : V) (storage : Option (Storage V)) (space : Namespace V)
      → Shows ident storage space
      → Shows ident
          (some (record { thread_id = ident; storage_data = insert key v (owned ident storage) }))
          (put key (some v) space)
  Shows-set ident key v storage space (u, h) =
      rw (owned_own ident (insert key v (owned ident storage))) (
        IsDict-insert key v (owned ident storage) u,
        λ k. ground (arith, get-insert key k v (owned ident storage), h k),
      )

  Shows-delete :
      (ident : ℕ) (key : Str) (storage : Option (Storage V)) (space : Namespace V)
      → Shows ident storage space
      → Shows ident
          (some (record { thread_id = ident; storage_data = remove key (owned ident storage) }))
          (put key none space)
  Shows-delete ident key storage space (u, h) =
      rw (owned_own ident (remove key (owned ident storage))) (
        IsDict-remove key (owned ident storage) u,
        λ k. ground (arith, get-remove key k (owned ident storage) u, h k),
      )

  delattr_missing :
      (ident : ℕ) (key : Str) (storage : Option (Storage V))
      → visible ident storage key ≡ none
      → delattr ident key storage ≡ none
  unfolding delattr owned get
  delattr_missing ident key none h = refl
  delattr_missing ident key (some s) h = elim (Bool-cases (s.thread_id =ℕ ident)) [
    | inl y ↦ let g : get key s.storage_data ≡ none = ground (arith, y, h) in rw (y, g) refl
    | inr n ↦ rw n refl
  ]

  delattr_found :
      (ident : ℕ) (key : Str) (v : V) (storage : Option (Storage V))
      → visible ident storage key ≡ some v
      → delattr ident key storage
        ≡ some (record { thread_id = ident; storage_data = remove key (owned ident storage) })
  unfolding delattr owned get
  delattr_found ident key v none h = cc
  delattr_found ident key v (some s) h = elim (Bool-cases (s.thread_id =ℕ ident)) [
    | inl y ↦ let g : get key s.storage_data ≡ some v = ground (arith, y, h) in rw (y, g) refl
    | inr n ↦ ground (arith, n, h)
  ]

  access_lem :
      (ident : ℕ) (op : Op V) (storage : Option (Storage V)) (space : Namespace V)
      → Shows ident storage space
      → ((access ident op storage).0 ≡ (answer op space).0)
        × Shows ident (access ident op storage).1 (answer op space).1
  unfolding access answer setattr
  access_lem ident (gets key) storage space sh =
      (ap of_read (getattr-visible ident key storage ∙ sh.1 key), sh)
  access_lem ident (sets key v) storage space sh = elim (Bool-cases (is_reserved key)) [
    | inl y ↦ rw y (refl, sh)
    | inr n ↦ rw n (refl, Shows-set ident key v storage space sh)
  ]
  access_lem ident (deletes key) storage space sh = elim (Option-cases (space key)) [
    | inl e ↦ rw (e, delattr_missing ident key storage (sh.1 key ∙ e)) (refl, sh)
    | inr (v, e) ↦
        rw (e, delattr_found ident key v storage (sh.1 key ∙ e))
          (refl, Shows-delete ident key storage space sh)
  ]

  replies-Shows :
      (ident : ℕ) (ops : List (Op V)) (storage : Option (Storage V)) (space : Namespace V)
      → Shows ident storage space
      → replies ident ops storage ≡ answers ops space
  unfolding replies answers
  replies-Shows ident [] storage space sh = refl
  replies-Shows ident (op ∷ ops) storage space sh =
      let (q, sh') = access_lem ident op storage space sh in
      cc (q, replies-Shows ident ops (access ident op storage).1 (answer op space).1 sh')

  -- Any calls of the accessors by one thread in one context, up to a write to a reserved name, which
  -- changes the object itself, answer as those of one namespace, which is at first what the thread
  -- sees of the storage: a read or a deletion of a missing name is an AttributeError.
  pub replies-eq-answers :
      (ident : ℕ) (ops : List (Op V)) (storage : Option (Storage V))
      → IsDict (owned ident storage)
      → replies ident ops storage ≡ answers ops (visible ident storage)
  replies-eq-answers ident ops storage u =
      replies-Shows ident ops storage (visible ident storage) (u, λ k. refl)

  -- Of data that is its own, one thread sees what another does.
  pub replies-owner :
      (i j : ℕ) (ops : List (Op V)) (d : Dict Str V)
      → IsDict d
      → replies i ops (some (record { thread_id = i; storage_data = d }))
        ≡ replies j ops (some (record { thread_id = j; storage_data = d }))
  replies-owner i j ops d u = shown i ∙ sym (shown j)
    where
      shown :
          (k : ℕ)
          → replies k ops (some (record { thread_id = k; storage_data = d }))
            ≡ answers ops (λ key. get key d)
      shown k =
          replies-Shows k ops (some (record { thread_id = k; storage_data = d })) (λ key. get key d)
            (rw (owned_own k d) (u, λ key. refl))

  owned_other : (ident : ℕ) (s : Storage V) → s.thread_id ≢ ident → owned ident (some s) ≡ []
  unfolding owned
  owned_other ident s ne = ground (arith, =ℕ_iff s.thread_id ident)

  Shows-nothing :
      (ident : ℕ) (storage : Option (Storage V))
      → owned ident storage ≡ []
      → Shows ident storage (λ key. none)
  unfolding get
  Shows-nothing ident storage h = rw h (tt, λ key. refl)

  -- To a thread, storage that another thread's tag is on is as good as none: no sequence of
  -- accesses tells them apart.
  pub replies-inherited :
      (ident : ℕ) (ops : List (Op V)) (s : Storage V)
      → s.thread_id ≢ ident
      → replies ident ops (some s) ≡ replies ident ops none
  unfolding owned
  replies-inherited ident ops s ne =
      replies-Shows ident ops (some s) (λ key. none)
        (Shows-nothing ident (some s) (owned_other ident s ne))
      ∙ sym (replies-Shows ident ops none (λ key. none) (Shows-nothing ident none refl))
