-- ===== src/Local/Restored.antt =====
-- The current context after `_restore_context` of asgiref/sync.py.
use asgire.Prelude.{
  ℕ, List, [], ◌∷◌, Bool, true, Option, none, some, ◌≡◌, inl, inr, refl, sym, ap, ◌∙◌, ◌=ℕ◌, ◌==◌,
  list_eq, nat_eq, if◌then◌else◌, Bool-cases, Option-cases, subst, =ℕ_iff,
}
use asgire.Prelude.Dict.{get, get-insert, get-Absent, IsDict, IsDict-insert}
use asgire.Local.{Storage, CValue, pair, object, Context, rehome, set_changed, restore_context}
use asgire.Local.Namespace.{Op, replies, replies-owner}

module _ {V : Type 0} where
  -- What is to stand under a variable: the restored value, or else what is there.
  abbrev pub restored : ℕ → Bool → Option (CValue V) → Option (CValue V) → Option (CValue V)
  restored ident named none old = old
  restored ident named (some v) old = some (rehome ident named v)

  -- The storage of a Local whose variable holds that.
  abbrev pub storage_of : Option (CValue V) → Option (Storage V)
  storage_of none = none
  storage_of (some (object x)) = none
  storage_of (some (pair s)) = some s

module _ {V : Type 0} (is_local : ℕ → Bool) (same : CValue V → CValue V → Bool) where
  IsDict-set_changed :
      (cvar : ℕ) (v : CValue V) (current : Context V)
      → IsDict current
      → IsDict (set_changed is_local same cvar v current)
  unfolding set_changed
  IsDict-set_changed cvar v current u = elim (Option-cases (get cvar current)) [
    | inl e ↦ rw (set_changed, e) (IsDict-insert cvar v current u)
    | inr (old, e) ↦ elim (Bool-cases (same old v)) [
      | inl y ↦ rw (set_changed, e, y) u
      | inr n ↦ rw (set_changed, e, n) (IsDict-insert cvar v current u)
    ]
  ]

  pub IsDict-restore_context :
      (ident : ℕ) (context current : Context V)
      → IsDict current
      → IsDict (restore_context is_local same ident context current)
  unfolding restore_context
  IsDict-restore_context ident [] current u = u
  IsDict-restore_context ident ((cvar, v) ∷ context) current u =
      let v' = rehome ident (is_local cvar) v in
      IsDict-restore_context ident context (set_changed is_local same cvar v' current)
        (IsDict-set_changed cvar v' current u)

module _ {V : Type 0} (is_local : ℕ → Bool) (same : CValue V → CValue V → Bool)
    (same_sound : (v w : CValue V) → same v w ≡ true → v ≡ w) where
  -- A variable that holds the value already is as good as written.
  get-held :
      (cvar c : ℕ) (v : CValue V) (current : Context V)
      → get cvar current ≡ some v
      → get c current ≡ (if cvar == c then some v else get c current)
  get-held cvar c v current e = elim (Bool-cases (cvar =ℕ c)) [
    | inl y ↦ rw y (subst (λ i. get i current ≡ some v) ((=ℕ_iff cvar c).0 y) e)
    | inr n ↦ rw n refl
  ]

  get-set_changed :
      (cvar c : ℕ) (v : CValue V) (current : Context V)
      → get c (set_changed is_local same cvar v current)
        ≡ (if cvar == c then some v else get c current)
  unfolding set_changed get
  get-set_changed cvar c v current = elim (Option-cases (get cvar current)) [
    | inl e ↦ rw (set_changed, e) (get-insert cvar c v current)
    | inr (old, e) ↦ elim (Bool-cases (same old v)) [
      | inl y ↦
          rw (set_changed, e, y)
            (get-held cvar c v current (e ∙ ap (λ (w : CValue V). some w) (same_sound old v y)))
      | inr n ↦ rw (set_changed, e, n) (get-insert cvar c v current)
    ]
  ]

  restored_next :
      (ident cvar c : ℕ) (v : CValue V) (context current : Context V)
      → get cvar context ≡ none
      → restored ident
          (is_local c)
          (get c context)
          (if cvar == c then some (rehome ident (is_local cvar) v) else get c current)
        ≡ restored ident (is_local c) (if cvar == c then some v else get c context) (get c current)
  restored_next ident cvar c v context current a = elim (Bool-cases (cvar =ℕ c)) [
    | inl y ↦
        rw (y, sym (ap (λ i. get i context) ((=ℕ_iff cvar c).0 y)) ∙ a)
          (ap (λ i. some (rehome ident (is_local i) v)) ((=ℕ_iff cvar c).0 y))
    | inr n ↦ rw n refl
  ]

  -- If the values that `==` does not tell apart are the same: after `_restore_context`, every
  -- variable of the context that is restored holds its value, re-homed to the current thread if it
  -- is a Local's, and every other variable what it held.
  pub get-restore_context :
      (ident : ℕ) (context current : Context V) (c : ℕ)
      → IsDict context
      → get c (restore_context is_local same ident context current)
        ≡ restored ident (is_local c) (get c context) (get c current)
  unfolding restore_context get
  get-restore_context ident [] current c u = refl
  get-restore_context ident ((cvar, v) ∷ context) current c u =
      let v' = rehome ident (is_local cvar) v in
      get-restore_context ident context (set_changed is_local same cvar v' current) c u.1
      ∙ ap (restored ident (is_local c) (get c context)) (get-set_changed cvar c v' current)
      ∙ restored_next ident cvar c v context current (get-Absent cvar context u.0)

  -- Under the same condition, the namespace of a Local moves with the context: after
  -- `_restore_context`, the accesses of the current thread answer as those of the owner would have,
  -- had it gone on in the old context.
  pub replies-restore_context :
      (ident c : ℕ) (context current : Context V) (s : Storage V) (ops : List (Op V))
      → IsDict context
      → IsDict s.storage_data
      → is_local c ≡ true
      → get c context ≡ some (pair s)
      → replies ident ops (storage_of (get c (restore_context is_local same ident context current)))
        ≡ replies s.thread_id ops (some s)
  unfolding rehome
  replies-restore_context ident c context current s ops u w n g =
      rw (get-restore_context ident context current c u, g, n)
        (replies-owner ident s.thread_id ops s.storage_data w)
