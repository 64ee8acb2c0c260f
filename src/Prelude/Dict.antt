-- ===== src/Prelude/Dict.antt =====
-- Python's dict as an association list in insertion order: a write to a key that is there keeps
-- its place, a write to a new key goes to the end.
use asgire.Prelude.Equality.{Eq, ◌==◌, ==-refl}
use asgire.Prelude.Tests.{if◌then◌else◌, Bool-cases}
use asgire.Prelude.Lists.{length, All}
use Prim.Native.Nat.{suc}
use mathlib.Core.Path.{◌≡◌, refl, sym, subst}
use mathlib.Core.Logic.{◌≢◌, inl, inr}
use mathlib.Core.Option.{Option, none, some}
use mathlib.Core.List.{List, [], ◌∷◌, ◌++◌}
use native.Mathlib.Omega.{arith}

abbrev pub Dict {ℓ κ} : Type ℓ → Type κ → Type (ℓ ⊔ κ)
Dict K V = List (K × V)

module _ {ℓ κ} {K : Type ℓ} {V : Type κ} ⦃e : Eq K⦄ where
  unfoldable pub get : K → Dict K V → Option V
  get k [] = none
  get k ((j, v) ∷ d) = if j == k then some v else get k d

  unfoldable pub insert : K → V → Dict K V → Dict K V
  insert k v [] = (k, v) ∷ []
  insert k v ((j, w) ∷ d) = if j == k then (j, v) ∷ d else (j, w) ∷ insert k v d

  -- The key's entry goes, if there is one; keys of a dict are distinct.
  unfoldable pub remove : K → Dict K V → Dict K V
  remove k [] = []
  remove k ((j, w) ∷ d) = if j == k then d else (j, w) ∷ remove k d

  pub get-insert :
      (k j : K) (v : V) (d : Dict K V) → get j (insert k v d) ≡ (if k == j then some v else get j d)
  unfolding get insert
  get-insert k j v [] = refl
  get-insert k j v ((i, w) ∷ d) =
      ground (arith, e.test_iff k j, e.test_iff i k, e.test_iff i j, get-insert k j v d)

  -- A write to a new key goes to the end.
  pub insert-new : (k : K) (v : V) (d : Dict K V) → get k d ≡ none → insert k v d ≡ d ++ (k, v) ∷ []
  unfolding get insert
  insert-new k v [] h = refl
  insert-new k v ((j, w) ∷ d) h = ground (arith, insert-new k v d)

  -- A write to a key that is there keeps the size.
  pub length-insert_old :
      (k : K) (v w : V) (d : Dict K V) → get k d ≡ some w → length (insert k v d) ≡ length d
  unfolding get insert
  length-insert_old k v w [] h = cc
  length-insert_old k v w ((j, u) ∷ d) h = ground (arith, length-insert_old k v w d)

  pub length-remove :
      (k : K) (w : V) (d : Dict K V) → get k d ≡ some w → suc (length (remove k d)) ≡ length d
  unfolding get remove
  length-remove k w [] h = cc
  length-remove k w ((j, u) ∷ d) h = ground (arith, length-remove k w d)

  -- No entry has this key.
  abbrev pub Absent : K → Dict K V → Type ℓ
  Absent k [] = Unit
  Absent k ((j, w) ∷ d) = (k ≢ j) × Absent k d

  abbrev pub IsDict : Dict K V → Type ℓ
  IsDict [] = Unit
  IsDict ((j, w) ∷ d) = Absent j d × IsDict d

  pub get-Absent : (k : K) (d : Dict K V) → Absent k d → get k d ≡ none
  unfolding get
  get-Absent k [] a = refl
  get-Absent k ((j, w) ∷ d) a = ground (arith, e.test_iff j k, get-Absent k d a.1)

  pub Absent-get : (k : K) (d : Dict K V) → get k d ≡ none → Absent k d
  unfolding get
  Absent-get k [] h = tt
  Absent-get k ((j, w) ∷ d) h = elim (Bool-cases (j == k)) [
    | inl y ↦ cc (h, y)
    | inr n ↦ (λ q. ground (arith, e.test_iff j k), Absent-get k d (ground arith))
  ]

  Absent-insert : (k j : K) (v : V) (d : Dict K V) → j ≢ k → Absent j d → Absent j (insert k v d)
  unfolding insert
  Absent-insert k j v [] h a = (h, tt)
  Absent-insert k j v ((i, w) ∷ d) h a = ground (arith, Absent-insert k j v d)

  pub IsDict-insert : (k : K) (v : V) (d : Dict K V) → IsDict d → IsDict (insert k v d)
  unfolding insert
  IsDict-insert k v [] h = (tt, tt)
  IsDict-insert k v ((j, w) ∷ d) h = elim (Bool-cases (j == k)) [
    | inl y ↦ rw y h
    | inr n ↦
        rw n
          (Absent-insert k j v d (λ q. ground (arith, e.test_iff j k)) h.0, IsDict-insert k v d h.1)
  ]

  Absent-remove : (k j : K) (d : Dict K V) → Absent j d → Absent j (remove k d)
  unfolding remove
  Absent-remove k j [] a = tt
  Absent-remove k j ((i, w) ∷ d) a = ground (arith, Absent-remove k j d)

  pub IsDict-remove : (k : K) (d : Dict K V) → IsDict d → IsDict (remove k d)
  unfolding remove
  IsDict-remove k [] h = tt
  IsDict-remove k ((j, w) ∷ d) h = elim (Bool-cases (j == k)) [
    | inl y ↦ rw y h.1
    | inr n ↦ rw n (Absent-remove k j d h.0, IsDict-remove k d h.1)
  ]

  pub get-remove :
      (k j : K) (d : Dict K V) → IsDict d → get j (remove k d) ≡ (if k == j then none else get j d)
  unfolding get remove
  get-remove k j [] h = ground arith
  get-remove k j ((i, w) ∷ d) h = ground (
    arith,
    e.test_iff k j,
    e.test_iff i k,
    e.test_iff i j,
    get-remove k j d h.1,
    get-Absent i d h.0,
  )

  pub remove_missing : (k : K) (d : Dict K V) → get k d ≡ none → remove k d ≡ d
  unfolding get remove
  remove_missing k [] h = refl
  remove_missing k ((j, w) ∷ d) h = ground (arith, remove_missing k d)

  -- What was written to a new key goes without a trace.
  pub remove-insert_new :
      (k : K) (v : V) (d : Dict K V) → get k d ≡ none → remove k (insert k v d) ≡ d
  unfolding get insert remove
  remove-insert_new k v [] h = rw (==-refl k) refl
  remove-insert_new k v ((j, w) ∷ d) h = elim (Bool-cases (j == k)) [
    | inl y ↦ cc (h, y)
    | inr n ↦ rw (n, n) (ground (arith, remove-insert_new k v d))
  ]

  pub All-remove {μ} : (P : K × V → Type μ) (k : K) (d : Dict K V) → All P d → All P (remove k d)
  unfolding remove
  All-remove P k [] h = tt
  All-remove P k ((j, w) ∷ d) h = elim (Bool-cases (j == k)) [
    | inl y ↦ rw y h.1
    | inr n ↦ rw n (h.0, All-remove P k d h.1)
  ]

  pub All-insert {μ} :
      (P : K × V → Type μ) (k : K) (v : V) (d : Dict K V)
      → P (k, v)
      → All P d
      → All P (insert k v d)
  unfolding insert
  All-insert P k v [] p h = (p, tt)
  All-insert P k v ((j, w) ∷ d) p h = elim (Bool-cases (j == k)) [
    | inl y ↦ rw y (subst (λ i. P (i, v)) (sym ((e.test_iff j k).0 y)) p, h.1)
    | inr n ↦ rw n (h.0, All-insert P k v d p h.1)
  ]

  pub All-get {μ} :
      (P : K × V → Type μ) (k : K) (v : V) (d : Dict K V) → get k d ≡ some v → All P d → P (k, v)
  unfolding get
  All-get P k v [] g h = cc
  All-get P k v ((j, w) ∷ d) g h = elim (Bool-cases (j == k)) [
    | inl y ↦ subst (λ (u : K × V). P u) (ground (arith, e.test_iff j k)) h.0
    | inr n ↦ All-get P k v d (ground arith) h.1
  ]

  pub remove-split :
      (k : K) (v : V) (pre post : Dict K V)
      → Absent k pre
      → remove k (pre ++ (k, v) ∷ post) ≡ pre ++ post
  unfolding remove
  remove-split k v [] post a = rw (==-refl k)
  remove-split k v ((j, w) ∷ pre) post a =
      ground (arith, e.test_iff j k, remove-split k v pre post a.1)

  pub get-split :
      (k : K) (v : V) (pre post : Dict K V) → Absent k pre → get k (pre ++ (k, v) ∷ post) ≡ some v
  unfolding get
  get-split k v [] post a = rw (==-refl k)
  get-split k v ((j, w) ∷ pre) post a = ground (arith, e.test_iff j k, get-split k v pre post a.1)

  -- In a dict, a key that stands after a part of it is not in that part.
  pub IsDict-Absent_pre :
      (k : K) (v : V) (pre post : Dict K V) → IsDict (pre ++ (k, v) ∷ post) → Absent k pre
  IsDict-Absent_pre k v [] post h = tt
  IsDict-Absent_pre k v ((j, w) ∷ pre) post h =
      (λ q. go j pre h.0 (sym q), IsDict-Absent_pre k v pre post h.1)
    where
      go : (i : K) (p : Dict K V) → Absent i (p ++ (k, v) ∷ post) → i ≡ k → ⊥
      go i [] a q = a.0 q
      go i (x ∷ p) a q = go i p a.1 q
