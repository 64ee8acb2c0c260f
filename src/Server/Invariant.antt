-- ===== src/Server/Invariant.antt =====
-- The server's invariant: keys, queues and tasks are distinct, no registered task is asked to
-- stop, and no task is forgotten while it runs.
pub mod Ops
use asgire.Prelude.{
  ℕ, suc, ◌<◌, List, [], ◌∷◌, Bool, true, false, none, some, ◌=ℕ◌, ◌≡◌, ◌≢◌, ◌⊎◌, inl, inr, refl,
  sym, ap, subst, ◌∙◌, All, if◌then◌else◌, Eq, ◌==◌, arith, Bool-cases,
}
use asgire.Prelude.Dict.{Dict, get, remove, IsDict, IsDict-remove, get-remove, All-remove, All-get}
use asgire.Server.{Server, Details, Task, is_done, set_task, cancel}
use asgire.Server.Oldest.{without, instances-without}

module _ {K : Type 0} where
  abbrev pub AllDetails : (Details → Type 0) → Dict K Details → Type 0
  AllDetails P = All (λ (p : K × Details). P p.1)

  -- The values of a field are distinct.
  abbrev pub Distinct : (Details → ℕ) → Dict K Details → Type 0
  Distinct f [] = Unit {0}
  Distinct f ((k, d) ∷ rest) = AllDetails (λ x. f d ≢ f x) rest × Distinct f rest

abbrev pub Stopped : Task → Type 0
Stopped t = (is_done t ≡ true) ⊎ (t.cancel_requested ≡ true)

module _ {K : Type 0} ⦃e : Eq K⦄ where
  pub record Registered (s : Server K) (i : ℕ) : Type 0 where
    pub key : K
    pub details : Details
    pub there : get key s.application_instances ≡ some details
    pub future : details.future ≡ i

  -- A task that was made is done, or asked to stop, or registered.
  abbrev pub Remembered : Server K → ℕ → Type 0
  Remembered s i = Stopped (s.tasks i) ⊎ Registered s i

  pub record Inv (s : Server K) : Type 0 where
    pub dict : IsDict s.application_instances
    pub fresh :
        AllDetails
          (λ d. (d.future < s.next_id) × (d.input_queue < s.next_id))
          s.application_instances
    pub tasks_apart : Distinct (λ d. d.future) s.application_instances
    pub queues_apart : Distinct (λ d. d.input_queue) s.application_instances
    pub wanted :
        AllDetails (λ d. (s.tasks d.future).cancel_requested ≡ false) s.application_instances
    pub remembered : (i : ℕ) → i < s.next_id → Remembered s i

  Distinct-remove :
      (f : Details → ℕ) (k : K) (t : Dict K Details) → Distinct f t → Distinct f (remove k t)
  unfolding remove
  Distinct-remove f k [] h = tt
  Distinct-remove f k ((j, x) ∷ t) h = elim (Bool-cases (j == k)) [
    | inl y ↦ rw y h.1
    | inr n ↦ rw n (All-remove _ k t h.0, Distinct-remove f k t h.1)
  ]

  All_ne_sym :
      (f : Details → ℕ) (m n : ℕ) (t : Dict K Details)
      → m ≡ n
      → AllDetails (λ x. m ≢ f x) t
      → AllDetails (λ x. f x ≢ n) t
  All_ne_sym f m n [] q h = tt
  All_ne_sym f m n (x ∷ t) q h = (λ r. h.0 (q ∙ sym r), All_ne_sym f m n t q h.1)

  -- What is left after a removal differs from what was removed.
  pub remove_apart :
      (f : Details → ℕ) (k : K) (d : Details) (t : Dict K Details)
      → get k t ≡ some d
      → Distinct f t
      → AllDetails (λ x. f x ≢ f d) (remove k t)
  unfolding get remove
  remove_apart f k d [] g h = tt
  remove_apart f k d ((j, x) ∷ t) g h = elim (Bool-cases (j == k)) [
    | inl y ↦ rw y (All_ne_sym f (f x) (f d) t (ground arith) h.0)
    | inr n ↦ rw n (
      All-get (λ (p : K × Details). f x ≢ f p.1) k d t (ground arith) h.0,
      remove_apart f k d t (ground arith) h.1,
    )
  ]

  All_tasks :
      (τ tasks : ℕ → Task) (n : ℕ) (t : Dict K Details)
      → ((j : ℕ) → j ≢ n → τ j ≡ tasks j)
      → AllDetails (λ x. x.future ≢ n) t
      → AllDetails (λ x. (tasks x.future).cancel_requested ≡ false) t
      → AllDetails (λ x. (τ x.future).cancel_requested ≡ false) t
  All_tasks τ tasks n [] same a h = tt
  All_tasks τ tasks n ((k, x) ∷ t) same a h = (
    ap (λ (u : Task). u.cancel_requested) (same x.future a.0) ∙ h.0,
    All_tasks τ tasks n t same a.1 h.1,
  )

  -- The entry of `k` goes, and only its task may change: it is done, or asked to stop.
  module _ (s : Server K) (k : K) (d : Details) (τ : ℕ → Task)
      (there : get k s.application_instances ≡ some d)
      (same : (j : ℕ) → j ≢ d.future → τ j ≡ s.tasks j) (stopped : Stopped (τ d.future))
      (v : Inv s) where
    abbrev pub removed : Server K
    removed = record s { application_instances = remove k s.application_instances; tasks = τ }

    removed-Registered : (i : ℕ) → d.future ≢ i → Registered s i → Registered removed i
    removed-Registered i ne r = record {
      key = r.key;
      details = r.details;
      there = elim (Bool-cases (k == r.key)) [
        | inl y ↦ absurd (ne (ap (λ (x : Details). x.future) (same_details y) ∙ r.future))
        | inr n ↦ get-remove k r.key s.application_instances v.dict ∙ rw n r.there
      ];
      future = r.future;
    }
      where
        same_details : (k == r.key) ≡ true → d ≡ r.details
        same_details y = ground (arith, e.test_iff k r.key, r.there, there)

    kept-Remembered : (i : ℕ) → d.future ≢ i → Remembered s i → Remembered removed i
    kept-Remembered i ne (inl st) = inl (subst Stopped (sym (same i (λ q. ne (sym q)))) st)
    kept-Remembered i ne (inr r) = inr (removed-Registered i ne r)

    removed-Remembered : (i : ℕ) → Remembered s i → Remembered removed i
    removed-Remembered i m = elim (Bool-cases (d.future =ℕ i)) [
      | inl y ↦ inl (subst (λ j. Stopped (τ j)) (ground arith) stopped)
      | inr n ↦ kept-Remembered i (ground arith) m
    ]

    pub removed-Inv : Inv removed
    removed-Inv = record {
      dict = IsDict-remove k s.application_instances v.dict;
      fresh = All-remove _ k s.application_instances v.fresh;
      tasks_apart = Distinct-remove _ k s.application_instances v.tasks_apart;
      queues_apart = Distinct-remove _ k s.application_instances v.queues_apart;
      wanted =
          All_tasks τ s.tasks d.future (remove k s.application_instances) same
            (remove_apart (λ x. x.future) k d s.application_instances there v.tasks_apart)
            (All-remove _ k s.application_instances v.wanted);
      remembered = λ i lt. removed-Remembered i (v.remembered i lt);
    }

  -- A deletion keeps the invariant, whether the task is done or runs.
  pub without-Inv :
      (s : Server K) (k : K) (d : Details)
      → get k s.application_instances ≡ some d
      → Inv s
      → Inv (without s k d)
  without-Inv s k d g v = elim (Bool-cases (is_done (s.tasks d.future))) [
    | inl y ↦ rw y (removed-Inv s k d s.tasks g (λ j ne. refl) (inl y) v)
    | inr n ↦ rw n (
        removed-Inv s k d
          (set_task s.tasks d.future (record (s.tasks d.future) { cancel_requested = true })) g
          (λ j ne. ground arith) (inr (ground arith)) v)
  ]
