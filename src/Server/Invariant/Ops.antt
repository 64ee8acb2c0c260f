-- ===== src/Server/Invariant/Ops.antt =====
-- The server's methods, and the end of any task, against the invariant.
use asgire.Prelude.{
  ℕ, suc, ◌<◌, [], ◌∷◌, true, false, none, some, ◌=ℕ◌, ◌≡◌, ◌≢◌, inl, inr, sym, ap, subst, ◌∙◌, Eq,
  ◌==◌, ==-refl, arith, Bool-cases,
}
use asgire.Prelude.Dict.{Dict, get, insert, IsDict-insert, All-insert, All-get, get-insert}
use asgire.Server.{Server, Details, Task, set_task, fresh_task, create_by}
use asgire.Server.Invariant.{AllDetails, Distinct, Registered, Remembered, Inv}

module _ {K : Type 0} where
  All_fresh :
      (n : ℕ) (t : Dict K Details)
      → AllDetails (λ d. (d.future < n) × (d.input_queue < n)) t
      → AllDetails (λ d. (d.future < suc n) × (d.input_queue < suc n)) t
  All_fresh n [] h = tt
  All_fresh n (x ∷ t) h = ((omega arith, omega arith), All_fresh n t h.1)

  -- A new number is none of those in use.
  All_below :
      (f : Details → ℕ) (n : ℕ) (t : Dict K Details)
      → AllDetails (λ d. f d < n) t
      → AllDetails (λ d. f d ≢ n) t
  All_below f n [] h = tt
  All_below f n (x ∷ t) h = (λ q. absurd (omega arith), All_below f n t h.1)

  All_futures :
      (n : ℕ) (t : Dict K Details)
      → AllDetails (λ d. (d.future < n) × (d.input_queue < n)) t
      → AllDetails (λ d. d.future < n) t
  All_futures n [] h = tt
  All_futures n (x ∷ t) h = (h.0.0, All_futures n t h.1)

  All_queues :
      (n : ℕ) (t : Dict K Details)
      → AllDetails (λ d. (d.future < n) × (d.input_queue < n)) t
      → AllDetails (λ d. d.input_queue < n) t
  All_queues n [] h = tt
  All_queues n (x ∷ t) h = (h.0.1, All_queues n t h.1)

module _ {K : Type 0} ⦃e : Eq K⦄ where
  insert_apart :
      (f : Details → ℕ) (n : ℕ) (k : K) (d : Details) (t : Dict K Details)
      → n ≢ f d
      → AllDetails (λ x. n ≢ f x) t
      → AllDetails (λ x. n ≢ f x) (insert k d t)
  insert_apart f n k d t h a = All-insert (λ (p : K × Details). n ≢ f p.1) k d t h a

  Distinct-insert_new :
      (f : Details → ℕ) (k : K) (d : Details) (t : Dict K Details)
      → AllDetails (λ x. f x ≢ f d) t
      → get k t ≡ none
      → Distinct f t
      → Distinct f (insert k d t)
  unfolding insert get
  Distinct-insert_new f k d [] a g h = (tt, tt)
  Distinct-insert_new f k d ((j, x) ∷ t) a g h = elim (Bool-cases (j == k)) [
    | inl y ↦ cc (g, y)
    | inr n ↦
        rw n
          (insert_apart f (f x) k d t a.0 h.0, Distinct-insert_new f k d t a.1 (ground arith) h.1)
  ]

  -- A write of a value with the same field.
  Distinct-insert_same :
      (f : Details → ℕ) (k : K) (d d' : Details) (t : Dict K Details)
      → get k t ≡ some d
      → f d' ≡ f d
      → Distinct f t
      → Distinct f (insert k d' t)
  unfolding insert get
  Distinct-insert_same f k d d' [] g q h = cc
  Distinct-insert_same f k d d' ((j, x) ∷ t) g q h = elim (Bool-cases (j == k)) [
    | inl y ↦ rw y (subst (λ m. AllDetails (λ z. m ≢ f z) t) (ap f (ground arith) ∙ sym q) h.0, h.1)
    | inr n ↦ rw n (
      insert_apart f (f x) k d' t
          (λ r. All-get (λ (p : K × Details). f x ≢ f p.1) k d t (ground arith) h.0 (r ∙ q)) h.0,
      Distinct-insert_same f k d d' t (ground arith) q h.1,
    )
  ]

  -- Another `last_used` for an instance that is there.
  module _ (s : Server K) (k : K) (d d' : Details) (there : get k s.application_instances ≡ some d)
      (future : d'.future ≡ d.future) (queue : d'.input_queue ≡ d.input_queue) (v : Inv s) where
    abbrev pub touched : Server K
    touched = record s { application_instances = insert k d' s.application_instances }

    touched-Registered : (i : ℕ) → Registered s i → Registered touched i
    touched-Registered i r = elim (Bool-cases (k == r.key)) [
      | inl y ↦ record {
        key = r.key;
        details = d';
        there = get-insert k r.key d' s.application_instances ∙ rw y;
        future = future ∙ ap (λ (x : Details). x.future) (same_details y) ∙ r.future;
      }
      | inr n ↦ record {
        key = r.key;
        details = r.details;
        there = get-insert k r.key d' s.application_instances ∙ rw n r.there;
        future = r.future;
      }
    ]
      where
        same_details : (k == r.key) ≡ true → d ≡ r.details
        same_details y = ground (arith, e.test_iff k r.key, r.there, there)

    touched-Remembered : (i : ℕ) → Remembered s i → Remembered touched i
    touched-Remembered i (inl st) = inl st
    touched-Remembered i (inr r) = inr (touched-Registered i r)

    pub touched-Inv : Inv touched
    touched-Inv = record {
      dict = IsDict-insert k d' s.application_instances v.dict;
      fresh =
          All-insert _ k d' s.application_instances
            (let h =
                All-get
                  (λ (p : K × Details). (p.1.future < s.next_id) × (p.1.input_queue < s.next_id)) k
                  d s.application_instances there v.fresh in
              (omega arith, omega arith))
            v.fresh;
      tasks_apart =
          Distinct-insert_same (λ x. x.future) k d d' s.application_instances there future
            v.tasks_apart;
      queues_apart =
          Distinct-insert_same (λ x. x.input_queue) k d d' s.application_instances there queue
            v.queues_apart;
      wanted =
          All-insert _ k d' s.application_instances
            (rw future (
              All-get (λ (p : K × Details). (s.tasks p.1.future).cancel_requested ≡ false) k d
                s.application_instances there v.wanted))
            v.wanted;
      remembered = λ i lt. touched-Remembered i (v.remembered i lt);
    }

  All_set_task :
      (tasks : ℕ → Task) (n : ℕ) (u : Task) (t : Dict K Details)
      → AllDetails (λ x. x.future < n) t
      → AllDetails (λ x. (tasks x.future).cancel_requested ≡ false) t
      → AllDetails (λ x. (set_task tasks n u x.future).cancel_requested ≡ false) t
  All_set_task tasks n u [] b h = tt
  All_set_task tasks n u ((k, x) ∷ t) b h = (ground arith, All_set_task tasks n u t b.1 h.1)

  -- A new instance under a scope id that has none.
  module _ (k : K) (scope now : ℕ) (s : Server K) (absent : get k s.application_instances ≡ none)
      (v : Inv s) where
    abbrev pub created : Server K
    created = (create_by none k scope now s).1

    abbrev pub new_details : Details
    new_details = record {
      input_queue = s.next_id;
      future = s.next_id;
      scope = scope;
      last_used = now;
    }

    created-Registered : (i : ℕ) → Registered s i → Registered created i
    unfolding create_by
    created-Registered i r = record {
      key = r.key;
      details = r.details;
      there =
          get-insert k r.key new_details s.application_instances
          ∙ ground (arith, e.test_iff k r.key, r.there, absent);
      future = r.future;
    }

    created-Remembered : (i : ℕ) → i < suc s.next_id → Remembered created i
    unfolding create_by
    created-Remembered i lt = elim (Bool-cases (s.next_id =ℕ i)) [
      | inl y ↦ inr (record {
        key = k;
        details = new_details;
        there = get-insert k k new_details s.application_instances ∙ rw (==-refl k);
        future = ground arith;
      })
      | inr n ↦ old n (v.remembered i (ground arith))
    ]
      where
        old : (s.next_id =ℕ i) ≡ false → Remembered s i → Remembered created i
        old n (inl st) = inl (rw n st)
        old n (inr r) = inr (created-Registered i r)

    pub created-Inv : Inv created
    unfolding create_by
    created-Inv = record {
      dict = IsDict-insert k new_details s.application_instances v.dict;
      fresh =
          All-insert _ k new_details s.application_instances (omega arith, omega arith)
            (All_fresh s.next_id s.application_instances v.fresh);
      tasks_apart =
          Distinct-insert_new (λ x. x.future) k new_details s.application_instances
            (All_below (λ x. x.future) s.next_id s.application_instances
              (All_futures s.next_id s.application_instances v.fresh))
            absent v.tasks_apart;
      queues_apart =
          Distinct-insert_new (λ x. x.input_queue) k new_details s.application_instances
            (All_below (λ x. x.input_queue) s.next_id s.application_instances
              (All_queues s.next_id s.application_instances v.fresh))
            absent v.queues_apart;
      wanted = All-insert _ k new_details s.application_instances (ground arith) (
          All_set_task s.tasks s.next_id fresh_task s.application_instances
            (All_futures s.next_id s.application_instances v.fresh) v.wanted);
      remembered = created-Remembered;
    }
