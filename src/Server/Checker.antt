-- ===== src/Server/Checker.antt =====
-- One round of application_checker.
use asgire.Prelude.{
  ℕ, ◌≤◌, List, [], ◌∷◌, ◌++◌, true, some, ◌≡◌, ◌≢◌, length, append_assoc, append-nil, inl, inr,
  refl, sym, ap, subst, ◌∙◌, All, if◌then◌else◌, Eq, arith, Bool-cases,
}
use asgire.Prelude.Dict.{
  Dict, get, remove, get-split, IsDict, IsDict-Absent_pre, IsDict-remove, remove-split, Absent,
  get-remove, length-remove,
}
use asgire.Prelude.Result.{ok, err}
use asgire.Server.{
  Server, Details, Task, TaskState, running, returned, cancelled, failed, is_done, cancelled_error,
  check, check_items,
}
use asgire.Server.Invariant.{Inv, removed-Inv}

-- `application_exception` as it is, which only logs.
abbrev pub log_only : {K : Type 0} → ℕ → Details → Server K → Server K
log_only x details s = s

module _ {K : Type 0} where
  abbrev pub state_of : (ℕ → Task) → K × Details → TaskState
  state_of tasks p = (tasks p.1.future).state

  -- The entries whose tasks are not done.
  abbrev pub live : (ℕ → Task) → Dict K Details → Dict K Details
  live tasks [] = []
  live tasks (p ∷ rest) =
      if is_done (tasks p.1.future) then live tasks rest else p ∷ live tasks rest

  abbrev pub NoneCancelled : (ℕ → Task) → Dict K Details → Type 0
  NoneCancelled tasks = All (λ p. state_of tasks p ≢ cancelled)

snoc_append {ℓ} : {A : Type ℓ} (a : List A) (x : A) (b : List A) → a ++ x ∷ b ≡ (a ++ x ∷ []) ++ b
snoc_append a x b = simp append_assoc

module _ {K : Type 0} ⦃e : Eq K⦄ where
  abbrev at_table : Server K → Dict K Details → Server K
  at_table s t = record s { application_instances = t }

  abbrev Split-check : (s : Server K) (pre a b : Dict K Details) → Type 0
  Split-check s pre a b =
      check_items log_only (a ++ b) (at_table s (pre ++ (a ++ b)))
      ≡ check_items log_only b (at_table s (pre ++ (live s.tasks a ++ b)))

  check_running :
      (s : Server K) (p : K × Details) (a : Dict K Details)
      → state_of s.tasks p ≡ running
      → check_items log_only (p ∷ a) s ≡ check_items log_only a s
  unfolding check_items
  check_running s p a h = ground arith

  check_done_lem :
      (s : Server K) (p : K × Details) (a : Dict K Details)
      → is_done (s.tasks p.1.future) ≡ true
      → state_of s.tasks p ≢ cancelled
      → check_items log_only (p ∷ a) s
        ≡ check_items log_only a (at_table s (remove p.0 s.application_instances))
  unfolding check_items
  check_done_lem s p a h n = ground arith

  check_cancelled :
      (s : Server K) (p : K × Details) (a : Dict K Details)
      → state_of s.tasks p ≡ cancelled
      → check_items log_only (p ∷ a) s ≡ (err cancelled_error, s)
  unfolding check_items
  check_cancelled s p a h = ground arith

  -- The round goes over a part `a` of the snapshot that has no cancelled task.
  check_part :
      (s : Server K) (pre a b : Dict K Details)
      → NoneCancelled s.tasks a
      → IsDict (pre ++ (a ++ b))
      → Split-check s pre a b
  check_part s pre [] b n u = refl
  check_part s pre ((k, d) ∷ a) b n u = elim (Bool-cases (is_done (s.tasks d.future))) [
    | inr runs ↦
        check_running (at_table s (pre ++ (k, d) ∷ (a ++ b))) (k, d) (a ++ b) (ground arith)
        ∙ ap (λ (t : Dict K Details). check_items log_only (a ++ b) (at_table s t))
            (snoc_append pre (k, d) (a ++ b))
        ∙ check_part s (pre ++ (k, d) ∷ []) a b n.1
            (subst IsDict (snoc_append pre (k, d) (a ++ b)) u)
        ∙ ap (λ (t : Dict K Details). check_items log_only b (at_table s t))
            (sym (snoc_append pre (k, d) (live s.tasks a ++ b)) ∙ rw runs)
    | inl ends ↦
        check_done_lem (at_table s (pre ++ (k, d) ∷ (a ++ b))) (k, d) (a ++ b) ends n.0
        ∙ ap (λ (t : Dict K Details). check_items log_only (a ++ b) (at_table s t))
            (remove-split k d pre (a ++ b) (IsDict-Absent_pre k d pre (a ++ b) u))
        ∙ check_part s pre a b n.1 (
            subst IsDict (remove-split k d pre (a ++ b) (IsDict-Absent_pre k d pre (a ++ b) u))
              (IsDict-remove k _ u))
        ∙ ap (λ (t : Dict K Details). check_items log_only b (at_table s (pre ++ t))) (rw ends)
  ]

  -- When no registered task is cancelled, a round that only logs raises nothing, and leaves
  -- exactly the instances whose tasks are not done, in their order.
  pub check-live :
      (s : Server K)
      → IsDict s.application_instances
      → NoneCancelled s.tasks s.application_instances
      → check log_only s
        ≡ (ok tt, record s { application_instances = live s.tasks s.application_instances })
  unfolding check
  check-live s u n =
      let t = s.application_instances in
      ap (λ (l : Dict K Details). check_items log_only l (at_table s l)) (sym (append-nil t))
      ∙ check_part s [] t [] n (rw append-nil u)
      ∙ ap (λ (l : Dict K Details). check_items log_only [] (at_table s l))
          (append-nil (live s.tasks t))

  -- A registered task that is cancelled ends the round, and with it `application_checker`, by a
  -- CancelledError: the done tasks before it are gone, it and all after it are still registered.
  pub check-cancelled :
      (s : Server K) (a b : Dict K Details) (k : K) (d : Details)
      → IsDict s.application_instances
      → s.application_instances ≡ a ++ (k, d) ∷ b
      → NoneCancelled s.tasks a
      → (s.tasks d.future).state ≡ cancelled
      → check log_only s
        ≡ (err cancelled_error, record s { application_instances = live s.tasks a ++ (k, d) ∷ b })
  unfolding check
  check-cancelled s a b k d u q n c =
      ap (λ (l : Dict K Details). check_items log_only l (at_table s l)) q
      ∙ check_part s [] a ((k, d) ∷ b) n (subst IsDict q u)
      ∙ check_cancelled (at_table s (live s.tasks a ++ (k, d) ∷ b)) (k, d) b c

  abbrev There : Server K → Dict K Details → Type 0
  There s = All (λ p. get p.0 s.application_instances ≡ some p.1)

  There-remove :
      (s : Server K) (k : K) (l : Dict K Details)
      → IsDict s.application_instances
      → Absent k l
      → There s l
      → There (at_table s (remove k s.application_instances)) l
  There-remove s k [] u a h = tt
  There-remove s k ((j, d) ∷ l) u a h = (
    get-remove k j s.application_instances u ∙ ground (arith, e.test_iff k j, h.0),
    There-remove s k l u a.1 h.1,
  )

  There-suffix :
      (pre post : Dict K Details)
      → IsDict (pre ++ post)
      → All (λ p. get p.0 (pre ++ post) ≡ some p.1) post
  There-suffix pre [] u = tt
  There-suffix pre ((k, d) ∷ post) u = (
    get-split k d pre post (IsDict-Absent_pre k d pre post u),
    subst (λ (t : Dict K Details). All (λ p. get p.0 t ≡ some p.1) post)
        (sym (snoc_append pre (k, d) post))
        (There-suffix (pre ++ (k, d) ∷ []) post (subst IsDict (snoc_append pre (k, d) post) u)),
  )

  -- What a round keeps.
  pub record Checked (s s' : Server K) : Type 0 where
    pub inv : Inv s'
    pub size : length s'.application_instances ≤ length s.application_instances
    pub limit : s'.max_applications ≡ s.max_applications

  Checked-trans : {s t u : Server K} → Checked s t → Checked t u → Checked s u
  Checked-trans p q = record {
    inv = q.inv;
    size = omega (arith, p.size, q.size);
    limit = q.limit ∙ p.limit;
  }

  Checked-done :
      (s : Server K) (k : K) (d : Details)
      → get k s.application_instances ≡ some d
      → is_done (s.tasks d.future) ≡ true
      → Inv s
      → Checked s (at_table s (remove k s.application_instances))
  Checked-done s k d g h v = record {
    inv = removed-Inv s k d s.tasks g (λ j ne. refl) (inl h) v;
    size = omega (arith, length-remove k d s.application_instances g);
    limit = refl;
  }

  Checked-refl : (s : Server K) → Inv s → Checked s s
  Checked-refl s v = record { inv = v; size = omega arith; limit = refl }

  -- One item, given what the rest of the round keeps.
  check_item-Checked :
      (k : K) (d : Details) (l : Dict K Details) (s : Server K) (st : TaskState)
      → state_of s.tasks (k, d) ≡ st
      → get k s.application_instances ≡ some d
      → Inv s
      → Checked s (check_items log_only l s).1
      → (let s' = at_table s (remove k s.application_instances) in
          Inv s' → Checked s' (check_items log_only l s').1)
      → Checked s (check_items log_only ((k, d) ∷ l) s).1
  check_item-Checked k d l s running q g v stay gone = rw (check_running s (k, d) l q) stay
  check_item-Checked k d l s cancelled q g v stay gone =
      rw (check_cancelled s (k, d) l q) (Checked-refl s v)
  check_item-Checked k d l s returned q g v stay gone =
      let c = Checked-done s k d g (rw q) v in
      rw (check_done_lem s (k, d) l (rw q) (λ c. cc)) (Checked-trans c (gone c.inv))
  check_item-Checked k d l s (failed x) q g v stay gone =
      let c = Checked-done s k d g (rw q) v in
      rw (check_done_lem s (k, d) l (rw q) (λ c. cc)) (Checked-trans c (gone c.inv))

  check_items-Checked :
      (l : Dict K Details) (s : Server K)
      → IsDict l
      → There s l
      → Inv s
      → Checked s (check_items log_only l s).1
  check_items-Checked [] s u h v = unfold check_items in Checked-refl s v
  check_items-Checked ((k, d) ∷ l) s u h v =
      check_item-Checked k d l s (state_of s.tasks (k, d)) refl h.0 v
        (check_items-Checked l s u.1 h.1 v)
        (check_items-Checked l (at_table s (remove k s.application_instances)) u.1
          (There-remove s k l v.dict u.0 h.1))

  pub check-Checked : (s : Server K) → Inv s → Checked s (check log_only s).1
  unfolding check
  check-Checked s v =
      check_items-Checked s.application_instances s v.dict
        (There-suffix [] s.application_instances v.dict) v
