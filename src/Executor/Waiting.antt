-- ===== src/Executor/Waiting.antt =====
-- How long a work item of a CurrentThreadExecutor waits in the queue of `run_until_future`, while
-- other threads go on.
use asgire.Prelude.{
  List, [], ◌∷◌, ◌++◌, ◌≡◌, refl, sym, ap, ◌∙◌, arith, ℕ, suc, ◌+◌, ◌*◌, ◌≤◌, ◌<◌, ◌⊎◌, inl, inr,
  ltb, ltb→lt, Bool-cases, length, length-append, append_assoc, append-nil,
}
use asgire.Executor.Concurrent.{
  Runner, at_lock, at_item, returned, in_hand, System, Step, submits, completes, polls, runs,
  leaves, Reach, here, next, start, Inv, Reach-Inv, start-Inv,
}
use asgire.Executor.Progress.{own, own_steps, CanStep, polls_next, runs_next}

-- A list that begins with another.
pub record Extends {A : Type 0} (front whole : List A) : Type 0 where
  pub rest : List A
  pub is_joined : whole ≡ front ++ rest

-- The steps that the waiting thread has taken: two for each item that ran, one for the item in
-- hand, and one to leave.
abbrev spent : {A : Type 0} → Runner A → ℕ
spent at_lock = 0
spent (at_item x) = 1
spent returned = 1

abbrev work_of : {A : Type 0} → System A → ℕ
work_of s = 2 * length s.ran + spent s.runner

module _ {A : Type 0} where
  Step-work_of : {s t : System A} (st : Step s t) → own st + work_of s ≡ work_of t
  Step-work_of {s} (submits x e a q) = rw q (omega arith)
  Step-work_of {s} (completes q) = rw q (omega arith)
  Step-work_of {s} (polls x e r p q) = rw (q, r) (omega arith)
  Step-work_of {s} (runs x r q) = rw (q, r, length-append s.ran (x ∷ [])) (omega arith)
  Step-work_of {s} (leaves r p q) = rw (q, r) (omega arith)

  Reach-work_of : {s t : System A} (r : Reach s t) → own_steps r + work_of s ≡ work_of t
  Reach-work_of here = omega arith
  Reach-work_of (next r st) = omega (arith, Reach-work_of r, Step-work_of st)

  Extends-trans : {a b c : List A} → Extends a b → Extends b c → Extends a c
  Extends-trans {a} p q = record {
    rest = p.rest ++ q.rest;
    is_joined = q.is_joined ∙ ap (λ l. l ++ q.rest) p.is_joined ∙ append_assoc a p.rest q.rest;
  }

  Extends-refl : (a : List A) → Extends a a
  Extends-refl a = record { rest = []; is_joined = sym (append-nil a) }

  Step-Extends : {s t : System A} → Step s t → Extends s.accepted t.accepted
  Step-Extends {s} (submits x e a q) = record { rest = x ∷ []; is_joined = ap (λ u. u.accepted) q }
  Step-Extends {s} (completes q) = rw q (Extends-refl s.accepted)
  Step-Extends {s} (polls x e r p q) = rw q (Extends-refl s.accepted)
  Step-Extends {s} (runs x r q) = rw q (Extends-refl s.accepted)
  Step-Extends {s} (leaves r p q) = rw q (Extends-refl s.accepted)

  Reach-Extends : {s t : System A} → Reach s t → Extends s.accepted t.accepted
  Reach-Extends {s} here = Extends-refl s.accepted
  Reach-Extends (next r st) = Extends-trans (Reach-Extends r) (Step-Extends st)

  -- Of two beginnings of one list, the longer extends the shorter.
  Extends-longer : (w a b c : List A) → a ++ b ≡ w ++ c → length w ≤ length a → Extends w a
  Extends-longer [] a b c h n = record { rest = a; is_joined = refl }
  Extends-longer (x ∷ w) [] b c h n = absurd (omega arith)
  Extends-longer (x ∷ w) (y ∷ a) b c h n =
      let m : length w ≤ length a = omega arith in
      let tails : a ++ b ≡ w ++ c = cc in
      let e : Extends w a = Extends-longer w a b c tails m in
      let same : y ≡ x = cc in record { rest = e.rest; is_joined = cc (e.is_joined, same) }

  -- What has run after the item `x` that is behind `pre` in the queue of `s`.
  abbrev pub front : System A → List A → A → List A
  front s pre x = s.ran ++ (in_hand s.runner ++ (pre ++ x ∷ []))

  length-front :
      (s : System A) (pre : List A) (x : A)
      → length (front s pre x) ≡ length s.ran + (length (in_hand s.runner) + suc (length pre))
  length-front s pre x = omega (
    arith,
    length-append s.ran (in_hand s.runner ++ (pre ++ x ∷ [])),
    length-append (in_hand s.runner) (pre ++ x ∷ []),
    length-append pre (x ∷ []),
  )

  front-rest :
      (a b pre post more : List A) (x : A)
      → (a ++ (b ++ (pre ++ x ∷ post))) ++ more ≡ (a ++ (b ++ (pre ++ x ∷ []))) ++ (post ++ more)
  front-rest a b pre post more x = simp append_assoc

  spent-in_hand : (r : Runner A) → (length (in_hand r) ≤ spent r) × (spent r ≤ 1)
  spent-in_hand at_lock = (omega arith, omega arith)
  spent-in_hand (at_item x) = (omega arith, omega arith)
  spent-in_hand returned = (omega arith, omega arith)

  -- The thread can go on while less has run than was accepted.
  can_step :
      (t : System A) (r : Runner A) (items : List A)
      → t.runner ≡ r
      → t.executor.work_items ≡ items
      → Inv t
      → length t.ran < length t.accepted
      → CanStep t
  can_step t (at_item x) items q h v n = runs_next t x q
  can_step t at_lock (x ∷ rest) q h v n = polls_next t x rest q h
  can_step t at_lock [] q h v n = absurd (ground (arith, v.in_order, append-nil t.ran))
  can_step t returned items q h v n =
      absurd (ground (arith, v.in_order, v.closed q, append-nil t.ran))

  few_steps :
      (s : System A) {t : System A} (pre : List A) (x : A) (r : Reach s t)
      → length t.ran < length (front s pre x)
      → own_steps r < 2 * suc (length pre) + length (in_hand s.runner)
  few_steps s {t} pre x r n =
      let (a, b) = spent-in_hand s.runner in
      omega (arith, Reach-work_of r, length-front s pre x, a, b, (spent-in_hand t.runner).1, n)

  -- A work item that waits in the queue, whatever other threads do: the waiting thread has run it,
  -- in its turn after what it had in hand and the items before it, as soon as it has taken two
  -- steps for each of these items and for the item itself, and one more if it had one in hand;
  -- until then it can take a step.
  pub served_in_turn :
      (thread : ℕ) {s t : System A}
      → Reach (start thread) s
      → (pre post : List A) (x : A) → s.executor.work_items ≡ pre ++ x ∷ post
      → (r : Reach s t)
      → Extends (front s pre x) t.ran
        ⊎ ((own_steps r < 2 * suc (length pre) + length (in_hand s.runner)) × CanStep t)
  served_in_turn thread {s} {t} h pre post x q r =
      let v = Reach-Inv h (start-Inv thread) in
      let w = Reach-Inv r v in
      let e = Reach-Extends r in
      let grown : t.ran ++ (in_hand t.runner ++ t.executor.work_items)
          ≡ front s pre x ++ (post ++ e.rest) =
        sym w.in_order
        ∙ e.is_joined
        ∙ ap (λ l. l ++ e.rest) (v.in_order ∙ ap (λ l. s.ran ++ (in_hand s.runner ++ l)) q)
        ∙ front-rest s.ran (in_hand s.runner) pre post e.rest x in
      let size : length (front s pre x) ≤ length t.accepted =
        ground (arith, w.in_order, grown, length-append (front s pre x) (post ++ e.rest)) in
      elim (Bool-cases (ltb (length t.ran) (length (front s pre x)))) [
        | inl y ↦ inr (
          few_steps s pre x r (ltb→lt _ _ y),
          can_step t t.runner t.executor.work_items refl refl w (omega (arith, size, ltb→lt _ _ y)),
        )
        | inr n ↦ inl (Extends-longer (front s pre x) t.ran _ _ grown (ground arith))
      ]
