-- ===== src/Executor/Thread/Sound.antt =====
-- The invariant of a thread with nested calls.
use asgire.Prelude.{
  Option, none, some, ℕ, suc, List, [], ◌∷◌, true, false, ◌≡◌, refl, sym, ap, ◌∙◌, ◌<◌, ◌=ℕ◌,
  if◌then◌else◌, ◌⊎◌, inl, inr, All, Bool-cases, arith, =ℕ_iff,
}
use asgire.Executor.{poll, quits}
use asgire.Executor.Concurrent
use asgire.Executor.Concurrent.{System, Step, at_lock, at_item, returned, Inv, Step-Inv, start-Inv}
use asgire.Executor.Thread.{
  Thread, elem, set_at, chain, up_from, OldMade, Innermost, ThreadStep, moves, calls, returns,
  ThreadReach, begins, goes_on, outermost,
}

more_made : (n : ℕ) (is : List ℕ) → All (λ j. j < n) is → All (λ j. j < suc n) is
more_made n [] h = tt
more_made n (i ∷ is) h = (omega (arith, h.0), more_made n is h.1)

below : (n i : ℕ) → i < suc n → (n =ℕ i) ≡ false → i < n
below n i h e = ground arith

pub elem-tail :
    (i j : ℕ) (is : List ℕ) → elem j (i ∷ is) ≡ true → (i =ℕ j) ≡ false → elem j is ≡ true
elem-tail i j is h n = ground arith

elem-cons : (i j : ℕ) (is : List ℕ) → elem j is ≡ true → elem j (i ∷ is) ≡ true
elem-cons i j is h = ground arith

elem-head : (i j : ℕ) (is : List ℕ) → (i =ℕ j) ≡ true → elem j (i ∷ is) ≡ true
elem-head i j is h = ground arith

module _ {A : Type 0} where
  -- A thread that has returned from an executor does not come back to it.
  Step-returned : {s t : System A} → Step s t → s.runner ≡ returned → t.runner ≡ returned
  Step-returned {s} (Concurrent.submits x e a q) r = rw q r
  Step-returned {s} (Concurrent.completes q) r = rw q r
  Step-returned {s} (Concurrent.polls x e r' p q) r = absurd cc
  Step-returned {s} (Concurrent.runs x r' q) r = absurd cc
  Step-returned {s} (Concurrent.leaves r' p q) r = rw q refl

  -- Every executor is sound, every call that is made is on the stack or has returned, and the
  -- executors up from one are made.
  pub record Sound (s : Thread A) : Type 0 where
    pub all_inv : (i : ℕ) → Inv (s.at i)
    pub on_stack : (i : ℕ) → i < s.made → (elem i s.stack ≡ true) ⊎ ((s.at i).runner ≡ returned)
    pub up_made : (i : ℕ) → i < s.made → All (λ j. j < s.made) (chain s i)

  set_at-Inv :
      (at : ℕ → System A) (i : ℕ) (u : System A)
      → ((j : ℕ) → Inv (at j))
      → Inv u
      → (j : ℕ) → Inv (set_at i u at j)
  set_at-Inv at i u v w j = elim (Bool-cases (i =ℕ j)) [ inl y ↦ rw y w | inr n ↦ rw n (v j) ]

  set_at-runner :
      (s : Thread A) (i j : ℕ) (u : System A)
      → ((s.at i).runner ≡ returned → u.runner ≡ returned)
      → (s.at j).runner ≡ returned
      → (set_at i u s.at j).runner ≡ returned
  set_at-runner s i j u h r = elim (Bool-cases (i =ℕ j)) [
    | inl y ↦ rw y (h (ap (λ k. (s.at k).runner) ((=ℕ_iff i j).0 y) ∙ r))
    | inr n ↦ rw n r
  ]

  moves-Sound :
      (s : Thread A) (i : ℕ) (u : System A)
      → Step (s.at i) u
      → Sound s
      → Sound (record s { at = set_at i u s.at })
  moves-Sound s i u st v = record {
    all_inv = set_at-Inv s.at i u v.all_inv (Step-Inv st (v.all_inv i));
    on_stack = λ j h. elim (v.on_stack j h) [
      | inl m ↦ inl m
      | inr r ↦ inr (set_at-runner s i j u (Step-returned st) r)
    ];
    up_made = v.up_made;
  }

  up_from_made :
      (s : Thread A) (old : Option ℕ)
      → OldMade s old
      → Sound s
      → All (λ j. j < s.made) (up_from s old)
  up_from_made s none h v = tt
  up_from_made s (some old) h v = v.up_made old h

  calls-Sound :
      (s : Thread A) (old : Option ℕ)
      → OldMade s old
      → Sound s
      → Sound (record s {
        olds = λ j. if s.made =ℕ j then up_from s old else s.olds j;
        made = suc s.made;
        stack = s.made ∷ s.stack;
      })
  calls-Sound s old h v = record {
    all_inv = v.all_inv;
    on_stack = λ i m. elim (Bool-cases (s.made =ℕ i)) [
      | inl y ↦ inl (elem-head s.made i s.stack y)
      | inr n ↦ elim (v.on_stack i (below s.made i m n)) [
        | inl k ↦ inl (elem-cons s.made i s.stack k)
        | inr r ↦ inr r
      ]
    ];
    up_made = λ i m. elim (Bool-cases (s.made =ℕ i)) [
      | inl y ↦ rw y (m, more_made s.made (up_from s old) (up_from_made s old h v))
      | inr n ↦ rw n (more_made s.made (chain s i) (v.up_made i (below s.made i m n)))
    ];
  }

  returns-Sound :
      (s : Thread A) (i : ℕ) (top : Innermost s i)
      → (s.at i).runner ≡ at_lock
      → poll (s.at i).executor ≡ quits
      → Sound s
      → Sound (record s {
        at = set_at i (record (s.at i) { runner = returned }) s.at;
        stack = top.outer;
      })
  returns-Sound s i top r q v =
      let w =
        moves-Sound s i (record (s.at i) { runner = returned }) (Concurrent.leaves r q refl) v in
      record {
        all_inv = w.all_inv;
        on_stack = λ j h. elim (Bool-cases (i =ℕ j)) [
          | inl y ↦ inr (rw y refl)
          | inr n ↦ elim (w.on_stack j h) [
            | inl m ↦ inl (elem-tail i j top.outer (ap (elem j) (sym top.is_top) ∙ m) n)
            | inr k ↦ inr k
          ]
        ];
        up_made = v.up_made;
      }

  Step-Sound : {s t : Thread A} → ThreadStep s t → Sound s → Sound t
  Step-Sound {s} (moves i u st m q) v = rw q (moves-Sound s i u st v)
  Step-Sound {s} (calls i old x top r h q) v = rw q (calls-Sound s old h v)
  Step-Sound {s} (returns i top r p q) v = rw q (returns-Sound s i top r p v)

  pub outermost-Sound : (thread : ℕ) → Sound (outermost {A = A} thread)
  outermost-Sound thread = record {
    all_inv = λ i. start-Inv thread;
    on_stack = λ i h. inl (ground arith);
    up_made = λ i h. (h, tt);
  }

  pub Reach-Sound : {s t : Thread A} → ThreadReach s t → Sound s → Sound t
  Reach-Sound begins v = v
  Reach-Sound (goes_on r st) v = Step-Sound st (Reach-Sound r v)
