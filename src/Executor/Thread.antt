-- ===== src/Executor/Thread.antt =====
-- A thread with AsyncToSync calls inside one another: each waits in the `run_until_future` of an
-- executor of its own, and an item that it runs may make the next call. Executors are numbered in the
-- order in which they are made; other threads submit through any of them and complete their futures.
pub mod Sound
pub mod Served
mod Tests
use asgire.Prelude.{
  ℕ, suc, List, [], ◌∷◌, ◌++◌, Bool, true, false, Option, none, some, map, ◌≡◌, ◌<◌, ◌||◌, ◌=ℕ◌,
  if◌then◌else◌,
}
use asgire.Executor.{Executor, poll, quits}
use asgire.Executor.Submit.{AllBroken}
use asgire.Executor.Concurrent
use asgire.Executor.Concurrent.{System, Step, at_lock, at_item, returned}

-- `at` has an executor with the place where the thread waits on it, `olds` the executors up from one
-- by `_old_executor`, and `stack` those of the calls that have not returned, the innermost first.
pub record Thread (A : Type 0) : Type 0 where
  pub at : ℕ → System A
  pub olds : ℕ → List ℕ
  pub made : ℕ
  pub stack : List ℕ

abbrev pub elem : ℕ → List ℕ → Bool
elem i [] = false
elem i (j ∷ js) = (i =ℕ j) || elem i js

module _ {A : Type 0} where
  abbrev pub set_at : ℕ → System A → (ℕ → System A) → ℕ → System A
  set_at i u at j = if i =ℕ j then u else at j

  -- An executor and those up from it.
  abbrev pub chain : Thread A → ℕ → List ℕ
  chain s i = i ∷ s.olds i

  abbrev pub executors : Thread A → List ℕ → List (Executor A)
  executors s ids = map (λ i. (s.at i).executor) ids

  -- The executor receives an item that was submitted through `via`: those on the way up to it have
  -- quit.
  pub record Received (s : Thread A) (i : ℕ) : Type 0 where
    pub via : ℕ
    pub via_made : via < s.made
    pub quit : List ℕ
    pub up : List ℕ
    pub is_up : chain s via ≡ quit ++ i ∷ up
    pub quit_broken : AllBroken (executors s quit)

  -- The thread is where the innermost call waits.
  pub record Innermost (s : Thread A) (i : ℕ) : Type 0 where
    pub outer : List ℕ
    pub is_top : s.stack ≡ i ∷ outer

  abbrev pub May : (s : Thread A) (i : ℕ) {u : System A} → Step (s.at i) u → Type 0
  May s i (Concurrent.submits x e a q) = Received s i
  May s i (Concurrent.completes q) = i < s.made
  May s i (Concurrent.polls x e r p q) = Innermost s i
  May s i (Concurrent.runs x r q) = Innermost s i
  May s i (Concurrent.leaves r p q) = ⊥

  -- `_old_executor`, and those up from it.
  abbrev pub up_from : Thread A → Option ℕ → List ℕ
  up_from s none = []
  up_from s (some old) = chain s old

  abbrev pub OldMade : Thread A → Option ℕ → Type 0
  OldMade s none = Unit
  OldMade s (some old) = old < s.made

  pub data ThreadStep (s t : Thread A) : Type 0 where
    moves :
        (i : ℕ) (u : System A) (st : Step (s.at i) u)
        → May s i st
        → t ≡ record s { at = set_at i u s.at }
        → ThreadStep s t
    -- An item that runs calls AsyncToSync, in a context whose current executor is `old`, if it has one.
    calls :
        (i : ℕ) (old : Option ℕ) (x : A)
        → Innermost s i
        → (s.at i).runner ≡ at_item x
        → OldMade s old
        → t ≡ record s {
          olds = λ j. if s.made =ℕ j then up_from s old else s.olds j;
          made = suc s.made;
          stack = s.made ∷ s.stack;
        }
        → ThreadStep s t
    returns :
        (i : ℕ) (top : Innermost s i)
        → (s.at i).runner ≡ at_lock
        → poll (s.at i).executor ≡ quits
        → t ≡ record s {
          at = set_at i (record (s.at i) { runner = returned }) s.at;
          stack = top.outer;
        }
        → ThreadStep s t

  pub data ThreadReach (s : Thread A) : Thread A → Type 0 where
    begins : ThreadReach s s
    goes_on : {t u : Thread A} → ThreadReach s t → ThreadStep t u → ThreadReach s u

  -- The outermost call has begun.
  abbrev pub outermost : ℕ → Thread A
  outermost thread = record {
    at = λ i. Concurrent.start thread;
    olds = λ i. [];
    made = 1;
    stack = 0 ∷ [];
  }
