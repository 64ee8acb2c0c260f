-- ===== src/Executor/Thread/Served.antt =====
-- What becomes of the work items of the nested calls of a thread.
use asgire.Prelude.{
  some, ◌++◌, map-append, ℕ, List, ◌∷◌, false, ◌≡◌, ap, ◌∙◌, ◌<◌, ◌⊎◌, inl, inr, arith, append-nil,
}
use asgire.Executor.{accept, Executor, Submitted, submitted, own_thread, all_broken, pushed, walk}
use asgire.Executor.Submit.{AllBroken, WalkResult, walk-WalkResult, walk-broken, walk-quit}
use asgire.Executor.Concurrent.{returned}
use asgire.Executor.Thread.{Received, Thread, elem, chain, executors, ThreadReach, outermost}
use asgire.Executor.Thread.Sound.{Sound, outermost-Sound, Reach-Sound}

module _ {A : Type 0} where
  -- The executor that receives an item is the one that `submit` finds.
  walk-Received :
      (s : Thread A) (i : ℕ) (x : A) (e : Executor A) (r : Received s i)
      → accept (s.at i).executor x ≡ some e
      → walk (executors s (chain s r.via)) x
        ≡ submitted (executors s r.quit ++ e ∷ executors s r.up)
  walk-Received s i x e r h =
      ap (λ is. walk (executors s is) x) r.is_up
      ∙ ap (λ es. walk es x) (map-append (λ k. (s.at k).executor) r.quit (i ∷ r.up))
      ∙ walk-quit (executors s r.quit) (executors s r.up) (s.at i).executor e x r.quit_broken h

  -- An item was accepted by an executor.
  abbrev pub IsAccepted : Submitted A → Type 0
  IsAccepted (submitted executors) = Unit
  IsAccepted own_thread = ⊥
  IsAccepted all_broken = ⊥

  result-IsAccepted :
      (es : List (Executor A)) (x : A) (r : Submitted A)
      → WalkResult es x r
      → AllBroken es ⊎ IsAccepted r
  result-IsAccepted es x (submitted executors) w = inr tt
  result-IsAccepted es x own_thread w = inr w
  result-IsAccepted es x all_broken w = inl w

  walk-IsAccepted :
      (e : Executor A) (olds : List (Executor A)) (x : A)
      → AllBroken olds ⊎ IsAccepted (walk (e ∷ olds) x)
  walk-IsAccepted e olds x =
      elim (result-IsAccepted (e ∷ olds) x (walk (e ∷ olds) x) (walk-WalkResult (e ∷ olds) x)) [
        | inl b ↦ inl b.1
        | inr a ↦ inr a
      ]

  returned_by :
      (s : Thread A) (i : ℕ)
      → Sound s
      → i < s.made
      → elem i s.stack ≡ false
      → (s.at i).runner ≡ returned
  returned_by s i v h n = elim (v.on_stack i h) [ inl m ↦ absurd cc | inr r ↦ r ]

  -- However calls are nested in a thread and whatever other threads do: every work item that was
  -- accepted by the executor of a call that has returned has run, once and in order of acceptance.
  -- An item that is submitted through it from then on is submitted to the executors up from it, if
  -- there are any, and is accepted unless all of these have quit.
  pub returned_call :
      (thread : ℕ) {s : Thread A}
      → ThreadReach (outermost thread) s
      → (i : ℕ) → i < s.made
      → elem i s.stack ≡ false
      → (x : A)
      → ((s.at i).ran ≡ (s.at i).accepted)
        × (walk (executors s (chain s i)) x
            ≡ pushed (s.at i).executor (walk (executors s (s.olds i)) x))
        × (AllBroken (executors s (s.olds i)) ⊎ IsAccepted (walk (executors s (chain s i)) x))
  returned_call thread {s} reach i h n x =
      let v = Reach-Sound reach (outermost-Sound thread) in
      let w = v.all_inv i in
      let r = returned_by s i v h n in
      (
        ground (arith, w.in_order, w.closed r, append-nil (s.at i).ran),
        walk-broken (s.at i).executor (executors s (s.olds i)) x (w.closed r).0,
        walk-IsAccepted (s.at i).executor (executors s (s.olds i)) x,
      )
