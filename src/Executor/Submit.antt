-- ===== src/Executor/Submit.antt =====
-- Where `submit` puts a work item: the walk up the stack of executors.
use asgire.Prelude.{
  ℕ, List, [], ◌∷◌, ◌++◌, true, false, ◌≡◌, ◌≢◌, refl, ap, ◌∙◌, some, All, arith, ◌=ℕ◌, Bool-cases,
  inl, inr,
}
use asgire.Executor.{
  Executor, Submitted, submitted, own_thread, all_broken, pushed, accept, walk, submit,
}

module _ {A : Type 0} where
  abbrev pub AllBroken : List (Executor A) → Type 0
  AllBroken = All (λ e. e.is_broken ≡ true)

  -- `x` stands last in the queue of the first executor of the chain that is not broken; all else
  -- is as it was.
  pub record Placed (chain : List (Executor A)) (x : A) (chain' : List (Executor A)) : Type 0 where
    pub quit : List (Executor A)
    pub closest : Executor A
    pub olds : List (Executor A)
    pub quit_broken : AllBroken quit
    pub runs : closest.is_broken ≡ false
    pub before : chain ≡ quit ++ closest ∷ olds
    pub after : chain' ≡ quit ++ record closest { work_items = closest.work_items ++ x ∷ [] } ∷ olds

  abbrev pub WalkResult : List (Executor A) → A → Submitted A → Type 0
  WalkResult chain x (submitted chain') = Placed chain x chain'
  WalkResult chain x own_thread = ⊥
  WalkResult chain x all_broken = AllBroken chain

  pushed-WalkResult :
      (e : Executor A) (olds : List (Executor A)) (x : A) (r : Submitted A)
      → e.is_broken ≡ true
      → WalkResult olds x r
      → WalkResult (e ∷ olds) x (pushed e r)
  pushed-WalkResult e olds x (submitted chain') b p = record {
    quit = e ∷ p.quit;
    closest = p.closest;
    olds = p.olds;
    quit_broken = (b, p.quit_broken);
    runs = p.runs;
    before = ap (◌∷◌ e) p.before;
    after = ap (◌∷◌ e) p.after;
  }
  pushed-WalkResult e olds x own_thread b p = p
  pushed-WalkResult e olds x all_broken b p = (b, p)

  pub walk-broken :
      (e : Executor A) (olds : List (Executor A)) (x : A)
      → e.is_broken ≡ true
      → walk (e ∷ olds) x ≡ pushed e (walk olds x)
  unfolding walk
  walk-broken e olds x b = ground arith

  walk-running :
      (e : Executor A) (olds : List (Executor A)) (x : A)
      → e.is_broken ≡ false
      → walk (e ∷ olds) x ≡ submitted (record e { work_items = e.work_items ++ x ∷ [] } ∷ olds)
  unfolding walk
  walk-running e olds x b = ground arith

  walk-accept :
      (up : List (Executor A)) (c e : Executor A) (x : A)
      → accept c x ≡ some e
      → walk (c ∷ up) x ≡ submitted (e ∷ up)
  unfolding walk
  walk-accept up c e x h = rw (h, walk) refl

  pub walk-quit :
      (quit up : List (Executor A)) (c e : Executor A) (x : A)
      → AllBroken quit
      → accept c x ≡ some e
      → walk (quit ++ c ∷ up) x ≡ submitted (quit ++ e ∷ up)
  walk-quit [] up c e x b h = walk-accept up c e x h
  walk-quit (q ∷ quit) up c e x b h =
      walk-broken q (quit ++ c ∷ up) x b.0 ∙ ap (pushed q) (walk-quit quit up c e x b.1 h)

  pub walk-WalkResult : (chain : List (Executor A)) (x : A) → WalkResult chain x (walk chain x)
  walk-WalkResult [] x = unfold walk in tt
  walk-WalkResult (e ∷ olds) x = elim (Bool-cases e.is_broken) [
    | inl b ↦
        rw (walk-broken e olds x b)
          (pushed-WalkResult e olds x (walk olds x) b (walk-WalkResult olds x))
    | inr b ↦ rw (walk-running e olds x b) (record {
      quit = [];
      closest = e;
      olds = olds;
      quit_broken = tt;
      runs = b;
      before = refl;
      after = refl;
    })
  ]

  abbrev pub SubmitResult : ℕ → Executor A → List (Executor A) → A → Submitted A → Type 0
  SubmitResult thread e olds x (submitted chain') =
      (thread ≢ e.work_thread) × Placed (e ∷ olds) x chain'
  SubmitResult thread e olds x own_thread = thread ≡ e.work_thread
  SubmitResult thread e olds x all_broken = (thread ≢ e.work_thread) × AllBroken (e ∷ olds)

  other-SubmitResult :
      (thread : ℕ) (e : Executor A) (olds : List (Executor A)) (x : A) (r : Submitted A)
      → thread ≢ e.work_thread
      → WalkResult (e ∷ olds) x r
      → SubmitResult thread e olds x r
  other-SubmitResult thread e olds x (submitted chain') h p = (h, p)
  other-SubmitResult thread e olds x own_thread h p = absurd p
  other-SubmitResult thread e olds x all_broken h p = (h, p)

  -- `submit` from the executor's own thread is refused. From any other thread the work item goes
  -- to the end of the queue of the closest executor of the stack that is still running, every
  -- executor else staying as it was, or is refused if all of them have quit.
  pub submit-SubmitResult :
      (thread : ℕ) (e : Executor A) (olds : List (Executor A)) (x : A)
      → SubmitResult thread e olds x (submit thread e olds x)
  unfolding submit
  submit-SubmitResult thread e olds x = elim (Bool-cases (thread =ℕ e.work_thread)) [
    | inl own ↦ rw own (ground arith)
    | inr other ↦ rw other (
        other-SubmitResult thread e olds x (walk (e ∷ olds) x) (ground arith)
          (walk-WalkResult (e ∷ olds) x))
  ]
