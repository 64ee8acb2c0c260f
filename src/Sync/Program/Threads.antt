-- ===== src/Sync/Program/Threads.antt =====
-- The executor of thread-sensitive code in a program of nested calls.
use asgire.Prelude.{
  ℕ, List, [], ◌∷◌, ◌++◌, Bool, true, some, ◌≡◌, refl, ◌∙◌, subst, Bool-cases, inl, inr, All,
  nat_eq,
}
use asgire.Prelude.Dict.{IsDict, IsDict-insert}
use asgire.Prelude.Result.{ok}
use asgire.Local.{CValue, Context}
use asgire.Local.Restored.{IsDict-restore_context}
use asgire.Sync.ToSync.{Value, current_of}
use asgire.Sync.ToSync.Returns.{marked, placed}
use asgire.Sync.ToAsync.{SyncToAsync, Chosen, current, Caller, choose}
use asgire.Sync.Program.{
  entry, SyncRun, returns, writes, calls, calls_failing, AsyncRun, ends, sets, creates_task, awaits,
  awaits_own,
}
use asgire.Sync.Program.Kept.{
  current_of-insert, entered, after_call, after_failing, current_of-start, after_await, after_own,
}

-- Every entry's function was given to the executor of its call.
abbrev pub Stays : List (ℕ × Chosen) → Type 0
Stays = All (λ p. p.1 ≡ current p.0)

Stays-append : (l m : List (ℕ × Chosen)) → Stays l → Stays m → Stays (l ++ m)
Stays-append [] m h k = k
Stays-append (p ∷ l) m h k = (h.0, Stays-append l m h.1 k)

choose-current :
    (f : SyncToAsync Value) (s s' : Caller) (chosen : Chosen) (e : ℕ)
    → f.is_thread_sensitive ≡ true
    → s.current_executor ≡ some e
    → choose f s ≡ (ok chosen, s')
    → chosen ≡ current e
unfolding choose
choose-current f s s' chosen e y c h =
    let q : choose f s ≡ (ok (current e), s) = rw (y, c) refl in cc

entry-Stays :
    (f : SyncToAsync Value) (s s' : Caller) (chosen : Chosen) (e : ℕ)
    → s.current_executor ≡ some e
    → choose f s ≡ (ok chosen, s')
    → Stays (entry f.is_thread_sensitive e chosen)
entry-Stays f s s' chosen e c h = elim (Bool-cases f.is_thread_sensitive) [
  | inl y ↦ rw y (choose-current f s s' chosen e y c h, tt)
  | inr n ↦ rw n tt
]

module _ (is_local : ℕ → Bool) (same : CValue Value → CValue Value → Bool)
    (sound : (v w : CValue Value) → same v w ≡ true → v ≡ w) (executors : ℕ)
    (named : is_local executors ≡ true) where
  mutual
    pub SyncRun-Stays :
        {ident : ℕ} {context last : Context Value} {log : List (ℕ × Chosen)}
        → SyncRun is_local same executors ident context log last
        → IsDict context
        → Stays log
          × IsDict last
          × (current_of executors ident last ≡ current_of executors ident context)
    SyncRun-Stays returns u = (tt, u, refl)
    SyncRun-Stays {ident} {context} (writes v x ne r) u =
        let (h, w, q) = SyncRun-Stays r (IsDict-insert v x context u) in
        (h, w, q ∙ current_of-insert executors ident v x context ne)
    SyncRun-Stays {ident} {context}
          (calls {after} {log} {rest} c contexts s o final ex i loop made base done inner call r)
          u =
        let run = c.loop_run (placed c contexts).0 in
        let base_IsDict =
          IsDict-restore_context is_local same run.ident (marked c context) run.base base in
        let (a, w, _) =
          AsyncRun-Stays inner base_IsDict
            (entered is_local same sound executors c context run ex named u) in
        let (q, v) =
          after_call is_local same sound executors c context after final contexts s o ex loop made
            done call u w in
        let (b, x, p) = SyncRun-Stays r v in
        (
          Stays-append log rest a b,
          x,
          p ∙ subst (λ j. current_of executors j after ≡ current_of executors j context) i q,
        )
    SyncRun-Stays {ident} {context} (calls_failing {after} c contexts s o e ex i loop made call r)
          u =
        let (q, v) =
          after_failing is_local same sound executors c context after contexts s o e ex loop made
            call u in
        let (b, x, p) = SyncRun-Stays r v in
        (b, x, p ∙ subst (λ j. current_of executors j after ≡ current_of executors j context) i q)

    AsyncRun-Stays :
        {parent ident : ℕ} {context last : Context Value} {log : List (ℕ × Chosen)}
        → AsyncRun is_local same executors parent ident context log last
        → IsDict context
        → current_of executors ident context ≡ some parent
        → Stays log × IsDict last × (current_of executors ident last ≡ some parent)
    AsyncRun-Stays ends u h = (tt, u, h)
    AsyncRun-Stays {ident} {context} (sets v x ne r) u h =
        AsyncRun-Stays r (IsDict-insert v x context u)
          (current_of-insert executors ident v x context ne ∙ h)
    AsyncRun-Stays (creates_task {log} {rest} task r) u h =
        let (a, _, _) = AsyncRun-Stays task u h in
        let (b, w, q) = AsyncRun-Stays r u h in (Stays-append log rest a b, w, q)
    AsyncRun-Stays {parent} {ident} {context}
          (awaits {child} {after} {log} {rest} f runs s s' s'' chosen end own c h calm left inner
            call next)
          u g =
        let worker = (runs chosen).worker in
        let (a, w, q) =
          SyncRun-Stays inner (IsDict-restore_context is_local same worker context context u) in
        let (k, v) =
          after_await is_local same sound executors f ident parent runs context child after s s' s''
            chosen end own h calm left call named u w
            (q
              ∙ current_of-start is_local same sound executors ident parent (runs chosen) context
                  named u g) in
        let (b, x, p) = AsyncRun-Stays next v k in
        (
          Stays-append (entry f.is_thread_sensitive parent chosen) (log ++ rest)
              (entry-Stays f s s' chosen parent (c ∙ g) h) (Stays-append log rest a b),
          x,
          p,
        )
    AsyncRun-Stays {parent} {ident} {context}
          (awaits_own {own} {child} {after} {log} {rest} f runs s s' s'' chosen end o d c h calm
            left inner call next)
          u g =
        let worker = (runs chosen).worker in
        let (a, _, _) =
          SyncRun-Stays inner (IsDict-restore_context is_local same worker own own d) in
        let kept : context ≡ after =
          after_own is_local same sound executors f ident runs own context after s s' s'' chosen end
            o h calm call in
        let (b, x, p) =
          AsyncRun-Stays next (subst IsDict kept u)
            (subst (λ l. current_of executors ident l ≡ some parent) kept g) in
        (
          Stays-append (entry f.is_thread_sensitive parent chosen) (log ++ rest)
              (entry-Stays f s s' chosen parent (c ∙ g) h) (Stays-append log rest a b),
          x,
          p,
        )
