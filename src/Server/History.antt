-- ===== src/Server/History.antt =====
-- Any sequence of calls of the server's methods, checker rounds and ends of tasks.
use asgire.Prelude.{
  true, ℕ, suc, ◌≤◌, List, [], ◌∷◌, false, some, ◌≡◌, length, none, Option, inl, inr, refl, ap, ◌∙◌,
  Eq, arith, Option-cases,
}
use asgire.Prelude.Int.{pos}
use asgire.Prelude.Dict.{Dict, get, length-remove}
use asgire.Prelude.Result.{err}
use asgire.Server.{
  Server, Details, Task, TaskState, running, set_task, fresh_task, value_error, check, Exec, Result,
  make_room, create, get_or_create_application_instance, delete_application_instance,
  delete_oldest_application_instance, delete_found, delete_since, min_used,
}
use asgire.Server.Oldest.{
  without, instances-without, max-without, delete_lem, delete_oldest-DeletesOldest,
}
use asgire.Server.Invariant.{AllDetails, Inv, Remembered, Stopped, without-Inv}
use asgire.Server.Requests.{
  Served, get_or_create-Served, get_or_create-new, get_or_create-old, create-some, roomy,
}
use asgire.Prelude.Exec.{>>-ok}
use asgire.Server.Checker.{log_only, check-Checked}

pub data Call (K : Type 0) : Type 0 where
  gets : K → ℕ → ℕ → Call K
  deletes : K → Call K
  deletes_oldest : Call K
  checks : Call K
  ends : ℕ → TaskState → Call K

-- A task that runs ends by itself, or by the cancellation that it was asked for.
abbrev end_task : ℕ → TaskState → Task → Task
end_task i st t = elim t.state [ running ↦ record t { state = st } | _ ↦ t ]

module _ {K : Type 0} ⦃e : Eq K⦄ where
  unfoldable pub step : Server K → Call K → Server K
  step s (gets k scope now) = (get_or_create_application_instance k scope now s).1
  step s (deletes k) = (delete_application_instance k s).1
  step s deletes_oldest = (delete_oldest_application_instance s).1
  step s checks = (check log_only s).1
  step s (ends i st) = record s { tasks = set_task s.tasks i (end_task i st (s.tasks i)) }

  unfoldable pub run : Server K → List (Call K) → Server K
  unfolding step
  run s [] = s
  run s (c ∷ cs) = run (step s c) cs

  unfoldable pub init : ℕ → (ℕ → ℕ → Option ℕ) → Server K
  init max app = record {
    application = app;
    is_true = λ x. true;
    max_applications = pos max;
    application_instances = [];
    tasks = λ i. fresh_task;
    next_id = 0;
  }

  -- The invariant, and the bound on the table.
  pub record Sound (max : ℕ) (s : Server K) : Type 0 where
    pub inv : Inv s
    pub limit : s.max_applications ≡ pos max
    pub size : length s.application_instances ≤ suc max

  Sound-without :
      (max : ℕ) (s : Server K) (k : K) (d : Details)
      → get k s.application_instances ≡ some d
      → Sound max s
      → Sound max (without s k d)
  Sound-without max s k d g v = record {
    inv = without-Inv s k d g v.inv;
    limit = max-without s k d ∙ v.limit;
    size = omega (
      arith,
      ap length (instances-without s k d),
      length-remove k d s.application_instances g,
      v.size,
    );
  }

  Sound-delete :
      (max : ℕ) (s : Server K) (k : K) → Sound max s → Sound max (delete_application_instance k s).1
  Sound-delete max s k v = elim (Option-cases (get k s.application_instances)) [
    | inl g ↦ unfold delete_application_instance in rw (g, delete_found) v
    | inr (d, g) ↦ rw (delete_lem k d s g) (Sound-without max s k d g v)
  ]

  delete_oldest_empty :
      (s : Server K)
      → s.application_instances ≡ []
      → delete_oldest_application_instance s ≡ (err value_error, s)
  unfolding delete_oldest_application_instance min_used
  delete_oldest_empty s q = ap (λ (t : Dict K Details). delete_since (min_used t) s) q

  Sound-delete_oldest :
      (max : ℕ) (s : Server K) (t : Dict K Details)
      → s.application_instances ≡ t
      → Sound max s
      → Sound max (delete_oldest_application_instance s).1
  Sound-delete_oldest max s [] q v = rw (delete_oldest_empty s q) v
  Sound-delete_oldest max s (x ∷ t) q v =
      let d = delete_oldest-DeletesOldest s v.inv.dict (rw q (omega arith)) in
      rw d.result (Sound-without max s d.oldest.key d.oldest.details d.there v)

  -- An instance that could not be made: there is room for it.
  Sound-refused :
      (max : ℕ) (s : Server K) (k : K) (scope now x : ℕ)
      → s.application scope now ≡ some x
      → get k s.application_instances ≡ none
      → Sound max s
      → Sound max (get_or_create_application_instance k scope now s).1
  Sound-refused max s k scope now x a g v =
      let h = roomy max s k v.limit v.inv g in
      let m : Exec K Unit = make_room (suc (length s.application_instances)) in
      let (w, _, l, app) = h.kept in
      rw
        (
          get_or_create-new k scope now s g,
          >>-ok m (create k scope now) s h.result,
          create-some k scope now x (m s).1 (ap (λ f. f scope now) app ∙ a),
        )
        (record { inv = w; limit = l ∙ v.limit; size = omega (arith, h.room) })

  Sound-Served :
      (max : ℕ) (s : Server K) (k : K) (now : ℕ) (r : Result ℕ × Server K)
      → Served max s k now r
      → Sound max s
      → Sound max r.1
  Sound-Served max s k now r h v = record {
    inv = h.inv;
    limit = h.limit ∙ v.limit;
    size = elim (Option-cases (get k s.application_instances)) [
      | inl g ↦ omega (arith, h.bounded g)
      | inr (d, g) ↦ omega (arith, (h.same d g).1, v.size)
    ];
  }

  Sound-gets :
      (max : ℕ) (s : Server K) (k : K) (scope now : ℕ)
      → Sound max s
      → Sound max (get_or_create_application_instance k scope now s).1
  Sound-gets max s k scope now v = elim (Option-cases (s.application scope now)) [
    | inl a ↦ Sound-Served max s k now _ (get_or_create-Served max s k scope now v.limit a v.inv) v
    | inr (x, a) ↦ elim (Option-cases (get k s.application_instances)) [
      | inl g ↦ Sound-refused max s k scope now x a g v
      | inr (d, g) ↦ Sound-Served max s k now _ (get_or_create-old max s k scope now d g v.inv) v
    ]
  ]

  -- The end of a task takes back no request, and no task that is done runs again.
  module _ (s : Server K) (i : ℕ) (st : TaskState) where
    abbrev ended : Server K
    ended = record s { tasks = set_task s.tasks i (end_task i st (s.tasks i)) }

    ended_request : (j : ℕ) → (ended.tasks j).cancel_requested ≡ (s.tasks j).cancel_requested
    ended_request j = ground arith

    ended-Stopped : (j : ℕ) → Stopped (s.tasks j) → Stopped (ended.tasks j)
    ended-Stopped j (inl d) = inl (ground arith)
    ended-Stopped j (inr c) = inr (ended_request j ∙ c)

    ended-Remembered : (j : ℕ) → Remembered s j → Remembered ended j
    ended-Remembered j (inl c) = inl (ended-Stopped j c)
    ended-Remembered j (inr r) =
        inr (record { key = r.key; details = r.details; there = r.there; future = r.future })

    ended_wanted :
        (t : Dict K Details)
        → AllDetails (λ d. (s.tasks d.future).cancel_requested ≡ false) t
        → AllDetails (λ d. (ended.tasks d.future).cancel_requested ≡ false) t
    ended_wanted [] h = tt
    ended_wanted ((k, d) ∷ t) h = (ended_request d.future ∙ h.0, ended_wanted t h.1)

    ended-Inv : Inv s → Inv ended
    ended-Inv v = record {
      dict = v.dict;
      fresh = v.fresh;
      tasks_apart = v.tasks_apart;
      queues_apart = v.queues_apart;
      wanted = ended_wanted s.application_instances v.wanted;
      remembered = λ j lt. ended-Remembered j (v.remembered j lt);
    }

  pub Sound-step : (max : ℕ) (s : Server K) (c : Call K) → Sound max s → Sound max (step s c)
  unfolding step
  Sound-step max s (gets k scope now) v = Sound-gets max s k scope now v
  Sound-step max s (deletes k) v = Sound-delete max s k v
  Sound-step max s deletes_oldest v = Sound-delete_oldest max s s.application_instances refl v
  Sound-step max s checks v =
      let c = check-Checked s v.inv in
      record { inv = c.inv; limit = c.limit ∙ v.limit; size = omega (arith, c.size, v.size) }
  Sound-step max s (ends i st) v = record {
    inv = ended-Inv s i st v.inv;
    limit = v.limit;
    size = v.size;
  }

  Sound-run : (max : ℕ) (s : Server K) (cs : List (Call K)) → Sound max s → Sound max (run s cs)
  unfolding run
  Sound-run max s [] v = v
  Sound-run max s (c ∷ cs) v = Sound-run max (step s c) cs (Sound-step max s c v)

  -- After any calls of a server whose `max_applications` is not negative and that only logs its
  -- applications' exceptions: keys, tasks and queues of the table are distinct, no registered task
  -- has been asked to stop, every task ever made is done, asked to stop or registered, and the
  -- table has at most `max_applications + 1` entries.
  pub run-Sound :
      (max : ℕ) (app : ℕ → ℕ → Option ℕ) (cs : List (Call K)) → Sound max (run (init max app) cs)
  run-Sound max app cs = Sound-run max (init max app) cs (
      unfold init in
      record {
        inv = record {
          dict = tt;
          fresh = tt;
          tasks_apart = tt;
          queues_apart = tt;
          wanted = tt;
          remembered = λ i lt. absurd (omega arith);
        };
        limit = refl;
        size = omega arith;
      })
