-- ===== src/Server/Requests.antt =====
-- What get_or_create_application_instance returns and keeps, the invariant with it.
use asgire.Prelude.{
  ℕ, suc, ◌≤◌, Option, none, some, ◌≡◌, length, length-append, refl, ap, ◌∙◌, Eq, ==-refl, arith,
}
use asgire.Prelude.Int.{ℤ, pos}
use asgire.Prelude.Dict.{get, get-insert, get-remove, insert-new, length-insert_old}
use asgire.Prelude.Result.{ok, err}
use asgire.Prelude.Exec.{◌>>◌, >>-ok}
use asgire.Server.{
  application_error, Server, Details, Result, Exec, make_room, create,
  get_or_create_application_instance, get_or_create_found, create_by,
}
use asgire.Server.Oldest.{without, instances-without, max-without, application-without}
use asgire.Server.Create.{HasRoom, make_room-HasRoom}
use asgire.Server.Invariant.{Inv, without-Inv}
use asgire.Server.Invariant.Ops.{touched-Inv, created-Inv}

module _ {K : Type 0} ⦃e : Eq K⦄ where
  -- A queue is returned, no exception is raised; it is the queue registered under the scope id,
  -- that of the instance that was there, if there was one, used now.
  pub record Served (max : ℕ) (s : Server K) (k : K) (now : ℕ) (r : Result ℕ × Server K)
      : Type 0 where
    pub details : Details
    pub result : r.0 ≡ ok details.input_queue
    pub registered : get k r.1.application_instances ≡ some details
    pub used : details.last_used ≡ now
    pub same :
        (d : Details)
        → get k s.application_instances ≡ some d
        → (details ≡ record d { last_used = now })
          × (length r.1.application_instances ≡ length s.application_instances)
    pub bounded : get k s.application_instances ≡ none → length r.1.application_instances ≤ suc max
    pub limit : r.1.max_applications ≡ s.max_applications
    pub inv : Inv r.1

  found-Served :
      (max : ℕ) (s : Server K) (k : K) (scope now : ℕ) (d : Details)
      → get k s.application_instances ≡ some d
      → Inv s
      → Served max s k now (get_or_create_found k scope now (some d) s)
  unfolding get_or_create_found
  found-Served max s k scope now d g v = record {
    details = record d { last_used = now };
    result = refl;
    registered = get-insert k k _ s.application_instances ∙ rw (==-refl k);
    used = refl;
    same = λ d0 g0. (ground arith, length-insert_old k _ d s.application_instances g);
    bounded = λ n. cc;
    limit = refl;
    inv = touched-Inv s k d (record d { last_used = now }) g refl refl v;
  }

  abbrev pub Room : K → ℤ → (ℕ → ℕ → Option ℕ) → Server K → Type 0
  Room k max app s =
      Inv s
      × (get k s.application_instances ≡ none)
      × (s.max_applications ≡ max)
      × (s.application ≡ app)

  Room-without :
      (k : K) (max : ℤ) (app : ℕ → ℕ → Option ℕ) (s : Server K) (j : K) (d : Details)
      → get j s.application_instances ≡ some d
      → Room k max app s
      → Room k max app (without s j d)
  Room-without k max app s j d g (v, n, m, a) = (
    without-Inv s j d g v,
    ap (get k) (instances-without s j d)
        ∙ get-remove j k s.application_instances v.dict
        ∙ ground (arith, n),
    max-without s j d ∙ m,
    application-without s j d ∙ a,
  )

  length-create :
      (k : K) (scope now : ℕ) (s : Server K)
      → get k s.application_instances ≡ none
      → length (create_by none k scope now s).1.application_instances
        ≡ suc (length s.application_instances)
  unfolding create_by
  length-create k scope now s g = omega (
    arith,
    ap length (insert-new k _ s.application_instances g),
    length-append s.application_instances _,
  )

  max-create :
      (k : K) (scope now : ℕ) (s : Server K)
      → (create_by none k scope now s).1.max_applications ≡ s.max_applications
  unfolding create_by
  max-create k scope now s = refl

  create-none :
      (k : K) (scope now : ℕ) (s : Server K)
      → s.application scope now ≡ none
      → create k scope now s ≡ create_by none k scope now s
  unfolding create
  create-none k scope now s h = rw h refl

  pub create-some :
      (k : K) (scope now x : ℕ) (s : Server K)
      → s.application scope now ≡ some x
      → create k scope now s ≡ (err (application_error x), s)
  unfolding create
  create-some k scope now x s h = rw h refl

  roomy-Served :
      (max : ℕ) (s s' : Server K) (k : K) (scope now : ℕ)
      → s.max_applications ≡ pos max
      → get k s.application_instances ≡ none
      → s.application scope now ≡ none
      → Room k s.max_applications s.application s'
      → length s'.application_instances ≤ max
      → Served max s k now (create k scope now s')
  roomy-Served max s s' k scope now l g h (v, n, m, a) room =
      rw (create-none k scope now s' (ap (λ f. f scope now) a ∙ h)) (record {
        details = record {
          input_queue = s'.next_id;
          future = s'.next_id;
          scope = scope;
          last_used = now;
        };
        result = unfold create_by in refl;
        registered =
            unfold create_by in (get-insert k k _ s'.application_instances ∙ rw (==-refl k));
        used = refl;
        same = λ d0 g0. cc;
        bounded = λ q. omega (arith, length-create k scope now s' n, room);
        limit = max-create k scope now s' ∙ m;
        inv = created-Inv k scope now s' n v;
      })

  pub found_none :
      (k : K) (scope now : ℕ) (s : Server K)
      → get_or_create_found k scope now none s
        ≡ (make_room (suc (length s.application_instances)) >> create k scope now) s
  unfolding get_or_create_found
  found_none k scope now s = refl

  -- The loop ends with room for one more.
  pub roomy :
      (max : ℕ) (s : Server K) (k : K)
      → s.max_applications ≡ pos max
      → Inv s
      → get k s.application_instances ≡ none
      → HasRoom
          (Room k s.max_applications s.application)
          max
          (make_room (suc (length s.application_instances)) s)
  roomy max s k l v g =
      make_room-HasRoom (Room k s.max_applications s.application) max
        (λ s1 (w, _, m, _). (w.dict, m ∙ l)) (Room-without k s.max_applications s.application)
        (suc (length s.application_instances)) s (omega arith) (v, g, refl, refl)

  new-Served :
      (max : ℕ) (s : Server K) (k : K) (scope now : ℕ)
      → s.max_applications ≡ pos max
      → s.application scope now ≡ none
      → Inv s
      → get k s.application_instances ≡ none
      → Served max s k now (get_or_create_found k scope now none s)
  new-Served max s k scope now l a v g =
      let h = roomy max s k l v g in
      let m : Exec K Unit = make_room (suc (length s.application_instances)) in
      rw (found_none k scope now s, >>-ok m (create k scope now) s h.result)
        (roomy-Served max s (m s).1 k scope now l g a h.kept h.room)

  found_cases :
      (max : ℕ) (s : Server K) (k : K) (scope now : ℕ) (o : Option Details)
      → s.max_applications ≡ pos max
      → s.application scope now ≡ none
      → get k s.application_instances ≡ o
      → Inv s
      → Served max s k now (get_or_create_found k scope now o s)
  found_cases max s k scope now none l a g v = new-Served max s k scope now l a v g
  found_cases max s k scope now (some d) l a g v = found-Served max s k scope now d g v

  -- From a server that satisfies the invariant, where `max_applications` is not negative and where making an instance raises nothing,
  -- `get_or_create_application_instance` raises nothing, the loop that makes room included. It returns the input queue of the instance that
  -- is then registered under the scope id, with `last_used` the present time. An instance that was
  -- there keeps all else, and the number of instances stays; for a new one there are afterwards at most
  -- `max_applications + 1` instances. The invariant is kept.
  pub get_or_create-Served :
      (max : ℕ) (s : Server K) (k : K) (scope now : ℕ)
      → s.max_applications ≡ pos max
      → s.application scope now ≡ none
      → Inv s
      → Served max s k now (get_or_create_application_instance k scope now s)
  unfolding get_or_create_application_instance
  get_or_create-Served max s k scope now l a v =
      found_cases max s k scope now (get k s.application_instances) l a refl v

  -- Of an instance that is there, whatever making one would raise.
  pub get_or_create-old :
      (max : ℕ) (s : Server K) (k : K) (scope now : ℕ) (d : Details)
      → get k s.application_instances ≡ some d
      → Inv s
      → Served max s k now (get_or_create_application_instance k scope now s)
  unfolding get_or_create_application_instance
  get_or_create-old max s k scope now d g v = rw g (found-Served max s k scope now d g v)

  pub get_or_create-new :
      (k : K) (scope now : ℕ) (s : Server K)
      → get k s.application_instances ≡ none
      → get_or_create_application_instance k scope now s
        ≡ (make_room (suc (length s.application_instances)) >> create k scope now) s
  unfolding get_or_create_application_instance
  get_or_create-new k scope now s g = rw g (found_none k scope now s)
