-- ===== src/Server/Evicts.antt =====
-- Which instances give way to a new one, and what the checker's round may forget.
use asgire.Prelude.{
  true, ℕ, suc, ◌≤◌, [], ◌∷◌, ◌++◌, false, none, some, ◌≡◌, ◌≢◌, length, inl, inr, refl, sym, ap,
  subst, ◌∙◌, Eq, arith,
}
use asgire.Prelude.Int.{pos}
use asgire.Prelude.Dict.{Dict, get, remove, IsDict, All-get}
use asgire.Prelude.Result.{ok}
use asgire.Prelude.Exec.{◌>>◌, >>-ok}
use asgire.Server.{
  exceeds, Server, Details, running, failed, Result, check, check_items, check_done, create,
  make_room, get_or_create_application_instance, get_or_create_found, delete_application_instance,
}
use asgire.Server.Oldest.{Oldest, without, max-without, delete_oldest-DeletesOldest}
use asgire.Server.Create.{make_room_stop, make_room_go, length-without}
use asgire.Server.Invariant.{Inv, Remembered, remove_apart}
use asgire.Server.Requests.{found_none}

module _ {K : Type 0} ⦃e : Eq K⦄ where
  get_or_create-none :
      (k : K) (scope now : ℕ) (s s' : Server K)
      → get k s.application_instances ≡ none
      → make_room (suc (length s.application_instances)) s ≡ (ok tt, s')
      → get_or_create_application_instance k scope now s ≡ create k scope now s'
  unfolding get_or_create_application_instance
  get_or_create-none k scope now s s' g m =
      ap (λ o. get_or_create_found k scope now o s) g
      ∙ found_none k scope now s
      ∙ >>-ok (make_room (suc (length s.application_instances))) (create k scope now) s
          (ap (λ (r : Result (Unit {0}) × Server K). r.0) m)
      ∙ ap (λ (r : Result (Unit {0}) × Server K). create k scope now r.1) m

  fits_in :
      (s : Server K) (max : ℕ)
      → s.max_applications ≡ pos max
      → length s.application_instances ≤ max
      → exceeds s.max_applications (length s.application_instances) ≡ false
  fits_in s max l h = rw l (ground arith)

  too_many :
      (s : Server K) (max : ℕ)
      → s.max_applications ≡ pos max
      → length s.application_instances ≡ suc max
      → exceeds s.max_applications (length s.application_instances) ≡ true
  too_many s max l h = rw l (ground arith)

  -- With at most `max_applications` instances, a new one displaces none.
  evicts_none :
      (k : K) (scope now max : ℕ) (s : Server K)
      → s.max_applications ≡ pos max
      → get k s.application_instances ≡ none
      → length s.application_instances ≤ max
      → get_or_create_application_instance k scope now s ≡ create k scope now s
  evicts_none k scope now max s l g h =
      get_or_create-none k scope now s s g
        (make_room_stop (length s.application_instances) s (fits_in s max l h))

  pub record EvictsOne (k : K) (scope now : ℕ) (s : Server K) : Type 0 where
    pub oldest : Oldest s.application_instances
    pub left : Server K
    pub stopped : left ≡ without s oldest.key oldest.details
    pub instances : left.application_instances ≡ oldest.pre ++ oldest.post
    pub created : get_or_create_application_instance k scope now s ≡ create k scope now left

  -- With one instance more than `max_applications`, a new one displaces exactly the first of those
  -- used least recently: it is deleted, its task is asked to stop unless it is done, and the new
  -- instance is made in the server that is left.
  pub get_or_create-EvictsOne :
      (k : K) (scope now max : ℕ) (s : Server K)
      → s.max_applications ≡ pos max
      → get k s.application_instances ≡ none
      → length s.application_instances ≡ suc max
      → IsDict s.application_instances
      → EvictsOne k scope now s
  get_or_create-EvictsOne k scope now max s l g h u =
      let n = length s.application_instances in
      let o = delete_oldest-DeletesOldest s u (omega arith) in
      let s' = without s o.oldest.key o.oldest.details in
      let fits : length s'.application_instances ≤ max =
        omega (arith, length-without s o.oldest.key o.oldest.details o.there) in
      record {
        oldest = o.oldest;
        left = s';
        stopped = refl;
        instances =
            ap (λ (r : Result (Unit {0}) × Server K). r.1.application_instances) (sym o.result)
            ∙ o.instances;
        created = get_or_create-none k scope now s s' g (
            make_room_go n s s' (too_many s max l h) o.result
            ∙ subst (λ m. make_room m s' ≡ (ok tt, s'))
                (length-without s o.oldest.key o.oldest.details o.there)
                (make_room_stop (length s'.application_instances) s'
                  (fits_in s' max (max-without s o.oldest.key o.oldest.details ∙ l) fits)));
      }

  -- A hook that deletes the failed instance and makes a new one under its scope id.
  abbrev pub restart : K → ℕ → ℕ → ℕ → Details → Server K → Server K
  restart k scope now x d s =
      (get_or_create_application_instance k scope now (delete_application_instance k s).1).1

  check_one :
      (hook : ℕ → Details → Server K → Server K) (s : Server K) (k : K) (d : Details) (x : ℕ)
      → s.application_instances ≡ (k, d) ∷ []
      → (s.tasks d.future).state ≡ failed x
      → s.is_true x ≡ true
      → check hook s ≡ (
        ok tt,
        record (hook x d s) { application_instances = remove k (hook x d s).application_instances },
      )
  unfolding check check_items check_done
  check_one hook s k d x q f b =
      ap (λ (t : Dict K Details). check_items hook t s) q
      ∙ ap (λ st. (check_done hook st k d >> check_items hook []) s) f
      ∙ rw b refl

  forgotten :
      (s : Server K) (k : K) (d : Details)
      → Inv s
      → get k s.application_instances ≡ some d
      → (s.tasks d.future).state ≡ running
      → Remembered (record s { application_instances = remove k s.application_instances }) d.future
      → ⊥
  forgotten s k d v g r (inl (inl done)) = ground arith
  forgotten s k d v g r (inl (inr asked)) = cc (
    asked,
    All-get (λ (p : K × Details). (s.tasks p.1.future).cancel_requested ≡ false) k d
        s.application_instances g v.wanted,
  )
  forgotten s k d v g r (inr there) =
      All-get (λ (p : K × Details). p.1.future ≢ d.future) there.key there.details
        (remove k s.application_instances) there.there
        (remove_apart (λ x. x.future) k d s.application_instances g v.tasks_apart) there.future

  -- The round that follows a failed instance, the only one, whose exception is true, where `application_exception` leaves a
  -- sound server with a new running instance under the same scope id: the new instance's task is
  -- then neither done, nor asked to stop, nor registered.
  pub check_forgets :
      (hook : ℕ → Details → Server K → Server K) (s : Server K) (k : K) (d d' : Details) (x : ℕ)
      → s.application_instances ≡ (k, d) ∷ []
      → (s.tasks d.future).state ≡ failed x
      → s.is_true x ≡ true
      → Inv (hook x d s)
      → get k (hook x d s).application_instances ≡ some d'
      → ((hook x d s).tasks d'.future).state ≡ running
      → ¬ Remembered (check hook s).1 d'.future
  check_forgets hook s k d d' x q f b v g r m = forgotten (hook x d s) k d' v g r (
      subst (λ (u : Result (Unit {0}) × Server K). Remembered u.1 d'.future)
        (check_one hook s k d x q f b) m)
