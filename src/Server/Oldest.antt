-- ===== src/Server/Oldest.antt =====
-- Which instance `delete_oldest_application_instance` deletes.
use asgire.Prelude.{
  ℕ, ◌≤◌, ◌<◌, [], ◌∷◌, ◌++◌, some, leb, length, ◌≡◌, inl, inr, refl, ap, subst, ◌∙◌, All,
  All-append, if◌then◌else◌, Eq, arith, Bool-cases,
}
use asgire.Prelude.Dict.{Dict, get, remove, IsDict, IsDict-Absent_pre, remove-split, get-split}
use asgire.Prelude.Result.{ok}
use asgire.Server.{
  Server, Details, is_done, cancel, Result, min_used, find_used, delete_application_instance,
  delete_oldest_application_instance, delete_used, delete_since, delete_found,
}

module _ {K : Type 0} where
  abbrev pub AllUsed : (ℕ → Type 0) → Dict K Details → Type 0
  AllUsed P = All (λ (p : K × Details). P p.1.last_used)

  -- The first of the entries whose `last_used` is smallest.
  pub record Oldest (d : Dict K Details) : Type 0 where
    pub key : K
    pub details : Details
    pub pre : Dict K Details
    pub post : Dict K Details
    pub split : d ≡ pre ++ (key, details) ∷ post
    pub before : AllUsed (λ t. details.last_used < t) pre
    pub after : AllUsed (λ t. details.last_used ≤ t) post

  All-weaken :
      (m n : ℕ) (d : Dict K Details) → m ≤ n → AllUsed (λ t. n ≤ t) d → AllUsed (λ t. m ≤ t) d
  All-weaken m n [] h a = tt
  All-weaken m n (x ∷ d) h a = (omega arith, All-weaken m n d h a.1)

  All-lt-le : (n : ℕ) (d : Dict K Details) → AllUsed (λ t. n < t) d → AllUsed (λ t. n ≤ t) d
  All-lt-le n [] a = tt
  All-lt-le n (x ∷ d) a = (omega arith, All-lt-le n d a.1)

  Oldest-le : (d : Dict K Details) (o : Oldest d) → AllUsed (λ t. o.details.last_used ≤ t) d
  Oldest-le d o = rw o.split (
      All-append _ o.pre ((o.key, o.details) ∷ o.post) (All-lt-le _ o.pre o.before)
        (omega arith, o.after))

  -- `min` and the search for it agree on that entry.
  record Found (d : Dict K Details) : Type 0 where
    oldest : Oldest d
    least : min_used d ≡ some oldest.details.last_used
    found : find_used oldest.details.last_used d ≡ some oldest.key

  Found-cons : (k : K) (x : Details) (d : Dict K Details) → Found d → Found ((k, x) ∷ d)
  unfolding min_used find_used
  Found-cons k x d f = elim (Bool-cases (leb x.last_used f.oldest.details.last_used)) [
    | inl h ↦ record {
      oldest = record {
        key = k;
        details = x;
        pre = [];
        post = d;
        split = refl;
        before = tt;
        after =
            All-weaken x.last_used f.oldest.details.last_used d (ground arith)
              (Oldest-le d f.oldest);
      };
      least = ground (arith, f.least);
      found = ground arith;
    }
    | inr h ↦ record {
      oldest = record {
        key = f.oldest.key;
        details = f.oldest.details;
        pre = (k, x) ∷ f.oldest.pre;
        post = f.oldest.post;
        split = ap (◌∷◌ (k, x)) f.oldest.split;
        before = (ground arith, f.oldest.before);
        after = f.oldest.after;
      };
      least = ground (arith, f.least);
      found = ground (arith, f.found);
    }
  ]

  find_oldest : (k : K) (x : Details) (d : Dict K Details) → Found ((k, x) ∷ d)
  unfolding min_used find_used
  find_oldest k x [] = record {
    oldest = record {
      key = k;
      details = x;
      pre = [];
      post = [];
      split = refl;
      before = tt;
      after = tt;
    };
    least = refl;
    found = ground arith;
  }
  find_oldest k x ((j, y) ∷ d) = Found-cons k x ((j, y) ∷ d) (find_oldest j y d)

module _ {K : Type 0} ⦃e : Eq K⦄ where
  -- The entry is gone, and its task, unless it is done, is asked to stop. Nothing else changes.
  abbrev pub without : Server K → K → Details → Server K
  without s k d =
      let s' = record s { application_instances = remove k s.application_instances } in
      if is_done (s.tasks d.future) then s' else cancel d.future s'

  pub instances-without :
      (s : Server K) (k : K) (d : Details)
      → (without s k d).application_instances ≡ remove k s.application_instances
  instances-without s k d = ground arith

  pub max-without :
      (s : Server K) (k : K) (d : Details) → (without s k d).max_applications ≡ s.max_applications
  max-without s k d = ground arith

  pub application-without :
      (s : Server K) (k : K) (d : Details) → (without s k d).application ≡ s.application
  application-without s k d = elim (Bool-cases (is_done (s.tasks d.future))) [
    | inl y ↦ rw y refl
    | inr n ↦ rw n refl
  ]

  pub delete_lem :
      (k : K) (d : Details) (s : Server K)
      → get k s.application_instances ≡ some d
      → delete_application_instance k s ≡ (ok tt, without s k d)
  unfolding delete_application_instance
  delete_lem k d s h = rw (h, delete_found)

  delete_oldest_lem :
      (s : Server K) (f : Found s.application_instances)
      → delete_oldest_application_instance s ≡ delete_application_instance f.oldest.key s
  unfolding delete_oldest_application_instance
  delete_oldest_lem s f = rw (f.least, delete_since, f.found, delete_used)

  -- What a deletion of the oldest instance comes to.
  pub record DeletesOldest (s : Server K) (r : Result (Unit {0}) × Server K) : Type 0 where
    pub oldest : Oldest s.application_instances
    pub there : get oldest.key s.application_instances ≡ some oldest.details
    pub result : r ≡ (ok tt, without s oldest.key oldest.details)
    pub instances : r.1.application_instances ≡ oldest.pre ++ oldest.post

  oldest-DeletesOldest :
      (s : Server K)
      → IsDict s.application_instances
      → Found s.application_instances
      → DeletesOldest s (delete_oldest_application_instance s)
  oldest-DeletesOldest s u f =
      let o = f.oldest in
      let a = IsDict-Absent_pre o.key o.details o.pre o.post (subst IsDict o.split u) in
      let g = ap (get o.key) o.split ∙ get-split o.key o.details o.pre o.post a in
      let e1 = delete_oldest_lem s f ∙ delete_lem o.key o.details s g in
      record {
        oldest = o;
        there = g;
        result = e1;
        instances =
            ap (λ (r : Result (Unit {0}) × Server K). r.1.application_instances) e1
            ∙ instances-without s o.key o.details
            ∙ ap (remove o.key) o.split
            ∙ remove-split o.key o.details o.pre o.post a;
      }

  Found-of : (d : Dict K Details) → 0 < length d → Found d
  Found-of [] h = absurd (omega arith)
  Found-of ((k, x) ∷ d) h = find_oldest k x d

  -- Of a table that is not empty, `delete_oldest_application_instance` deletes the first entry
  -- among those used least recently, keeps the others in their order, and asks the deleted
  -- entry's task to stop unless it is done.
  pub delete_oldest-DeletesOldest :
      (s : Server K)
      → IsDict s.application_instances
      → 0 < length s.application_instances
      → DeletesOldest s (delete_oldest_application_instance s)
  delete_oldest-DeletesOldest s u h = oldest-DeletesOldest s u (Found-of s.application_instances h)
