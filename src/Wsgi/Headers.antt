-- ===== src/Wsgi/Headers.antt =====
-- How build_environ groups the headers of the request.
use asgire.Prelude.{
  ℕ, suc, ◌≤◌, ◌<◌, List, [], ◌∷◌, ◌++◌, Bool, true, false, not, ◌&&◌, Option, ◌≡◌, ◌≢◌, ◌⊎◌, inl,
  inr, refl, sym, ◌∙◌, ap, subst, arith, Bool-cases, length, length-append, append_assoc,
  append-nil, ◌==◌, list_eq, list_beq_iff, leb, ◌=ℕ◌, if◌then◌else◌,
}
use asgire.Prelude.Dict.{get, insert, get-insert, IsDict, IsDict-insert}
use asgire.Prelude.Result
use asgire.Prelude.Result.{Result, ok, err}
use asgire.Text.{Str, Bytes}
use asgire.Wsgi.Messages.{Error, value_error}
use asgire.Wsgi.Environ.{Headers, get_or, corrected_name, add_header, group_headers}

-- The values of the headers with a corrected name, in order.
abbrev pub values_of : Str → List (Bytes × Bytes) → List Bytes
values_of k [] = []
values_of k ((name, value) ∷ hs) =
    let rest = values_of k hs in if corrected_name name == k then value ∷ rest else rest

abbrev pub values_in : Str → Headers → List Str
values_in k d = get_or (get k d) []

abbrev total : Str → Headers → List (Bytes × Bytes) → List Bytes
total k d hs = values_in k d ++ values_of k hs

-- One header, within the limit.
abbrev with_header : Bytes × Bytes → Headers → Headers
with_header (name, value) d =
    insert (corrected_name name) (values_in (corrected_name name) d ++ value ∷ []) d

values_in-insert :
    (k j : Str) (value : Bytes) (d : Headers)
    → values_in k (insert j (values_in j d ++ value ∷ []) d)
      ≡ (if j == k then values_in k d ++ value ∷ [] else values_in k d)
values_in-insert k j value d = elim (Bool-cases (j == k)) [
  | inl y ↦
      ap (λ (o : Option (List Str)). get_or o []) (get-insert j k (values_in j d ++ value ∷ []) d)
      ∙ rw y (rw ((list_beq_iff j k).0 y))
  | inr n ↦
      ap (λ (o : Option (List Str)). get_or o []) (get-insert j k (values_in j d ++ value ∷ []) d)
      ∙ rw n
]

total-with_header :
    (k : Str) (name value : Bytes) (d : Headers) (hs : List (Bytes × Bytes))
    → total k (with_header (name, value) d) hs ≡ total k d ((name, value) ∷ hs)
total-with_header k name value d hs =
    ap (λ (vs : List Bytes). vs ++ values_of k hs)
      (values_in-insert k (corrected_name name) value d)
    ∙ elim (Bool-cases (corrected_name name == k)) [
      | inl y ↦ rw y (append_assoc (values_in k d) (value ∷ []) (values_of k hs))
      | inr n ↦ rw n
    ]

-- A refusal needs a limit and a name over it.
abbrev Over : ℕ → Headers → List (Bytes × Bytes) → Type 0
Over limit d hs = (limit ≢ 0) × ((k : Str) × (limit < length (total k d hs)))

abbrev Bounded : ℕ → Headers → Type 0
Bounded limit d = (k : Str) → (limit ≡ 0) ⊎ (length (values_in k d) ≤ limit)

abbrev GroupFrom : ℕ → Headers → List (Bytes × Bytes) → Result Error Headers → Type 0
GroupFrom limit d hs (ok d') =
    IsDict d' × ((k : Str) → values_in k d' ≡ total k d hs) × Bounded limit d'
GroupFrom limit d hs (err e) = (e ≡ value_error) × Over limit d hs

is_full : ℕ → ℕ → Bool
is_full limit n = not (limit =ℕ 0) && leb limit n

module _ (limit : ℕ) (name value : Bytes) (d : Headers) where
  add_header_full :
      is_full limit (length (values_in (corrected_name name) d)) ≡ true
      → add_header limit (name, value) d ≡ err value_error
  unfolding add_header is_full
  add_header_full h = ground arith

  add_header_fits :
      is_full limit (length (values_in (corrected_name name) d)) ≡ false
      → add_header limit (name, value) d ≡ ok (with_header (name, value) d)
  unfolding add_header is_full
  add_header_fits h = ground arith

GroupFrom-cons :
    (limit : ℕ) (name value : Bytes) (d : Headers) (hs : List (Bytes × Bytes))
    (r : Result Error Headers)
    → GroupFrom limit (with_header (name, value) d) hs r
    → GroupFrom limit d ((name, value) ∷ hs) r
GroupFrom-cons limit name value d hs (ok d') g =
    (g.0, λ k. g.1 k ∙ total-with_header k name value d hs, g.2)
GroupFrom-cons limit name value d hs (err e) (q, (nz, (k, lt))) = (
  q,
  (
    nz,
    (k, subst (λ (vs : List Bytes). limit < length vs) (total-with_header k name value d hs) lt),
  ),
)

values_of_head :
    (name value : Bytes) (hs : List (Bytes × Bytes))
    → (let k = corrected_name name in values_of k ((name, value) ∷ hs) ≡ value ∷ values_of k hs)
values_of_head name value hs = let k = corrected_name name in rw ((list_beq_iff k k).1 refl)

full_over : (limit n : ℕ) → is_full limit n ≡ true → (limit ≢ 0) × (limit ≤ n)
unfolding is_full
full_over limit n h = ground arith

total-Over :
    (limit : ℕ) (name value : Bytes) (d : Headers) (hs : List (Bytes × Bytes))
    → is_full limit (length (values_in (corrected_name name) d)) ≡ true
    → Over limit d ((name, value) ∷ hs)
total-Over limit name value d hs h =
    let k = corrected_name name in
    let f = full_over limit (length (values_in k d)) h in
    (
      f.0,
      (
        k,
        omega (
          arith,
          f.1,
          length-append (values_in k d) (values_of k ((name, value) ∷ hs)),
          ap length (values_of_head name value hs),
        ),
      ),
    )

fits_below : (limit n : ℕ) → is_full limit n ≡ false → (limit ≡ 0) ⊎ (suc n ≤ limit)
unfolding is_full
fits_below limit n h = elim (Bool-cases (limit =ℕ 0)) [
  | inl y ↦ inl (ground arith)
  | inr m ↦ inr (ground arith)
]

Bounded-insert :
    (limit : ℕ) (j : Str) (value : Bytes) (d : Headers)
    → (limit ≡ 0) ⊎ (suc (length (values_in j d)) ≤ limit)
    → Bounded limit d
    → Bounded limit (insert j (values_in j d ++ value ∷ []) d)
Bounded-insert limit j value d (inl z) b k = inl z
Bounded-insert limit j value d (inr lt) b k =
    rw (values_in-insert k j value d) (elim (Bool-cases (j == k)) [
      | inl y ↦ rw y (
          inr (
            omega (
              arith,
              length-append (values_in k d) (value ∷ []),
              ap (λ (i : Str). length (values_in i d)) ((list_beq_iff j k).0 y),
            )))
      | inr n ↦ rw n (b k)
    ])

group_full :
    (limit : ℕ) (h : Bytes × Bytes) (hs : List (Bytes × Bytes)) (d : Headers)
    (r : Result Error Headers)
    → add_header limit h d ≡ r
    → group_headers limit (h ∷ hs) d ≡ Result.◌>>=◌ r (group_headers limit hs)
unfolding group_headers
group_full limit h hs d r q = ap (λ r'. Result.◌>>=◌ r' (group_headers limit hs)) q

group-GroupFrom :
    (limit : ℕ) (hs : List (Bytes × Bytes)) (d : Headers)
    → IsDict d
    → Bounded limit d
    → GroupFrom limit d hs (group_headers limit hs d)
group-GroupFrom limit [] d u b =
    unfold group_headers in (u, λ k. sym (append-nil (values_in k d)), b)
group-GroupFrom limit ((name, value) ∷ hs) d u b =
    elim (Bool-cases (is_full limit (length (values_in (corrected_name name) d)))) [
      | inl full ↦
          rw (group_full limit (name, value) hs d _ (add_header_full limit name value d full))
            (refl, total-Over limit name value d hs full)
      | inr fits ↦
          rw (group_full limit (name, value) hs d _ (add_header_fits limit name value d fits)) (
            GroupFrom-cons limit name value d hs
              (group_headers limit hs (with_header (name, value) d))
              (group-GroupFrom limit hs (with_header (name, value) d)
                (IsDict-insert (corrected_name name) _ d u)
                (Bounded-insert limit (corrected_name name) value d
                  (fits_below limit (length (values_in (corrected_name name) d)) fits) b)))
    ]

-- What grouping a request's headers comes to: under every name the values of the headers with
-- that name, in order, none of them more than a limit that is not 0; or a ValueError, where some
-- name has more values than such a limit.
abbrev pub Grouped : ℕ → List (Bytes × Bytes) → Result Error Headers → Type 0
Grouped limit hs (ok d) =
    IsDict d
    × ((k : Str) → values_in k d ≡ values_of k hs)
    × ((k : Str) → (limit ≡ 0) ⊎ (length (values_of k hs) ≤ limit))
Grouped limit hs (err e) =
    (e ≡ value_error) × (limit ≢ 0) × ((k : Str) × (limit < length (values_of k hs)))

Grouped-of :
    (limit : ℕ) (hs : List (Bytes × Bytes)) (r : Result Error Headers)
    → GroupFrom limit [] hs r
    → Grouped limit hs r
unfolding get
Grouped-of limit hs (ok d) (u, v, b) =
    (u, v, λ k. subst (λ (vs : List Bytes). (limit ≡ 0) ⊎ (length vs ≤ limit)) (v k) (b k))
Grouped-of limit hs (err e) (q, (nz, (k, lt))) = (q, nz, (k, lt))

-- Grouping a request's headers either succeeds, when no corrected name has more of them than the
-- limit or the limit is 0, with each name's values in the request's order and the names distinct;
-- or it is a ValueError, when the limit is not 0 and some corrected name has more.
pub group_headers-Grouped :
    (limit : ℕ) (hs : List (Bytes × Bytes)) → Grouped limit hs (group_headers limit hs [])
group_headers-Grouped limit hs = Grouped-of limit hs (group_headers limit hs []) (
    group-GroupFrom limit hs [] tt (λ k.
      unfold get in
      elim (Bool-cases (limit =ℕ 0)) [ inl y ↦ inl (ground arith) | inr n ↦ inr (ground arith) ]))
