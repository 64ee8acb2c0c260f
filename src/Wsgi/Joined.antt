-- ===== src/Wsgi/Joined.antt =====
-- The headers in the environ that build_environ returns.
use asgire.Prelude.{
  ℕ, List, [], ◌∷◌, Option, none, some, ◌≡◌, inl, inr, refl, ◌∙◌, ap, subst, arith, Bool-cases,
  Option-cases, ◌==◌, list_eq, list_beq_iff,
}
use asgire.Prelude.Dict.{get, insert, get-insert, IsDict, get-Absent}
use asgire.Prelude.Result
use asgire.Prelude.Result.{Result, ok, err}
use asgire.Text.{Str, Bytes, join_commas}
use asgire.Wsgi.Messages.{HttpScope, Error}
use asgire.Wsgi.Environ.{
  Environ, text, Headers, get_or, group_headers, set_headers, base_of, build_environ,
}
use asgire.Wsgi.Headers.{values_of, values_in, Grouped, group_headers-Grouped}

set_headers-none :
    (k : Str) (d : Headers) (environ : Environ)
    → get k d ≡ none
    → get k (set_headers d environ) ≡ get k environ
unfolding get set_headers
set_headers-none k [] environ h = refl
set_headers-none k ((n, vs) ∷ d) environ h = elim (Bool-cases (n == k)) [
  | inl y ↦ cc (h, y)
  | inr m ↦
      set_headers-none k d (insert n (text (join_commas vs)) environ) (ground arith)
      ∙ get-insert n k (text (join_commas vs)) environ
      ∙ rw m
]

set_headers-some :
    (k : Str) (d : Headers) (environ : Environ) (vs : List Str)
    → IsDict d
    → get k d ≡ some vs
    → get k (set_headers d environ) ≡ some (text (join_commas vs))
unfolding get set_headers
set_headers-some k [] environ vs u h = cc
set_headers-some k ((n, ws) ∷ d) environ vs u h = elim (Bool-cases (n == k)) [
  | inl y ↦
      let same : n ≡ k = (list_beq_iff n k).0 y in
      set_headers-none k d (insert n (text (join_commas ws)) environ)
        (subst (λ j. get j d ≡ none) same (get-Absent n d u.0))
      ∙ get-insert n k (text (join_commas ws)) environ
      ∙ rw y (ap (λ (l : List Str). some (text (join_commas l))) (ground arith))
  | inr m ↦ set_headers-some k d (insert n (text (join_commas ws)) environ) vs u.1 (ground arith)
]

some_of_values :
    (k : Str) (d : Headers) (v : Str) (vs : List Str)
    → values_in k d ≡ v ∷ vs
    → get k d ≡ some (v ∷ vs)
some_of_values k d v vs h = elim (Option-cases (get k d)) [
  | inl e ↦ cc (h, ap (λ (o : Option (List Str)). get_or o []) e)
  | inr (ws, e) ↦ cc (h, e, ap (λ (o : Option (List Str)). get_or o []) e)
]

set_headers-Grouped :
    (limit : ℕ) (hs : List (Bytes × Bytes)) (base : Result Error Environ)
    (grouped : Result Error Headers) (environ : Environ) (k v : Str) (vs : List Str)
    → Grouped limit hs grouped
    → values_of k hs ≡ v ∷ vs
    → Result.◌>>=◌ base (λ e. Result.◌>>=◌ grouped (λ d. ok (set_headers d e))) ≡ ok environ
    → get k environ ≡ some (text (join_commas (v ∷ vs)))
set_headers-Grouped limit hs (err x) grouped environ k v vs g q h = cc
set_headers-Grouped limit hs (ok e) (err x) environ k v vs g q h = cc
set_headers-Grouped limit hs (ok e) (ok d) environ k v vs g q h =
    ap (get k) (ground arith)
    ∙ set_headers-some k d e (v ∷ vs) g.0 (some_of_values k d v vs (g.1 k ∙ q))

-- In every environ that `build_environ` returns, the entry under the corrected name of a header of
-- the request is the values of all headers with that name, in the request's order, joined by commas.
pub get-build_environ :
    (limit : ℕ) (scope : HttpScope) (body : Bytes) (environ : Environ) (k v : Str) (vs : List Str)
    → build_environ limit scope body ≡ ok environ
    → values_of k scope.headers ≡ v ∷ vs
    → get k environ ≡ some (text (join_commas (v ∷ vs)))
unfolding build_environ
get-build_environ limit scope body environ k v vs h q =
    set_headers-Grouped limit scope.headers (base_of scope body)
      (group_headers limit scope.headers []) environ k v vs
      (group_headers-Grouped limit scope.headers) q h
