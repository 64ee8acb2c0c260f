-- ===== src/Wsgi/Began.antt =====
-- What a call of start_response can change.
use asgire.Prelude.{
  List, [], ◌∷◌, true, false, Option, none, some, ◌≡◌, refl, ◌∙◌, ap, arith, ℕ, Option-cases,
  Bool-cases, inl, inr,
}
use asgire.Prelude.Int.{ℤ}
use asgire.Prelude.Result.{Result, ok, err}
use asgire.Prelude.Exec.{continue}
use asgire.Text.{Str, Bytes, split_space}
use asgire.Text.Int.{int}
use asgire.Wsgi.Messages.{Error, value_error, SendEvent, response_start, response_body}
use asgire.Wsgi.Instance.{
  Action, Instance, start_response, begin_response, keep_start, find_length, encode_headers,
  is_content_length, has_second_call, raise_exc,
}

-- The event kept for the start of the response is a start event.
abbrev pub IsStart : Option SendEvent → Type 0
IsStart none = Unit {0}
IsStart (some (response_start code headers)) = Unit {0}
IsStart (some (response_body body more)) = ⊥

-- Only the content length and the kept event can change, and neither once the response has begun.
pub record Began (s s' : Instance) : Type 0 where
  pub content_length : Option ℤ
  pub event : Option SendEvent
  pub state :
      s' ≡ record s { response_content_length = content_length; response_start_event = event }
  pub begun : s.response_started ≡ true → s' ≡ s
  pub is_start : IsStart s.response_start_event → IsStart event

module _ (name value : Str) (hs : List (Str × Str)) (s : Instance) where
  find_length_other :
      is_content_length name ≡ false → find_length ((name, value) ∷ hs) s ≡ find_length hs s
  unfolding find_length
  find_length_other h = ground arith

  find_length_bad :
      is_content_length name ≡ true
      → int value ≡ none
      → find_length ((name, value) ∷ hs) s ≡ (err value_error, s)
  unfolding find_length
  find_length_bad h b = ground arith

  find_length_here :
      (n : ℤ)
      → is_content_length name ≡ true
      → int value ≡ some n
      → find_length ((name, value) ∷ hs) s
        ≡ find_length hs (record s { response_content_length = some n })
  unfolding find_length
  find_length_here n h g = ground arith

find_length_state :
    (hs : List (Str × Str)) (s : Instance)
    → (n : Option ℤ) × ((find_length hs s).1 ≡ record s { response_content_length = n })
find_length_state [] s = (s.response_content_length, unfold find_length in refl)
find_length_state ((name, value) ∷ hs) s = elim (Bool-cases (is_content_length name)) [
  | inr o ↦ rw (find_length_other name value hs s o) (find_length_state hs s)
  | inl here ↦ elim (Option-cases (int value)) [
    | inl bad ↦
        (s.response_content_length, ap (λ r. r.1) (find_length_bad name value hs s here bad))
    | inr (n, good) ↦
        let t = record s { response_content_length = some n } in
        let (m, e) = find_length_state hs t in
        (m, ap (λ r. r.1) (find_length_here name value hs s n here good) ∙ e)
  ]
]

abbrev keep : ℤ → List (Bytes × Bytes) → Unit {0} → Action Unit
keep code encoded u s =
    (ok tt, record s { response_start_event = some (response_start code encoded) })

keep-Began :
    (code : ℤ) (encoded : List (Bytes × Bytes)) (s s' : Instance) (n : Option ℤ)
    (r : Result Error (Unit {0}))
    → s.response_started ≡ false
    → s' ≡ record s { response_content_length = n }
    → Began s (continue r (keep code encoded) s').1
keep-Began code encoded s s' n (ok u) f e = record {
  content_length = n;
  event = some (response_start code encoded);
  state =
      ap (λ (t : Instance). record t { response_start_event = some (response_start code encoded) })
        e;
  begun = λ b. cc;
  is_start = λ h. tt;
}
keep-Began code encoded s s' n (err x) f e = record {
  content_length = n;
  event = s.response_start_event;
  state = e;
  begun = λ b. cc;
  is_start = λ h. h;
}

keep_start-Began :
    (code : ℤ) (encoded : List (Bytes × Bytes)) (headers : List (Str × Str)) (s : Instance)
    → s.response_started ≡ false
    → Began s (keep_start code encoded headers s).1
unfolding keep_start
keep_start-Began code encoded headers s f =
    let s0 = record s { response_content_length = none } in
    let (n, e) = find_length_state headers s0 in
    keep-Began code encoded s (find_length headers s0).1 n (find_length headers s0).0 f e

Began-refl : (s : Instance) → Began s s
Began-refl s = record {
  content_length = s.response_content_length;
  event = s.response_start_event;
  state = refl;
  begun = λ b. refl;
  is_start = λ h. h;
}

begin_response-Began :
    (status : Str) (headers : List (Str × Str)) (s : Instance)
    → s.response_started ≡ false
    → Began s (begin_response status headers s).1
unfolding begin_response
begin_response-Began status headers s f = elim (Option-cases (split_space status)) [
  | inl e ↦ rw e (Began-refl s)
  | inr (parts, e) ↦ elim (Option-cases (int parts.0)) [
    | inl c ↦ rw (e, c) (Began-refl s)
    | inr (code, c) ↦ elim (Option-cases (encode_headers headers)) [
      | inl h ↦ rw (e, c, h) (Began-refl s)
      | inr (encoded, h) ↦ rw (e, c, h) (keep_start-Began code encoded headers s f)
    ]
  ]
]

-- The three ways of a call.
module _ (status : Str) (headers : List (Str × Str)) (exc_info : Option ℕ) (s : Instance) where
  pub start_response_begun :
      s.response_started ≡ true
      → start_response status headers exc_info s ≡ (err (raise_exc exc_info), s)
  unfolding start_response
  start_response_begun h = ground arith

  pub start_response_again :
      s.response_started ≡ false
      → has_second_call s.response_start_event exc_info ≡ true
      → start_response status headers exc_info s ≡ (err value_error, s)
  unfolding start_response
  start_response_again h g = ground arith

  pub start_response_first :
      s.response_started ≡ false
      → has_second_call s.response_start_event exc_info ≡ false
      → start_response status headers exc_info s ≡ begin_response status headers s
  unfolding start_response
  start_response_first h g = ground arith

  pub start_response-Began : Began s (start_response status headers exc_info s).1
  start_response-Began = elim (Bool-cases s.response_started) [
    | inl y ↦ rw (start_response_begun y) (Began-refl s)
    | inr n ↦ elim (Bool-cases (has_second_call s.response_start_event exc_info)) [
      | inl again ↦ rw (start_response_again n again) (Began-refl s)
      | inr first ↦ rw (start_response_first n first) (begin_response-Began status headers s n)
    ]
  ]
