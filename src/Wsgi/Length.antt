-- ===== src/Wsgi/Length.antt =====
-- The number of body bytes sent, against the response's Content-Length.
use asgire.Prelude.{
  ℕ, ◌+◌, List, [], ◌∷◌, ◌++◌, true, false, Option, none, some, ◌≡◌, inl, inr, refl, sym, ◌∙◌, ap,
  subst, arith, Bool-cases, Option-cases, length, length-append, append-nil,
}
use asgire.Prelude.Int.{ℤ, pos, negsuc}
use asgire.Prelude.Result.{Result, ok, err}
use asgire.Prelude.Exec.{continue}
use asgire.Text.{Bytes}
use asgire.Wsgi.Messages.{SendEvent, response_start, response_body, Error}
use asgire.Wsgi.Instance.{
  Instance, Action, App, finishes, raises, yields, starts, sync_send, ensure_started, send_start,
  send_output, truncate, close, iterate, reached, start_response, init,
}
use asgire.Wsgi.Steps.{
  sync_send_sent, sync_send_failed, ensure_started_yes, ensure_started_no, send_cut,
  send_output_lem, close_lem, go_on, go_on-close, go_on-iterate, iterate_yields, iterate_starts,
}
use asgire.Wsgi.Began.{IsStart, Began, start_response-Began}
use asgire.Wsgi.Cut.{bodies, bodies-snoc, Fits, length-truncate}

-- `n` is the number of body bytes sent; it is 0 before the response begins.
pub record Sent (n : ℕ) (s : Instance) : Type 0 where
  pub bytes : length (bodies s.sent) ≡ n
  pub fits : Fits n s.response_content_length
  pub none_yet : s.response_started ≡ false → n ≡ 0
  pub start : IsStart s.response_start_event

abbrev pub Within : Instance → Type 0
Within s = Fits (length (bodies s.sent)) s.response_content_length

abbrev AfterResult : {A : Type 0} → (A → Instance → Type 0) → Result Error A → Instance → Type 0
AfterResult P (ok a) s = P a s
AfterResult P (err e) s = Within s

abbrev After : {A : Type 0} → (A → Instance → Type 0) → Result Error A × Instance → Type 0
After P r = AfterResult P r.0 r.1

continue-After :
    {A B : Type 0} (P : A → Instance → Type 0) (Q : B → Instance → Type 0) (r : Result Error A)
    (s : Instance) (f : A → Action B)
    → AfterResult P r s
    → ((a : A) (t : Instance) → P a t → After Q (f a t))
    → After Q (continue r f s)
continue-After P Q (ok a) s f h k = k a s h
continue-After P Q (err e) s f h k = h

Sent-Within : {n : ℕ} {s : Instance} → Sent n s → Within s
Sent-Within {s} h = subst (λ m. Fits m s.response_content_length) (sym h.bytes) h.fits

sync_send-After :
    (P : Unit {0} → Instance → Type 0) (m : SendEvent) (s : Instance)
    → Within s
    → P tt (record s { sent = s.sent ++ m ∷ [] })
    → After P (sync_send m s)
sync_send-After P m s h p = elim (Option-cases (s.send_fails s.sent m)) [
  | inl e ↦ rw (sync_send_sent m s e) p
  | inr (x, e) ↦ rw (sync_send_failed m s x e) h
]

-- The response has begun, with `n` body bytes sent.
abbrev Begun : ℕ → Unit {0} → Instance → Type 0
Begun n u s = Sent n s × (s.response_started ≡ true)

send_start-After :
    (ev : Option SendEvent) (n : ℕ) (s : Instance)
    → IsStart ev
    → Sent n s
    → s.response_started ≡ true
    → After (Begun n) (send_start ev s)
unfolding send_start
send_start-After none n s b h y = Sent-Within h
send_start-After (some (response_body body more)) n s b h y = absurd b
send_start-After (some (response_start code headers)) n s b h y =
    sync_send-After (Begun n) (response_start code headers) s (Sent-Within h) (
      record {
        bytes = ap length (bodies-snoc s.sent _ ∙ append-nil (bodies s.sent)) ∙ h.bytes;
        fits = h.fits;
        none_yet = λ f. cc;
        start = h.start;
      },
      y,
    )

ensure_started-After : (n : ℕ) (s : Instance) → Sent n s → After (Begun n) (ensure_started s)
ensure_started-After n s h = elim (Bool-cases s.response_started) [
  | inl y ↦ rw (ensure_started_yes s y) (h, y)
  | inr f ↦ rw (ensure_started_no s f) (
      send_start-After s.response_start_event n (record s { response_started = true }) h.start
        (record { bytes = h.bytes; fits = h.fits; none_yet = λ q. cc; start = h.start }) refl)
]

send_cut-After :
    (n : ℕ) (output : Bytes) (s : Instance)
    → Begun n tt s
    → After (λ m. Begun m tt) (send_cut n output s)
send_cut-After n output s (h, y) =
    let cut = truncate s.response_content_length n output in
    let m = response_body cut true in
    let r = sync_send m s in
    continue-After (Begun (n + length cut)) (λ k. Begun k tt) r.0 r.1 _
      (sync_send-After (Begun (n + length cut)) m s (Sent-Within h) (
        record {
          bytes =
              omega (
                arith,
                ap length (bodies-snoc s.sent m),
                length-append (bodies s.sent) cut,
                h.bytes,
              );
          fits = length-truncate s.response_content_length n output h.fits;
          none_yet = λ f. cc;
          start = h.start;
        },
        y,
      ))
      (λ u t k. k)

send_output-After :
    (n : ℕ) (output : Bytes) (s : Instance)
    → Sent n s
    → After (λ m. Begun m tt) (send_output n output s)
send_output-After n output s h =
    let r = ensure_started s in
    rw (send_output_lem n output s) (
      continue-After (Begun n) (λ m. Begun m tt) r.0 r.1 _ (ensure_started-After n s h)
        (λ u t b. send_cut-After n output t b))

close-After : (n : ℕ) (s : Instance) → Sent n s → After (λ u. Within) (close s)
close-After n s h =
    let r = ensure_started s in
    rw (close_lem s) (
      continue-After (Begun n) (λ u. Within) r.0 r.1 _ (ensure_started-After n s h)
        (λ u t b.
          sync_send-After (λ v. Within) _ t (Sent-Within b.0)
            (rw (bodies-snoc t.sent (response_body [] false) ∙ append-nil (bodies t.sent))
              (Sent-Within b.0))))

Fits-zero : (limit : Option ℤ) → Fits 0 limit
Fits-zero none = tt
Fits-zero (some (pos m)) = omega arith
Fits-zero (some (negsuc m)) = tt

begun_Sent :
    (n : ℕ) (s : Instance) (limit : Option ℤ) (event : Option SendEvent)
    → s.response_started ≡ false
    → IsStart event
    → Sent n s
    → Sent n (record s { response_content_length = limit; response_start_event = event })
begun_Sent n s limit event f i h = record {
  bytes = h.bytes;
  fits = subst (λ m. Fits m limit) (sym (h.none_yet f)) (Fits-zero limit);
  none_yet = h.none_yet;
  start = i;
}

Sent-Began : (n : ℕ) {s s' : Instance} → Began s s' → Sent n s → Sent n s'
Sent-Began n {s} b h = elim (Bool-cases s.response_started) [
  | inl y ↦ rw (b.begun y) h
  | inr f ↦ rw b.state (begun_Sent n s b.content_length b.event f (b.is_start h.start) h)
]

go_on-After :
    (rest : App) (n : ℕ) (s : Instance)
    → ((t : Instance) → Sent n t → After (λ u. Within) (iterate rest n t))
    → Sent n s
    → After (λ u. Within) (go_on rest n s)
go_on-After rest n s k h = elim (Bool-cases (reached n s.response_content_length)) [
  | inl y ↦ rw (go_on-close rest n s y) (close-After n s h)
  | inr m ↦ rw (go_on-iterate rest n s m) (k s h)
]

iterate-After :
    (app : App) (n : ℕ) (s : Instance) → Sent n s → After (λ u. Within) (iterate app n s)
iterate-After finishes n s h = unfold iterate in close-After n s h
iterate-After (raises x) n s h = unfold iterate in Sent-Within h
iterate-After (yields output rest) n s h =
    let r = send_output n output s in
    rw (iterate_yields output rest n s) (
      continue-After (λ m. Begun m tt) (λ u. Within) r.0 r.1 (go_on rest)
        (send_output-After n output s h) (λ m t b. go_on-After rest m t (iterate-After rest m) b.0))
iterate-After (starts status headers exc_info rest) n s h =
    let r = start_response status headers exc_info s in
    rw (iterate_starts status headers exc_info rest n s) (
      iterate-After (rest r.0) n r.1
        (Sent-Began n (start_response-Began status headers exc_info s) h))

After-Within :
    (r : Result Error (Unit {0})) (s : Instance) → AfterResult (λ u. Within) r s → Within s
After-Within (ok u) s h = h
After-Within (err e) s h = h

-- Whatever the application yields, however it ends and whichever sends fail: when the wrapped
-- application's iteration is over, the body bytes sent do not exceed the content length found by
-- `start_response`, if there is one and it is not negative.
pub iterate-Within :
    (app : App) (limit : ℕ) (fails : List SendEvent → SendEvent → Option ℕ)
    → Within (iterate app 0 (init limit fails)).1
iterate-Within app limit fails =
    let r = iterate app 0 (init limit fails) in
    After-Within r.0 r.1 (
      iterate-After app 0 (init limit fails)
        (record { bytes = refl; fits = tt; none_yet = λ f. refl; start = tt }))
