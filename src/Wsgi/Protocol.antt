-- ===== src/Wsgi/Protocol.antt =====
-- The order of a response's events, for run_wsgi_app of asgiref/wsgi.py.
use asgire.Prelude.{
  ℕ, List, [], ◌∷◌, ◌++◌, true, false, Option, none, some, ◌≡◌, ◌⊎◌, inl, inr, refl, ◌∙◌,
  Bool-cases, Option-cases,
}
use asgire.Prelude.Result.{Result, ok, err}
use asgire.Prelude.Exec.{continue}
use asgire.Text.{Bytes}
use asgire.Wsgi.Messages.{
  HttpScope, SendEvent, response_start, response_body, Error, value_error, type_error,
  attribute_error, app_error, send_error,
}
use asgire.Wsgi.Environ.{Environ, build_environ}
use asgire.Wsgi.Instance.{
  Instance, Action, App, finishes, raises, yields, starts, sync_send, ensure_started, send_start,
  send_output, truncate, close, iterate, reached, run_wsgi_app, run_with, start_response, init,
  bad_request_start, bad_request_body,
}
use asgire.Wsgi.Steps.{
  sync_send_sent, sync_send_failed, ensure_started_yes, ensure_started_no, send_cut,
  send_output_lem, close_lem, go_on, go_on-close, go_on-iterate, iterate_yields, iterate_starts,
}
use asgire.Wsgi.Began.{IsStart, Began, start_response-Began}

-- Before the response, after its start, after its last body; or out of order.
pub data Phase : Type 0 where
  initial streaming complete invalid : Phase

abbrev pub next : Phase → SendEvent → Phase
next initial (response_start code headers) = streaming
next streaming (response_body body true) = streaming
next streaming (response_body body false) = complete
next _ _ = invalid

abbrev pub phase_from : Phase → List SendEvent → Phase
phase_from p [] = p
phase_from p (m ∷ ms) = phase_from (next p m) ms

-- The phase after some events.
abbrev pub phase : List SendEvent → Phase
phase = phase_from initial

phase-snoc :
    (p : Phase) (ms : List SendEvent) (m : SendEvent)
    → phase_from p (ms ++ m ∷ []) ≡ next (phase_from p ms) m
phase-snoc p [] m = refl
phase-snoc p (x ∷ ms) m = phase-snoc (next p x) ms m

abbrev Halted : Instance → Type 0
Halted s = (phase s.sent ≡ initial) ⊎ (phase s.sent ≡ streaming)

-- `P` after a return; after an exception the response is not begun, or not ended.
abbrev AfterResult : {A : Type 0} → (Instance → Type 0) → Result Error A → Instance → Type 0
AfterResult P (ok a) s = P s
AfterResult P (err e) s = Halted s

abbrev pub After : {A : Type 0} → (Instance → Type 0) → Result Error A × Instance → Type 0
After P r = AfterResult P r.0 r.1

abbrev Open : Instance → Type 0
Open s = IsStart s.response_start_event × (s.response_started ≡ true) × (phase s.sent ≡ streaming)

-- Between two actions of the application.
abbrev Ready : Instance → Type 0
Ready s =
    IsStart s.response_start_event
    × (((s.response_started ≡ false) × (phase s.sent ≡ initial))
        ⊎ ((s.response_started ≡ true) × (phase s.sent ≡ streaming)))

abbrev pub Complete : Instance → Type 0
Complete s = phase s.sent ≡ complete

continue-After :
    {A B : Type 0} (P Q : Instance → Type 0) (r : Result Error A) (s : Instance) (f : A → Action B)
    → AfterResult P r s
    → ((a : A) (t : Instance) → P t → After Q (f a t))
    → After Q (continue r f s)
continue-After P Q (ok a) s f h k = k a s h
continue-After P Q (err e) s f h k = h

sync_send-After :
    (P : Instance → Type 0) (m : SendEvent) (s : Instance)
    → Halted s
    → P (record s { sent = s.sent ++ m ∷ [] })
    → After P (sync_send m s)
sync_send-After P m s h p = elim (Option-cases (s.send_fails s.sent m)) [
  | inl e ↦ rw (sync_send_sent m s e) p
  | inr (x, e) ↦ rw (sync_send_failed m s x e) h
]

send_start-After :
    (ev : Option SendEvent) (s : Instance)
    → IsStart ev
    → IsStart s.response_start_event
    → s.response_started ≡ true
    → phase s.sent ≡ initial
    → After Open (send_start ev s)
unfolding send_start
send_start-After none s i j b p = inl p
send_start-After (some (response_start code headers)) s i j b p =
    sync_send-After Open (response_start code headers) s (inl p)
      (j, b, phase-snoc initial s.sent _ ∙ rw p)
send_start-After (some (response_body body more)) s i j b p = absurd i

ensure_started-After : (s : Instance) → Ready s → After Open (ensure_started s)
ensure_started-After s (i, inl (n, p)) =
    rw (ensure_started_no s n)
      (send_start-After s.response_start_event (record s { response_started = true }) i i refl p)
ensure_started-After s (i, inr (y, p)) = rw (ensure_started_yes s y) (i, y, p)

Open-sends :
    (body : Bytes) (s : Instance) → Open s → After Open (sync_send (response_body body true) s)
Open-sends body s (i, y, p) =
    sync_send-After Open _ s (inr p) (i, y, phase-snoc initial s.sent _ ∙ rw p)

send_cut-After :
    (bytes_sent : ℕ) (output : Bytes) (s : Instance)
    → Open s
    → After Open (send_cut bytes_sent output s)
send_cut-After n output s o =
    let r = sync_send (response_body (truncate s.response_content_length n output) true) s in
    continue-After Open Open r.0 r.1 _ (Open-sends _ s o) (λ u t h. h)

send_output-After :
    (bytes_sent : ℕ) (output : Bytes) (s : Instance)
    → Ready s
    → After Open (send_output bytes_sent output s)
send_output-After n output s h =
    let r = ensure_started s in
    rw (send_output_lem n output s) (
      continue-After Open Open r.0 r.1 _ (ensure_started-After s h)
        (λ u t o. send_cut-After n output t o))

close-After : (s : Instance) → Ready s → After Complete (close s)
close-After s h =
    let r = ensure_started s in
    rw (close_lem s) (
      continue-After Open Complete r.0 r.1 _ (ensure_started-After s h)
        (λ u t o. sync_send-After Complete _ t (inr o.2) (phase-snoc initial t.sent _ ∙ rw o.2)))

Ready-Began : {s s' : Instance} → Began s s' → Ready s → Ready s'
Ready-Began b (i, h) = rw b.state (b.is_start i, h)

-- A turn's end: `reached` decides between the close and the rest of the loop.
go_on-After :
    (rest : App) (n : ℕ) (s : Instance)
    → ((t : Instance) → Ready t → After Complete (iterate rest n t))
    → Ready s
    → After Complete (go_on rest n s)
go_on-After rest n s k h = elim (Bool-cases (reached n s.response_content_length)) [
  | inl y ↦ rw (go_on-close rest n s y) (close-After s h)
  | inr m ↦ rw (go_on-iterate rest n s m) (k s h)
]

Ready-Halted : (s : Instance) → Ready s → Halted s
Ready-Halted s (i, inl (n, p)) = inl p
Ready-Halted s (i, inr (y, p)) = inr p

iterate-After : (app : App) (n : ℕ) (s : Instance) → Ready s → After Complete (iterate app n s)
iterate-After finishes n s h = unfold iterate in close-After s h
iterate-After (raises x) n s h = unfold iterate in Ready-Halted s h
iterate-After (yields output rest) n s h =
    let r = send_output n output s in
    rw (iterate_yields output rest n s) (
      continue-After Open Complete r.0 r.1 (go_on rest) (send_output-After n output s h)
        (λ m t o. go_on-After rest m t (iterate-After rest m) (o.0, inr (o.1, o.2))))
iterate-After (starts status headers exc_info rest) n s h =
    let r = start_response status headers exc_info s in
    rw (iterate_starts status headers exc_info rest n s) (
      iterate-After (rest r.0) n r.1
        (Ready-Began (start_response-Began status headers exc_info s) h))

run_with-After :
    (app : Environ → App) (environ : Result Error Environ) (s : Instance)
    → Ready s
    → phase s.sent ≡ initial
    → After Complete (run_with app environ s)
unfolding run_with
run_with-After app (ok environ) s h f = iterate-After (app environ) 0 s h
run_with-After app (err value_error) s h f =
    let Streams : Instance → Type 0 = λ t. phase t.sent ≡ streaming in
    let r = sync_send bad_request_start s in
    continue-After Streams Complete r.0 r.1 _
      (sync_send-After Streams bad_request_start s (inl f) (phase-snoc initial s.sent _ ∙ rw f))
      (λ u t q.
        sync_send-After Complete bad_request_body t (inr q) (phase-snoc initial t.sent _ ∙ rw q))
run_with-After app (err type_error) s h f = Ready-Halted s h
run_with-After app (err attribute_error) s h f = Ready-Halted s h
run_with-After app (err (app_error x)) s h f = Ready-Halted s h
run_with-After app (err (send_error x)) s h f = Ready-Halted s h

-- Whatever the application does and whichever sends fail: if `run_wsgi_app` returns, one start
-- event was sent, then bodies with `more_body`, then one without; if it raises, what was sent is
-- nothing, or a start event and bodies with `more_body`.
pub run_wsgi_app-After :
    (app : Environ → App) (scope : HttpScope) (body : Bytes) (limit : ℕ)
    (fails : List SendEvent → SendEvent → Option ℕ)
    → After Complete (run_wsgi_app app scope body (init limit fails))
unfolding run_wsgi_app
run_wsgi_app-After app scope body limit fails =
    run_with-After app (build_environ limit scope body) (init limit fails) (tt, inl (refl, refl))
      refl
