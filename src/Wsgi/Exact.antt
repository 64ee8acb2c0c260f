-- ===== src/Wsgi/Exact.antt =====
-- What is sent for an application that starts its response once and then yields its outputs.
use asgire.Prelude.{
  ℕ, ◌+◌, ◌-◌, List, [], ◌∷◌, ◌++◌, true, false, Option, none, some, ◌≡◌, inl, inr, refl, sym, ◌∙◌,
  ap, arith, Bool-cases, length, take-nil, concat, append_assoc, append-nil,
}
use asgire.Prelude.Int.{ℤ, pos, negsuc}
use asgire.Prelude.Result.{Result, ok}
use asgire.Prelude.Exec.{continue}
use asgire.Text.{Bytes}
use asgire.Wsgi.Messages.{Error, SendEvent, response_body}
use asgire.Wsgi.Instance.{
  Instance, App, finishes, yields, sync_send, ensure_started, send_start, send_output, truncate,
  close, iterate, reached,
}
use asgire.Wsgi.Steps.{
  sync_send_sent, ensure_started_yes, ensure_started_no, send_cut, go_on, go_on-close,
  go_on-iterate, iterate_yields,
}
use asgire.Wsgi.Cut.{bodies, bodies-snoc, allowed, Open, truncate-last, truncate-more}

abbrev pub outputs : List Bytes → App
outputs [] = finishes
outputs (c ∷ cs) = yields c (outputs cs)

-- No send fails.
abbrev pub Reliable : Instance → Type 0
Reliable s = (ms : List SendEvent) (m : SendEvent) → s.send_fails ms m ≡ none

-- The state of a response under way, to which nothing but what is sent is added.
abbrev on_air : Instance → List SendEvent → Instance
on_air s ms = record s { response_started = true; sent = ms }

send_output-on_air :
    (s : Instance) (ms : List SendEvent) (n : ℕ) (output : Bytes)
    → Reliable s
    → send_output n output (on_air s ms) ≡ (
        let cut = truncate s.response_content_length n output in
        (ok (n + length cut), on_air s (ms ++ response_body cut true ∷ [])))
unfolding send_output
send_output-on_air s ms n output r =
    ground (arith, r ms (response_body (truncate s.response_content_length n output) true))

close-on_air :
    (s : Instance) (ms : List SendEvent)
    → Reliable s
    → close (on_air s ms) ≡ (ok tt, on_air s (ms ++ response_body [] false ∷ []))
unfolding close
close-on_air s ms r = ground (arith, r ms (response_body [] false))

-- The loop's end: what came out, and the state.
pub record Delivered (s : Instance) (ms : List SendEvent) (n : ℕ) (cs : List Bytes) : Type 0 where
  pub events : List SendEvent
  pub result : iterate (outputs cs) n (on_air s ms) ≡ (ok tt, on_air s events)
  pub body : bodies events ≡ bodies ms ++ allowed s.response_content_length n (concat cs)

allowed-nil : (limit : Option ℤ) (n : ℕ) → allowed limit n [] ≡ []
allowed-nil none n = refl
allowed-nil (some (pos m)) n = take-nil (m - n)
allowed-nil (some (negsuc m)) n = refl

bodies-close : (ms : List SendEvent) → bodies (ms ++ response_body [] false ∷ []) ≡ bodies ms
bodies-close ms = bodies-snoc ms (response_body [] false) ∙ append-nil (bodies ms)

-- One turn, whatever follows.
iterate-on_air :
    (s : Instance) (ms : List SendEvent) (n : ℕ) (c : Bytes) (rest : App)
    → Reliable s
    → (let cut = truncate s.response_content_length n c in
        iterate (yields c rest) n (on_air s ms)
        ≡ go_on rest (n + length cut) (on_air s (ms ++ response_body cut true ∷ [])))
iterate-on_air s ms n c rest r =
    iterate_yields c rest n (on_air s ms)
    ∙ ap (λ (p : Result Error ℕ × Instance). continue p.0 (go_on rest) p.1)
        (send_output-on_air s ms n c r)

iterate-Delivered :
    (s : Instance) (ms : List SendEvent) (n : ℕ) (cs : List Bytes)
    → Reliable s
    → Open s.response_content_length n
    → Delivered s ms n cs
iterate-Delivered s ms n [] r o = record {
  events = ms ++ response_body [] false ∷ [];
  result = unfold iterate in close-on_air s ms r;
  body =
      bodies-close ms
      ∙ sym (
          ap (λ x. bodies ms ++ x) (allowed-nil s.response_content_length n)
          ∙ append-nil (bodies ms));
}
iterate-Delivered s ms n (c ∷ cs) r o =
    let limit = s.response_content_length in
    let cut = truncate limit n c in
    let ms' = ms ++ response_body cut true ∷ [] in
    let sent = bodies-snoc ms (response_body cut true) in
    elim (Bool-cases (reached (n + length cut) limit)) [
      | inl y ↦ record {
        events = ms' ++ response_body [] false ∷ [];
        result =
            iterate-on_air s ms n c (outputs cs) r
            ∙ go_on-close (outputs cs) (n + length cut) (on_air s ms') y
            ∙ close-on_air s ms' r;
        body =
            bodies-close ms'
            ∙ sent
            ∙ ap (λ x. bodies ms ++ x) (truncate-last limit n c (concat cs) o y);
      }
      | inr m ↦
          let more = truncate-more limit n c (concat cs) o m in
          let d = iterate-Delivered s ms' (n + length cut) cs r more.1 in
          record {
            events = d.events;
            result =
                iterate-on_air s ms n c (outputs cs) r
                ∙ go_on-iterate (outputs cs) (n + length cut) (on_air s ms') m
                ∙ d.result;
            body =
                d.body
                ∙ ap (λ x. x ++ allowed limit (n + length cut) (concat cs)) sent
                ∙ append_assoc (bodies ms) cut (allowed limit (n + length cut) (concat cs))
                ∙ ap (λ x. bodies ms ++ x) more.0;
          }
    ]

-- The first action sends the start event.
module _ (s : Instance) (start : SendEvent) (r : Reliable s) (f : s.response_started ≡ false)
    (e : s.response_start_event ≡ some start) where
  ensure_started-on_air : ensure_started s ≡ (ok tt, on_air s (s.sent ++ start ∷ []))
  unfolding send_start
  ensure_started-on_air =
      ensure_started_no s f
      ∙ ap (λ ev. send_start ev (record s { response_started = true })) e
      ∙ sync_send_sent start (record s { response_started = true }) (r s.sent start)

  ensure_started_same : ensure_started s ≡ ensure_started (on_air s (s.sent ++ start ∷ []))
  ensure_started_same =
      ensure_started-on_air ∙ sym (ensure_started_yes (on_air s (s.sent ++ start ∷ [])) refl)

  iterate_same :
      (cs : List Bytes)
      → iterate (outputs cs) 0 s ≡ iterate (outputs cs) 0 (on_air s (s.sent ++ start ∷ []))
  unfolding send_output iterate close
  iterate_same [] =
      ap
        (λ (p : Result Error (Unit {0}) × Instance).
          continue p.0 (λ u. sync_send (response_body [] false)) p.1)
        ensure_started_same
  iterate_same (c ∷ cs) =
      iterate_yields c (outputs cs) 0 s
      ∙ ap (λ (p : Result Error ℕ × Instance). continue p.0 (go_on (outputs cs)) p.1)
          (ap (λ (p : Result Error (Unit {0}) × Instance). continue p.0 (λ u. send_cut 0 c) p.1)
            ensure_started_same)
      ∙ sym (iterate_yields c (outputs cs) 0 (on_air s (s.sent ++ start ∷ [])))

-- What a client gets from an instance whose start event is kept and not yet sent.
pub record Exact (s : Instance) (start : SendEvent) (cs : List Bytes) : Type 0 where
  pub events : List SendEvent
  pub result :
      iterate (outputs cs) 0 s ≡ (ok tt, record s { response_started = true; sent = events })
  pub body :
      bodies events
      ≡ bodies (s.sent ++ start ∷ []) ++ allowed s.response_content_length 0 (concat cs)

-- When `start_response` has been called, no send fails and the content length, if there is one,
-- is not negative: an application that then yields `cs` is served without an error, and the body
-- sent is the concatenation of `cs`, cut at the content length.
pub iterate-Exact :
    (s : Instance) (start : SendEvent) (cs : List Bytes)
    → Reliable s
    → s.response_started ≡ false
    → s.response_start_event ≡ some start
    → Open s.response_content_length 0
    → Exact s start cs
iterate-Exact s start cs r f e o =
    let d = iterate-Delivered s (s.sent ++ start ∷ []) 0 cs r o in
    record { events = d.events; result = iterate_same s start r f e cs ∙ d.result; body = d.body }
