-- ===== src/Wsgi/Steps.antt =====
-- The actions of an instance, one equation for each way that they go.
use asgire.Prelude.{
  ℕ, ◌+◌, List, [], ◌∷◌, ◌++◌, true, false, Option, none, some, ◌≡◌, refl, arith, length,
}
use asgire.Prelude.Result.{Result, ok, err}
use asgire.Prelude.Exec.{◌>>=◌, ◌>>◌}
use asgire.Text.{Str, Bytes}
use asgire.Wsgi.Messages.{SendEvent, response_body, Error, send_error}
use asgire.Wsgi.Instance.{
  Instance, Action, App, yields, starts, return, sync_send, ensure_started, send_start, send_output,
  truncate, close, iterate, reached, start_response,
}

module _ (m : SendEvent) (s : Instance) where
  pub sync_send_sent :
      s.send_fails s.sent m ≡ none → sync_send m s ≡ (ok tt, record s { sent = s.sent ++ m ∷ [] })
  unfolding sync_send
  sync_send_sent h = ground arith

  pub sync_send_failed :
      (x : ℕ) → s.send_fails s.sent m ≡ some x → sync_send m s ≡ (err (send_error x), s)
  unfolding sync_send
  sync_send_failed x h = ground arith

module _ (s : Instance) where
  pub ensure_started_yes : s.response_started ≡ true → ensure_started s ≡ (ok tt, s)
  unfolding ensure_started
  ensure_started_yes h = ground arith

  pub ensure_started_no :
      s.response_started ≡ false
      → ensure_started s ≡ send_start s.response_start_event (record s { response_started = true })
  unfolding ensure_started
  ensure_started_no h = ground arith

-- The rest of a turn, once the response has begun.
abbrev pub send_cut : ℕ → Bytes → Action ℕ
send_cut bytes_sent output = do
  cut ← λ s. (ok (truncate s.response_content_length bytes_sent output), s)
  sync_send (response_body cut true)
  return (bytes_sent + length cut)

pub send_output_lem :
    (bytes_sent : ℕ) (output : Bytes) (s : Instance)
    → send_output bytes_sent output s ≡ (ensure_started >> send_cut bytes_sent output) s
unfolding send_output
send_output_lem bytes_sent output s = refl

pub close_lem : (s : Instance) → close s ≡ (ensure_started >> sync_send (response_body [] false)) s
unfolding close
close_lem s = refl

-- What follows a turn of the loop.
abbrev pub go_on : App → ℕ → Action Unit
go_on rest n s = elim (reached n s.response_content_length) [
  | true ↦ close s
  | false ↦ iterate rest n s
]

pub iterate_yields :
    (output : Bytes) (rest : App) (bytes_sent : ℕ) (s : Instance)
    → iterate (yields output rest) bytes_sent s ≡ (send_output bytes_sent output >>= go_on rest) s
unfolding iterate
iterate_yields output rest bytes_sent s = refl

pub iterate_starts :
    (status : Str) (headers : List (Str × Str)) (exc_info : Option ℕ)
    (rest : Result Error (Unit {0}) → App) (bytes_sent : ℕ) (s : Instance)
    → (let r = start_response status headers exc_info s in
        iterate (starts status headers exc_info rest) bytes_sent s
        ≡ iterate (rest r.0) bytes_sent r.1)
unfolding iterate
iterate_starts status headers exc_info rest bytes_sent s = refl

module _ (rest : App) (n : ℕ) (s : Instance) where
  pub go_on-close : reached n s.response_content_length ≡ true → go_on rest n s ≡ close s
  go_on-close h = ground arith

  pub go_on-iterate :
      reached n s.response_content_length ≡ false → go_on rest n s ≡ iterate rest n s
  go_on-iterate h = ground arith
