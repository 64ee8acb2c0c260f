-- ===== src/Server/Mainloop.antt =====
-- StatelessServer.run and arun: application_checker gathered with handle. A turn is one thing that
-- happens: a call of a method by handle or the end of a task, a round of the checker (`checks`),
-- the end of handle, or an interrupt.
pub mod Course
use asgire.Prelude.{ℕ, List, [], ◌∷◌, Option, none, some, Eq}
use asgire.Prelude.Result.{ok, err}
use asgire.Server.{Server, Error, Result, check}
use asgire.Server.History.{Call, gets, deletes, deletes_oldest, checks, ends, step}
use asgire.Server.Checker.{log_only}

-- handle ends by an exception, or without one.
pub data Turn (K : Type 0) : Type 0 where
  calls : Call K → Turn K
  handled : Option ℕ → Turn K
  interrupts : Turn K

pub data Exception : Type 0 where
  of_checker : Error → Exception
  of_handle : ℕ → Exception

-- `goes_on`: no task of the gather has ended.
pub data Exit : Type 0 where
  goes_on returns interrupted : Exit
  raises : Exception → Exit

-- handle's end is made an exception, Done, so that the gather ends; arun passes it over.
abbrev pub handle_end : Option ℕ → Exit
handle_end none = returns
handle_end (some x) = raises (of_handle x)

module _ {K : Type 0} ⦃e : Eq K⦄ where
  -- The checker sleeps again after a round, or has raised.
  abbrev pub checked : Result Unit × Server K → (Server K → Exit × Server K) → Exit × Server K
  checked (ok x, s) again = again s
  checked (err x, s) again = (raises (of_checker x), s)

  unfoldable pub arun : List (Turn K) → Server K → Exit × Server K
  arun [] s = (goes_on, s)
  arun (calls checks ∷ ts) s = checked (check log_only s) (arun ts)
  arun (calls (gets k scope now) ∷ ts) s = arun ts (step s (gets k scope now))
  arun (calls (deletes k) ∷ ts) s = arun ts (step s (deletes k))
  arun (calls deletes_oldest ∷ ts) s = arun ts (step s deletes_oldest)
  arun (calls (ends i st) ∷ ts) s = arun ts (step s (ends i st))
  arun (handled x ∷ ts) s = (handle_end x, s)
  arun (interrupts ∷ ts) s = (interrupted, s)

  abbrev pub after_arun : Exit × Server K → Exit × Server K
  after_arun (goes_on, s) = (goes_on, s)
  after_arun (returns, s) = (returns, s)
  after_arun (interrupted, s) = (returns, s)
  after_arun (raises x, s) = (raises x, s)

  unfoldable pub run : List (Turn K) → Server K → Exit × Server K
  run ts s = after_arun (arun ts s)
