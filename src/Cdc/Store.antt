-- ===== src/Cdc/Store.antt =====
-- cdc/store.go: Write with its retries and the fallback file.
pub mod Orders
pub mod Driver
pub mod Fallback
pub mod Recorded
pub mod Retries
pub mod Read
pub mod Sorted
mod Tests
use etre.Base.{
  ℕ, zero, suc, ◌*◌, String, Bool, true, false, Option, none, some, str_eq, if◌then◌else◌,
}
use etre.Base.Int64.{add64, lt64}
use etre.Etre.{CdcEvent}
use Driver.{CdcDriver}

-- The retry count is an int64 by its bit pattern; the wait is in milliseconds.
pub record RetryPolicy : Type 0 where
  pub retry_count : ℕ
  pub retry_wait : ℕ

-- How many turns `for tryNo := 1; tryNo <= 1 + RetryCount; tryNo++` has.
unfoldable pub tries_of : RetryPolicy → ℕ
tries_of wrp = let tries = add64 1 wrp.retry_count in if lt64 0 tries then tries else 0

module _ (D : CdcDriver) where
  open D use {
    World, Error, Bytes, insert_one, context_error, sleep, marshal, marshal_failed, open_append,
    open_failed, write_file, write_failed, close_file, close_failed,
  }

  pub record CdcStore : Type 0 where
    pub wrp : RetryPolicy
    pub fallback_file : String

  -- The loop, with `left` tries after this one: the error of the last try, or none where a try
  -- succeeded.
  pub after_try :
      RetryPolicy
      → (World → World × Option Error)
      → Bool
      → World × Option Error
      → World × Option Error
  after_try wrp again last (w, none) = (w, none)
  after_try wrp again last (w, some werr) = elim (context_error w) [
    | some ctx_err ↦ (w, some werr)
    | none ↦ if last then (w, some werr) else again (sleep (wrp.retry_wait * 1000000) w)
  ]

  pub write_loop : RetryPolicy → ℕ → CdcEvent → World → World × Option Error
  unfolding after_try
  write_loop wrp zero event w = after_try wrp (λ w. (w, none)) true (insert_one event w)
  write_loop wrp (suc left) event w =
      after_try wrp (write_loop wrp left event) false (insert_one event w)

  -- The error of the context takes the place of the driver's.
  abbrev pub or_context : Option Error → Option Error → Option Error
  or_context (some ctx_err) werr = some ctx_err
  or_context none werr = werr

  pub closed : Option Error → World × Option Error → World × Option Error
  closed werr (w, some ferr) = (w, some (close_failed ferr))
  closed werr (w, none) = (w, werr)

  pub written : Option Error → World × Option Error → World × Option Error
  unfolding closed
  written werr (w, some ferr) = (w, some (write_failed ferr))
  written werr (w, none) = closed werr (close_file w)

  pub opened : Bytes → Option Error → World × Option Error → World × Option Error
  unfolding written
  opened bytes werr (w, some ferr) = (w, some (open_failed ferr))
  opened bytes werr (w, none) = written werr (write_file bytes w)

  pub marshalled : String → Option Error → World → Option Bytes → World × Option Error
  unfolding opened
  marshalled file werr w none = (w, some marshal_failed)
  marshalled file werr w (some bytes) = opened bytes werr (open_append file w)

  -- What follows the loop where no try succeeded, with the error so far.
  pub fall_back : CdcStore → CdcEvent → Option Error → World → World × Option Error
  unfolding marshalled
  fall_back s event werr w =
      if str_eq s.fallback_file ""
      then (w, werr)
      else marshalled s.fallback_file werr w (marshal event)

  pub after_loop : CdcStore → CdcEvent → World × Option Error → World × Option Error
  unfolding fall_back
  after_loop s event (w, none) = (w, none)
  after_loop s event (w, some werr) = fall_back s event (or_context (context_error w) (some werr)) w

  -- The tries from the first on: without any, there is no error but that of the context.
  pub from_first : CdcStore → ℕ → CdcEvent → World → World × Option Error
  unfolding write_loop after_loop
  from_first s zero event w = fall_back s event (or_context (context_error w) none) w
  from_first s (suc left) event w = after_loop s event (write_loop s.wrp left event w)

  unfoldable pub write : CdcStore → CdcEvent → World → World × Option Error
  unfolding from_first tries_of
  write s event w = from_first s (tries_of s.wrp) event w
