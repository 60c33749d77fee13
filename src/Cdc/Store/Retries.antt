-- ===== src/Cdc/Store/Retries.antt =====
-- Write gets over failures that pass while it retries.
use etre.Base.{
  ℕ, zero, suc, ◌+◌, ◌<◌, ◌^◌, arith, ◌*◌, ◌≡◌, refl, ◌⊎◌, inl, inr, Bool, true, false, Option,
  none, some,
}
use etre.Etre.{CdcEvent}
use etre.Cdc.Store.Driver.{CdcDriver}
use etre.Cdc.Store.{
  RetryPolicy, CdcStore, after_try, write_loop, after_loop, from_first, tries_of, write,
}

-- One try more than the retry count.
pub tries_of_nonneg :
    (wrp : RetryPolicy) → wrp.retry_count + 1 < 2 ^ 63 → tries_of wrp ≡ suc wrp.retry_count
unfolding tries_of
tries_of_nonneg wrp small = ground arith

module _ (D : CdcDriver) where
  open D use {World, Error, insert_one, sleep, context_error}

  -- One of the next `left` + 1 inserts succeeds, with a sleep after each that fails, and the context
  -- is not done before.
  abbrev pub Recovers : RetryPolicy → ℕ → CdcEvent → World → Type 0
  Recovers wrp zero e w = (insert_one e w).1 ≡ none
  Recovers wrp (suc left) e w =
      ((insert_one e w).1 ≡ none)
      ⊎ ((context_error (insert_one e w).0 ≡ none)
          × Recovers wrp left e (sleep (wrp.retry_wait * 1000000) (insert_one e w).0))

  after_try-success :
      (wrp : RetryPolicy) (again : World → World × Option Error) (last : Bool)
      (r : World × Option Error)
      → r.1 ≡ none
      → (after_try D wrp again last r).1 ≡ none
  unfolding after_try
  after_try-success wrp again last (w, none) h = refl
  after_try-success wrp again last (w, some werr) h = cc

  after_try-again :
      (wrp : RetryPolicy) (again : World → World × Option Error) (r : World × Option Error)
      → context_error r.0 ≡ none
      → (again (sleep (wrp.retry_wait * 1000000) r.0)).1 ≡ none
      → (after_try D wrp again false r).1 ≡ none
  unfolding after_try
  after_try-again wrp again (w, none) h k = refl
  after_try-again wrp again (w, some werr) h k = rw (after_try, h) k

  write_loop-Recovers :
      (wrp : RetryPolicy) (left : ℕ) (e : CdcEvent) (w : World)
      → Recovers wrp left e w
      → (write_loop D wrp left e w).1 ≡ none
  unfolding write_loop
  write_loop-Recovers wrp zero e w h =
      after_try-success wrp (λ w. (w, none)) true (insert_one e w) h
  write_loop-Recovers wrp (suc left) e w (inl h) =
      after_try-success wrp (write_loop D wrp left e) false (insert_one e w) h
  write_loop-Recovers wrp (suc left) e w (inr (ctx, h)) =
      after_try-again wrp (write_loop D wrp left e) (insert_one e w) ctx
        (write_loop-Recovers wrp left e _ h)

  -- For a retry count from 0 on, below the largest int: if one of the first retry count + 1 inserts
  -- succeeds, and the context is not done before, then Write returns no error.
  pub write-Recovers :
      (s : CdcStore D) (e : CdcEvent) (w : World)
      → s.wrp.retry_count + 1 < 2 ^ 63
      → Recovers s.wrp s.wrp.retry_count e w
      → (write D s e w).1 ≡ none
  unfolding write from_first after_loop
  write-Recovers s e w small h =
      rw (tries_of_nonneg s.wrp small)
        (at (write_loop D s.wrp s.wrp.retry_count e w) (write_loop-Recovers s.wrp _ e w h))
    where
      at : (r : World × Option Error) → r.1 ≡ none → (after_loop D s e r).1 ≡ none
      at (u, none) h = refl
      at (u, some werr) h = cc
