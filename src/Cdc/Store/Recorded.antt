-- ===== src/Cdc/Store/Recorded.antt =====
-- What Write leaves in the collection, with no more tries than the policy has.
use mathlib.Core.List.{append-nil, append_assoc}
use etre.Base.{
  ℕ, ◌*◌, if◌then◌else◌, zero, suc, ◌+◌, ◌≤◌, ◌<◌, ◌^◌, List, ◌≡◌, refl, sym, ap, ◌∙◌, Bool, true,
  false, Option, none, some, [], ◌∷◌, ◌++◌, arith, inl, inr,
}
use etre.Etre.{CdcEvent}
use etre.Cdc.Store.Driver.{CdcDriver, CdcLaws}
use etre.Cdc.Store.{
  RetryPolicy, CdcStore, after_try, write_loop, or_context, fall_back, after_loop, from_first,
  write,
}
use etre.Cdc.Store.Fallback.{Failed, fall_back-Failed}
use etre.Cdc.Store.Retries.{tries_of_nonneg}

abbrev pub copies : ℕ → CdcEvent → List CdcEvent
copies zero e = []
copies (suc k) e = e ∷ copies k e

copies-add : (j k : ℕ) (e : CdcEvent) → copies j e ++ copies k e ≡ copies (j + k) e
copies-add zero k e = ap (λ n. copies n e) (omega arith)
copies-add (suc j) k e =
    let same : suc (j + k) ≡ suc j + k = omega arith in
    ap (◌∷◌ e) (copies-add j k e) ∙ ap (λ n. copies n e) same

module _ (D : CdcDriver) (laws : CdcLaws D) where
  open D use {World, Error, insert_one, sleep, context_error}
  open laws use {events, tries}

  -- Without an error the event was added.
  abbrev pub IsAdded : Option Error → ℕ → Type 0
  IsAdded none k = 1 ≤ k
  IsAdded (some err) k = Unit

  -- After at least one and at most `allowed` tries: the collection has the events of before, then
  -- copies of the event, no more than there were tries, and one at least if there is no error.
  pub record Within (allowed : ℕ) (e : CdcEvent) (w : World) (r : World × Option Error)
      : Type 0 where
    pub added : ℕ
    pub tried : ℕ
    pub events_are : events r.0 ≡ events w ++ copies added e
    pub tries_are : tries r.0 ≡ tries w + tried
    pub no_more : added ≤ tried
    pub at_least_one : 1 ≤ tried
    pub at_most : tried ≤ allowed
    pub is_added : IsAdded r.1 added

  one_try :
      (e : CdcEvent) (w : World) (r : World × Option Error) → insert_one e w ≡ r → Within 1 e w r
  one_try e w (w', none) q = record {
    added = 1;
    tried = 1;
    events_are = ap (λ r. events r.0) (sym q) ∙ laws.events-insert_one e w (ap (λ r. r.1) q);
    tries_are = omega (arith, ap (λ r. tries r.0) q, laws.tries-insert_one e w);
    no_more = omega arith;
    at_least_one = omega arith;
    at_most = omega arith;
    is_added = omega arith;
  }
  one_try e w (w', some err) q = elim (laws.events-insert_failed e w err (ap (λ r. r.1) q)) [
    | inl kept ↦
        failed 0 (ap (λ r. events r.0) (sym q) ∙ kept ∙ sym (append-nil (events w))) (omega arith)
    | inr put ↦ failed 1 (ap (λ r. events r.0) (sym q) ∙ put) (omega arith)
  ]
    where
      failed : (k : ℕ) → events w' ≡ events w ++ copies k e → k ≤ 1 → Within 1 e w (w', some err)
      failed k same small = record {
        added = k;
        tried = 1;
        events_are = same;
        tries_are = omega (arith, ap (λ r. tries r.0) q, laws.tries-insert_one e w);
        no_more = small;
        at_least_one = omega arith;
        at_most = omega arith;
        is_added = tt;
      }

  -- More tries are allowed.
  more :
      (n m : ℕ) (e : CdcEvent) (w : World) (r : World × Option Error)
      → n ≤ m
      → Within n e w r
      → Within m e w r
  more n m e w r le h = record {
    added = h.added;
    tried = h.tried;
    events_are = h.events_are;
    tries_are = h.tries_are;
    no_more = h.no_more;
    at_least_one = h.at_least_one;
    at_most = omega (arith, le, h.at_most);
    is_added = h.is_added;
  }

  -- A try that failed, a sleep, and the tries behind it.
  again-Within :
      (left n : ℕ) (e : CdcEvent) (w w' : World) (werr : Error) (r : World × Option Error)
      → Within 1 e w (w', some werr)
      → Within left e (sleep n w') r
      → Within (suc left) e w r
  again-Within left n e w w' werr r first rest = record {
    added = first.added + rest.added;
    tried = first.tried + rest.tried;
    events_are =
        rest.events_are
        ∙ ap (λ x. x ++ copies rest.added e) (laws.events-sleep n w' ∙ first.events_are)
        ∙ append_assoc (events w) (copies first.added e) (copies rest.added e)
        ∙ ap (λ x. events w ++ x) (copies-add first.added rest.added e);
    tries_are = omega (arith, rest.tries_are, laws.tries-sleep n w', first.tries_are);
    no_more = omega (arith, first.no_more, rest.no_more);
    at_least_one = omega (arith, first.at_least_one);
    at_most = omega (arith, first.at_most, rest.at_most);
    is_added = grown r.1 rest.is_added;
  }
    where
      grown : (err : Option Error) → IsAdded err rest.added → IsAdded err (first.added + rest.added)
      grown none h = omega (arith, h)
      grown (some err) h = tt

  after_try-Within :
      (wrp : RetryPolicy) (left : ℕ) (again : World → World × Option Error) (last : Bool)
      (e : CdcEvent) (w : World)
      → (last ≡ false → (w' : World) → Within left e w' (again w'))
      → (r : World × Option Error) → insert_one e w ≡ r
      → Within (suc left) e w (after_try D wrp again last r)
  unfolding after_try
  after_try-Within wrp left again last e w k (w', none) q =
      more 1 (suc left) e w _ (omega arith) (one_try e w _ q)
  after_try-Within wrp left again last e w k (w', some werr) q = at (context_error w') last k
    where
      stop : Within (suc left) e w (w', some werr)
      stop = more 1 (suc left) e w _ (omega arith) (one_try e w _ q)

      at :
          (ctx : Option Error) (last : Bool)
          → (last ≡ false → (w' : World) → Within left e w' (again w'))
          → Within (suc left) e w (elim ctx [
            | some ctx_err ↦ (w', some werr)
            | none ↦ if last then (w', some werr) else again (sleep (wrp.retry_wait * 1000000) w')
          ])
      at (some ctx_err) last k = stop
      at none true k = stop
      at none false k =
          again-Within left (wrp.retry_wait * 1000000) e w w' werr _ (one_try e w _ q) (k refl _)

  write_loop-Within :
      (wrp : RetryPolicy) (left : ℕ) (e : CdcEvent) (w : World)
      → Within (suc left) e w (write_loop D wrp left e w)
  unfolding write_loop
  write_loop-Within wrp zero e w =
      after_try-Within wrp zero (λ w. (w, none)) true e w (λ h. absurd (ground (arith, h)))
        (insert_one e w) refl
  write_loop-Within wrp (suc left) e w =
      after_try-Within wrp (suc left) (write_loop D wrp left e) false e w
        (λ _ w'. write_loop-Within wrp left e w') (insert_one e w) refl

  Failed-Within :
      (n : ℕ) (e : CdcEvent) (w u : World) (werr : Error) (r : World × Option Error)
      → Within n e w (u, some werr)
      → Failed D laws u r
      → Within n e w r
  Failed-Within n e w u werr (v, none) h failed = absurd failed
  Failed-Within n e w u werr (v, some err) h failed = record {
    added = h.added;
    tried = h.tried;
    events_are = failed.0 ∙ h.events_are;
    tries_are = failed.1 ∙ h.tries_are;
    no_more = h.no_more;
    at_least_one = h.at_least_one;
    at_most = h.at_most;
    is_added = tt;
  }

  -- For a retry count from 0 on, below the largest int, and whatever the context and the fallback file
  -- do: Write tries the insert at least once and at most once more than the retry count. It leaves the
  -- collection with copies of the event behind what was there, no more of them than tries; if it
  -- returns no error there is one at least.
  pub write-Recorded :
      (s : CdcStore D) (e : CdcEvent) (w : World)
      → s.wrp.retry_count + 1 < 2 ^ 63
      → Within (suc s.wrp.retry_count) e w (write D s e w)
  unfolding write from_first after_loop
  write-Recorded s e w small =
      rw (tries_of_nonneg s.wrp small)
        (at (write_loop D s.wrp s.wrp.retry_count e w) (write_loop-Within s.wrp _ e w))
    where
      failed :
          (u : World) (werr : Error) (ctx : Option Error)
          → Failed D laws u (fall_back D s e (or_context D ctx (some werr)) u)
      failed u werr none = fall_back-Failed D laws s e werr u
      failed u werr (some ctx_err) = fall_back-Failed D laws s e ctx_err u

      at :
          (r : World × Option Error)
          → Within (suc s.wrp.retry_count) e w r
          → Within (suc s.wrp.retry_count) e w (after_loop D s e r)
      at (u, none) h = h
      at (u, some werr) h =
          Failed-Within (suc s.wrp.retry_count) e w u werr _ h (failed u werr (context_error u))
