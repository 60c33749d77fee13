-- ===== src/Cdc/Store/Tests.antt =====
-- Runs of Write over a driver whose inserts fail a number of times, and instances of the theorems.
use etre.Base.{
  ℕ, zero, suc, ◌-◌, ◌^◌, String, ◌≡◌, refl, ◌⊎◌, inl, inr, arith, Option, none, some, List, [],
  ◌∷◌, ◌++◌,
}
use etre.Etre.{CdcEvent, Returns}
use etre.Cdc.Store.Driver.{CdcDriver, CdcLaws}
use etre.Cdc.Store.{
  CdcStore, write, write_loop, after_loop, after_try, fall_back, marshalled, opened, written,
  closed, tries_of,
}
use etre.Cdc.Store.Recorded.{Within, write-Recorded}
use etre.Cdc.Store.Read.{TsRange, CdcFilter, unordered, by_ts_asc, read, range_of}
use etre.Cdc.Store.Sorted.{IsOrdered, IsRange, read-IsOrdered}
use etre.Cdc.Store.Retries.{write-Recovers}

record Flaky : Type 0 where
  failures : ℕ
  log : List CdcEvent
  tries : ℕ
  file : List String

abbrev insert : CdcEvent → Flaky → ℕ → Flaky × Option String
insert e w zero = (record w { log = w.log ++ e ∷ []; tries = suc w.tries }, none)
insert e w (suc n) = (record w { failures = n; tries = suc w.tries }, some "insert failed")

abbrev flaky : CdcDriver
flaky = record {
  World = Flaky;
  Error = String;
  Bytes = String;
  insert_one = λ e w. insert e w w.failures;
  context_error = λ w. none;
  sleep = λ n w. w;
  marshal = λ e. some e.id;
  open_append = λ f w. (w, none);
  write_file = λ b w. (record w { file = w.file ++ b ∷ [] }, none);
  close_file = λ w. (w, none);
  marshal_failed = "marshal";
  open_failed = λ e. e;
  write_failed = λ e. e;
  close_failed = λ e. e;
}

insert-log :
    (e : CdcEvent) (w : Flaky) (n : ℕ)
    → ((insert e w n).1 ≡ none → (insert e w n).0.log ≡ w.log ++ e ∷ [])
      × ((err : String)
          → (insert e w n).1 ≡ some err
          → ((insert e w n).0.log ≡ w.log) ⊎ ((insert e w n).0.log ≡ w.log ++ e ∷ []))
insert-log e w zero = (λ h. refl, λ err h. cc)
insert-log e w (suc n) = (λ h. cc, λ err h. inl refl)

insert-tries : (e : CdcEvent) (w : Flaky) (n : ℕ) → (insert e w n).0.tries ≡ suc w.tries
insert-tries e w zero = refl
insert-tries e w (suc n) = refl

flaky-CdcLaws : CdcLaws flaky
flaky-CdcLaws = record {
  events = λ w. w.log;
  tries = λ w. w.tries;
  events-insert_one = λ e w h. (insert-log e w w.failures).0 h;
  events-insert_failed = λ e w err h. (insert-log e w w.failures).1 err h;
  events-sleep = λ n w. refl;
  events-open = λ f w. refl;
  events-write = λ b w. refl;
  events-close = λ w. refl;
  tries-insert_one = λ e w. insert-tries e w w.failures;
  tries-sleep = λ n w. refl;
  tries-open = λ f w. refl;
  tries-write = λ b w. refl;
  tries-close = λ w. refl;
}

abbrev some_event : CdcEvent
some_event = record {
  id = "e1";
  ts = 1700000000000;
  op = "i";
  caller = "alice";
  entity_id = "a0";
  entity_type = "node";
  entity_rev = 0;
  old = none;
  new = none;
  set_id = "";
  set_op = "";
  set_size = 0;
}

abbrev two_retries : CdcStore flaky
two_retries = record {
  wrp = record { retry_count = 2; retry_wait = 10 };
  fallback_file = "/tmp/cdc";
}

abbrev failing : ℕ → Flaky
failing n = record { failures = n; log = []; tries = 0; file = [] }

-- Three tries fail: the event goes to the file, and the error is that of the driver.
goes_to_file :
    ((write flaky two_retries some_event (failing 3)).1 ≡ some "insert failed")
    × ((write flaky two_retries some_event (failing 3)).0.file ≡ "e1" ∷ [])
unfolding write tries_of write_loop after_loop after_try fall_back marshalled opened written closed
goes_to_file = (refl, refl)

write-Recorded_example :
    Within flaky flaky-CdcLaws 3 some_event
      (failing 3)
      (write flaky two_retries some_event (failing 3))
write-Recorded_example =
    write-Recorded flaky flaky-CdcLaws two_retries some_event (failing 3) (omega arith)

-- A retry count of -1: nothing is tried, and no error is returned.
abbrev no_retries : CdcStore flaky
no_retries = record {
  wrp = record { retry_count = 2 ^ 64 - 1; retry_wait = 10 };
  fallback_file = "";
}

never_tried : write flaky no_retries some_event (failing 0) ≡ (failing 0, none)
unfolding write tries_of fall_back
never_tried = refl

write-Recovers_example : (write flaky two_retries some_event (failing 2)).1 ≡ none
write-Recovers_example =
    write-Recovers flaky two_retries some_event (failing 2) (omega arith)
      (inr (refl, inr (refl, refl)))

-- One event before the until time.
abbrev find_before : TsRange → String ⊎ List CdcEvent
find_before q = inr (elim q.until [ none ↦ [] | some t ↦ some_event ∷ [] ])

abbrev since_then : CdcFilter
since_then = record {
  since_ts = 1700000000000;
  until_ts = 1800000000000;
  limit = 0;
  order = by_ts_asc;
}

abbrev that_range : TsRange
that_range = record { since = 1700000000000; until = some 1800000000000 }

since_then-IsRange : IsRange 1700000000000000000 since_then that_range
since_then-IsRange = record {
  since_given = λ h. refl;
  since_default = λ e. absurd (omega (arith, e));
  until_given = λ h k. refl;
  no_until = λ h. absurd (ground (arith, h));
}

read-IsOrdered_example :
    Returns
      (λ r.
        (result : List CdcEvent) × (r ≡ inr result) × IsOrdered by_ts_asc (some_event ∷ []) result)
      (read (λ q. none) find_before 1700000000000000000 since_then)
read-IsOrdered_example =
    read-IsOrdered (λ q. none) find_before 1700000000000000000 since_then that_range
      (some_event ∷ []) (omega arith) (omega arith) since_then-IsRange refl refl (λ e. cc)

-- Without a since time the range begins at a number of nanoseconds, where events have milliseconds.
default_since :
    range_of 1700000000000000000
      (record { since_ts = 0; until_ts = 0; limit = 0; order = unordered })
    ≡ record { since = 1699996400000000000; until = none }
unfolding range_of
default_since = refl
