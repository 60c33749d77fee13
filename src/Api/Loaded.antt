-- ===== src/Api/Loaded.antt =====
-- The load metric of a request, which its wrapper raises and lowers.
use etre.Base.{
  ℕ, ◌-◌, ◌^◌, ◌≡◌, refl, Bool, true, false, ◌⊎◌, inl, inr, List, [], ◌∷◌, str_eq, if◌then◌else◌,
}
use etre.Etre.{Outcome, returns, panics}
use etre.Metrics.{Metric}
use etre.Api.{etre_error, Request, Api, is_write_request, err_bad_request, err_panic}
use etre.Api.Action.{State, system_inc}
use etre.Api.Reply.{Handler, reject}
use etre.Api.Wrapper.{recovered, recovering, with_load, admit_request, request_wrapper, new_rc}
use etre.Api.Calls.{Logged, Sound, system_inc-Leads}
use etre.Api.Handled.{Stays, may_count, reject-Stays}
use etre.Api.Wrapped.{Ends, Sound-After, Sound-Logged, admit_request-Ends}

-- The load while a request is served, and after it.
abbrev pub up : List ℕ
up = 1 ∷ []

abbrev pub up_and_down : List ℕ
up_and_down = 1 ∷ (2 ^ 64 - 1) ∷ []

module _ (api : Api) where
  open api use {es, auth}
  open es use {World}

  may_count_panic : (b : Bool) → may_count b (etre_error err_panic) ≡ true
  may_count_panic true = refl
  may_count_panic false = refl

  recovered-Sound :
      (ls : List ℕ) (write : Bool) (r : State World × Outcome (Unit {0}))
      → Sound ls r.0
      → Sound ls (recovered api write r).0
  unfolding recovered
  recovered-Sound ls write (s, returns u) h = h
  recovered-Sound ls write (s, panics) h =
      Sound-After api ls (Logged h.bound ls) (reject api write (etre_error err_panic) s)
        (Sound-Logged api ls h.bound)
        (reject-Stays api ls h.bound write (etre_error err_panic) (may_count_panic h.bound) s
          h.logged)

  with_load-Sound :
      (m : Handler api) (s : State World)
      → Ends api up false m
      → Logged false [] s
      → Sound up_and_down (with_load api m s).0
  unfolding with_load system_inc
  with_load-Sound m s h l = at (m (system_inc Metric.load 1 s).0) (
      Sound-After api up (Sound up) (m (system_inc Metric.load 1 s).0) (λ s k. k)
        (h (system_inc Metric.load 1 s).0 (system_inc-Leads false [] Metric.load 1 s l)))
    where
      at :
          (r : State World × Outcome (Unit {0}))
          → Sound up r.0
          → Sound up_and_down (system_inc Metric.load (2 ^ 64 - 1) r.0).0
      at (s', o) k =
          Sound-Logged api up_and_down k.bound (system_inc Metric.load (2 ^ 64 - 1) s').0
            (system_inc-Leads k.bound up Metric.load (2 ^ 64 - 1) s' k.logged)

  -- The load has come back to what it was.
  abbrev pub Balanced : State World → Type 0
  Balanced s = Sound [] s ⊎ Sound up_and_down s

  pub loaded-Balanced :
      (write : Bool) (m : Handler api) (s : State World)
      → Ends api up false m
      → Logged false [] s
      → Balanced (recovering api write (with_load api m) s).0
  unfolding recovering
  loaded-Balanced write m s h l =
      inr (recovered-Sound up_and_down write (with_load api m s) (with_load-Sound m s h l))

  pub request_wrapper-Balanced :
      (next : Handler api) (r : Request) (s : State World)
      → Stays api up true next
      → Logged false [] s
      → Balanced (request_wrapper api next r s).0
  unfolding request_wrapper
  request_wrapper-Balanced next r s h l = at (str_eq r.entity_type "")
    where
      write : Bool
      write = is_write_request r.method

      s' : State World
      s' = record s { rc = new_rc r.entity_type write }

      l' : Logged false [] s'
      l' = record { fit = l.fit; bound = l.bound; changes = l.changes }

      at :
          (b : Bool)
          → Balanced
              ((if b
                  then reject api write (etre_error err_bad_request)
                  else recovering api write (with_load api (admit_request api write next r)))
                s').0
      at true = inl (
          Sound-After api [] (Logged false []) (reject api write (etre_error err_bad_request) s')
            (Sound-Logged api [] false)
            (reject-Stays api [] false write (etre_error err_bad_request) refl s' l'))
      at false =
          loaded-Balanced write (admit_request api write next r) s'
            (admit_request-Ends api up next h write r) l'
