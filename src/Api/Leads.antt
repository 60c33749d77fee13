-- ===== src/Api/Leads.antt =====
-- A logic of the actions of a request, by what holds of the state before and after. A panic keeps
-- the state too, of which `R` holds then.
use etre.Base.{Bool, true, false, if◌then◌else◌}
use etre.Etre.{Outcome, returns, panics}
use etre.Api.Action.{Action, State, continue, ◌>>=◌}

module _ {World : Type 0} where
  abbrev pub After : {A : Type 0} → (R Q : State World → Type 0) → State World × Outcome A → Type 0
  After R Q (s, returns a) = Q s
  After R Q (s, panics) = R s

  -- From a state of P the action comes to one of Q, or it panics in one of R.
  abbrev pub Leads : {A : Type 0} → (R P Q : State World → Type 0) → Action World A → Type 0
  Leads R P Q m = (s : State World) → P s → After R Q (m s)

  continue-After :
      {A B : Type 0} (R P Q : State World → Type 0) (f : A → Action World B)
      (r : State World × Outcome A)
      → After R P r
      → ((a : A) → Leads R P Q (f a))
      → After R Q (continue f r)
  continue-After R P Q f (s, returns a) h k = k a s h
  continue-After R P Q f (s, panics) h k = h

  pub Leads-bind :
      {A B : Type 0} (R P Q T : State World → Type 0) (m : Action World A) (f : A → Action World B)
      → Leads R P Q m
      → ((a : A) → Leads R Q T (f a))
      → Leads R P T (m >>= f)
  Leads-bind R P Q T m f h k s p = continue-After R Q T f (m s) (h s p) k

  pub Leads-if :
      {A : Type 0} (R P Q : State World → Type 0) (b : Bool) (m k : Action World A)
      → Leads R P Q m
      → Leads R P Q k
      → Leads R P Q (if b then m else k)
  Leads-if R P Q true m k h i = h
  Leads-if R P Q false m k h i = i

  pub After-map :
      {A : Type 0} (R P Q : State World → Type 0) (r : State World × Outcome A)
      → ((s : State World) → P s → Q s)
      → After R P r
      → After R Q r
  After-map R P Q (s, returns a) f h = f s h
  After-map R P Q (s, panics) f h = h
