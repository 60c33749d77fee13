-- ===== src/Api/Calls.antt =====
-- Which calls on metrics an action of the API makes: the predicate `Logged` on the state of a
-- request, and how the primitive actions and the replies keep it.
use etre.Base.{
  ℕ, ◌≡◌, refl, sym, ap, subst, ◌∙◌, Bool, true, false, List, [], ◌∷◌, ◌++◌, if◌then◌else◌,
}
use etre.Metrics.{Metric}
use etre.Metrics.Store.{Call}
use etre.Metrics.Store.Fit.{fits, binds, Fit}
use etre.Api.Action.{State, Rc, Body, set_rc, call_if, on_gm, maybe_inc, system_inc, respond}
use etre.Api.Leads.{After, Leads}

-- Whether the request is bound to an entity type after its calls.
abbrev pub bound_after : Bool → List Call → Bool
bound_after b [] = b
bound_after b (c ∷ cs) = bound_after (binds b c) cs

-- The changes of the load.
abbrev pub load_of : Metric → ℕ → List ℕ
load_of Metric.load n = n ∷ []
load_of _ n = []

abbrev pub loads : List (Metric × ℕ) → List ℕ
loads [] = []
loads ((mn, n) ∷ ms) = load_of mn n ++ loads ms

Fit-snoc :
    (b : Bool) (cs : List Call) (c : Call)
    → Fit b cs
    → fits (bound_after b cs) c ≡ true
    → Fit b (cs ++ c ∷ [])
Fit-snoc b [] c h k = (k, tt)
Fit-snoc b (x ∷ cs) c h k = (h.0, Fit-snoc (binds b x) cs c h.1 k)

bound_after-snoc :
    (b : Bool) (cs : List Call) (c : Call)
    → bound_after b (cs ++ c ∷ []) ≡ binds (bound_after b cs) c
bound_after-snoc b [] c = refl
bound_after-snoc b (x ∷ cs) c = bound_after-snoc (binds b x) cs c

append_assoc : {A : Type 0} (xs ys zs : List A) → (xs ++ ys) ++ zs ≡ xs ++ (ys ++ zs)
append_assoc [] ys zs = refl
append_assoc (x ∷ xs) ys zs = ap (◌∷◌ x) (append_assoc xs ys zs)

pub append-nil : {A : Type 0} (xs : List A) → xs ++ [] ≡ xs
append-nil [] = refl
append-nil (x ∷ xs) = ap (◌∷◌ x) (append-nil xs)

loads-snoc :
    (ms : List (Metric × ℕ)) (mn : Metric) (n : ℕ)
    → loads (ms ++ (mn, n) ∷ []) ≡ loads ms ++ load_of mn n
loads-snoc [] mn n = append-nil (load_of mn n)
loads-snoc ((m, k) ∷ ms) mn n =
    ap (λ l. load_of m k ++ l) (loads-snoc ms mn n)
    ∙ sym (append_assoc (load_of m k) (loads ms) (load_of mn n))

module _ {World : Type 0} where
  -- The calls on the group metrics fit and leave the request bound or not, and the load was changed
  -- by `ls`.
  pub record Logged (b : Bool) (ls : List ℕ) (s : State World) : Type 0 where
    pub fit : Fit false s.calls
    pub bound : bound_after false s.calls ≡ b
    pub changes : loads s.system ≡ ls

  -- Of either kind.
  pub record Sound (ls : List ℕ) (s : State World) : Type 0 where
    pub bound : Bool
    pub logged : Logged bound ls s

  Logged-call :
      (b : Bool) (ls : List ℕ) (c : Call) (s : State World)
      → fits b c ≡ true
      → Logged b ls s
      → Logged (binds b c) ls (record s { calls = s.calls ++ c ∷ [] })
  Logged-call b ls c s h l = record {
    fit = Fit-snoc false s.calls c l.fit (subst (λ x. fits x c ≡ true) (sym l.bound) h);
    bound = bound_after-snoc false s.calls c ∙ ap (λ x. binds x c) l.bound;
    changes = l.changes;
  }

  call_if-Leads :
      (b : Bool) (ls : List ℕ) (c : Call) (s : State World) (has_gm : Bool)
      → fits b c ≡ true
      → Logged b ls s
      → After (Sound ls) (Logged (binds b c) ls) (call_if has_gm s c)
  call_if-Leads b ls c s true h l = Logged-call b ls c s h l
  call_if-Leads b ls c s false h l = record { bound = b; logged = l }

  pub on_gm-Leads :
      (b : Bool) (ls : List ℕ) (c : Call)
      → fits b c ≡ true
      → Leads (Sound ls) (Logged b ls) (Logged (binds b c) ls) (on_gm c)
  unfolding on_gm
  on_gm-Leads b ls c h s l = call_if-Leads b ls c s s.rc.has_gm h l

  pub maybe_inc-Leads :
      (b : Bool) (ls : List ℕ) (mn : Metric) (n : ℕ)
      → fits b (Call.inc mn n) ≡ true
      → Leads (Sound ls) (Logged b ls) (Logged b ls) (maybe_inc mn n)
  unfolding maybe_inc
  maybe_inc-Leads b ls mn n h s l = at s.rc.has_gm
    where
      at :
          (g : Bool)
          → Logged b ls (if g then record s { calls = s.calls ++ Call.inc mn n ∷ [] } else s)
      at true = Logged-call b ls (Call.inc mn n) s h l
      at false = l

  pub system_inc-Leads :
      (b : Bool) (ls : List ℕ) (mn : Metric) (n : ℕ)
      → Leads (Sound ls) (Logged b ls) (Logged b (ls ++ load_of mn n)) (system_inc mn n)
  unfolding system_inc
  system_inc-Leads b ls mn n s l = record {
    fit = l.fit;
    bound = l.bound;
    changes = loads-snoc s.system mn n ∙ ap (λ x. x ++ load_of mn n) l.changes;
  }

  pub error-Leads :
      (b : Bool) (ls : List ℕ)
      → Leads (Sound ls) (Logged b ls) (Logged b ls) (system_inc Metric.error 1)
  error-Leads b ls s l =
      subst (λ x. After (Sound ls) (Logged b x) (system_inc Metric.error 1 s)) (append-nil ls)
        (system_inc-Leads b ls Metric.error 1 s l)

  pub respond-Leads :
      (b : Bool) (ls : List ℕ) (status : ℕ) (body : Body)
      → Leads (Sound ls) (Logged b ls) (Logged b ls) (respond status body)
  unfolding respond
  respond-Leads b ls status body s l = record { fit = l.fit; bound = l.bound; changes = l.changes }

  pub set_rc-Leads :
      (b : Bool) (ls : List ℕ) (f : Rc → Rc)
      → Leads (Sound ls) (Logged b ls) (Logged b ls) (set_rc f)
  set_rc-Leads b ls f s l = record { fit = l.fit; bound = l.bound; changes = l.changes }
