-- ===== src/Metrics/Store/Shared.antt =====
-- The metrics of a request's groups exist, and no call that fits panics on them.
use etre.Base.{
  String, ap, ◌≡◌, refl, subst, ◌∙◌, true, false, Option, none, some, List, [], ◌∷◌, All, arith,
  str_eq, eq_iff, eq_refl, Bool-cases, Option-cases, inl, inr,
}
use etre.Base.Dict.{lookup, has_key, insert, lookup-insert, has_key-lookup}
use etre.Etre.{Returns, Returns-bind, Returns-map}
use etre.Metrics.{GoMetrics}
use etre.Metrics.Group.Types.{GroupMetrics, new_group_metrics}
use etre.Metrics.Store.{
  Call, MetricsStore, add, new_group, ensure, call, call_all, bound_by, run_calls,
}
use etre.Metrics.Store.Fit.{fits, binds, is_bound, Fit, HasType, call-HasType}

module _ (M : GoMetrics) where
  -- The group g of the store has metrics, and those have the entity type.
  abbrev pub Entry : Option String → MetricsStore M → String → Type 0
  Entry em s g = (m : GroupMetrics M) × (lookup g s ≡ some m) × HasType M em m

  Entry-insert :
      (em : Option String) (s : MetricsStore M) (g h : String) (m' : GroupMetrics M)
      → HasType M em m'
      → Entry em s h
      → Entry em (insert g m' s) h
  Entry-insert em s g h m' k (m, here, t) = elim (Bool-cases (str_eq g h)) [
    | inl same ↦ (m', lookup-insert g h m' s ∙ rw same refl, k)
    | inr other ↦ (m, lookup-insert g h m' s ∙ rw other here, t)
  ]

  All-Entry-insert :
      (em : Option String) (s : MetricsStore M) (g : String) (m' : GroupMetrics M)
      (gs : List String)
      → HasType M em m'
      → All (Entry em s) gs
      → All (Entry em (insert g m' s)) gs
  All-Entry-insert em s g m' [] k h = tt
  All-Entry-insert em s g m' (x ∷ gs) k h =
      (Entry-insert em s g x m' k h.0, All-Entry-insert em s g m' gs k h.1)

  bound_by-weaken :
      (em : Option String) (c : Call) (m : GroupMetrics M)
      → fits (is_bound em) c ≡ true
      → HasType M (bound_by em c) m
      → HasType M em m
  bound_by-weaken none c m h k = tt
  bound_by-weaken (some t) (Call.entity_type u) m h k = cc
  bound_by-weaken (some t) (Call.inc mn n) m h k = k
  bound_by-weaken (some t) (Call.inc_label mn label) m h k = k
  bound_by-weaken (some t) (Call.val mn n) m h k = k
  bound_by-weaken (some t) (Call.trace kvs) m h k = k

  call_all-Entry :
      (em : Option String) (c : Call) (done gs : List String) (s : MetricsStore M)
      → fits (is_bound em) c ≡ true
      → All (Entry (bound_by em c) s) done
      → All (Entry em s) gs
      → Returns
          (λ s'. All (Entry (bound_by em c) s') done × All (Entry (bound_by em c) s') gs)
          (call_all M em c gs s)
  unfolding call_all
  call_all-Entry em c done [] s h d k = (d, tt)
  call_all-Entry em c done (g ∷ gs) s h d ((m, here, t), k) =
      rw (Returns, here)
        (Returns-bind (HasType M (bound_by em c)) _ (call M em c m) _ (call-HasType M em c m h t)
          λ m' t'.
            Returns-map
              (λ s'. All (Entry (bound_by em c) s') (g ∷ done) × All (Entry (bound_by em c) s') gs)
              (λ s'. All (Entry (bound_by em c) s') done × All (Entry (bound_by em c) s') (g ∷ gs))
              (call_all M em c gs (insert g m' s)) (λ s' r. (r.0.1, (r.0.0, r.1)))
              (call_all-Entry em c (g ∷ done) gs (insert g m' s) h
                (
                  (m', lookup-insert g g m' s ∙ rw (eq_refl g) refl, t'),
                  All-Entry-insert (bound_by em c) s g m' done t' d,
                )
                (All-Entry-insert em s g m' gs (bound_by-weaken em c m' h t') k)))

  binds-bound_by :
      (em : Option String) (c : Call) → binds (is_bound em) c ≡ is_bound (bound_by em c)
  binds-bound_by em (Call.entity_type t) = refl
  binds-bound_by em (Call.inc mn n) = refl
  binds-bound_by em (Call.inc_label mn label) = refl
  binds-bound_by em (Call.val mn n) = refl
  binds-bound_by em (Call.trace kvs) = refl

  run_calls-Entry :
      (gs : List String) (em : Option String) (cs : List Call) (s : MetricsStore M)
      → Fit (is_bound em) cs
      → All (Entry em s) gs
      → Returns (λ _. Unit) (run_calls M gs em cs s)
  unfolding run_calls
  run_calls-Entry gs em [] s h k = tt
  run_calls-Entry gs em (c ∷ cs) s h k =
      Returns-bind (λ s'. Unit × All (Entry (bound_by em c) s') gs) (λ _. Unit)
        (call_all M em c gs s) _ (call_all-Entry em c [] gs s h.0 tt k)
        λ s' k'.
          run_calls-Entry gs (bound_by em c) cs s' (subst (λ b. Fit b cs) (binds-bound_by em c) h.1)
            k'.1

  abbrev pub Stored : MetricsStore M → String → Type 0
  Stored s g = (m : GroupMetrics M) × (lookup g s ≡ some m)

  ensure-new :
      (g : String) (s : MetricsStore M)
      → lookup g s ≡ none
      → ensure M g s ≡ insert g (new_group_metrics M) s
  unfolding ensure add
  ensure-new g s e =
      let no_key : has_key g s ≡ false = ground (arith, e, has_key-lookup g s) in
      rw (ensure, e, add, no_key) refl

  ensure-old :
      (g : String) (s : MetricsStore M) (m : GroupMetrics M)
      → lookup g s ≡ some m
      → ensure M g s ≡ s
  unfolding ensure
  ensure-old g s m e = rw (ensure, e) refl

  Stored-ensure : (s : MetricsStore M) (g : String) → Stored (ensure M g s) g
  Stored-ensure s g = elim (Option-cases (lookup g s)) [
    | inl new ↦ (
      new_group_metrics M,
      ap (lookup g) (ensure-new g s new)
          ∙ lookup-insert g g (new_group_metrics M) s
          ∙ rw (eq_refl g) refl,
    )
    | inr (m, e) ↦ (m, ap (lookup g) (ensure-old g s m e) ∙ e)
  ]

  Stored-ensure-other : (s : MetricsStore M) (g h : String) → Stored s h → Stored (ensure M g s) h
  Stored-ensure-other s g h (m, e) = elim (Option-cases (lookup g s)) [
    | inl new ↦ (
      m,
      ap (lookup h) (ensure-new g s new)
          ∙ lookup-insert g h (new_group_metrics M) s
          ∙ ground (arith, new, e, eq_iff g h),
    )
    | inr (m', e') ↦ (m, ap (lookup h) (ensure-old g s m' e') ∙ e)
  ]

  Stored-new_group :
      (gs : List String) (s : MetricsStore M) (h : String)
      → Stored s h
      → Stored (new_group M gs s) h
  unfolding new_group
  Stored-new_group [] s h k = k
  Stored-new_group (g ∷ gs) s h k =
      Stored-new_group gs (ensure M g s) h (Stored-ensure-other s g h k)

  All-Stored : (gs : List String) (s : MetricsStore M) → All (Entry none (new_group M gs s)) gs
  unfolding new_group
  All-Stored [] s = tt
  All-Stored (g ∷ gs) s =
      let (m, e) = Stored-new_group gs (ensure M g s) g (Stored-ensure s g) in
      ((m, e, tt), All-Stored gs (ensure M g s))

  -- Calls that fit, on the metrics of a request for any groups, none, some or repeated: no call
  -- panics.
  pub run_calls-Fit :
      (gs : List String) (cs : List Call) (s : MetricsStore M)
      → Fit false cs
      → Returns (λ _. Unit) (run_calls M gs none cs (new_group M gs s))
  run_calls-Fit gs cs s h = run_calls-Entry gs none cs (new_group M gs s) h (All-Stored gs s)
