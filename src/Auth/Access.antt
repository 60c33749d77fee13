-- ===== src/Auth/Access.antt =====
-- Who may do what: Authorize against a description of the ACLs.
use etre.Base.{
  String, ◌≡◌, refl, ◌⊎◌, ◌↔◌, inl, inr, Bool, true, false, ◌||◌, none, some, List, [], ◌∷◌, arith,
  str_eq, eq_iff, Bool-cases, Option-cases,
}
use etre.Base.Dict.{Dict, lookup}
use etre.Auth.{
  Acl, Caller, Action, Manager, in_list, acl_of, allows, any_role_allows, authorize, op_read,
  op_write, op_cdc,
}

abbrev pub Contains : String → List String → Type 0
Contains s [] = ⊥
Contains s (v ∷ l) = (s ≡ v) ⊎ Contains s l

or_true : (b : Bool) → (b || true) ≡ true
or_true true = refl
or_true false = refl

-- The actions that an ACL grants.
pub data Grants (acl : Acl) (a : Action) : Type 0 where
  admin : acl.admin ≡ true → (a.op ≡ op_read) ⊎ ((a.op ≡ op_write) ⊎ (a.op ≡ op_cdc)) → Grants acl a
  reads : a.op ≡ op_read → Contains a.entity_type acl.read → Grants acl a
  writes : a.op ≡ op_write → Contains a.entity_type acl.write → Grants acl a
  streams : a.op ≡ op_cdc → acl.cdc ≡ true → Grants acl a

-- Some role of the caller has an ACL that grants the action.
pub record Granted (m : Dict Acl) (roles : List String) (a : Action) : Type 0 where
  pub role : String
  pub acl : Acl
  pub held : Contains role roles
  pub configured : lookup role m ≡ some acl
  pub grants : Grants acl a

in_list-Contains : (s : String) (l : List String) → in_list s l ≡ true → Contains s l
unfolding in_list
in_list-Contains s [] h = cc
in_list-Contains s (v ∷ l) h = elim (Bool-cases (str_eq s v)) [
  | inl same ↦ inl ((eq_iff s v).0 same)
  | inr other ↦ inr (in_list-Contains s l (ground (arith, other)))
]

Contains-in_list : (s : String) (l : List String) → Contains s l → in_list s l ≡ true
unfolding in_list
Contains-in_list s [] h = absurd h
Contains-in_list s (v ∷ l) (inl e) = rw ((eq_iff s v).1 e)
Contains-in_list s (v ∷ l) (inr k) = ground (arith, Contains-in_list s l k)

allows-Grants : (acl : Acl) (a : Action) → allows acl a ≡ true → Grants acl a
unfolding allows
allows-Grants acl a h = elim (Bool-cases (str_eq a.op op_read)) [
  | inl r ↦ elim (Bool-cases acl.admin) [
    | inl adm ↦ admin adm (inl ((eq_iff _ _).0 r))
    | inr plain ↦ reads ((eq_iff _ _).0 r) (in_list-Contains _ _ (ground (arith, r, plain)))
  ]
  | inr nr ↦ elim (Bool-cases (str_eq a.op op_write)) [
    | inl w ↦ elim (Bool-cases acl.admin) [
      | inl adm ↦ admin adm (inr (inl ((eq_iff _ _).0 w)))
      | inr plain ↦ writes ((eq_iff _ _).0 w) (in_list-Contains _ _ (ground (arith, nr, w, plain)))
    ]
    | inr nw ↦ elim (Bool-cases (str_eq a.op op_cdc)) [
      | inl c ↦ elim (Bool-cases acl.admin) [
        | inl adm ↦ admin adm (inr (inr ((eq_iff _ _).0 c)))
        | inr plain ↦ streams ((eq_iff _ _).0 c) (ground (arith, nr, nw, c, plain))
      ]
      | inr nc ↦ absurd (ground (arith, nr, nw, nc))
    ]
  ]
]

Grants-allows : (acl : Acl) (a : Action) → Grants acl a → allows acl a ≡ true
unfolding allows
Grants-allows acl a (admin adm (inl e)) = rw (e, adm)
Grants-allows acl a (admin adm (inr (inl e))) = rw (e, adm)
Grants-allows acl a (admin adm (inr (inr e))) = rw (e, adm)
Grants-allows acl a (reads e k) = rw (e, Contains-in_list _ _ k) (or_true acl.admin)
Grants-allows acl a (writes e k) = rw (e, Contains-in_list _ _ k) (or_true acl.admin)
Grants-allows acl a (streams e k) = rw (e, k) (or_true acl.admin)

-- A role without an ACL allows nothing.
found_of_allows :
    (m : Dict Acl) (role : String) (a : Action)
    → allows (acl_of m role) a ≡ true
    → (acl : Acl) × (lookup role m ≡ some acl) × (allows acl a ≡ true)
unfolding acl_of allows
found_of_allows m role a h = elim (Option-cases (lookup role m)) [
  | inl missing ↦ absurd (ground (arith, missing, h))
  | inr (acl, found) ↦ (acl, found, ground (arith, found, h))
]

any_role_allows-Granted :
    (m : Dict Acl) (roles : List String) (a : Action)
    → any_role_allows m roles a ≡ true
    → Granted m roles a
unfolding any_role_allows
any_role_allows-Granted m [] a h = cc
any_role_allows-Granted m (role ∷ roles) a h = elim (Bool-cases (allows (acl_of m role) a)) [
  | inl here ↦
      let (acl, found, ok) = found_of_allows m role a here in
      record {
        role = role;
        acl = acl;
        held = inl refl;
        configured = found;
        grants = allows-Grants acl a ok;
      }
  | inr later ↦
      let g = any_role_allows-Granted m roles a (ground (arith, later, h)) in
      record {
        role = g.role;
        acl = g.acl;
        held = inr g.held;
        configured = g.configured;
        grants = g.grants;
      }
]

Granted-any_role_allows :
    (m : Dict Acl) (roles : List String) (a : Action) (role : String) (acl : Acl)
    → Contains role roles
    → lookup role m ≡ some acl
    → allows acl a ≡ true
    → any_role_allows m roles a ≡ true
unfolding any_role_allows acl_of
Granted-any_role_allows m [] a role acl h found ok = absurd h
Granted-any_role_allows m (r ∷ roles) a role acl (inl e) found ok =
    let here : lookup r m ≡ some acl = rw (← e) found in ground (arith, here, ok)
Granted-any_role_allows m (r ∷ roles) a role acl (inr k) found ok =
    ground (arith, Granted-any_role_allows m roles a role acl k found ok)

module _ (Request : Type 0) where
  -- With ACLs configured, Authorize allows an action exactly if some role of the caller has an ACL
  -- that grants it (as administrator, by its list of entity types, or its CDC flag) and the plugin
  -- allows it too, administrators not excepted.
  pub authorize_iff :
      (m : Manager Request) (caller : Caller) (a : Action)
      → m.disabled ≡ false
      → (authorize Request m caller a ≡ none)
        ↔ (Granted m.acl caller.roles a × (m.plugin.authorize caller a ≡ none))
  unfolding authorize
  authorize_iff m caller a on = (
    λ h. (
      any_role_allows-Granted m.acl caller.roles a (ground (arith, on, h)),
      ground (arith, on, h),
    ),
    λ (g, p). ground (
      arith,
      on,
      p,
      Granted-any_role_allows m.acl caller.roles a g.role g.acl g.held g.configured
          (Grants-allows g.acl a g.grants),
    ),
  )
