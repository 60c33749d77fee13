-- ===== src/Auth/Trace.antt =====
-- The trace of a caller: what Authenticate keeps of it, adds to it and requires of it.
use etre.Base.{
  String, ◌≡◌, refl, sym, ap, ◌∙◌, inl, inr, true, false, Option, none, some, List, [], ◌∷◌, arith,
  str_eq, eq_iff, subst, Bool-cases, if◌then◌else◌,
}
use etre.Base.Text.{split, split_pair}
use etre.Base.Dict.{Dict, lookup, has_key, lookup-insert, has_key-lookup}
use etre.Auth.{
  Acl, Caller, AuthError, Manager, add_pair, add_pairs, with_trace, check_keys, check_trace,
  check_role, check_roles, admit, authenticate,
}
use etre.Auth.Access.{Contains}

add_pair_keeps :
    (t : Dict String) (kv k v : String) → lookup k t ≡ some v → lookup k (add_pair t kv) ≡ some v
unfolding add_pair
add_pair_keeps t kv k v h = at (split_pair b'=' kv) refl
  where
    at : (o : Option (String × String)) → split_pair b'=' kv ≡ o → lookup k (add_pair t kv) ≡ some v
    at none e = ground (arith, e, h)
    at (some (j, w)) e = ground (arith, e, h, lookup-insert j k w t, has_key-lookup j t, eq_iff j k)

add_pairs_keep :
    (t : Dict String) (kvs : List String) (k v : String)
    → lookup k t ≡ some v
    → lookup k (add_pairs t kvs) ≡ some v
unfolding add_pairs
add_pairs_keep t [] k v h = h
add_pairs_keep t (kv ∷ kvs) k v h =
    add_pairs_keep (add_pair t kv) kvs k v (add_pair_keeps t kv k v h)

check_keys-has_key :
    (role : String) (t : Dict String) (ks : List String) (k : String)
    → check_keys role t ks ≡ none
    → Contains k ks
    → has_key k t ≡ true
unfolding check_keys
check_keys-has_key role t [] k h c = absurd c
check_keys-has_key role t (x ∷ ks) k h (inl e) = ground (arith, h, e)
check_keys-has_key role t (x ∷ ks) k h (inr c) =
    check_keys-has_key role t ks k (ground (arith, h)) c

-- The caller's trace has the key.
abbrev pub HasKey : String → Option (Dict String) → Type 0
HasKey k none = ⊥
HasKey k (some t) = has_key k t ≡ true

check_trace-HasKey :
    (role : String) (ks : List String) (t : Option (Dict String)) (k : String)
    → check_trace role ks t ≡ none
    → Contains k ks
    → HasKey k t
unfolding check_trace
check_trace-HasKey role [] t k h c = absurd c
check_trace-HasKey role (x ∷ ks) none k h c = cc
check_trace-HasKey role (x ∷ ks) (some t) k h c = check_keys-has_key role t (x ∷ ks) k h c

check_roles-HasKey :
    (m : Dict Acl) (t : Option (Dict String)) (roles : List String) (role : String) (acl : Acl)
    (k : String)
    → check_roles m t roles ≡ none
    → Contains role roles
    → lookup role m ≡ some acl
    → Contains k acl.trace_keys_required
    → HasKey k t
unfolding check_roles check_role
check_roles-HasKey m t [] role acl k h c found req = absurd c
check_roles-HasKey m t (r ∷ roles) role acl k h (inl e) found req =
    let here : lookup r m ≡ some acl = rw (← e) found in
    check_trace-HasKey r acl.trace_keys_required t k (ground (arith, here, h)) req
check_roles-HasKey m t (r ∷ roles) role acl k h (inr c) found req =
    check_roles-HasKey m t roles role acl k (ground (arith, h)) c found req

module _ (Request : Type 0) (header : Request → String) (m : Manager Request) (req : Request) where
  admit-HasKey :
      (hdr : String) (p : Caller × Option String) (role : String) (acl : Acl) (k : String)
      → m.disabled ≡ false
      → (admit Request m hdr p).1 ≡ none
      → Contains role (admit Request m hdr p).0.roles
      → lookup role m.acl ≡ some acl
      → Contains k acl.trace_keys_required
      → HasKey k (admit Request m hdr p).0.trace
  unfolding admit
  admit-HasKey hdr (caller, some e) role acl k on h c found required = cc
  admit-HasKey hdr (caller, none) role acl k on h c found required =
      let caller' = with_trace caller hdr in
      let checked : Caller × Option AuthError =
        (caller', check_roles m.acl caller'.trace caller'.roles) in
      let open_access : Caller × Option AuthError = (caller', none) in
      let same : (if m.disabled then open_access else checked) ≡ checked = ground (arith, on) in
      rw same (
        check_roles-HasKey m.acl caller'.trace caller'.roles role acl k
          (ap (λ q. q.1) (sym same) ∙ h)
          (subst (λ (q : Caller × Option AuthError). Contains role q.0.roles) same c) found
          required)

  -- What the plugin set stays: where its caller has a value for a trace key, the authenticated
  -- caller has the same value for it, whatever the header says.
  pub authenticate_keeps_trace :
      (caller : Caller) (t : Dict String) (k v : String)
      → m.plugin.authenticate req ≡ (caller, none)
      → caller.trace ≡ some t
      → lookup k t ≡ some v
      → (t' : Dict String) × ((authenticate Request header m req).0.trace ≡ some t')
        × (lookup k t' ≡ some v)
  unfolding authenticate with_trace
  authenticate_keeps_trace caller t k v ok has h = elim (Bool-cases (str_eq (header req) "")) [
    | inl unset ↦ (t, ground (arith, unset, ok, has), h)
    | inr sent ↦ (
      add_pairs t (split b',' (header req)),
      ground (arith, sent, ok, has),
      add_pairs_keep t (split b',' (header req)) k v h,
    )
  ]

  -- With ACLs configured, a caller that Authenticate accepts has, for each of its roles with an ACL,
  -- every trace key that the ACL requires.
  pub authenticate-HasKey :
      (role : String) (acl : Acl) (k : String)
      → m.disabled ≡ false
      → (authenticate Request header m req).1 ≡ none
      → Contains role (authenticate Request header m req).0.roles
      → lookup role m.acl ≡ some acl
      → Contains k acl.trace_keys_required
      → HasKey k (authenticate Request header m req).0.trace
  unfolding authenticate
  authenticate-HasKey role acl k on h c found required =
      admit-HasKey (header req) (m.plugin.authenticate req) role acl k on h c found required
