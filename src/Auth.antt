-- ===== src/Auth.antt =====
-- The package auth: auth.go's types, and the Manager of manager.go.
--
-- The plugin is the site's own code: it is the parameter `Plugin` over the type of HTTP requests. A
-- Go pair of a Caller and an error is a pair with an optional error. `header` is the value of
-- X-Etre-Trace, "" if there is none.
pub mod Access
pub mod Trace
mod Tests
use etre.Base.{
  ℕ, String, Bool, true, false, ◌&&◌, ◌||◌, Option, none, some, List, [], ◌∷◌, str_eq,
  if◌then◌else◌,
}
use etre.Base.Dict.{Dict, lookup, insert, has_key}
use etre.Base.Text.{split, split_pair}

pub record Acl : Type 0 where
  pub role : String
  pub admin : Bool
  pub read : List String
  pub write : List String
  pub cdc : Bool
  pub trace_keys_required : List String

pub record Caller : Type 0 where
  pub name : String
  pub roles : List String
  pub metric_groups : List String
  pub trace : Option (Dict String)

pub record Action : Type 0 where
  pub entity_type : String
  pub op : String

abbrev pub op_read : String
op_read = "r"

abbrev pub op_write : String
op_write = "w"

abbrev pub op_cdc : String
op_cdc = "c"

-- An error of the plugin is its message.
pub data AuthError : Type 0 where
  plugin_error : String → AuthError
  no_trace_data : String → AuthError
  missing_trace_key : String → String → AuthError
  not_allowed : AuthError

-- The site's plugin, which is taken to return.
pub record Plugin (Request : Type 0) : Type 0 where
  pub authenticate : Request → Caller × Option String
  pub authorize : Caller → Action → Option String

-- AllowAll, the default plugin.
abbrev pub allow_all : (Request : Type 0) → Plugin Request
allow_all Request = record {
  authenticate =
      λ req. (record { name = ""; roles = []; metric_groups = "etre" ∷ []; trace = none }, none);
  authorize = λ caller a. none;
}

unfoldable pub in_list : String → List String → Bool
in_list s [] = false
in_list s (v ∷ l) = if str_eq s v then true else in_list s l

-- The entries for the ACLs: a later one replaces an earlier one of the same role.
unfoldable pub by_role : Dict Acl → List Acl → Dict Acl
by_role m [] = m
by_role m (a ∷ acls) = by_role (insert a.role a m) acls

abbrev zero_acl : Acl
zero_acl = record {
  role = "";
  admin = false;
  read = [];
  write = [];
  cdc = false;
  trace_keys_required = [];
}

-- m.acl[role], the zero ACL where there is none.
unfoldable pub acl_of : Dict Acl → String → Acl
acl_of m role = elim (lookup role m) [ some a ↦ a | none ↦ zero_acl ]

-- The switch on the action: another op allows nothing.
unfoldable pub allows : Acl → Action → Bool
unfolding in_list
allows acl a =
    if str_eq a.op op_read
    then acl.admin || in_list a.entity_type acl.read
    else if str_eq a.op op_write
    then acl.admin || in_list a.entity_type acl.write
    else if str_eq a.op op_cdc
    then acl.admin || acl.cdc
    else false

-- The loop over the caller's roles, which ends at the first that allows.
unfoldable pub any_role_allows : Dict Acl → List String → Action → Bool
unfolding acl_of
any_role_allows m [] a = false
any_role_allows m (role ∷ roles) a =
    if allows (acl_of m role) a then true else any_role_allows m roles a

-- One key=value pair of the header.
unfoldable pub add_pair : Dict String → String → Dict String
add_pair trace kv = elim (split_pair b'=' kv) [
  | none ↦ trace
  | some (k, v) ↦ if has_key k trace then trace else insert k v trace
]

unfoldable pub add_pairs : Dict String → List String → Dict String
add_pairs trace [] = trace
add_pairs trace (kv ∷ kvs) = add_pairs (add_pair trace kv) kvs

abbrev or_empty : Option (Dict String) → Dict String
or_empty none = []
or_empty (some t) = t

unfoldable pub with_trace : Caller → String → Caller
unfolding add_pair add_pairs
with_trace caller header =
    if str_eq header ""
    then caller
    else record caller { trace = some (add_pairs (or_empty caller.trace) (split b',' header)) }

-- The trace keys that one ACL requires.
unfoldable pub check_keys : String → Dict String → List String → Option AuthError
check_keys role trace [] = none
check_keys role trace (k ∷ ks) =
    if has_key k trace then check_keys role trace ks else some (missing_trace_key role k)

-- A caller with a nil trace has none of the keys.
unfoldable pub check_trace : String → List String → Option (Dict String) → Option AuthError
unfolding check_keys
check_trace role [] t = none
check_trace role (k ∷ ks) none = some (no_trace_data role)
check_trace role (k ∷ ks) (some t) = check_keys role t (k ∷ ks)

-- A role without an ACL is passed over.
unfoldable pub check_role : String → Option (Dict String) → Option Acl → Option AuthError
unfolding check_trace
check_role role trace none = none
check_role role trace (some acl) = check_trace role acl.trace_keys_required trace

unfoldable pub check_roles : Dict Acl → Option (Dict String) → List String → Option AuthError
unfolding check_role
check_roles m trace [] = none
check_roles m trace (role ∷ roles) = elim (check_role role trace (lookup role m)) [
  | some e ↦ some e
  | none ↦ check_roles m trace roles
]

module _ (Request : Type 0) where
  pub record Manager : Type 0 where
    pub disabled : Bool
    pub plugin : Plugin Request
    pub acl : Dict Acl

  unfoldable pub new_manager : List Acl → Plugin Request → Manager
  unfolding by_role
  new_manager acls plugin = record {
    disabled = elim acls [ [] ↦ true | _ ↦ false ];
    plugin = plugin;
    acl = by_role [] acls;
  }

  -- The part of Authenticate behind the plugin's answer.
  unfoldable pub admit : Manager → String → Caller × Option String → Caller × Option AuthError
  admit m header (caller, some e) = (caller, some (plugin_error e))
  admit m header (caller, none) =
      let caller' = with_trace caller header in
      if m.disabled
      then (caller', none)
      else (caller', check_roles m.acl caller'.trace caller'.roles)

  unfoldable pub authenticate : (Request → String) → Manager → Request → Caller × Option AuthError
  unfolding admit
  authenticate header m req = admit m (header req) (m.plugin.authenticate req)

  abbrev of_plugin : Option String → Option AuthError
  of_plugin none = none
  of_plugin (some e) = some (plugin_error e)

  unfoldable pub authorize : Manager → Caller → Action → Option AuthError
  authorize m caller a =
      if m.disabled
      then of_plugin (m.plugin.authorize caller a)
      else if any_role_allows m.acl caller.roles a
      then of_plugin (m.plugin.authorize caller a)
      else some not_allowed
