-- ===== src/Auth/Tests.antt =====
-- A site with two ACLs, and instances of the theorems about it.
use etre.Base.{String, ◌≡◌, refl, ◌↔◌, inl, true, false, none, some, [], ◌∷◌}
use etre.Base.Dict.{Dict, lookup, insert, has_key}
use etre.Auth.{
  Acl, Caller, Action, Plugin, Manager, new_manager, authenticate, authorize, with_trace,
  check_roles,
}
use etre.Auth.Access.{Granted, authorize_iff}
use etre.Auth.Trace.{HasKey, authenticate_keeps_trace, authenticate-HasKey}

abbrev dev : Acl
dev = record {
  role = "dev";
  admin = false;
  read = "node" ∷ [];
  write = [];
  cdc = false;
  trace_keys_required = "app" ∷ [];
}

abbrev root : Acl
root = record {
  role = "root";
  admin = true;
  read = [];
  write = [];
  cdc = false;
  trace_keys_required = [];
}

abbrev developer : Caller
developer = record {
  name = "d";
  roles = "dev" ∷ [];
  metric_groups = [];
  trace = some (("app", "es") ∷ []);
}

-- The request is the value of its trace header.
abbrev site : Plugin String
site = record { authenticate = λ req. (developer, none); authorize = λ caller a. some "no" }

abbrev manager : Manager String
manager = new_manager String (root ∷ dev ∷ []) site

abbrev read_node : Action
read_node = record { entity_type = "node"; op = "r" }

authorize_iff_example : (authorize String manager developer read_node ≡ none) ↔ (
    Granted manager.acl developer.roles read_node
    × (manager.plugin.authorize developer read_node ≡ none))
unfolding new_manager
authorize_iff_example = authorize_iff String manager developer read_node refl

authenticate_keeps_trace_example :
    (t' : Dict String) × ((authenticate String (λ r. r) manager "app=other,host=h").0.trace
      ≡ some t')
    × (lookup "app" t' ≡ some "es")
unfolding new_manager lookup
authenticate_keeps_trace_example =
    authenticate_keeps_trace String (λ r. r) manager "app=other,host=h" developer
      (("app", "es") ∷ []) "app" "es" refl refl refl

authenticate-HasKey_example : HasKey "app" (authenticate String (λ r. r) manager "").0.trace
unfolding new_manager lookup insert authenticate with_trace check_roles has_key
authenticate-HasKey_example =
    authenticate-HasKey String (λ r. r) manager "" "dev" dev "app" refl refl (inl refl) refl
      (inl refl)
