-- ===== src/Auth/Roles.antt =====
-- The roles, principals and authorization functions of auth/domain/authentication.ts.
use Prim.Native.Char.{code}
use exchanger.Prelude.{
  String, Bool, true, false, ◌&&◌, not, List, [], ◌∷◌, ◌≡◌, refl, ap, ◌∙◌, Option, none, some,
  concat, ◌==◌, str_eq, if◌then◌else◌, map, ◌++◌, includes,
}
use exchanger.Prelude.Exec.{Result, ok, err}

pub data ApiKeyRole : Type 0 where
  trader : ApiKeyRole
  admin : ApiKeyRole
  risk_manager : ApiKeyRole
  auditor : ApiKeyRole
  support : ApiKeyRole

pub record ApiKeyPrincipal : Type 0 where
  pub key_id : String
  pub role : ApiKeyRole
  pub user_id : String
  pub scopes : Option (List String)

pub data AuthError : Type 0 where
  invalid_api_key : AuthError
  api_key_revoked : AuthError
  api_key_not_found : AuthError
  role_unsupported : AuthError
  object_forbidden : AuthError
  scope_required : AuthError
  role_forbidden : AuthError
  admin_required : AuthError
  administrative_identity_required : AuthError

-- A role is its text in the code.
unfoldable pub role_text : ApiKeyRole → String
role_text trader = "trader"
role_text admin = "admin"
role_text risk_manager = "risk_manager"
role_text auditor = "auditor"
role_text support = "support"

unfoldable pub same_role : ApiKeyRole → ApiKeyRole → Bool
unfolding role_text
same_role a b = str_eq (role_text a) (role_text b)

unfoldable pub default_scopes : ApiKeyRole → List String
default_scopes admin = "admin:*" ∷ "trading:*" ∷ []
default_scopes trader = "trading:read" ∷ "trading:write" ∷ []
default_scopes risk_manager = "admin:*" ∷ []
default_scopes auditor = "admin:read" ∷ []
default_scopes support = "admin:read" ∷ []

unfoldable pub assert_object_access : ApiKeyPrincipal → String → Result AuthError (Unit {0})
unfolding same_role
assert_object_access principal resource_user_id =
    if not (same_role principal.role admin) && not (str_eq principal.user_id resource_user_id)
    then err object_forbidden
    else ok tt

-- `const [group] = required.split(':')`
unfoldable pub group_of : String → String
group_of String.[] = ""
group_of (String.◌∷◌ c s) = let rest = group_of s in if code c == 58 then "" else String.◌∷◌ c rest

-- `principal.scopes?.includes(scope)`, which is falsy without scopes.
unfoldable pub has_scope : Option (List String) → String → Bool
unfolding includes
has_scope none scope = false
has_scope (some scopes) scope = includes scope scopes

unfoldable pub assert_api_key_scope : ApiKeyPrincipal → String → Result AuthError (Unit {0})
unfolding group_of has_scope
assert_api_key_scope principal required =
    if not (has_scope principal.scopes required)
      && not (has_scope principal.scopes (concat (group_of required) ":*"))
      && not (has_scope principal.scopes "admin:*")
    then err scope_required
    else ok tt

pub data Action : Type 0 where
  trading_read : Action
  trading_write : Action
  admin_read : Action
  admin_write : Action
  ledger_admin : Action

pub record Policy : Type 0 where
  pub scope : String
  pub roles : List ApiKeyRole

-- `AUTHORIZATION_POLICY`
unfoldable pub authorization_policy : Action → Policy
authorization_policy trading_read = record { scope = "trading:read"; roles = trader ∷ admin ∷ [] }
authorization_policy trading_write = record { scope = "trading:write"; roles = trader ∷ admin ∷ [] }
authorization_policy admin_read = record {
  scope = "admin:read";
  roles = admin ∷ risk_manager ∷ auditor ∷ support ∷ [];
}
authorization_policy admin_write = record { scope = "admin:*"; roles = admin ∷ risk_manager ∷ [] }
authorization_policy ledger_admin = record { scope = "admin:*"; roles = admin ∷ [] }

unfoldable pub has_role : Action → ApiKeyRole → Bool
unfolding authorization_policy includes role_text
has_role action role = includes (role_text role) (map role_text (authorization_policy action).roles)

unfoldable pub assert_authorized_action : ApiKeyPrincipal → Action → Result AuthError (Unit {0})
unfolding has_role assert_api_key_scope authorization_policy
assert_authorized_action principal action =
    if not (has_role action principal.role)
    then err role_forbidden
    else assert_api_key_scope principal (authorization_policy action).scope

unfoldable pub assert_admin_access : ApiKeyPrincipal → Result AuthError (Unit {0})
unfolding same_role
assert_admin_access principal =
    if not (same_role principal.role admin) then err admin_required else ok tt

unfoldable pub assert_administrative_access : ApiKeyPrincipal → Result AuthError (Unit {0})
unfolding same_role
assert_administrative_access principal =
    if same_role principal.role trader then err administrative_identity_required else ok tt

-- `UserRole` of identity/domain/identity.types.ts.
pub data UserRole : Type 0 where
  user : UserRole
  admin_user : UserRole
  support_user : UserRole
  risk_manager_user : UserRole
  auditor_user : UserRole

unfoldable pub mapped_role : UserRole → ApiKeyRole
mapped_role user = trader
mapped_role admin_user = admin
mapped_role support_user = support
mapped_role risk_manager_user = risk_manager
mapped_role auditor_user = auditor

-- `new Set(…)` of the mapped roles, in order of insertion.
unfoldable pub distinct_roles : List ApiKeyRole → List UserRole → List ApiKeyRole
unfolding includes role_text mapped_role
distinct_roles seen [] = seen
distinct_roles seen (role ∷ roles) =
    let mapped = mapped_role role in
    if includes (role_text mapped) (map role_text seen)
    then distinct_roles seen roles
    else distinct_roles (seen ++ mapped ∷ []) roles

abbrev pub only_role : List ApiKeyRole → Result AuthError ApiKeyRole
only_role (role ∷ []) = ok role
only_role _ = err role_unsupported

unfoldable pub map_human_role : List UserRole → Result AuthError ApiKeyRole
unfolding distinct_roles
map_human_role roles = only_role (distinct_roles [] roles)

-- The grant of an action to a role by the policy.
abbrev pub grant : Bool → Result AuthError (Unit {0})
grant true = ok tt
grant false = err role_forbidden

each_action :
    (P : Action → Type 0)
    → P trading_read
    → P trading_write
    → P admin_read
    → P admin_write
    → P ledger_admin
    → (action : Action) → P action
each_action P a b c d e trading_read = a
each_action P a b c d e trading_write = b
each_action P a b c d e admin_read = c
each_action P a b c d e admin_write = d
each_action P a b c d e ledger_admin = e

abbrev Suffices : String → String → ApiKeyRole → Action → Type 0
Suffices key_id user_id role action =
    let principal : ApiKeyPrincipal = record {
      key_id = key_id;
      role = role;
      user_id = user_id;
      scopes = some (default_scopes role);
    } in
    assert_authorized_action principal action ≡ grant (has_role action role)

scopes_suffice :
    (key_id user_id : String) (role : ApiKeyRole) (action : Action)
    → Suffices key_id user_id role action
unfolding assert_authorized_action default_scopes
scopes_suffice key_id user_id trader =
    each_action (Suffices key_id user_id trader) refl refl refl refl refl
scopes_suffice key_id user_id admin =
    each_action (Suffices key_id user_id admin) refl refl refl refl refl
scopes_suffice key_id user_id risk_manager =
    each_action (Suffices key_id user_id risk_manager) refl refl refl refl refl
scopes_suffice key_id user_id auditor =
    each_action (Suffices key_id user_id auditor) refl refl refl refl refl
scopes_suffice key_id user_id support =
    each_action (Suffices key_id user_id support) refl refl refl refl refl

-- A principal with the default scopes of its role is allowed exactly the actions whose policy lists the
-- role: the test of its scopes refuses none of them.
pub assert_authorized_action-default_scopes :
    (principal : ApiKeyPrincipal) (action : Action)
    → principal.scopes ≡ some (default_scopes principal.role)
    → assert_authorized_action principal action ≡ grant (has_role action principal.role)
unfolding assert_authorized_action default_scopes
assert_authorized_action-default_scopes principal action h =
    ap
      (λ (s : Option (List String)).
        assert_authorized_action (record principal { scopes = s }) action)
      h
    ∙ scopes_suffice principal.key_id principal.user_id principal.role action
