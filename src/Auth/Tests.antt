-- ===== src/Auth/Tests.antt =====
-- Runs and concrete instances for Auth. The digest of these tests marks the secret.
use exchanger.Prelude.{◌≡◌, ◌≢◌, refl, String, false, List, [], ◌∷◌, none, some, concat}
use exchanger.Prelude.Dict.{get, put}
use exchanger.Prelude.Exec.{ok, err}
use exchanger.Auth.Roles.{
  ApiKeyPrincipal, trader, auditor, invalid_api_key, role_forbidden, admin_read, trading_write,
  assert_authorized_action, grant, has_role, assert_authorized_action-default_scopes,
  map_human_role, user, auditor_user, role_unsupported,
}
use exchanger.Auth.Registry.{
  ApiKeyRegistry, ApiKeyCredential, IssueInput, authenticate, issue, rotate, revoke,
  is_principal_active, new_registry, fresh_metadata, withdrawn,
}
use exchanger.Auth.Calls.{Call, authenticates, issues, rotates, call_all}
use exchanger.Auth.Revocation.{revoke-authenticate, rotate-authenticate}

abbrev digest_of : String → String
digest_of secret = concat "#" secret

abbrev input : IssueInput
input = record {
  user_id = "u-1";
  role = trader;
  label = "bot";
  owner_type = none;
  scopes = none;
  expires_at = none;
}

abbrev trader_key : ApiKeyPrincipal
trader_key = record {
  key_id = "key-1";
  role = trader;
  user_id = "u-1";
  scopes = some ("trading:read" ∷ "trading:write" ∷ []);
}

abbrev issued : List Call
issued = issues input "key-1" "secret-1" 1000 ∷ authenticates (some "secret-1") 1500 ∷ []

abbrev later : List Call
later =
    issues input "key-2" "secret-2" 3000
    ∷ rotates "key-1" "secret-3" 3500
    ∷ authenticates (some "secret-2") 4000
    ∷ []

abbrev registry : ApiKeyRegistry
unfolding call_all
registry = call_all digest_of issued (new_registry digest_of [] 0)

accepted : (authenticate digest_of (some "secret-1") 2000 registry).0 ≡ ok trader_key
unfolding call_all authenticate get issue put new_registry exchanger.Auth.Roles.default_scopes
accepted = refl

abbrev credential : ApiKeyCredential
credential = record {
  digest = "#secret-1";
  metadata = record (fresh_metadata "key-1" input 1000) { last_used_at = some 1500 };
}

revoke-authenticate_example :
    let after = call_all digest_of later (revoke digest_of "key-1" 2000 registry).1 in
    ((authenticate digest_of (some "secret-1") 5000 after).0 ≢ ok trader_key)
    × (is_principal_active trader_key 5000 after ≡ false)
unfolding call_all revoke get authenticate issue put new_registry
revoke-authenticate_example =
    revoke-authenticate digest_of [] 0 issued later "key-1" 2000
      (withdrawn 2000 credential).metadata (some "secret-1") 5000 trader_key refl
      (refl, (tt, (tt, tt))) refl

rotate-authenticate_example :
    let after = call_all digest_of [] (rotate digest_of "key-1" "secret-4" 2000 registry).1 in
    authenticate digest_of (some "secret-1") 3000 after ≡ (err invalid_api_key, after)
unfolding call_all get authenticate issue put new_registry
rotate-authenticate_example =
    rotate-authenticate digest_of registry [] "key-1" "secret-4" "secret-1" 2000 3000 credential
      refl refl refl refl tt

assert_authorized_action-default_scopes_example :
    assert_authorized_action trader_key trading_write ≡ grant (has_role trading_write trader)
unfolding exchanger.Auth.Roles.default_scopes
assert_authorized_action-default_scopes_example =
    assert_authorized_action-default_scopes trader_key trading_write refl

reading_forbidden : assert_authorized_action trader_key admin_read ≡ err role_forbidden
unfolding assert_authorized_action
reading_forbidden = refl

ambiguous_roles : map_human_role (user ∷ auditor_user ∷ user ∷ []) ≡ err role_unsupported
unfolding map_human_role
ambiguous_roles = refl
