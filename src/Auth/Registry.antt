-- ===== src/Auth/Registry.antt =====
-- `ApiKeyRegistry` of auth/domain/authentication.ts. SHA-256 is a parameter; the random ids and secrets,
-- and the time, are arguments of the methods. A date is its milliseconds, and `none` where the text of
-- a date is none (`Date.parse` gives NaN, which no comparison accepts).
use exchanger.Prelude.{
  ℕ, suc, ◌+◌, ◌*◌, String, Bool, true, false, ◌&&◌, not, List, [], ◌∷◌, Option, none, some, concat,
  show, ltb, leb, str_eq, if◌then◌else◌,
}
use exchanger.Prelude.Dict.{Dict, get, put, remove}
use exchanger.Prelude.Exec.{ok, err, Exec, pure, raise, ◌>>=◌, ◌>>◌, modify}
use exchanger.Auth.Roles.{
  ApiKeyRole, ApiKeyPrincipal, AuthError, invalid_api_key, api_key_revoked, api_key_not_found,
  same_role, default_scopes,
}

pub data OwnerType : Type 0 where
  user_owner : OwnerType
  service_owner : OwnerType
  system_owner : OwnerType

pub data KeyStatus : Type 0 where
  active : KeyStatus
  revoked : KeyStatus

pub record ApiKeyMetadata : Type 0 where
  pub key_id : String
  pub user_id : String
  pub role : ApiKeyRole
  pub label : String
  pub owner_type : OwnerType
  pub scopes : List String
  pub expires_at : Option ℕ
  pub status : KeyStatus
  pub created_at : ℕ
  pub rotated_at : Option ℕ
  pub revoked_at : Option ℕ
  pub last_used_at : Option ℕ

pub record IssuedApiKey : Type 0 where
  pub api_key : String
  pub metadata : ApiKeyMetadata

pub record ApiKeyCredential : Type 0 where
  pub digest : String
  pub metadata : ApiKeyMetadata

pub record ApiKeyRegistry : Type 0 where
  pub key_id_by_digest : Dict String
  pub credentials : Dict ApiKeyCredential

pub record IssueInput : Type 0 where
  pub user_id : String
  pub role : ApiKeyRole
  pub label : String
  pub owner_type : Option OwnerType
  pub scopes : Option (List String)
  pub expires_at : Option (Option ℕ)

-- `now.getTime() + 90 * 24 * 60 * 60 * 1000`
abbrev pub in_ninety_days : ℕ → ℕ
in_ninety_days now = now + 90 * 24 * 60 * 60 * 1000

abbrev pub or_default : {A : Type 0} → Option A → A → A
or_default none default = default
or_default (some value) default = value

abbrev pub is_active : KeyStatus → Bool
is_active active = true
is_active revoked = false

-- `Date.parse(expiresAt) <= Date.now()`
abbrev pub is_expired : Option ℕ → ℕ → Bool
is_expired none now = false
is_expired (some date) now = leb date now

-- `Date.parse(expiresAt) > Date.now()`
abbrev pub expires_later : Option ℕ → ℕ → Bool
expires_later none now = false
expires_later (some date) now = ltb now date

-- `value ? f(value) : undefined`
abbrev pub when_text : {A : Type 0} → Option String → (String → Option A) → Option A
when_text none f = none
when_text (some String.[]) f = none
when_text (some (String.◌∷◌ c s)) f = f (String.◌∷◌ c s)

unfoldable pub store_credential : String → ApiKeyCredential → ApiKeyRegistry → ApiKeyRegistry
store_credential key_id credential registry = record registry {
  credentials = put key_id credential registry.credentials;
}

unfoldable pub store_digest : String → String → ApiKeyRegistry → ApiKeyRegistry
store_digest digest key_id registry = record registry {
  key_id_by_digest = put digest key_id registry.key_id_by_digest;
}

unfoldable pub forget_digest : String → ApiKeyRegistry → ApiKeyRegistry
forget_digest digest registry = record registry {
  key_id_by_digest = remove digest registry.key_id_by_digest;
}

unfoldable pub require_credential : String → Exec AuthError ApiKeyRegistry ApiKeyCredential
require_credential key_id registry = elim (get key_id registry.credentials) [
  | none ↦ (err api_key_not_found, registry)
  | some credential ↦ (ok credential, registry)
]

unfoldable pub is_principal_active : ApiKeyPrincipal → ℕ → ApiKeyRegistry → Bool
is_principal_active principal now registry = elim (get principal.key_id registry.credentials) [
  | none ↦ false
  | some credential ↦
      is_active credential.metadata.status
      && expires_later credential.metadata.expires_at now
      && str_eq credential.metadata.user_id principal.user_id
      && same_role credential.metadata.role principal.role
]

unfoldable pub principal_of : ApiKeyMetadata → ApiKeyPrincipal
principal_of metadata = record {
  key_id = metadata.key_id;
  role = metadata.role;
  user_id = metadata.user_id;
  scopes = some metadata.scopes;
}

abbrev pub fresh_metadata : String → IssueInput → ℕ → ApiKeyMetadata
fresh_metadata key_id input now = record {
  key_id = key_id;
  user_id = input.user_id;
  role = input.role;
  label = input.label;
  owner_type = or_default input.owner_type user_owner;
  scopes = or_default input.scopes (default_scopes input.role);
  expires_at = or_default input.expires_at (some (in_ninety_days now));
  status = active;
  created_at = now;
  rotated_at = none;
  revoked_at = none;
  last_used_at = none;
}

-- The credential after a use, and after a withdrawal.
abbrev pub used_at : ℕ → ApiKeyCredential → ApiKeyCredential
used_at now credential = record credential {
  metadata = record credential.metadata { last_used_at = some now };
}

abbrev pub withdrawn : ℕ → ApiKeyCredential → ApiKeyCredential
withdrawn now credential = record credential {
  metadata = record credential.metadata { status = revoked; revoked_at = some now };
}

module _ (digest_of : String → String) where
  -- The credential that `authenticate` finds.
  unfoldable pub find_credential : Option String → ApiKeyRegistry → Option ApiKeyCredential
  find_credential value registry =
      when_text
        (when_text (when_text value (λ v. some (digest_of v)))
          (λ digest. get digest registry.key_id_by_digest))
        (λ key_id. get key_id registry.credentials)

  abbrev pub accept : ℕ → ApiKeyCredential → Exec AuthError ApiKeyRegistry ApiKeyPrincipal
  accept now credential = do
    modify (store_credential credential.metadata.key_id (used_at now credential))
    pure (principal_of credential.metadata)

  unfoldable pub authenticate : Option String → ℕ → Exec AuthError ApiKeyRegistry ApiKeyPrincipal
  unfolding find_credential store_credential principal_of
  authenticate value now registry = elim (find_credential value registry) [
    | none ↦ (err invalid_api_key, registry)
    | some credential ↦
        if is_active credential.metadata.status
          && not (is_expired credential.metadata.expires_at now)
        then accept now credential registry
        else (err invalid_api_key, registry)
  ]

  unfoldable pub issue :
      IssueInput → String → String → ℕ → Exec AuthError ApiKeyRegistry IssuedApiKey
  unfolding store_credential store_digest
  issue input key_id api_key now = do
    let metadata = fresh_metadata key_id input now
    modify (store_credential key_id (record { digest = digest_of api_key; metadata = metadata }))
    modify (store_digest (digest_of api_key) key_id)
    pure (record { api_key = api_key; metadata = metadata })

  abbrev pub renewed : String → ℕ → ApiKeyCredential → ApiKeyCredential
  renewed api_key now credential = record {
    digest = digest_of api_key;
    metadata = record credential.metadata {
      rotated_at = some now;
      expires_at = some (in_ninety_days now);
      last_used_at = none;
    };
  }

  -- What `rotate` does with the active credential of the key.
  abbrev pub replace_secret :
      String → String → ℕ → ApiKeyCredential → Exec AuthError ApiKeyRegistry IssuedApiKey
  replace_secret key_id api_key now credential = do
    let renewal = renewed api_key now credential
    modify (forget_digest credential.digest)
    modify (store_digest (digest_of api_key) key_id)
    modify (store_credential key_id renewal)
    pure (record { api_key = api_key; metadata = renewal.metadata })

  unfoldable pub rotate : String → String → ℕ → Exec AuthError ApiKeyRegistry IssuedApiKey
  unfolding require_credential store_credential store_digest forget_digest
  rotate key_id api_key now = do
    credential ← require_credential key_id
    if is_active credential.metadata.status
        then replace_secret key_id api_key now credential
        else raise api_key_revoked

  abbrev pub withdraw : String → ℕ → ApiKeyCredential → Exec AuthError ApiKeyRegistry ApiKeyMetadata
  withdraw key_id now credential = do
    modify (forget_digest credential.digest)
    modify (store_credential key_id (withdrawn now credential))
    pure (withdrawn now credential).metadata

  unfoldable pub revoke : String → ℕ → Exec AuthError ApiKeyRegistry ApiKeyMetadata
  unfolding require_credential store_credential forget_digest
  revoke key_id now = do
    credential ← require_credential key_id
    if is_active credential.metadata.status
        then withdraw key_id now credential
        else pure credential.metadata

  abbrev pub configured_metadata : ℕ → ApiKeyPrincipal → ℕ → ApiKeyMetadata
  configured_metadata index entry now =
      let key_id = concat "configured-" (show (index + 1)) in
      record {
        key_id = key_id;
        user_id = entry.user_id;
        role = entry.role;
        label = key_id;
        owner_type = system_owner;
        scopes = or_default entry.scopes (default_scopes entry.role);
        expires_at = some (in_ninety_days now);
        status = active;
        created_at = now;
        rotated_at = none;
        revoked_at = none;
        last_used_at = none;
      }

  -- The loop of the constructor, from an index on. The `keyId` of an entry is its secret.
  unfoldable pub configure : ℕ → List ApiKeyPrincipal → ℕ → ApiKeyRegistry → ApiKeyRegistry
  unfolding store_credential store_digest
  configure index [] now registry = registry
  configure index (entry ∷ entries) now registry =
      let metadata = configured_metadata index entry now in
      let digest = digest_of entry.key_id in
      configure (suc index) entries now (
        store_digest digest metadata.key_id (
          store_credential metadata.key_id (record { digest = digest; metadata = metadata })
            registry))

  unfoldable pub new_registry : List ApiKeyPrincipal → ℕ → ApiKeyRegistry
  unfolding configure
  new_registry entries now =
      configure 0 entries now (record { key_id_by_digest = []; credentials = [] })
