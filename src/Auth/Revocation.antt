-- ===== src/Auth/Revocation.antt =====
-- Keys of `ApiKeyRegistry` (auth/domain/authentication.ts) that are revoked or rotated.
use exchanger.Prelude.{
  ℕ, ◌≡◌, ◌≢◌, refl, ap, inl, inr, String, true, false, ◌&&◌, not, List, [], ◌∷◌, Option, none,
  some, arith, str_eq, str_eq_iff, Bool-cases, Option-cases,
}
use exchanger.Prelude.Dict.{get, remove, get-put, get-remove}
use exchanger.Prelude.Dict.Each.{All}
use exchanger.Prelude.Exec.{ok, err}
use exchanger.Auth.Roles.{ApiKeyPrincipal, invalid_api_key}
use exchanger.Auth.Registry.{
  ApiKeyRegistry, ApiKeyCredential, ApiKeyMetadata, active, is_active, is_expired, when_text,
  find_credential, authenticate, issue, rotate, revoke, store_credential, withdrawn,
  require_credential, store_digest, forget_digest, principal_of, is_principal_active, new_registry,
}
use exchanger.Auth.Calls.{
  Call, authenticates, issues, rotates, revokes, IsNamed, IssuedElsewhere, IsRevoked, call,
  call_all, find_credential-get, call-IsNamed, call_all-IsNamed, new_registry-IsNamed,
  call_all-IsRevoked,
}

-- The secret of a call that makes one does not have this digest.
abbrev pub MakesOther : (String → String) → String → Call → Type 0
MakesOther digest_of digest (issues input key_id api_key now) =
    str_eq (digest_of api_key) digest ≡ false
MakesOther digest_of digest (rotates key_id api_key now) = str_eq (digest_of api_key) digest ≡ false
MakesOther digest_of digest _ = Unit

module _ (digest_of : String → String) where
  -- What a successful authentication says.
  authenticate-found :
      (value : Option String) (now : ℕ) (registry : ApiKeyRegistry) (principal : ApiKeyPrincipal)
      → (authenticate digest_of value now registry).0 ≡ ok principal
      → (credential : ApiKeyCredential) × (find_credential digest_of value registry
          ≡ some credential)
        × (is_active credential.metadata.status ≡ true)
        × (principal.key_id ≡ credential.metadata.key_id)
  unfolding authenticate principal_of
  authenticate-found value now registry principal h =
      elim (Option-cases (find_credential digest_of value registry)) [
        | inl missing ↦ absurd (ground (arith, missing, h))
        | inr (credential, found) ↦
            elim (Bool-cases (
              is_active credential.metadata.status
              && not (is_expired credential.metadata.expires_at now))) [
                | inl usable_now ↦ (
                  credential,
                  found,
                  ground (arith, usable_now),
                  ground (arith, h, found, usable_now),
                )
                | inr unusable ↦ absurd (ground (arith, found, unusable, h))
              ]
      ]

  -- `revoke` leaves the key revoked, if it answers.
  revoke-IsRevoked :
      (k : String) (now : ℕ) (registry : ApiKeyRegistry) (metadata : ApiKeyMetadata)
      → (revoke digest_of k now registry).0 ≡ ok metadata
      → IsRevoked k (revoke digest_of k now registry).1
  unfolding revoke require_credential store_credential
  revoke-IsRevoked k now registry metadata h = elim (Option-cases (get k registry.credentials)) [
    | inl missing ↦ absurd (ground (arith, missing, h))
    | inr (credential, found) ↦ elim (Bool-cases (is_active credential.metadata.status)) [
      | inl usable_now ↦ (
        withdrawn now credential,
        rw (found, usable_now, revoke, require_credential)
            (ground
              (arith, get-put k k (withdrawn now credential) registry.credentials, str_eq_iff k k)),
        refl,
      )
      | inr unusable ↦ (
        credential,
        rw (found, unusable, revoke, require_credential) found,
        ground (arith, unusable),
      )
    ]
  ]

  never :
      (k : String) (registry : ApiKeyRegistry) (value : Option String) (now : ℕ)
      (principal : ApiKeyPrincipal)
      → IsNamed registry
      → IsRevoked k registry
      → (authenticate digest_of value now registry).0 ≡ ok principal
      → str_eq principal.key_id k ≡ false
  never k registry value now principal named (v, at, status) h =
      let (credential, found, usable_now, id) = authenticate-found value now registry principal h in
      let (key_id, place) = find_credential-get digest_of value registry credential found in
      ground (
        arith,
        usable_now,
        id,
        named key_id credential place,
        place,
        at,
        status,
        str_eq_iff principal.key_id k,
      )

  rotate-digest :
      (k api_key : String) (now : ℕ) (registry : ApiKeyRegistry) (credential : ApiKeyCredential)
      → get k registry.credentials ≡ some credential
      → credential.metadata.status ≡ active
      → str_eq (digest_of api_key) credential.digest ≡ false
      → get credential.digest (rotate digest_of k api_key now registry).1.key_id_by_digest ≡ none
  unfolding rotate require_credential store_credential store_digest forget_digest
  rotate-digest k api_key now registry credential found status other = ground (
    arith,
    found,
    status,
    other,
    get-put (digest_of api_key) credential.digest k
        (remove credential.digest registry.key_id_by_digest),
    get-remove credential.digest credential.digest registry.key_id_by_digest,
    str_eq_iff credential.digest credential.digest,
  )

  call-forgotten :
      (digest : String) (c : Call) (registry : ApiKeyRegistry)
      → MakesOther digest_of digest c
      → get digest registry.key_id_by_digest ≡ none
      → get digest (call digest_of c registry).key_id_by_digest ≡ none
  unfolding call authenticate issue rotate revoke require_credential store_credential store_digest
      forget_digest
  call-forgotten digest (authenticates value now) registry other h = ground (arith, h)
  call-forgotten digest (issues input key_id api_key now) registry other h =
      ground (arith, h, other, get-put (digest_of api_key) digest key_id registry.key_id_by_digest)
  call-forgotten digest (rotates key_id api_key now) registry other h =
      elim (Option-cases (get key_id registry.credentials)) [
        | inl missing ↦ ground (arith, missing, h)
        | inr (credential, found) ↦ ground (
          arith,
          found,
          h,
          other,
          get-put (digest_of api_key) digest key_id
              (remove credential.digest registry.key_id_by_digest),
          get-remove credential.digest digest registry.key_id_by_digest,
        )
      ]
  call-forgotten digest (revokes key_id now) registry other h =
      elim (Option-cases (get key_id registry.credentials)) [
        | inl missing ↦ ground (arith, missing, h)
        | inr (credential, found) ↦
            ground (arith, found, h, get-remove credential.digest digest registry.key_id_by_digest)
      ]

  call_all-forgotten :
      (digest : String) (calls : List Call) (registry : ApiKeyRegistry)
      → All (MakesOther digest_of digest) calls
      → get digest registry.key_id_by_digest ≡ none
      → get digest (call_all digest_of calls registry).key_id_by_digest ≡ none
  unfolding call_all
  call_all-forgotten digest [] registry other h = h
  call_all-forgotten digest (c ∷ calls) registry other h =
      call_all-forgotten digest calls (call digest_of c registry) other.1
        (call-forgotten digest c registry other.0 h)

  when_text-missing :
      {A : Type 0} (s : String) (f : String → Option A) → f s ≡ none → when_text (some s) f ≡ none
  when_text-missing String.[] f h = refl
  when_text-missing (String.◌∷◌ c s) f h = h

  find_credential-missing :
      (secret : String) (registry : ApiKeyRegistry)
      → get (digest_of secret) registry.key_id_by_digest ≡ none
      → find_credential digest_of (some secret) registry ≡ none
  unfolding find_credential
  find_credential-missing String.[] registry h = refl
  find_credential-missing (String.◌∷◌ c s) registry h =
      let secret = String.◌∷◌ c s in
      ap (λ (o : Option String). when_text o (λ k. get k registry.credentials))
        (when_text-missing (digest_of secret) (λ d. get d registry.key_id_by_digest) h)

  missing_digest :
      (secret : String) (now : ℕ) (registry : ApiKeyRegistry)
      → get (digest_of secret) registry.key_id_by_digest ≡ none
      → authenticate digest_of (some secret) now registry ≡ (err invalid_api_key, registry)
  unfolding authenticate
  missing_digest secret now registry h =
      rw (find_credential-missing secret registry h, authenticate) refl

-- In any history of a registry: once `revoke` has answered for a key, no secret ever gives a principal
-- of that key again, and a principal of that key that was given before is no longer active; unless the
-- id of the key is issued again.
pub revoke-authenticate :
    (digest_of : String → String) (entries : List ApiKeyPrincipal) (start : ℕ)
    (before later : List Call) (k : String) (revoked_at : ℕ) (metadata : ApiKeyMetadata)
    (value : Option String) (now : ℕ) (principal : ApiKeyPrincipal)
    → let registry = call_all digest_of before (new_registry digest_of entries start) in
      let after = call_all digest_of later (revoke digest_of k revoked_at registry).1 in
      (revoke digest_of k revoked_at registry).0 ≡ ok metadata
      → All (IssuedElsewhere k) later
      → principal.key_id ≡ k
      → ((authenticate digest_of value now after).0 ≢ ok principal)
        × (is_principal_active principal now after ≡ false)
unfolding is_principal_active call
revoke-authenticate digest_of entries start before later k revoked_at metadata value now principal h
      others id =
    let registry = call_all digest_of before (new_registry digest_of entries start) in
    let named =
      call_all-IsNamed digest_of before _ (new_registry-IsNamed digest_of entries start) in
    let named' = call-IsNamed digest_of (revokes k revoked_at) registry named in
    let was = revoke-IsRevoked digest_of k revoked_at registry metadata h in
    let revoking = (revoke digest_of k revoked_at registry).1 in
    let (named'', still) = call_all-IsRevoked digest_of k later revoking named' others was in
    let (v, found, status) = still in
    (
      λ got. absurd (
          ground (
            arith,
            never digest_of k _ value now principal named'' still got,
            str_eq_iff principal.key_id k,
            id,
          )),
      ground (arith, id, found, status),
    )

-- Once a key has been rotated, its former secret is refused, and changes nothing, whatever calls come
-- between; unless a later secret has the digest of the former one.
pub rotate-authenticate :
    (digest_of : String → String) (registry : ApiKeyRegistry) (later : List Call)
    (k api_key secret : String) (rotated_at now : ℕ) (credential : ApiKeyCredential)
    → let after = call_all digest_of later (rotate digest_of k api_key rotated_at registry).1 in
      get k registry.credentials ≡ some credential
      → credential.metadata.status ≡ active
      → digest_of secret ≡ credential.digest
      → str_eq (digest_of api_key) credential.digest ≡ false
      → All (MakesOther digest_of credential.digest) later
      → authenticate digest_of (some secret) now after ≡ (err invalid_api_key, after)
rotate-authenticate digest_of registry later k api_key secret rotated_at now credential found status
      same other others =
    missing_digest digest_of secret now _ (
      rw same (
        call_all-forgotten digest_of credential.digest later _ others
          (rotate-digest digest_of k api_key rotated_at registry credential found status other)))
