-- ===== src/Auth/Calls.antt =====
-- Sequences of calls of `ApiKeyRegistry` (auth/domain/authentication.ts), and what they keep.
use exchanger.Prelude.{
  ℕ, suc, ◌≡◌, refl, sym, subst, ◌∙◌, ◌⊎◌, inl, inr, String, true, false, ◌&&◌, not, List, [], ◌∷◌,
  Option, none, some, arith, str_eq, str_eq_iff, Bool-cases, Option-cases,
}
use exchanger.Prelude.Dict.{get, put, get-put}
use exchanger.Prelude.Dict.Each.{All}
use exchanger.Auth.Roles.{ApiKeyPrincipal}
use exchanger.Auth.Registry.{
  ApiKeyRegistry, ApiKeyCredential, IssueInput, KeyStatus, active, revoked, is_active, is_expired,
  when_text, find_credential, authenticate, issue, rotate, revoke, store_credential, used_at,
  configure, configured_metadata, new_registry, renewed, withdrawn, require_credential,
  store_digest, forget_digest,
}

pub data Call : Type 0 where
  authenticates : Option String → ℕ → Call
  issues : IssueInput → String → String → ℕ → Call
  rotates : String → String → ℕ → Call
  revokes : String → ℕ → Call

-- Every credential is kept under the id in its metadata.
abbrev pub IsNamed : ApiKeyRegistry → Type 0
IsNamed registry =
    (key_id : String) (credential : ApiKeyCredential)
    → get key_id registry.credentials ≡ some credential
    → credential.metadata.key_id ≡ key_id

-- The id that a call issues.
abbrev IssuedAs : String → Call → Type 0
IssuedAs key_id (issues input id api_key now) = id ≡ key_id
IssuedAs key_id _ = ⊥

abbrev pub IssuedElsewhere : String → Call → Type 0
IssuedElsewhere key_id (issues input id api_key now) = str_eq id key_id ≡ false
IssuedElsewhere key_id _ = Unit

abbrev WasActive : String → ApiKeyRegistry → Type 0
WasActive key_id registry =
    (old : ApiKeyCredential) × (get key_id registry.credentials ≡ some old)
    × (old.metadata.status ≡ active)

abbrev pub IsRevoked : String → ApiKeyRegistry → Type 0
IsRevoked key_id registry =
    (old : ApiKeyCredential) × (get key_id registry.credentials ≡ some old)
    × (old.metadata.status ≡ revoked)

issued_elsewhere :
    (k key_id : String) (c : Call)
    → IssuedAs key_id c
    → IssuedElsewhere k c
    → str_eq key_id k ≡ false
issued_elsewhere k key_id (authenticates value now) issued elsewhere = absurd issued
issued_elsewhere k key_id (issues input id api_key now) issued elsewhere = rw (← issued) elsewhere
issued_elsewhere k key_id (rotates id api_key now) issued elsewhere = absurd issued
issued_elsewhere k key_id (revokes id now) issued elsewhere = absurd issued

revoked_elsewhere :
    (k key_id : String) (registry : ApiKeyRegistry)
    → IsRevoked k registry
    → WasActive key_id registry
    → str_eq key_id k ≡ false
revoked_elsewhere k key_id registry (v, found, status) (old, at, was) =
    ground (arith, str_eq_iff key_id k, found, at, status, was)

when_text-some :
    {A : Type 0} (value : Option String) (f : String → Option A) (a : A)
    → when_text value f ≡ some a
    → (s : String) × (f s ≡ some a)
when_text-some none f a h = cc
when_text-some (some String.[]) f a h = cc
when_text-some (some (String.◌∷◌ c s)) f a h = (String.◌∷◌ c s, h)

module _ (digest_of : String → String) where
  unfoldable pub call : Call → ApiKeyRegistry → ApiKeyRegistry
  call (authenticates value now) registry = (authenticate digest_of value now registry).1
  call (issues input key_id api_key now) registry =
      (issue digest_of input key_id api_key now registry).1
  call (rotates key_id api_key now) registry = (rotate digest_of key_id api_key now registry).1
  call (revokes key_id now) registry = (revoke digest_of key_id now registry).1

  unfoldable pub call_all : List Call → ApiKeyRegistry → ApiKeyRegistry
  unfolding call
  call_all [] registry = registry
  call_all (c ∷ calls) registry = call_all calls (call c registry)

  -- The credential that a secret finds is one of the registry's.
  pub find_credential-get :
      (value : Option String) (registry : ApiKeyRegistry) (credential : ApiKeyCredential)
      → find_credential digest_of value registry ≡ some credential
      → (key_id : String) × (get key_id registry.credentials ≡ some credential)
  unfolding find_credential
  find_credential-get value registry credential h = when_text-some _ _ credential h

  -- What a call does to the credentials: nothing, or one write under the id in the metadata, of an
  -- issued key or of a key that was active.
  record Write (c : Call) (registry : ApiKeyRegistry) : Type 0 where
    key_id : String
    credential : ApiKeyCredential
    written : (call c registry).credentials ≡ put key_id credential registry.credentials
    named : credential.metadata.key_id ≡ key_id
    origin : IssuedAs key_id c ⊎ WasActive key_id registry

  abbrev Effect : Call → ApiKeyRegistry → Type 0
  Effect c registry = ((call c registry).credentials ≡ registry.credentials) ⊎ Write c registry

  is_active-active : (status : KeyStatus) → is_active status ≡ true → status ≡ active
  is_active-active active h = refl
  is_active-active revoked h = cc

  authenticate-Effect :
      (value : Option String) (now : ℕ) (registry : ApiKeyRegistry)
      → IsNamed registry
      → Effect (authenticates value now) registry
  unfolding call authenticate store_credential
  authenticate-Effect value now registry named =
      elim (Option-cases (find_credential digest_of value registry)) [
        | inl missing ↦ inl (rw (missing, call, authenticate) refl)
        | inr (credential, found) ↦
            let metadata = credential.metadata in
            let usable = is_active metadata.status && not (is_expired metadata.expires_at now) in
            let (key_id, place) = find_credential-get value registry credential found in
            elim (Bool-cases usable) [
              | inl usable_now ↦ inr (record {
                key_id = metadata.key_id;
                credential = used_at now credential;
                written = rw (found, usable_now, call, authenticate) refl;
                named = refl;
                origin = inr (
                  credential,
                  subst (λ k. get k registry.credentials ≡ some credential)
                      (sym (named key_id credential place)) place,
                  is_active-active metadata.status (ground (arith, usable_now)),
                );
              })
              | inr unusable ↦ inl (rw (found, unusable, call, authenticate) refl)
            ]
      ]

  rotate-Effect :
      (key_id api_key : String) (now : ℕ) (registry : ApiKeyRegistry)
      → IsNamed registry
      → Effect (rotates key_id api_key now) registry
  unfolding call rotate store_credential store_digest forget_digest require_credential
  rotate-Effect key_id api_key now registry named =
      elim (Option-cases (get key_id registry.credentials)) [
        | inl missing ↦ inl (rw (missing, call, rotate, require_credential) refl)
        | inr (credential, found) ↦ elim (Bool-cases (is_active credential.metadata.status)) [
          | inl usable_now ↦ inr (record {
            key_id = key_id;
            credential = renewed digest_of api_key now credential;
            written = rw (found, usable_now, call, rotate, require_credential) refl;
            named = named key_id credential found;
            origin =
                inr (credential, found, is_active-active credential.metadata.status usable_now);
          })
          | inr unusable ↦ inl (rw (found, unusable, call, rotate, require_credential) refl)
        ]
      ]

  revoke-Effect :
      (key_id : String) (now : ℕ) (registry : ApiKeyRegistry)
      → IsNamed registry
      → Effect (revokes key_id now) registry
  unfolding call revoke store_credential forget_digest require_credential
  revoke-Effect key_id now registry named = elim (Option-cases (get key_id registry.credentials)) [
    | inl missing ↦ inl (rw (missing, call, revoke, require_credential) refl)
    | inr (credential, found) ↦ elim (Bool-cases (is_active credential.metadata.status)) [
      | inl usable_now ↦ inr (record {
        key_id = key_id;
        credential = withdrawn now credential;
        written = rw (found, usable_now, call, revoke, require_credential) refl;
        named = named key_id credential found;
        origin = inr (credential, found, is_active-active credential.metadata.status usable_now);
      })
      | inr unusable ↦ inl (rw (found, unusable, call, revoke, require_credential) refl)
    ]
  ]

  call-Effect : (c : Call) (registry : ApiKeyRegistry) → IsNamed registry → Effect c registry
  unfolding call issue store_credential store_digest
  call-Effect (authenticates value now) registry named =
      authenticate-Effect value now registry named
  call-Effect (issues input key_id api_key now) registry named =
      inr (record {
        key_id = key_id;
        credential = _;
        written = refl;
        named = refl;
        origin = inl refl;
      })
  call-Effect (rotates key_id api_key now) registry named =
      rotate-Effect key_id api_key now registry named
  call-Effect (revokes key_id now) registry named = revoke-Effect key_id now registry named

  pub call-IsNamed :
      (c : Call) (registry : ApiKeyRegistry) → IsNamed registry → IsNamed (call c registry)
  call-IsNamed c registry named = elim (call-Effect c registry named) [
    | inl same ↦ λ k v found. named k v (rw (← same) found)
    | inr w ↦ λ k v found.
        let place = get-put w.key_id k w.credential registry.credentials in
        let name = w.named in
        let old = named k v in
        let at : get k (put w.key_id w.credential registry.credentials) ≡ some v =
          rw (← w.written) found in
        ground (arith, place, name, old, at, str_eq_iff w.key_id k)
  ]

  -- A key that is revoked stays revoked, unless its id is issued again.
  pub call-IsRevoked :
      (k : String) (c : Call) (registry : ApiKeyRegistry)
      → IsNamed registry
      → IssuedElsewhere k c
      → IsRevoked k registry
      → IsRevoked k (call c registry)
  call-IsRevoked k c registry named elsewhere (v, found, status) =
      elim (call-Effect c registry named) [
        | inl same ↦ (v, rw same found, status)
        | inr w ↦
            let other : str_eq w.key_id k ≡ false = elim w.origin [
              | inl issued ↦ issued_elsewhere k w.key_id c issued elsewhere
              | inr (old, at, was) ↦
                  revoked_elsewhere k w.key_id registry (v, found, status) (old, at, was)
            ] in
            (
              v,
              rw w.written
                  (get-put w.key_id k w.credential registry.credentials ∙ (rw other found)),
              status,
            )
      ]

  pub call_all-IsRevoked :
      (k : String) (calls : List Call) (registry : ApiKeyRegistry)
      → IsNamed registry
      → All (IssuedElsewhere k) calls
      → IsRevoked k registry
      → IsNamed (call_all calls registry) × IsRevoked k (call_all calls registry)
  unfolding call_all
  call_all-IsRevoked k [] registry named elsewhere was = (named, was)
  call_all-IsRevoked k (c ∷ calls) registry named elsewhere was =
      call_all-IsRevoked k calls (call c registry) (call-IsNamed c registry named) elsewhere.1
        (call-IsRevoked k c registry named elsewhere.0 was)

  pub call_all-IsNamed :
      (calls : List Call) (registry : ApiKeyRegistry)
      → IsNamed registry
      → IsNamed (call_all calls registry)
  unfolding call_all
  call_all-IsNamed [] registry named = named
  call_all-IsNamed (c ∷ calls) registry named =
      call_all-IsNamed calls (call c registry) (call-IsNamed c registry named)

  configure-IsNamed :
      (index : ℕ) (entries : List ApiKeyPrincipal) (now : ℕ) (registry : ApiKeyRegistry)
      → IsNamed registry
      → IsNamed (configure digest_of index entries now registry)
  unfolding configure store_credential store_digest
  configure-IsNamed index [] now registry named = named
  configure-IsNamed index (entry ∷ entries) now registry named =
      let metadata = configured_metadata digest_of index entry now in
      let credential : ApiKeyCredential = record {
        digest = digest_of entry.key_id;
        metadata = metadata;
      } in
      configure-IsNamed (suc index) entries now _ (λ k v found.
        let place = get-put metadata.key_id k credential registry.credentials in
        let old = named k v in ground (arith, place, old, found, str_eq_iff metadata.key_id k))

  pub new_registry-IsNamed :
      (entries : List ApiKeyPrincipal) (now : ℕ) → IsNamed (new_registry digest_of entries now)
  unfolding new_registry get
  new_registry-IsNamed entries now = configure-IsNamed 0 entries now _ (λ k v found. cc)
