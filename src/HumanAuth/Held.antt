-- ===== src/HumanAuth/Held.antt =====
-- What `MemorySessionStore` (identity/infrastructure/memory-identity.stores.ts) keeps of the security
-- versions of its sessions, for `HumanAuthService` (auth/application/human-auth.service.ts).
use exchanger.Prelude.{
  ℕ, ◌≡◌, ◌≤◌, ◌<◌, ◌⊎◌, refl, inl, inr, String, Bool, false, ◌||◌, not, List, [], ◌∷◌, Option,
  some, arith, drop, ◌==◌, str_eq, Bool-cases, Option-cases,
}
use exchanger.Prelude.Dict.{get, values}
use exchanger.Prelude.Dict.Each.{All, Each, Each-get, Each-put, Each-map, Each-values}
use exchanger.Identity.Sessions.{
  SessionRecord, StoredSession, SessionStore, is_set, create, first_with, find_by_token_digest,
  touch, revoke, with_revocation, revoke_each, revoke_all, trim_to_limit, all_but, not_revoked,
  list_by_user,
}
use exchanger.Identity.Users.{UserStore}
use exchanger.HumanAuth.Versions.{version_of, Grows}

module _ (dead : String → Bool) where
  -- A session is kept under its id, its version is not after its user's, and before it if it is dead.
  abbrev pub IsHeldAs : UserStore → String → SessionRecord → Type 0
  IsHeldAs users k session =
      (session.session_id ≡ k)
      × (session.security_version ≤ version_of session.user_id users)
      × ((dead k ≡ false) ⊎ (session.security_version < version_of session.user_id users))

  abbrev pub IsHeld : UserStore → SessionStore → Type 0
  IsHeld users sessions = Each (λ k item. IsHeldAs users k item.session) sessions

  abbrev Entry : UserStore → String → StoredSession → Type 0
  Entry users k item = IsHeldAs users k item.session

  pub Grows-IsHeld :
      (before after : UserStore) (sessions : SessionStore)
      → Grows before after
      → IsHeld before sessions
      → IsHeld after sessions
  Grows-IsHeld before after sessions more h =
      Each-map (Entry before) (Entry after) sessions
        (λ k item e. (
          e.0,
          omega (arith, e.1, more item.session.user_id),
          elim e.2 [
            | inl alive ↦ inl alive
            | inr older ↦ inr (omega (arith, older, more item.session.user_id))
          ],
        ))
        h

  module _ (users : UserStore) where
    pub create-IsHeld :
        (digest : String) (session : SessionRecord) (sessions : SessionStore)
        → IsHeldAs users session.session_id session
        → IsHeld users sessions
        → IsHeld users (create digest session sessions)
    unfolding create
    create-IsHeld digest session sessions fits h =
        Each-put (Entry users) (Entry users) session.session_id _ sessions h fits (λ j w _ q. q)

    pub touch-IsHeld :
        (digest : String) (session : SessionRecord) (sessions : SessionStore)
        → IsHeldAs users session.session_id session
        → IsHeld users sessions
        → IsHeld users (touch digest session sessions).1
    unfolding touch
    touch-IsHeld digest session sessions fits h =
        elim (Option-cases (get session.session_id sessions)) [
          | inl missing ↦ rw (missing, touch) h
          | inr (current, found) ↦
              let created = create-IsHeld digest session sessions fits h in
              let stale =
                not (str_eq current.digest digest)
                || is_set current.session.revoked_at
                || not (current.session.security_version == session.security_version) in
              elim (Bool-cases stale) [
                | inl refused ↦ rw (found, refused, touch) h
                | inr fresh ↦ rw (found, fresh, touch) created
              ]
        ]

    pub revoke-IsHeld :
        (user_id session_id revoked_at : String) (sessions : SessionStore)
        → IsHeld users sessions
        → IsHeld users (revoke user_id session_id revoked_at sessions).1
    unfolding revoke
    revoke-IsHeld user_id session_id revoked_at sessions h =
        elim (Option-cases (get session_id sessions)) [
          | inl missing ↦ rw (missing, revoke) h
          | inr (item, found) ↦
              let fits = Each-get (Entry users) session_id item sessions h found in
              let written =
                Each-put (Entry users) (Entry users) session_id (with_revocation revoked_at item)
                  sessions h fits (λ j w _ q. q) in
              let refusal =
                not (str_eq item.session.user_id user_id) || is_set item.session.revoked_at in
              elim (Bool-cases refusal) [
                | inl refused ↦ rw (found, refused, revoke) h
                | inr allowed ↦ rw (found, allowed, revoke) written
              ]
        ]

    revoke_each-IsHeld :
        (user_id revoked_at : String) (list : List SessionRecord) (sessions : SessionStore)
        → IsHeld users sessions
        → IsHeld users (revoke_each user_id revoked_at list sessions).1
    unfolding revoke_each
    revoke_each-IsHeld user_id revoked_at [] sessions h = h
    revoke_each-IsHeld user_id revoked_at (session ∷ rest) sessions h =
        revoke_each-IsHeld user_id revoked_at rest
          (revoke user_id session.session_id revoked_at sessions).1
          (revoke-IsHeld user_id session.session_id revoked_at sessions h)

    pub revoke_all-IsHeld :
        (user_id revoked_at : String) (except : Option String) (sessions : SessionStore)
        → IsHeld users sessions
        → IsHeld users (revoke_all user_id revoked_at except sessions).1
    unfolding revoke_all
    revoke_all-IsHeld user_id revoked_at except sessions h =
        revoke_each-IsHeld user_id revoked_at (all_but except (list_by_user user_id sessions))
          sessions h

    pub trim_to_limit-IsHeld :
        (user_id : String) (maximum : ℕ) (revoked_at : String) (sessions : SessionStore)
        → IsHeld users sessions
        → IsHeld users (trim_to_limit user_id maximum revoked_at sessions).1
    unfolding trim_to_limit
    trim_to_limit-IsHeld user_id maximum revoked_at sessions h =
        revoke_each-IsHeld user_id revoked_at
          (drop maximum (not_revoked (list_by_user user_id sessions))) sessions h

    abbrev Kept : StoredSession → Type 0
    Kept item = IsHeldAs users item.session.session_id item.session

    first_with-Kept :
        (digest : String) (items : List StoredSession) (item : StoredSession)
        → All Kept items
        → first_with digest items ≡ some item
        → Kept item
    unfolding first_with
    first_with-Kept digest [] item h found = cc
    first_with-Kept digest (x ∷ items) item h found = elim (Bool-cases (str_eq x.digest digest)) [
      | inl here ↦ let e : x ≡ item = ground (arith, here, found) in rw (← e) h.0
      | inr other ↦ first_with-Kept digest items item h.1 (ground (arith, other, found))
    ]

    Entry-Kept : (k : String) (item : StoredSession) → Entry users k item → Kept item
    Entry-Kept k item e = (refl, e.1, rw e.0 e.2)

    -- The session that a digest finds is held.
    pub find_by_token_digest-IsHeldAs :
        (digest : String) (now : ℕ) (sessions : SessionStore) (session : SessionRecord)
        → IsHeld users sessions
        → find_by_token_digest digest now sessions ≡ some session
        → IsHeldAs users session.session_id session
    unfolding find_by_token_digest
    find_by_token_digest-IsHeldAs digest now sessions session h got =
        let kept =
          Each-values Kept sessions
            (Each-map (Entry users) (λ k item. Kept item) sessions Entry-Kept h) in
        elim (Option-cases (first_with digest (values sessions))) [
          | inl missing ↦ absurd (ground (arith, missing, got))
          | inr (item, found) ↦
              let e : item.session ≡ session = ground (arith, found, got) in
              rw (← e) (first_with-Kept digest (values sessions) item kept found)
        ]
