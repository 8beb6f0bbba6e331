-- ===== src/Identity/Revoked.antt =====
-- Sequences of calls of `MemorySessionStore` (identity/infrastructure/memory-identity.stores.ts), and
-- sessions that are revoked.
use exchanger.Prelude.{
  ℕ, ◌≡◌, ◌≢◌, refl, ◌⊎◌, inl, inr, String, Bool, true, false, ◌||◌, not, List, [], ◌∷◌, Option,
  some, arith, ◌==◌, str_eq, str_eq_iff, Bool-cases, Option-cases, drop,
}
use exchanger.Prelude.Dict.{get, values}
use exchanger.Prelude.Dict.Each.{All, Each, Each-get, Each-put, Each-map, Each-values}
use exchanger.Identity.Sessions.{
  SessionRecord, StoredSession, SessionStore, is_set, create, first_with, find_by_token_digest,
  touch, revoke, with_revocation, revoke_each, revoke_all, trim_to_limit, all_but, not_revoked,
  list_by_user,
}

pub data Call : Type 0 where
  creates : String → SessionRecord → Call
  touches : String → SessionRecord → Call
  revokes : String → String → String → Call
  revokes_all : String → String → Option String → Call
  trims : String → ℕ → String → Call

unfoldable pub call : Call → SessionStore → SessionStore
call (creates digest session) sessions = create digest session sessions
call (touches digest session) sessions = (touch digest session sessions).1
call (revokes user_id session_id revoked_at) sessions =
    (revoke user_id session_id revoked_at sessions).1
call (revokes_all user_id revoked_at except) sessions =
    (revoke_all user_id revoked_at except sessions).1
call (trims user_id maximum revoked_at) sessions =
    (trim_to_limit user_id maximum revoked_at sessions).1

unfoldable pub call_all : List Call → SessionStore → SessionStore
unfolding call
call_all [] sessions = sessions
call_all (c ∷ calls) sessions = call_all calls (call c sessions)

-- Of the ids that are dead.
module _ (dead : String → Bool) where
  abbrev Inert : String → StoredSession → Type 0
  Inert k item =
      (item.session.session_id ≡ k) × ((dead k ≡ false) ⊎ (is_set item.session.revoked_at ≡ true))

  abbrev pub CreatesOther : Call → Type 0
  CreatesOther (creates digest session) = dead session.session_id ≡ false
  CreatesOther _ = Unit

  create-Inert :
      (digest : String) (session : SessionRecord) (sessions : SessionStore)
      → dead session.session_id ≡ false
      → Each Inert sessions
      → Each Inert (create digest session sessions)
  unfolding create
  create-Inert digest session sessions other h =
      Each-put Inert Inert session.session_id _ sessions h (refl, inl other) (λ j w _ q. q)

  touch-Inert :
      (digest : String) (session : SessionRecord) (sessions : SessionStore)
      → Each Inert sessions
      → Each Inert (touch digest session sessions).1
  unfolding touch
  touch-Inert digest session sessions h = elim (Option-cases (get session.session_id sessions)) [
    | inl missing ↦ rw (missing, touch) h
    | inr (current, found) ↦ elim (Each-get Inert session.session_id current sessions h found).1 [
      | inr revoked ↦
          let stale : (touch digest session sessions).1 ≡ sessions =
            ground (arith, found, revoked) in
          rw stale h
      | inl other ↦
          let created = create-Inert digest session sessions other h in
          let stale =
            not (str_eq current.digest digest)
            || is_set current.session.revoked_at
            || not (current.session.security_version == session.security_version) in
          elim (Bool-cases stale) [
            | inl refused ↦ rw (found, refused, touch) h
            | inr fresh ↦ rw (found, fresh, touch) created
          ]
    ]
  ]

  revoke-Inert :
      (user_id session_id revoked_at : String) (sessions : SessionStore)
      → Each Inert sessions
      → Each Inert (revoke user_id session_id revoked_at sessions).1
  unfolding revoke
  revoke-Inert user_id session_id revoked_at sessions h =
      elim (Option-cases (get session_id sessions)) [
        | inl missing ↦ rw (missing, revoke) h
        | inr (item, found) ↦
            let (name, state) = Each-get Inert session_id item sessions h found in
            elim state [
              | inr revoked ↦
                  let same : (revoke user_id session_id revoked_at sessions).1 ≡ sessions =
                    ground (arith, found, revoked) in
                  rw same h
              | inl other ↦
                  let written =
                    Each-put Inert Inert session_id (with_revocation revoked_at item) sessions h
                      (name, inl other) (λ j w _ q. q) in
                  let refusal =
                    not (str_eq item.session.user_id user_id) || is_set item.session.revoked_at in
                  elim (Bool-cases refusal) [
                    | inl refused ↦ rw (found, refused, revoke) h
                    | inr allowed ↦ rw (found, allowed, revoke) written
                  ]
            ]
      ]

  revoke_each-Inert :
      (user_id revoked_at : String) (list : List SessionRecord) (sessions : SessionStore)
      → Each Inert sessions
      → Each Inert (revoke_each user_id revoked_at list sessions).1
  unfolding revoke_each
  revoke_each-Inert user_id revoked_at [] sessions h = h
  revoke_each-Inert user_id revoked_at (session ∷ rest) sessions h =
      revoke_each-Inert user_id revoked_at rest _
        (revoke-Inert user_id session.session_id revoked_at sessions h)

  call-Inert :
      (c : Call) (sessions : SessionStore)
      → CreatesOther c
      → Each Inert sessions
      → Each Inert (call c sessions)
  unfolding call revoke_all trim_to_limit
  call-Inert (creates digest session) sessions other h =
      create-Inert digest session sessions other h
  call-Inert (touches digest session) sessions other h = touch-Inert digest session sessions h
  call-Inert (revokes user_id session_id revoked_at) sessions other h =
      revoke-Inert user_id session_id revoked_at sessions h
  call-Inert (revokes_all user_id revoked_at except) sessions other h =
      revoke_each-Inert user_id revoked_at (all_but except (list_by_user user_id sessions)) sessions
        h
  call-Inert (trims user_id maximum revoked_at) sessions other h =
      revoke_each-Inert user_id revoked_at
        (drop maximum (not_revoked (list_by_user user_id sessions))) sessions h

  call_all-Inert :
      (calls : List Call) (sessions : SessionStore)
      → All CreatesOther calls
      → Each Inert sessions
      → Each Inert (call_all calls sessions)
  unfolding call_all
  call_all-Inert [] sessions other h = h
  call_all-Inert (c ∷ calls) sessions other h =
      call_all-Inert calls (call c sessions) other.1 (call-Inert c sessions other.0 h)

-- Every session is kept under its id.
abbrev pub nothing_dead : String → Bool
nothing_dead k = false

any-CreatesOther : (calls : List Call) → All (CreatesOther nothing_dead) calls
any-CreatesOther [] = tt
any-CreatesOther (creates digest session ∷ calls) = (refl, any-CreatesOther calls)
any-CreatesOther (touches digest session ∷ calls) = (tt, any-CreatesOther calls)
any-CreatesOther (revokes user_id session_id revoked_at ∷ calls) = (tt, any-CreatesOther calls)
any-CreatesOther (revokes_all user_id revoked_at except ∷ calls) = (tt, any-CreatesOther calls)
any-CreatesOther (trims user_id maximum revoked_at ∷ calls) = (tt, any-CreatesOther calls)

pub call_all-Named : (calls : List Call) → Each (Inert nothing_dead) (call_all calls [])
call_all-Named calls = call_all-Inert nothing_dead calls [] (any-CreatesOther calls) tt

abbrev pub same : String → String → Bool
same id k = str_eq k id

revoke-kills :
    (user_id id revoked_at : String) (sessions : SessionStore)
    → is_set (some revoked_at) ≡ true
    → Each (Inert nothing_dead) sessions
    → (revoke user_id id revoked_at sessions).0 ≡ true
    → Each (Inert (same id)) (revoke user_id id revoked_at sessions).1
unfolding revoke
revoke-kills user_id id revoked_at sessions set h done = elim (Option-cases (get id sessions)) [
  | inl missing ↦ absurd (ground (arith, missing, done))
  | inr (item, found) ↦
      let (name, _) = Each-get (Inert nothing_dead) id item sessions h found in
      let allowed : (not (str_eq item.session.user_id user_id) || is_set item.session.revoked_at)
          ≡ false =
        ground (arith, found, done) in
      rw (found, allowed, revoke)
        (Each-put (Inert (same id)) (Inert nothing_dead) id (with_revocation revoked_at item)
          sessions h (name, inr set)
          (λ j w other q. (q.0, inl (ground (arith, other, str_eq_iff id j, str_eq_iff j id)))))
]

abbrev Quiet : String → StoredSession → Type 0
Quiet id item =
    (str_eq item.session.session_id id ≡ false) ⊎ (is_set item.session.revoked_at ≡ true)

first_with-Quiet :
    (id digest : String) (items : List StoredSession) (item : StoredSession)
    → All (Quiet id) items
    → first_with digest items ≡ some item
    → Quiet id item
unfolding first_with
first_with-Quiet id digest [] item h found = cc
first_with-Quiet id digest (x ∷ items) item h found = elim (Bool-cases (str_eq x.digest digest)) [
  | inl here ↦ let e : x ≡ item = ground (arith, here, found) in rw (← e) h.0
  | inr not_here ↦ first_with-Quiet id digest items item h.1 (ground (arith, not_here, found))
]

Inert-Quiet : (id k : String) (item : StoredSession) → Inert (same id) k item → Quiet id item
Inert-Quiet id k item (name, inl other) = inl (rw name other)
Inert-Quiet id k item (name, inr revoked) = inr revoked

not_found :
    (id digest : String) (now : ℕ) (session : SessionRecord) (sessions : SessionStore)
    → Each (Inert (same id)) sessions
    → session.session_id ≡ id
    → find_by_token_digest digest now sessions ≢ some session
unfolding find_by_token_digest
not_found id digest now session sessions h name got =
    let quiet =
      Each-values (Quiet id) sessions
        (Each-map (Inert (same id)) (λ k v. Quiet id v) sessions (Inert-Quiet id) h) in
    elim (Option-cases (first_with digest (values sessions))) [
      | inl missing ↦ absurd (ground (arith, missing, got))
      | inr (item, found) ↦ elim (first_with-Quiet id digest (values sessions) item quiet found) [
        | inl other ↦
            absurd (ground (arith, found, got, other, name, str_eq_iff session.session_id id))
        | inr revoked ↦ absurd (ground (arith, found, got, revoked))
      ]
    ]

not_touched :
    (id digest : String) (session : SessionRecord) (sessions : SessionStore)
    → Each (Inert (same id)) sessions
    → session.session_id ≡ id
    → touch digest session sessions ≡ (false, sessions)
unfolding touch
not_touched id digest session sessions h name =
    elim (Option-cases (get session.session_id sessions)) [
      | inl missing ↦ ground (arith, missing)
      | inr (item, found) ↦
          elim (Each-get (Inert (same id)) session.session_id item sessions h found).1 [
            | inl other ↦ absurd (ground (arith, other, name, str_eq_iff session.session_id id))
            | inr revoked ↦ ground (arith, found, revoked)
          ]
    ]

-- In any history of a session store: once `revoke` has answered `true` for a session, with a time that
-- is no empty text, no token digest finds that session again, and `touch` does not bring it back;
-- unless a session with its id is created again.
pub revoke-find_by_token_digest :
    (before later : List Call) (user_id id revoked_at digest : String) (now : ℕ)
    (session : SessionRecord)
    → let revoked = revoke user_id id revoked_at (call_all before []) in
      let after = call_all later revoked.1 in
      is_set (some revoked_at) ≡ true
      → revoked.0 ≡ true
      → All (CreatesOther (same id)) later
      → session.session_id ≡ id
      → (find_by_token_digest digest now after ≢ some session)
        × (touch digest session after ≡ (false, after))
revoke-find_by_token_digest before later user_id id revoked_at digest now session set done others
      name =
    let sessions = call_all before [] in
    let killed = revoke-kills user_id id revoked_at sessions set (call_all-Named before) done in
    let after =
      call_all-Inert (same id) later (revoke user_id id revoked_at sessions).1 others killed in
    (not_found id digest now session _ after name, not_touched id digest session _ after name)
