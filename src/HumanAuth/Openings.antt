-- ===== src/HumanAuth/Openings.antt =====
-- The calls of `HumanAuthService` (auth/application/human-auth.service.ts) that open a session, and the
-- versions of the sessions that they leave.
use exchanger.Prelude.{
  ℕ, ◌≡◌, ◌≤◌, refl, sym, ap, subst, ◌∙◌, inl, inr, String, Bool, false, Option, none, some, arith,
  str_eq_iff, Bool-cases, Option-cases, trim,
}
use exchanger.Prelude.Dict.{Dict, get, has, put, get-put}
use exchanger.Prelude.Exec.{ok, >>-keeps, ◌>>◌}
use exchanger.Identity.Sessions.{AuthenticationLevel, password}
use exchanger.Identity.Users.{
  UserRecord, UserStore, find_by_email, user_at, mutate, create as create_user, new_user,
}
use exchanger.Identity.Resets.{IsNamed, call-IsNamed}
use exchanger.HumanAuth.Service.{HumanAuth, SessionContext, Fresh, Ports, security_event}
use exchanger.HumanAuth.Login.{
  issue_session, new_session, register, rehash_if_needed, log_in, login, accepted, hash_of,
}
use exchanger.HumanAuth.Account.{revoke_all_sessions}
use exchanger.HumanAuth.Versions.{version_of, Grows, IsFresh, call-Grows}
use exchanger.HumanAuth.Held.{
  IsHeld, Grows-IsHeld, create-IsHeld, revoke_all-IsHeld, trim_to_limit-IsHeld,
}
use exchanger.Identity.Challenges as UserCalls

user_at-get :
    (id : Option String) (users : Dict UserRecord) (user : UserRecord)
    → user_at id users ≡ some user
    → (k : String) × (get k users ≡ some user)
user_at-get none users user h = cc
user_at-get (some String.[]) users user h = cc
user_at-get (some (String.◌∷◌ c s)) users user h = (String.◌∷◌ c s, h)

accepted-found :
    (ports : Ports) (found : Option UserRecord) (valid : Bool) (user : UserRecord)
    → accepted ports found valid ≡ some user
    → found ≡ some user
accepted-found ports none valid user h = cc
accepted-found ports (some u) valid user h = ground (arith, h)

module _ (ports : Ports) (dead : String → Bool) where
  abbrev pub IsSafe : HumanAuth → Type 0
  IsSafe state = IsNamed state.users × IsHeld dead state.users state.sessions

  -- The version of a record of a user is not after the one in the store.
  abbrev pub Known : UserRecord → HumanAuth → Type 0
  Known user state = user.security_version ≤ version_of user.id state.users

  pub users_step :
      (c : UserCalls.Call) (state : HumanAuth)
      → IsFresh c state.users
      → IsSafe state
      → IsSafe (record state { users = UserCalls.call c state.users })
  users_step c state fresh (named, held) = (
    call-IsNamed c state.users named,
    Grows-IsHeld dead state.users (UserCalls.call c state.users) state.sessions
        (call-Grows c state.users fresh) held,
  )

  pub security_event-IsSafe :
      (user_id action command_id : String) (state : HumanAuth)
      → IsSafe state
      → IsSafe (security_event user_id action command_id state).1
  unfolding security_event
  security_event-IsSafe user_id action command_id state safe = safe

  pub revoke_all_sessions-IsSafe :
      (user_id : String) (now : ℕ) (except : Option String) (state : HumanAuth)
      → IsSafe state
      → IsSafe (revoke_all_sessions ports user_id now except state).1
  unfolding revoke_all_sessions
  revoke_all_sessions-IsSafe user_id now except state (named, held) = (
    named,
    revoke_all-IsHeld dead state.users user_id (ports.date_text now) except state.sessions held,
  )

  pub issue_session-IsSafe :
      (user : UserRecord) (context : SessionContext) (auth_level : AuthenticationLevel)
      (fresh : Fresh) (state : HumanAuth)
      → dead fresh.session_id ≡ false
      → Known user state
      → IsSafe state
      → IsSafe (issue_session ports user context auth_level fresh state).1
  unfolding issue_session
  issue_session-IsSafe user context auth_level fresh state alive known (named, held) =
      let session = new_session ports user context auth_level fresh in
      let created =
        create-IsHeld dead state.users (ports.digest fresh.token "session") session state.sessions
          (refl, known, inl alive) held in
      (named, trim_to_limit-IsHeld dead state.users _ _ _ _ created)

  pub mutate-Known :
      (id : String) (operation : UserRecord → UserRecord) (users : UserStore) (user : UserRecord)
      → IsNamed users
      → ((u : UserRecord) → (operation u).id ≡ u.id)
      → (mutate id operation users).0 ≡ ok user
      → user.security_version ≤ version_of user.id (mutate id operation users).1
  unfolding mutate
  mutate-Known id operation users user named keeps done = elim (Option-cases (get id users.users)) [
    | inl missing ↦ absurd (ground (arith, missing, done))
    | inr (u, found) ↦
        let e : operation u ≡ user = ground (arith, found, done) in
        let name : user.id ≡ id =
          ap (λ (v : UserRecord). v.id) (sym e) ∙ keeps u ∙ named id u found in
        let place = get-put id user.id (operation u) users.users in
        let here : get user.id (put id (operation u) users.users) ≡ some user =
          ground (arith, place, name, e, str_eq_iff id user.id) in
        rw (found, mutate, here) (omega arith)
  ]

  find_by_email-Known :
      (email : String) (state : HumanAuth) (user : UserRecord)
      → IsSafe state
      → find_by_email email state.users ≡ some user
      → Known user state
  unfolding find_by_email
  find_by_email-Known email state user (named, held) found =
      let (k, at) =
        user_at-get (get email state.users.user_id_by_email) state.users.users user found in
      let name = named k user at in
      let here : get user.id state.users.users ≡ some user =
        subst (λ j. get j state.users.users ≡ some user) (sym name) at in
      rw here (omega arith)

  Grows-Known :
      (user : UserRecord) (before after : HumanAuth)
      → Grows before.users after.users
      → Known user before
      → Known user after
  Grows-Known user before after more known = omega (arith, known, more user.id)

  -- The end of `register`, `login` and `changePassword`.
  greet-IsSafe :
      (user : UserRecord) (action : String) (context : SessionContext)
      (auth_level : AuthenticationLevel) (fresh : Fresh) (state : HumanAuth)
      → dead fresh.session_id ≡ false
      → Known user state
      → IsSafe state
      → IsSafe
          ((security_event user.id action context.correlation_id
              >> issue_session ports user context auth_level fresh)
            state).1
  unfolding security_event
  greet-IsSafe user action context auth_level fresh state alive known safe =
      issue_session-IsSafe user context auth_level fresh _ alive known safe

  rehash_if_needed-IsSafe :
      (user : UserRecord) (secret : String) (now : ℕ) (state : HumanAuth)
      → IsSafe state × Known user state
      → IsSafe (rehash_if_needed ports user secret now state).1
        × Known user (rehash_if_needed ports user secret now state).1
  unfolding rehash_if_needed UserCalls.call
  rehash_if_needed-IsSafe user secret now state (safe, known) =
      let c = UserCalls.rehashes user.id user.password_hash (ports.hash secret) now in
      let stepped = users_step c state tt safe in
      let known' =
        Grows-Known user state (record state { users = UserCalls.call c state.users })
          (call-Grows c state.users tt) known in
      elim (Bool-cases (ports.needs_rehash user.password_hash)) [
        | inl old ↦ rw (old, rehash_if_needed) (stepped, known')
        | inr recent ↦ rw (recent, rehash_if_needed) (safe, known)
      ]

  log_in-IsSafe :
      (user : UserRecord) (secret : String) (context : SessionContext) (fresh : Fresh)
      (state : HumanAuth)
      → dead fresh.session_id ≡ false
      → Known user state
      → IsSafe state
      → IsSafe (log_in ports user secret context fresh state).1
  unfolding log_in
  log_in-IsSafe user secret context fresh state alive known safe =
      (>>-keeps (λ s. IsSafe s × Known user s) (rehash_if_needed ports user secret fresh.now)
        (security_event user.id "USER_LOGIN" context.correlation_id
          >> issue_session ports user context password fresh)
        (rehash_if_needed-IsSafe user secret fresh.now)
        (λ s h. (
          greet-IsSafe user "USER_LOGIN" context password fresh s alive h.1 h.0,
          unfold security_event issue_session in h.1,
        ))
        state (safe, known)).0

  pub login-IsSafe :
      (email secret : String) (context : SessionContext) (fresh : Fresh) (state : HumanAuth)
      → dead fresh.session_id ≡ false
      → IsSafe state
      → IsSafe (login ports email secret context fresh state).1
  unfolding login
  login-IsSafe email secret context fresh state alive safe =
      let found = find_by_email (ports.normalize_email email) state.users in
      let accept = accepted ports found (ports.verify secret (hash_of ports found)) in
      elim (Option-cases accept) [
        | inl none_accepted ↦ rw (none_accepted, login) safe
        | inr (user, allowed) ↦
            let found_user =
              accepted-found ports found (ports.verify secret (hash_of ports found)) user allowed in
            let known =
              find_by_email-Known (ports.normalize_email email) state user safe found_user in
            rw (allowed, login) (log_in-IsSafe user secret context fresh state alive known safe)
      ]

  pub register-IsSafe :
      (user_id email secret name : String) (context : SessionContext) (fresh : Fresh)
      (state : HumanAuth)
      → get user_id state.users.users ≡ none
      → dead fresh.session_id ≡ false
      → IsSafe state
      → IsSafe (register ports user_id email secret name context fresh state).1
  unfolding register UserCalls.call create_user
  register-IsSafe user_id email secret name context fresh state new alive safe =
      let email' = ports.normalize_email email in
      let c = UserCalls.creates user_id email' (trim name) (ports.hash secret) fresh.now in
      let user = new_user user_id email' (trim name) (ports.hash secret) fresh.now in
      let state' : HumanAuth = record state { users = UserCalls.call c state.users } in
      let stepped = users_step c state new safe in
      elim (Bool-cases (has email' state.users.user_id_by_email)) [
        | inl taken ↦ rw (taken, register, create_user) safe
        | inr free ↦
            let users'' : UserStore = record state.users {
              users = put user_id user state.users.users;
              user_id_by_email = put email' user_id state.users.user_id_by_email;
            } in
            let e : UserCalls.call c state.users ≡ users'' =
              rw (free, UserCalls.call, create_user) refl in
            let stepped' = subst (λ u. IsSafe (record state { users = u })) e stepped in
            let known : Known user (record state { users = users'' }) =
              rw (get-put user_id user_id user state.users.users)
                (ground (arith, str_eq_iff user_id user_id)) in
            rw (free, register, create_user)
              (greet-IsSafe user "USER_REGISTERED" context password fresh
                (record state { users = users'' }) alive known stepped')
      ]
