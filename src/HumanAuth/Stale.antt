-- ===== src/HumanAuth/Stale.antt =====
-- `changePassword` of `HumanAuthService` (auth/application/human-auth.service.ts) against the sessions
-- that were open before.
use exchanger.Prelude.{
  ℕ, ◌+◌, ◌*◌, ◌≡◌, ◌≢◌, ◌≤◌, ◌<◌, ◌⊎◌, refl, sym, ap, subst, ◌∙◌, inl, inr, String, Bool, false,
  not, List, Option, none, some, arith, min, ==_iff, str_eq, str_eq_iff, Bool-cases, Option-cases,
  if◌then◌else◌,
}
use exchanger.Prelude.Dict.{get, put, get-put}
use exchanger.Prelude.Exec.{ok}
use exchanger.Identity.Sessions.{SessionRecord, SessionStore, touch}
use exchanger.Identity.Users.{
  UserRecord, UserStore, find_by_id, mutate, update_password, with_password,
}
use exchanger.Identity.Resets.{IsNamed, call-IsNamed}
use exchanger.HumanAuth.Service.{
  HumanAuth, HumanPrincipal, SessionContext, Fresh, Ports, require_user,
}
use exchanger.HumanAuth.Login.{
  live_session, refresh, authenticate_digest, authenticate, is_malformed, current_user,
}
use exchanger.HumanAuth.Account.{change_password}
use exchanger.HumanAuth.Versions.{version_at, version_of, Grows, call-Grows}
use exchanger.HumanAuth.Held.{IsHeldAs, IsHeld}
use exchanger.Identity.Challenges as UserCalls
use exchanger.Prelude.Dict.Each.{Each-map, Each-known}
use exchanger.HumanAuth.Openings.{IsSafe, Known}
use exchanger.HumanAuth.Renewal.{renew-IsSafe}
use exchanger.HumanAuth.Calls.{Call, call_all, AreProper, live_session-IsHeldAs}
use exchanger.HumanAuth.Kept.{call_all-IsSafe}
use exchanger.HumanAuth.Service.{SessionIssueResult}
use exchanger.Identity.Sessions.{StoredSession}

abbrev pub nothing_dead : String → Bool
nothing_dead k = false

abbrev pub same : String → String → Bool
same id k = str_eq k id

module _ (ports : Ports) where
  -- A store of users in which the version of one of them has gone up makes a session of that user stale.
  raised-IsHeld :
      (id user_id : String) (before after : UserStore) (sessions : SessionStore)
      (item : StoredSession)
      → Grows before after
      → version_of user_id before < version_of user_id after
      → get id sessions ≡ some item
      → item.session.user_id ≡ user_id
      → IsHeld nothing_dead before sessions
      → IsHeld (same id) after sessions
  raised-IsHeld id user_id before after sessions item more raised found own held =
      let Before = λ (k : String) (w : StoredSession). IsHeldAs nothing_dead before k w.session in
      let After = λ (k : String) (w : StoredSession). IsHeldAs (same id) after k w.session in
      Each-map (λ k w. Before k w × ((str_eq k id ≡ false) ⊎ (w ≡ item))) After sessions
        (λ k w e. (
          e.0.0,
          omega (arith, e.0.1, more w.session.user_id),
          elim e.1 [
            | inl other ↦ inl other
            | inr mine ↦
                let owner : w.session.user_id ≡ user_id =
                  ap (λ (x : StoredSession). x.session.user_id) mine ∙ own in
                inr (
                  subst (λ u. w.session.security_version < version_of u after) (sym owner)
                    (let most =
                        subst (λ u. w.session.security_version ≤ version_of u before) owner e.0.1 in
                      omega (arith, most, raised)))
          ],
        ))
        (Each-known Before id item sessions held found)

  update_password-raises :
      (user_id password_hash : String) (now : ℕ) (users : UserStore) (user : UserRecord)
      → get user_id users.users ≡ some user
      → version_of user_id users
        < version_of user_id (update_password user_id password_hash false now users).1
  unfolding update_password mutate
  update_password-raises user_id password_hash now users user found =
      let renewed = with_password password_hash false now user in
      rw (found, update_password, mutate, get-put user_id user_id renewed users.users)
        (ground (arith, str_eq_iff user_id user_id))

  refresh-session_id :
      (digest : String) (now : ℕ) (session : SessionRecord) (user : UserRecord)
      (absolute : Option ℕ) (state : HumanAuth) (principal : HumanPrincipal)
      → (refresh ports digest now session user absolute state).0 ≡ ok principal
      → principal.session_id ≡ session.session_id
  unfolding refresh
  refresh-session_id digest now session user none state principal h = absurd (ground (arith, h))
  refresh-session_id digest now session user (some absolute) state principal h =
      let refreshed : SessionRecord = record session {
        last_seen_at = now;
        expires_at = some (min (now + ports.config.idle_ttl * 1000) absolute);
      } in
      elim (Bool-cases (touch digest refreshed state.sessions).0) [
        | inl done ↦ ground (arith, done, h)
        | inr refused ↦ absurd (ground (arith, refused, h))
      ]

  older_version :
      (session : SessionRecord) (user : UserRecord) (state : HumanAuth)
      → session.security_version < version_of session.user_id state.users
      → current_user ports (find_by_id session.user_id state.users) session ≢ some user
  unfolding find_by_id
  older_version session user state older h =
      elim (Option-cases (get session.user_id state.users.users)) [
        | inl missing ↦ absurd (ground (arith, missing, h))
        | inr (u, found) ↦
            let newer : session.security_version < u.security_version =
              subst (λ o. session.security_version < version_at o) found older in
            absurd
              (ground (arith, found, newer, h, ==_iff u.security_version session.security_version))
      ]

  -- A session of another version than its user's is refused.
  stale-refused :
      (id digest : String) (now : ℕ) (state : HumanAuth) (principal : HumanPrincipal)
      → IsSafe ports (same id) state
      → principal.session_id ≡ id
      → (authenticate_digest ports digest now state).0 ≢ ok principal
  unfolding authenticate_digest
  stale-refused id digest now state principal safe name got =
      elim (Option-cases (live_session ports digest now state.sessions)) [
        | inl missing ↦ absurd (ground (arith, missing, got))
        | inr (session, found) ↦
            let fits = live_session-IsHeldAs ports (same id) digest now state session safe found in
            let owner = current_user ports (find_by_id session.user_id state.users) session in
            elim (Option-cases owner) [
              | inl stale ↦ absurd (ground (arith, found, stale, got))
              | inr (user, current) ↦
                  let answer : (refresh ports digest now session user session.absolute_expires_at
                        state).0
                      ≡ ok principal =
                    ground (arith, found, current, got) in
                  let own =
                    refresh-session_id digest now session user session.absolute_expires_at state
                      principal answer in
                  elim fits.2 [
                    | inl alive ↦
                        absurd (ground (arith, alive, own, name, str_eq_iff session.session_id id))
                    | inr older ↦ older_version session user state older current
                  ]
            ]
      ]

  -- What `changePassword` does when it answers.
  changed-IsSafe :
      (id : String) (principal : HumanPrincipal) (current_secret new_secret : String)
      (others : Bool) (context : SessionContext) (fresh : Fresh) (state : HumanAuth)
      (result : SessionIssueResult) (item : StoredSession)
      → IsSafe ports nothing_dead state
      → (change_password ports principal current_secret new_secret others context fresh state).0
        ≡ ok result
      → get id state.sessions ≡ some item
      → item.session.user_id ≡ principal.user_id
      → same id fresh.session_id ≡ false
      → IsSafe ports
          (same id)
          (change_password ports principal current_secret new_secret others context fresh state).1
  unfolding change_password UserCalls.call update_password put
  changed-IsSafe id principal current_secret new_secret others context fresh state result item
        (named, held) done at own other =
      elim (Option-cases (get principal.user_id state.users.users)) [
        | inl missing ↦ absurd (ground (arith, missing, done))
        | inr (current, found) ↦
            elim (Bool-cases (not (ports.verify current_secret current.password_hash))) [
              | inl wrong ↦ absurd (ground (arith, found, wrong, done))
              | inr right ↦
                  let hash = ports.hash new_secret in
                  let name = named principal.user_id current found in
                  let here : get current.id state.users.users ≡ some current =
                    subst (λ k. get k state.users.users ≡ some current) (sym name) found in
                  let updated = with_password hash false fresh.now current in
                  let users' : UserStore = record state.users {
                    users = put current.id updated state.users.users;
                  } in
                  let e : (update_password current.id hash false fresh.now state.users).1 ≡ users' =
                    rw (here, update_password, mutate) refl in
                  let changing = UserCalls.changes_password current.id hash false fresh.now in
                  let named' = subst IsNamed e (call-IsNamed changing state.users named) in
                  let more = subst (Grows state.users) e (call-Grows changing state.users tt) in
                  let raised =
                    subst (λ u. version_of current.id state.users < version_of current.id u) e
                      (update_password-raises current.id hash fresh.now state.users current here) in
                  let held' =
                    raised-IsHeld id current.id state.users users' state.sessions item more raised
                      at (own ∙ sym name) held in
                  let known : Known ports (same id) updated (record state { users = users' }) =
                    rw (get-put current.id current.id updated state.users.users)
                      (ground (arith, str_eq_iff current.id current.id)) in
                  let renewed =
                    renew-IsSafe ports (same id) current.id updated
                      (if others then none else some principal.session_id) context fresh
                      (record state { users = users' }) other known (named', held') in
                  rw
                    (
                      found, right, change_password, require_user, find_by_id, here,
                      update_password, mutate,
                    )
                    renewed
            ]
      ]

  authenticate-refused :
      (id : String) (token : Option String) (now : ℕ) (state : HumanAuth)
      (principal : HumanPrincipal)
      → IsSafe ports (same id) state
      → principal.session_id ≡ id
      → (authenticate ports token now state).0 ≢ ok principal
  unfolding authenticate
  authenticate-refused id none now state principal safe name got = absurd (ground (arith, got))
  authenticate-refused id (some raw) now state principal safe name got =
      let refused = stale-refused id (ports.digest raw "session") now state principal safe name in
      elim (Bool-cases (is_malformed ports (some raw))) [
        | inl malformed ↦ absurd (ground (arith, malformed, got))
        | inr sound ↦ refused (ground (arith, sound, got))
      ]

-- In any history of the service that starts with no session newer than its user: once `changePassword`
-- has answered, no session of that user that was open before gives a principal again, with any token,
-- also where the other sessions are not to be logged out; unless a new session has its id, or a new
-- user an id that is taken.
pub change_password-authenticate :
    (ports : Ports) (start : HumanAuth) (before later : List Call)
    (principal stale : HumanPrincipal) (current_secret new_secret : String) (others : Bool)
    (context : SessionContext) (fresh : Fresh) (result : SessionIssueResult) (id : String)
    (item : StoredSession) (token : Option String) (now : ℕ)
    → let state = call_all ports before start in
      let changed =
        change_password ports principal current_secret new_secret others context fresh state in
      IsSafe ports nothing_dead start
      → AreProper ports nothing_dead before start
      → changed.0 ≡ ok result
      → get id state.sessions ≡ some item
      → item.session.user_id ≡ principal.user_id
      → str_eq fresh.session_id id ≡ false
      → AreProper ports (same id) later changed.1
      → stale.session_id ≡ id
      → (authenticate ports token now (call_all ports later changed.1)).0 ≢ ok stale
change_password-authenticate ports start before later principal stale current_secret new_secret
      others context fresh result id item token now safe proper done at own other proper' name =
    let state = call_all ports before start in
    let before' = call_all-IsSafe ports nothing_dead before start proper safe in
    let changed =
      changed-IsSafe ports id principal current_secret new_secret others context fresh state result
        item before' done at own other in
    let after =
      call_all-IsSafe ports (same id) later
        (change_password ports principal current_secret new_secret others context fresh state).1
        proper' changed in
    authenticate-refused ports id token now _ stale after name
