-- ===== src/HumanAuth/Login.antt =====
-- `register`, `login`, `authenticate` and `issueSession` of `HumanAuthService`
-- (auth/application/human-auth.service.ts).
use exchanger.Prelude.{
  ℕ, ◌+◌, ◌*◌, String, Bool, true, ◌||◌, not, Option, none, some, min, ltb, ◌==◌, if◌then◌else◌,
  trim,
}
use exchanger.Prelude.Exec.{ok, err, pure, modify, ◌>>=◌, ◌>>◌}
use exchanger.Decimal.Text.{text_length, take_text}
use exchanger.Auth.Registry.{is_expired}
use exchanger.Identity.Sessions.{
  SessionRecord, SessionStore, AuthenticationLevel, password, is_set, create, find_by_token_digest,
  touch, trim_to_limit,
}
use exchanger.Identity.Users.{
  create as create_user, UserRecord, find_by_email, find_by_id, rehash_password,
}
use exchanger.HumanAuth.Service.{
  SessionContext, SessionIssueResult, HumanPrincipal, invalid_credentials, session_invalid,
  invalid_date, Service, on_users, public_user, public_session, security_event, Fresh, Ports,
}

module _ (ports : Ports) where
  abbrev pub new_session : UserRecord → SessionContext → AuthenticationLevel → Fresh → SessionRecord
  new_session user context auth_level fresh = record {
    session_id = fresh.session_id;
    user_id = user.id;
    roles = user.roles;
    scopes = user.scopes;
    auth_level = auth_level;
    created_at = fresh.now;
    last_seen_at = fresh.now;
    expires_at = some (fresh.now + ports.config.idle_ttl * 1000);
    absolute_expires_at = some (fresh.now + ports.config.absolute_ttl * 1000);
    revoked_at = none;
    device = record {
      label = take_text 80 context.device_label;
      user_agent_digest = ports.digest context.user_agent "metadata";
      ip_prefix_digest = ports.digest context.ip "metadata";
    };
    correlation = record {
      created_by_correlation_id = context.correlation_id;
      token_digest = none;
      revoke_generation = none;
    };
    security_version = user.security_version;
  }

  abbrev pub opened : SessionRecord → Fresh → SessionStore → SessionStore
  opened session fresh sessions =
      (trim_to_limit session.user_id ports.config.max_sessions (ports.date_text fresh.now)
        (create (ports.digest fresh.token "session") session sessions)).1

  unfoldable pub issue_session :
      UserRecord → SessionContext → AuthenticationLevel → Fresh → Service SessionIssueResult
  issue_session user context auth_level fresh = do
    let session = new_session user context auth_level fresh
    modify (λ state. record state { sessions = opened session fresh state.sessions })
    pure (record {
      token = fresh.token;
      user = public_user user;
      session = public_session session true;
    })

  -- The id of a user is random too.
  unfoldable pub register :
      String → String → String → String → SessionContext → Fresh → Service SessionIssueResult
  unfolding security_event issue_session
  register user_id email secret name context fresh = do
    user ← on_users (
        create_user user_id (ports.normalize_email email) (trim name) (ports.hash secret) fresh.now)
    security_event user.id "USER_REGISTERED" context.correlation_id
    issue_session user context password fresh

  abbrev pub hash_of : Option UserRecord → String
  hash_of none = ports.config.dummy_password_hash
  hash_of (some user) = user.password_hash

  unfoldable pub rehash_if_needed : UserRecord → String → ℕ → Service (Unit {0})
  rehash_if_needed user secret now state =
      if ports.needs_rehash user.password_hash
      then (
        ok tt,
        record state {
          users = rehash_password user.id user.password_hash (ports.hash secret) now state.users;
        },
      )
      else (ok tt, state)

  unfoldable pub log_in : UserRecord → String → SessionContext → Fresh → Service SessionIssueResult
  unfolding rehash_if_needed security_event issue_session
  log_in user secret context fresh = do
    rehash_if_needed user secret fresh.now
    security_event user.id "USER_LOGIN" context.correlation_id
    issue_session user context password fresh

  abbrev pub accepted : Option UserRecord → Bool → Option UserRecord
  accepted none valid = none
  accepted (some user) valid = if not valid || user.password_reset_required then none else some user

  unfoldable pub login : String → String → SessionContext → Fresh → Service SessionIssueResult
  unfolding log_in
  login email secret context fresh state =
      let found = find_by_email (ports.normalize_email email) state.users in
      elim (accepted found (ports.verify secret (hash_of found))) [
        | none ↦ (err invalid_credentials, state)
        | some user ↦ log_in user secret context fresh state
      ]

  -- `!rawToken || rawToken.length < 32 || rawToken.length > 256`
  abbrev pub is_malformed : Option String → Bool
  is_malformed none = true
  is_malformed (some raw) = ltb (text_length raw) 32 || ltb 256 (text_length raw)

  -- `!user || user.securityVersion !== session.securityVersion || user.passwordResetRequired`
  abbrev pub current_user : Option UserRecord → SessionRecord → Option UserRecord
  current_user none session = none
  current_user (some user) session =
      if not (user.security_version == session.security_version) || user.password_reset_required
      then none
      else some user

  -- The session that a digest finds, if it is alive.
  unfoldable pub live_session : String → ℕ → SessionStore → Option SessionRecord
  live_session token_digest now sessions = elim (find_by_token_digest token_digest now sessions) [
    | none ↦ none
    | some session ↦
        if is_set session.revoked_at
          || is_expired session.expires_at now
          || is_expired session.absolute_expires_at now
        then none
        else some session
  ]

  abbrev pub principal_of : SessionRecord → UserRecord → HumanPrincipal
  principal_of session user = record {
    session_id = session.session_id;
    user_id = session.user_id;
    roles = user.roles;
    scopes = user.scopes;
    auth_level = session.auth_level;
  }

  -- A date that is none makes `toISOString` throw.
  unfoldable pub refresh :
      String → ℕ → SessionRecord → UserRecord → Option ℕ → Service HumanPrincipal
  refresh token_digest now session user none state = (err invalid_date, state)
  refresh token_digest now session user (some absolute) state =
      let refreshed = record session {
        last_seen_at = now;
        expires_at = some (min (now + ports.config.idle_ttl * 1000) absolute);
      } in
      let (touched, sessions) = touch token_digest refreshed state.sessions in
      if touched
      then (ok (principal_of session user), record state { sessions = sessions })
      else (err session_invalid, record state { sessions = sessions })

  unfoldable pub authenticate_digest : String → ℕ → Service HumanPrincipal
  unfolding live_session refresh
  authenticate_digest token_digest now state = elim (live_session token_digest now state.sessions) [
    | none ↦ (err session_invalid, state)
    | some session ↦ elim (current_user (find_by_id session.user_id state.users) session) [
      | none ↦ (err session_invalid, state)
      | some user ↦ refresh token_digest now session user session.absolute_expires_at state
    ]
  ]

  unfoldable pub authenticate : Option String → ℕ → Service HumanPrincipal
  unfolding authenticate_digest
  authenticate none now state = (err session_invalid, state)
  authenticate (some raw) now state =
      if is_malformed (some raw)
      then (err session_invalid, state)
      else authenticate_digest (ports.digest raw "session") now state
