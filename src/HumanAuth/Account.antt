-- ===== src/HumanAuth/Account.antt =====
-- The other operations of `HumanAuthService` (auth/application/human-auth.service.ts) on the sessions and the
-- record of a user.
use exchanger.Prelude.{
  ℕ, ◌+◌, ◌*◌, String, Bool, false, not, List, map, Option, none, some, str_eq, if◌then◌else◌, trim,
}
use exchanger.Prelude.Exec.{ok, err, pure, raise_if, or_raise, modify, ◌>>=◌, ◌>>◌}
use exchanger.Identity.Sessions.{password_reauthenticated, list_by_user, revoke, revoke_all}
use exchanger.Identity.Users.{
  ChallengeKind, email_verify, find_by_email, update_name, update_password, mark_email_verified,
  issue_challenge, invalidate_challenge, consume_challenge, complete_password_reset,
}
use exchanger.HumanAuth.Login.{issue_session}
use exchanger.HumanAuth.Service.{
  SessionContext, PublicUser, PublicSession, SessionIssueResult, HumanPrincipal, HumanAuth,
  reauth_required, session_not_revocable, challenge_invalid, Service, on_users, public_user,
  public_session, security_event, require_user, Fresh, Ports,
}

module _ (ports : Ports) where
  unfoldable pub me : HumanPrincipal → Service (PublicUser × List String)
  unfolding require_user
  me principal = do user ← require_user principal.user_id; pure (public_user user, user.scopes)

  unfoldable pub logout : HumanPrincipal → String → ℕ → Service (Unit {0})
  unfolding security_event
  logout principal correlation_id now = do
    modify (λ state. record state {
      sessions =
          (revoke principal.user_id principal.session_id (ports.date_text now) state.sessions).1;
    })
    security_event principal.user_id "SESSION_LOGOUT" correlation_id

  -- `this.sessions.revokeAll(userId, new Date().toISOString(), except)`
  unfoldable pub revoke_all_sessions : String → ℕ → Option String → Service ℕ
  revoke_all_sessions user_id now except state =
      let (count, sessions) = revoke_all user_id (ports.date_text now) except state.sessions in
      (ok count, record state { sessions = sessions })

  unfoldable pub logout_all : HumanPrincipal → String → ℕ → Service ℕ
  unfolding revoke_all_sessions security_event
  logout_all principal correlation_id now = do
    count ← revoke_all_sessions principal.user_id now none
    security_event principal.user_id "ALL_SESSIONS_REVOKED" correlation_id
    pure count

  unfoldable pub update_profile : HumanPrincipal → String → String → ℕ → Service PublicUser
  unfolding security_event
  update_profile principal name correlation_id now = do
    user ← on_users (update_name principal.user_id (trim name) now)
    security_event principal.user_id "PROFILE_UPDATED" correlation_id
    pure (public_user user)

  unfoldable pub change_password :
      HumanPrincipal → String → String → Bool → SessionContext → Fresh → Service SessionIssueResult
  unfolding require_user revoke_all_sessions security_event issue_session
  change_password principal current_secret new_secret logout_other_sessions context fresh = do
    current ← require_user principal.user_id
    raise_if (not (ports.verify current_secret current.password_hash)) reauth_required
    updated ← on_users (update_password current.id (ports.hash new_secret) false fresh.now)
    revoke_all_sessions current.id fresh.now
        (if logout_other_sessions then none else some principal.session_id)
    security_event current.id "PASSWORD_CHANGED" context.correlation_id
    issue_session ports updated context password_reauthenticated fresh

  unfoldable pub list_sessions : HumanPrincipal → HumanAuth → List PublicSession
  list_sessions principal state =
      map (λ item. public_session item (str_eq item.session_id principal.session_id))
        (list_by_user principal.user_id state.sessions)

  unfoldable pub revoke_own_session : HumanPrincipal → String → String → ℕ → Service (Unit {0})
  unfolding security_event
  revoke_own_session principal session_id correlation_id now state =
      let (revoked, sessions) =
        revoke principal.user_id session_id (ports.date_text now) state.sessions in
      if revoked
      then security_event principal.user_id "SESSION_REVOKED" correlation_id
          (record state { sessions = sessions })
      else (err session_not_revocable, record state { sessions = sessions })

  -- Whether the delivery succeeds is an argument; an unknown email changes nothing.
  unfoldable pub request_challenge :
      ChallengeKind → String → String → Bool → ℕ → HumanAuth → HumanAuth
  request_challenge kind email token delivered now state =
      let token_digest = ports.digest token "recovery" in
      let expires_at = some (now + ports.config.recovery_ttl * 1000) in
      elim (find_by_email (ports.normalize_email email) state.users) [
        | none ↦ state
        | some user ↦
            let issued = issue_challenge user.id kind token_digest expires_at state.users in
            record state {
              users = if delivered then issued else invalidate_challenge kind token_digest issued;
            }
      ]

  unfoldable pub confirm_email : String → ℕ → Service (Unit {0})
  confirm_email token now state =
      let (found, users) =
        consume_challenge email_verify (ports.digest token "recovery") now state.users in
      elim found [
        | none ↦ (err challenge_invalid, record state { users = users })
        | some user ↦
            (on_users (mark_email_verified user.id now) >> pure tt) (record state { users = users })
      ]

  unfoldable pub reset_password : String → String → String → ℕ → Service (Unit {0})
  unfolding revoke_all_sessions security_event
  reset_password token secret correlation_id now = do
    found ←
        on_users (complete_password_reset (ports.digest token "recovery") (ports.hash secret) now)
    user ← or_raise found challenge_invalid
    revoke_all_sessions user.id now none
    security_event user.id "PASSWORD_RESET" correlation_id
