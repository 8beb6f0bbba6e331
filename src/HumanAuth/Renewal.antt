-- ===== src/HumanAuth/Renewal.antt =====
-- `changePassword` of `HumanAuthService` (auth/application/human-auth.service.ts), and the versions of the
-- sessions that it leaves.
use exchanger.Prelude.{
  ◌≡◌, refl, inl, inr, String, Bool, false, not, Option, none, some, arith, Bool-cases,
  Option-cases, if◌then◌else◌,
}
use exchanger.Prelude.Dict.{get}
use exchanger.Prelude.Exec.{Result, ok, err, >>=-keeps, >>-keeps, ◌>>=◌, ◌>>◌}
use exchanger.Identity.Sessions.{password_reauthenticated}
use exchanger.Identity.Users.{UserRecord, find_by_id, update_password, with_password, IdentityError}
use exchanger.HumanAuth.Service.{
  HumanAuth, HumanPrincipal, SessionContext, Fresh, Ports, on_users, wrapped, security_event,
  require_user,
}
use exchanger.HumanAuth.Login.{issue_session}
use exchanger.HumanAuth.Account.{revoke_all_sessions, change_password}
use exchanger.HumanAuth.Held.{}
use exchanger.Identity.Challenges as UserCalls
use exchanger.HumanAuth.Openings.{
  IsSafe, Known, users_step, security_event-IsSafe, revoke_all_sessions-IsSafe,
  issue_session-IsSafe, mutate-Known,
}

module _ (ports : Ports) (dead : String → Bool) where
  wrapped-ok : {A : Type 0} (r : Result IdentityError A) (a : A) → wrapped r ≡ ok a → r ≡ ok a
  wrapped-ok (ok b) a h = ground (arith, h)
  wrapped-ok (err e) a h = absurd (ground (arith, h))

  -- The end of `changePassword`, once the new password is stored.
  pub renew-IsSafe :
      (user_id : String) (updated : UserRecord) (except : Option String) (context : SessionContext)
      (fresh : Fresh) (state : HumanAuth)
      → dead fresh.session_id ≡ false
      → Known ports dead updated state
      → IsSafe ports dead state
      → IsSafe ports dead
          ((revoke_all_sessions ports user_id fresh.now except
              >> (security_event user_id "PASSWORD_CHANGED" context.correlation_id
                  >> issue_session ports updated context password_reauthenticated fresh))
            state).1
  unfolding security_event issue_session
  renew-IsSafe user_id updated except context fresh state alive known safe =
      (>>-keeps (λ t. IsSafe ports dead t × Known ports dead updated t)
        (revoke_all_sessions ports user_id fresh.now except)
        (security_event user_id "PASSWORD_CHANGED" context.correlation_id
          >> issue_session ports updated context password_reauthenticated fresh)
        (λ t q. (
          revoke_all_sessions-IsSafe ports dead user_id fresh.now except t q.0,
          unfold revoke_all_sessions in q.1,
        ))
        (λ t q. (
          issue_session-IsSafe ports dead updated context password_reauthenticated fresh
              (security_event user_id "PASSWORD_CHANGED" context.correlation_id t).1 alive
              (unfold security_event in q.1)
              (security_event-IsSafe ports dead user_id "PASSWORD_CHANGED" context.correlation_id t
                q.0),
          unfold security_event issue_session in q.1,
        ))
        state (safe, known)).0

  -- The rest of `changePassword` once the current password has been verified.
  replace_password-IsSafe :
      (current : UserRecord) (new_secret : String) (except : Option String)
      (context : SessionContext) (fresh : Fresh) (state : HumanAuth)
      → dead fresh.session_id ≡ false
      → IsSafe ports dead state
      → IsSafe ports dead
          ((on_users (update_password current.id (ports.hash new_secret) false fresh.now)
              >>= λ updated.
                  revoke_all_sessions ports current.id fresh.now except
                  >> (security_event current.id "PASSWORD_CHANGED" context.correlation_id
                      >> issue_session ports updated context password_reauthenticated fresh))
            state).1
  unfolding security_event issue_session
  replace_password-IsSafe current new_secret except context fresh state alive safe =
      let changing =
        UserCalls.changes_password current.id (ports.hash new_secret) false fresh.now in
      >>=-keeps (IsSafe ports dead) (Known ports dead)
        (on_users (update_password current.id (ports.hash new_secret) false fresh.now))
        (λ updated.
          revoke_all_sessions ports current.id fresh.now except
          >> (security_event current.id "PASSWORD_CHANGED" context.correlation_id
              >> issue_session ports updated context password_reauthenticated fresh))
        (λ s h. unfold UserCalls.call in users_step ports dead changing s tt h)
        (λ s updated h done.
          unfold update_password in
          mutate-Known ports dead current.id (with_password (ports.hash new_secret) false fresh.now)
            s.users updated h.0 (λ u. refl) (wrapped-ok _ updated done))
        (λ updated s h known. renew-IsSafe current.id updated except context fresh s alive known h)
        state safe

  pub change_password-IsSafe :
      (principal : HumanPrincipal) (current_secret new_secret : String) (others : Bool)
      (context : SessionContext) (fresh : Fresh) (state : HumanAuth)
      → dead fresh.session_id ≡ false
      → IsSafe ports dead state
      → IsSafe ports dead
          (change_password ports principal current_secret new_secret others context fresh state).1
  unfolding change_password
  change_password-IsSafe principal current_secret new_secret others context fresh state alive safe =
      elim (Option-cases (get principal.user_id state.users.users)) [
        | inl missing ↦ rw (missing, change_password, require_user, find_by_id) safe
        | inr (current, found) ↦
            let except = if others then none else some principal.session_id in
            let replaced =
              replace_password-IsSafe current new_secret except context fresh state alive safe in
            elim (Bool-cases (not (ports.verify current_secret current.password_hash))) [
              | inl wrong ↦ rw (found, wrong, change_password, require_user, find_by_id) safe
              | inr right ↦ rw (found, right, change_password, require_user, find_by_id) replaced
            ]
      ]
