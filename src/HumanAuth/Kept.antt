-- ===== src/HumanAuth/Kept.antt =====
-- What every call of `HumanAuthService` (auth/application/human-auth.service.ts) keeps of the versions of
-- the sessions.
use exchanger.Prelude.{
  ℕ, ◌+◌, ◌*◌, inl, inr, String, Bool, List, [], ◌∷◌, Option, none, some, Bool-cases, Option-cases,
  trim,
}
use exchanger.Prelude.Exec.{>>=-keeps, >>-keeps, pure, or_raise, ◌>>=◌, ◌>>◌}
use exchanger.Identity.Sessions.{revoke}
use exchanger.Identity.Users.{
  email_verify, consume_challenge, mark_email_verified, complete_password_reset, update_name,
  UserRecord, ChallengeKind, find_by_email,
}
use exchanger.HumanAuth.Service.{
  challenge_invalid, HumanAuth, HumanPrincipal, Ports, on_users, security_event,
}
use exchanger.HumanAuth.Login.{}
use exchanger.HumanAuth.Account.{
  logout, logout_all, revoke_all_sessions, update_profile, revoke_own_session, request_challenge,
  confirm_email, reset_password,
}
use exchanger.HumanAuth.Held.{revoke-IsHeld}
use exchanger.Identity.Challenges as UserCalls
use exchanger.HumanAuth.Openings.{
  IsSafe, users_step, revoke_all_sessions-IsSafe, login-IsSafe, register-IsSafe,
}
use exchanger.HumanAuth.Renewal.{change_password-IsSafe}
use exchanger.HumanAuth.Calls.{
  Call, registers, logs_in, authenticates, logs_out, logs_out_all, updates_profile,
  changes_password, revokes_own, requests_challenge, confirms_email, resets_password, call,
  call_all, IsProper, AreProper, authenticate-IsSafe,
}

module _ (ports : Ports) (dead : String → Bool) where
  revoke-IsSafe :
      (user_id session_id revoked_at : String) (state : HumanAuth)
      → IsSafe ports dead state
      → IsSafe ports dead
          (record state { sessions = (revoke user_id session_id revoked_at state.sessions).1 })
  revoke-IsSafe user_id session_id revoked_at state (named, held) =
      (named, revoke-IsHeld dead state.users user_id session_id revoked_at state.sessions held)

  revoke_own_session-IsSafe :
      (principal : HumanPrincipal) (session_id correlation_id : String) (now : ℕ)
      (state : HumanAuth)
      → IsSafe ports dead state
      → IsSafe ports dead (revoke_own_session ports principal session_id correlation_id now state).1
  unfolding revoke_own_session security_event
  revoke_own_session-IsSafe principal session_id correlation_id now state safe =
      let time = ports.date_text now in
      let revoked = revoke-IsSafe principal.user_id session_id time state safe in
      elim (Bool-cases (revoke principal.user_id session_id time state.sessions).0) [
        | inl done ↦ rw (done, revoke_own_session) revoked
        | inr refused ↦ rw (refused, revoke_own_session) revoked
      ]

  request_challenge-IsSafe :
      (kind : ChallengeKind) (email token : String) (delivered : Bool) (now : ℕ) (state : HumanAuth)
      → IsSafe ports dead state
      → IsSafe ports dead (request_challenge ports kind email token delivered now state)
  unfolding request_challenge UserCalls.call
  request_challenge-IsSafe kind email token delivered now state safe =
      elim (Option-cases (find_by_email (ports.normalize_email email) state.users)) [
        | inl unknown ↦ rw (unknown, request_challenge) safe
        | inr (user, found) ↦
            let digest = ports.digest token "recovery" in
            let issuing =
              UserCalls.issues user.id kind digest
                (some (now + ports.config.recovery_ttl * 1000)) in
            let issued = users_step ports dead issuing state tt safe in
            let withdrawn =
              users_step ports dead (UserCalls.invalidates kind digest)
                (record state { users = UserCalls.call issuing state.users }) tt issued in
            elim (Bool-cases delivered) [
              | inl sent ↦ rw (found, sent, request_challenge) issued
              | inr lost ↦ rw (found, lost, request_challenge) withdrawn
            ]
      ]

  confirm_email-IsSafe :
      (token : String) (now : ℕ) (state : HumanAuth)
      → IsSafe ports dead state
      → IsSafe ports dead (confirm_email ports token now state).1
  unfolding confirm_email UserCalls.call
  confirm_email-IsSafe token now state safe =
      let digest = ports.digest token "recovery" in
      let consuming = UserCalls.consumes email_verify digest now in
      let consumed = users_step ports dead consuming state tt safe in
      let state' : HumanAuth = record state { users = UserCalls.call consuming state.users } in
      elim (Option-cases (consume_challenge email_verify digest now state.users).0) [
        | inl unknown ↦ rw (unknown, confirm_email) consumed
        | inr (user, found) ↦
            rw (found, confirm_email)
              (>>-keeps (IsSafe ports dead) (on_users (mark_email_verified user.id now)) (pure tt)
                (λ s h. users_step ports dead (UserCalls.verifies user.id now) s tt h) (λ s h. h)
                state' consumed)
      ]

  -- The rest of `resetPassword` once the challenge has been consumed.
  end_reset-IsSafe :
      (found : Option UserRecord) (correlation_id : String) (now : ℕ) (state : HumanAuth)
      → IsSafe ports dead state
      → IsSafe ports dead
          ((or_raise found challenge_invalid >>= λ user.
              revoke_all_sessions ports user.id now none
              >> security_event user.id "PASSWORD_RESET" correlation_id)
            state).1
  unfolding revoke_all_sessions security_event
  end_reset-IsSafe none correlation_id now state safe = safe
  end_reset-IsSafe (some user) correlation_id now state safe =
      revoke_all_sessions-IsSafe ports dead user.id now none state safe

  reset_password-IsSafe :
      (token secret correlation_id : String) (now : ℕ) (state : HumanAuth)
      → IsSafe ports dead state
      → IsSafe ports dead (reset_password ports token secret correlation_id now state).1
  unfolding reset_password UserCalls.call
  reset_password-IsSafe token secret correlation_id now state safe =
      let digest = ports.digest token "recovery" in
      >>=-keeps (IsSafe ports dead) (λ _ _. Unit)
        (on_users (complete_password_reset digest (ports.hash secret) now)) _
        (λ s h. users_step ports dead (UserCalls.resets digest (ports.hash secret) now) s tt h)
        (λ s found h done. tt) (λ found s h _. end_reset-IsSafe found correlation_id now s h) state
        safe

  update_profile-IsSafe :
      (principal : HumanPrincipal) (name correlation_id : String) (now : ℕ) (state : HumanAuth)
      → IsSafe ports dead state
      → IsSafe ports dead (update_profile ports principal name correlation_id now state).1
  unfolding update_profile security_event UserCalls.call
  update_profile-IsSafe principal name correlation_id now state safe =
      >>=-keeps (IsSafe ports dead) (λ _ _. Unit)
        (on_users (update_name principal.user_id (trim name) now)) _
        (λ s h. users_step ports dead (UserCalls.renames principal.user_id (trim name) now) s tt h)
        (λ s user h done. tt) (λ user s h _. h) state safe

  pub call-IsSafe :
      (c : Call) (state : HumanAuth)
      → IsProper ports dead c state
      → IsSafe ports dead state
      → IsSafe ports dead (call ports c state)
  unfolding call logout logout_all revoke_all_sessions security_event
  call-IsSafe (registers user_id email secret name context fresh) state (new, alive) safe =
      register-IsSafe ports dead user_id email secret name context fresh state new alive safe
  call-IsSafe (logs_in email secret context fresh) state alive safe =
      login-IsSafe ports dead email secret context fresh state alive safe
  call-IsSafe (authenticates token now) state proper safe =
      authenticate-IsSafe ports dead token now state safe
  call-IsSafe (logs_out principal correlation_id now) state proper safe =
      revoke-IsSafe principal.user_id principal.session_id (ports.date_text now) state safe
  call-IsSafe (logs_out_all principal correlation_id now) state proper safe =
      revoke_all_sessions-IsSafe ports dead principal.user_id now none state safe
  call-IsSafe (updates_profile principal name correlation_id now) state proper safe =
      update_profile-IsSafe principal name correlation_id now state safe
  call-IsSafe (changes_password principal current_secret new_secret others context fresh) state
        alive safe =
      change_password-IsSafe ports dead principal current_secret new_secret others context fresh
        state alive safe
  call-IsSafe (revokes_own principal session_id correlation_id now) state proper safe =
      revoke_own_session-IsSafe principal session_id correlation_id now state safe
  call-IsSafe (requests_challenge kind email token delivered now) state proper safe =
      request_challenge-IsSafe kind email token delivered now state safe
  call-IsSafe (confirms_email token now) state proper safe =
      confirm_email-IsSafe token now state safe
  call-IsSafe (resets_password token secret correlation_id now) state proper safe =
      reset_password-IsSafe token secret correlation_id now state safe

  pub call_all-IsSafe :
      (calls : List Call) (state : HumanAuth)
      → AreProper ports dead calls state
      → IsSafe ports dead state
      → IsSafe ports dead (call_all ports calls state)
  unfolding call_all
  call_all-IsSafe [] state proper safe = safe
  call_all-IsSafe (c ∷ calls) state proper safe =
      call_all-IsSafe calls (call ports c state) proper.1 (call-IsSafe c state proper.0 safe)
