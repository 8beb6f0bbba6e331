-- ===== src/HumanAuth/Calls.antt =====
-- Sequences of calls of `HumanAuthService` (auth/application/human-auth.service.ts), and the versions of
-- the sessions that they leave.
use exchanger.Prelude.{
  ℕ, ◌+◌, ◌*◌, ◌≡◌, inl, inr, String, Bool, false, List, [], ◌∷◌, Option, none, some, arith, min,
  Bool-cases, Option-cases,
}
use exchanger.Prelude.Dict.{get}
use exchanger.Identity.Sessions.{SessionRecord, find_by_token_digest, touch}
use exchanger.Identity.Users.{UserRecord, ChallengeKind, find_by_id}
use exchanger.HumanAuth.Service.{HumanAuth, HumanPrincipal, SessionContext, Fresh, Ports}
use exchanger.HumanAuth.Login.{
  register, login, live_session, refresh, authenticate_digest, authenticate, is_malformed,
  current_user,
}
use exchanger.HumanAuth.Account.{
  logout, logout_all, update_profile, change_password, revoke_own_session, request_challenge,
  confirm_email, reset_password,
}
use exchanger.HumanAuth.Held.{IsHeldAs, touch-IsHeld, find_by_token_digest-IsHeldAs}
use exchanger.HumanAuth.Openings.{IsSafe}

pub data Call : Type 0 where
  registers : String → String → String → String → SessionContext → Fresh → Call
  logs_in : String → String → SessionContext → Fresh → Call
  authenticates : Option String → ℕ → Call
  logs_out : HumanPrincipal → String → ℕ → Call
  logs_out_all : HumanPrincipal → String → ℕ → Call
  updates_profile : HumanPrincipal → String → String → ℕ → Call
  changes_password : HumanPrincipal → String → String → Bool → SessionContext → Fresh → Call
  revokes_own : HumanPrincipal → String → String → ℕ → Call
  requests_challenge : ChallengeKind → String → String → Bool → ℕ → Call
  confirms_email : String → ℕ → Call
  resets_password : String → String → String → ℕ → Call

module _ (ports : Ports) where
  unfoldable pub call : Call → HumanAuth → HumanAuth
  call (registers user_id email secret name context fresh) state =
      (register ports user_id email secret name context fresh state).1
  call (logs_in email secret context fresh) state = (login ports email secret context fresh state).1
  call (authenticates token now) state = (authenticate ports token now state).1
  call (logs_out principal correlation_id now) state =
      (logout ports principal correlation_id now state).1
  call (logs_out_all principal correlation_id now) state =
      (logout_all ports principal correlation_id now state).1
  call (updates_profile principal name correlation_id now) state =
      (update_profile ports principal name correlation_id now state).1
  call (changes_password principal current_secret new_secret others context fresh) state =
      (change_password ports principal current_secret new_secret others context fresh state).1
  call (revokes_own principal session_id correlation_id now) state =
      (revoke_own_session ports principal session_id correlation_id now state).1
  call (requests_challenge kind email token delivered now) state =
      request_challenge ports kind email token delivered now state
  call (confirms_email token now) state = (confirm_email ports token now state).1
  call (resets_password token secret correlation_id now) state =
      (reset_password ports token secret correlation_id now state).1

  unfoldable pub call_all : List Call → HumanAuth → HumanAuth
  unfolding call
  call_all [] state = state
  call_all (c ∷ calls) state = call_all calls (call c state)

  module _ (dead : String → Bool) where
    -- A registration has a new id of a user, and no new session the id of a dead one.
    abbrev pub IsProper : Call → HumanAuth → Type 0
    IsProper (registers user_id email secret name context fresh) state =
        (get user_id state.users.users ≡ none) × (dead fresh.session_id ≡ false)
    IsProper (logs_in email secret context fresh) state = dead fresh.session_id ≡ false
    IsProper (changes_password principal current_secret new_secret others context fresh) state =
        dead fresh.session_id ≡ false
    IsProper _ state = Unit

    abbrev pub AreProper : List Call → HumanAuth → Type 0
    AreProper [] state = Unit
    AreProper (c ∷ calls) state = IsProper c state × AreProper calls (call c state)

    refresh-IsSafe :
        (digest : String) (now : ℕ) (session : SessionRecord) (user : UserRecord)
        (absolute : Option ℕ) (state : HumanAuth)
        → IsHeldAs dead state.users session.session_id session
        → IsSafe ports dead state
        → IsSafe ports dead (refresh ports digest now session user absolute state).1
    unfolding refresh
    refresh-IsSafe digest now session user none state fits safe = safe
    refresh-IsSafe digest now session user (some absolute) state fits (named, held) =
        let refreshed : SessionRecord = record session {
          last_seen_at = now;
          expires_at = some (min (now + ports.config.idle_ttl * 1000) absolute);
        } in
        let touched = touch-IsHeld dead state.users digest refreshed state.sessions fits held in
        elim (Bool-cases (touch digest refreshed state.sessions).0) [
          | inl done ↦ rw (done, refresh) (named, touched)
          | inr refused ↦ rw (refused, refresh) (named, touched)
        ]

    pub live_session-IsHeldAs :
        (digest : String) (now : ℕ) (state : HumanAuth) (session : SessionRecord)
        → IsSafe ports dead state
        → live_session ports digest now state.sessions ≡ some session
        → IsHeldAs dead state.users session.session_id session
    unfolding live_session
    live_session-IsHeldAs digest now state session (named, held) got =
        elim (Option-cases (find_by_token_digest digest now state.sessions)) [
          | inl missing ↦ absurd (ground (arith, missing, got))
          | inr (s, found) ↦
              let e : s ≡ session = ground (arith, found, got) in
              rw (← e) (
                find_by_token_digest-IsHeldAs dead state.users digest now state.sessions s held
                  found)
        ]

    authenticate_digest-IsSafe :
        (digest : String) (now : ℕ) (state : HumanAuth)
        → IsSafe ports dead state
        → IsSafe ports dead (authenticate_digest ports digest now state).1
    unfolding authenticate_digest
    authenticate_digest-IsSafe digest now state safe =
        elim (Option-cases (live_session ports digest now state.sessions)) [
          | inl missing ↦ rw (missing, authenticate_digest) safe
          | inr (session, found) ↦
              let fits = live_session-IsHeldAs digest now state session safe found in
              let owner = current_user ports (find_by_id session.user_id state.users) session in
              elim (Option-cases owner) [
                | inl stale ↦ rw (found, stale, authenticate_digest) safe
                | inr (user, current) ↦
                    rw (found, current, authenticate_digest)
                      (refresh-IsSafe digest now session user session.absolute_expires_at state fits
                        safe)
              ]
        ]

    pub authenticate-IsSafe :
        (token : Option String) (now : ℕ) (state : HumanAuth)
        → IsSafe ports dead state
        → IsSafe ports dead (authenticate ports token now state).1
    unfolding authenticate
    authenticate-IsSafe none now state safe = safe
    authenticate-IsSafe (some raw) now state safe =
        let checked = authenticate_digest-IsSafe (ports.digest raw "session") now state safe in
        elim (Bool-cases (is_malformed ports (some raw))) [
          | inl malformed ↦ rw (malformed, authenticate) safe
          | inr sound ↦ rw (sound, authenticate) checked
        ]
