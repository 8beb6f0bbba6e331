-- ===== src/Identity/Tests.antt =====
-- Runs and concrete instances for Identity.
use exchanger.Prelude.{ℕ, ◌≡◌, ◌≢◌, refl, String, false, List, [], ◌∷◌, none, some}
use exchanger.Prelude.Dict.{get, has, put}
use exchanger.Prelude.Exec.{ok}
use exchanger.Auth.Roles.{user}
use exchanger.Identity.Sessions.{
  SessionRecord, password, SessionStore, find_by_token_digest, touch, list_by_user, trim_to_limit,
}
use exchanger.Identity.Revoked.{Call, creates, touches, call_all, revoke-find_by_token_digest}
use exchanger.Identity.Users.{
  UserRecord, UserStore, new_user, email_verify, password_reset, consume_challenge, fresh_challenge,
  complete_password_reset, with_password,
}
use exchanger.Identity.Challenges.{consume_challenge_once}
use exchanger.Identity.Resets.{empty_store, complete_password_reset-others}

abbrev session : String → ℕ → SessionRecord
session id created_at = record {
  session_id = id;
  user_id = "u-1";
  roles = user ∷ [];
  scopes = "profile:read" ∷ [];
  auth_level = password;
  created_at = created_at;
  last_seen_at = created_at;
  expires_at = some 9000;
  absolute_expires_at = some 9000;
  revoked_at = none;
  device = record { label = "laptop"; user_agent_digest = "ua"; ip_prefix_digest = "ip" };
  correlation = record {
    created_by_correlation_id = "c-1";
    token_digest = none;
    revoke_generation = none;
  };
  security_version = 1;
}

abbrev opened : List Call
opened = creates "t-1" (session "s-1" 100) ∷ creates "t-2" (session "s-2" 200) ∷ []

abbrev renewed : List Call
renewed = touches "t-1" (session "s-1" 100) ∷ creates "t-3" (session "s-3" 300) ∷ []

-- The session was found before.
found_before : find_by_token_digest "t-1" 500 (call_all opened []) ≡ some (session "s-1" 100)
unfolding call_all find_by_token_digest exchanger.Identity.Sessions.create put
found_before = refl

revoke-find_by_token_digest_example :
    let revoked = exchanger.Identity.Sessions.revoke "u-1" "s-1" "2026" (call_all opened []) in
    let after = call_all renewed revoked.1 in
    (find_by_token_digest "t-1" 500 after ≢ some (session "s-1" 100))
    × (touch "t-1" (session "s-1" 100) after ≡ (false, after))
unfolding call_all exchanger.Identity.Sessions.revoke get exchanger.Identity.Sessions.create put
revoke-find_by_token_digest_example =
    revoke-find_by_token_digest opened renewed "u-1" "s-1" "2026" "t-1" 500 (session "s-1" 100) refl
      refl (tt, (refl, tt)) refl

abbrev registered : List exchanger.Identity.Challenges.Call
registered =
    exchanger.Identity.Challenges.creates "u-1" "a@b.c" "Ann" "h-1" 100
    ∷ exchanger.Identity.Challenges.issues "u-1" password_reset "d-1" (some 9000)
    ∷ []

abbrev ann : UserRecord
ann = new_user "u-1" "a@b.c" "Ann" "h-1" 100

abbrev store : UserStore
store = record {
  users = ("u-1", ann) ∷ [];
  user_id_by_email = ("a@b.c", "u-1") ∷ [];
  challenges = ("PASSWORD_RESET:d-1", fresh_challenge "u-1" (some 9000)) ∷ [];
}

consume_challenge_once_example :
    let after = (consume_challenge password_reset "d-1" 500 store).1 in
    consume_challenge password_reset "d-1" 600 after ≡ (none, after)
unfolding exchanger.Identity.Challenges.call_all consume_challenge get
consume_challenge_once_example =
    consume_challenge_once password_reset "d-1" 500 600 store ann [] refl tt

-- The challenge that a reset used, after a rename.
complete_password_reset-others_example :
    let reset =
      complete_password_reset "d-1" "h-2" 500
        (exchanger.Identity.Challenges.call_all registered empty_store) in
    let after =
      exchanger.Identity.Challenges.call_all
        (exchanger.Identity.Challenges.renames "u-1" "Anna" 600 ∷ [])
        reset.1 in
    complete_password_reset "d-1" "h-3" 700 after ≡ (ok none, after)
unfolding exchanger.Identity.Challenges.call_all complete_password_reset get
    exchanger.Identity.Users.issue_challenge put exchanger.Identity.Users.create has
complete_password_reset-others_example =
    complete_password_reset-others registered
      (exchanger.Identity.Challenges.renames "u-1" "Anna" 600 ∷ []) "d-1" "d-1" "h-2" "h-3" 500 700
      (with_password "h-2" false 500 ann) (fresh_challenge "u-1" (some 9000)) refl refl refl
      (tt, tt)
