-- ===== src/HumanAuth/Tests.antt =====
-- Runs and concrete instances for HumanAuth. The hash and the digest of these tests mark the text.
use exchanger.Prelude.{
  ℕ, ◌≡◌, ◌≢◌, refl, String, Bool, true, false, List, [], ◌∷◌, Option, none, some, concat, str_eq,
  arith,
}
use exchanger.Prelude.Dict.{get}
use exchanger.Prelude.Exec.{ok}
use exchanger.Identity.Sessions.{StoredSession, password, password_reauthenticated}
use exchanger.Identity.Users.{new_user, with_password, UserRecord}
use exchanger.HumanAuth.Service.{
  HumanAuth, HumanPrincipal, SessionContext, SessionIssueResult, Fresh, Ports, public_user,
  public_session,
}
use exchanger.HumanAuth.Login.{new_session, authenticate}
use exchanger.HumanAuth.Account.{change_password}
use exchanger.HumanAuth.Calls.{Call, registers, logs_in, call_all}
use exchanger.HumanAuth.Openings.{IsSafe}
use exchanger.HumanAuth.Stale.{nothing_dead, change_password-authenticate}

abbrev ports : Ports
ports = record {
  config = record {
    dummy_password_hash = "";
    idle_ttl = 1800;
    absolute_ttl = 604800;
    recovery_ttl = 900;
    max_sessions = 10;
  };
  hash = concat "h:";
  verify = λ secret hash. str_eq (concat "h:" secret) hash;
  needs_rehash = λ hash. false;
  digest = λ value purpose. concat purpose value;
  normalize_email = λ email. email;
  date_text = λ now. "2026";
}

abbrev empty : HumanAuth
empty = record {
  users = record { users = []; user_id_by_email = []; challenges = [] };
  sessions = [];
  security_events = [];
}

abbrev context : SessionContext
context = record { correlation_id = "c-1"; device_label = "laptop"; user_agent = "ua"; ip = "ip" }

abbrev fresh : String → ℕ → Fresh
fresh id now = record {
  session_id = id;
  token = concat "0123456789012345678901234567890123456789" id;
  now = now;
}

abbrev ann : UserRecord
ann = new_user "u-1" "ann@b.c" "Ann" "h:one" 1000

abbrev principal : HumanPrincipal
principal = record {
  session_id = "s-1";
  user_id = "u-1";
  roles = ann.roles;
  scopes = ann.scopes;
  auth_level = password;
}

abbrev registered : List Call
registered = registers "u-1" "ann@b.c" "one" " Ann " context (fresh "s-1" 1000) ∷ []

abbrev token : Option String
token = some "0123456789012345678901234567890123456789s-1"

abbrev answer : SessionIssueResult
answer =
    let updated = with_password "h:two" false 2000 ann in
    record {
      token = (fresh "s-2" 2000).token;
      user = public_user updated;
      session =
          public_session
            (new_session ports updated context password_reauthenticated (fresh "s-2" 2000)) true;
    }

empty-IsSafe : IsSafe ports nothing_dead empty
unfolding get
empty-IsSafe = (λ k u found. cc, tt)

accepted_before : (authenticate ports token 1500 (call_all ports registered empty)).0 ≡ ok principal
unfolding call_all authenticate exchanger.Identity.Sessions.find_by_token_digest
    exchanger.HumanAuth.Login.register exchanger.Identity.Users.create exchanger.Prelude.Dict.has
    get exchanger.Identity.Sessions.trim_to_limit exchanger.Identity.Sessions.create
    exchanger.Prelude.Dict.put exchanger.Identity.Users.find_by_id exchanger.Identity.Sessions.touch
accepted_before = refl

-- The current session is lost too, though the others were not to be logged out.
change_password-authenticate_example :
    let changed =
      change_password ports principal "one" "two" false context
        (fresh "s-2" 2000)
        (call_all ports registered empty) in
    let later = logs_in "ann@b.c" "two" context (fresh "s-3" 2500) ∷ [] in
    (authenticate ports token 3000 (call_all ports later changed.1)).0 ≢ ok principal
unfolding call_all change_password get exchanger.HumanAuth.Login.register
    exchanger.Identity.Users.create exchanger.Prelude.Dict.has exchanger.Prelude.Dict.put
    exchanger.Identity.Users.update_password exchanger.Prelude.trim
    exchanger.Identity.Sessions.trim_to_limit exchanger.Identity.Sessions.create
change_password-authenticate_example =
    change_password-authenticate ports empty registered
      (logs_in "ann@b.c" "two" context (fresh "s-3" 2500) ∷ []) principal principal "one" "two"
      false context (fresh "s-2" 2000) answer "s-1"
      (record {
        digest = "session0123456789012345678901234567890123456789s-1";
        session = new_session ports ann context password (fresh "s-1" 1000);
      })
      token 3000 empty-IsSafe ((refl, refl), tt) refl refl refl refl (refl, tt) refl
