-- ===== src/HumanAuth/Service.antt =====
-- `HumanAuthService` of auth/application/human-auth.service.ts. The password hasher, the digest, the
-- normal form of an email and the text of a date are parameters; random ids and tokens, the time, and
-- whether a delivery succeeded are arguments. The calls of the audit port are kept as a list. Logs, the
-- padding of the response time and the decoy delivery to an unknown email are left out.
use exchanger.Prelude.{ℕ, String, Bool, true, false, List, [], ◌∷◌, ◌++◌, Option, none, some}
use exchanger.Prelude.Exec.{Result, ok, err, Exec, or_raise, modify}
use exchanger.Auth.Roles.{UserRole}
use exchanger.Identity.Sessions.{SessionRecord, SessionStore, AuthenticationLevel}
use exchanger.Identity.Users.{UserRecord, UserStore, IdentityError, find_by_id}

pub record SessionContext : Type 0 where
  pub correlation_id : String
  pub device_label : String
  pub user_agent : String
  pub ip : String

pub record PublicUser : Type 0 where
  pub id : String
  pub email : String
  pub name : String
  pub email_verified : Bool
  pub created_at : ℕ

pub record PublicSession : Type 0 where
  pub session_id : String
  pub current : Bool
  pub created_at : ℕ
  pub last_seen_at : ℕ
  pub expires_at : Option ℕ
  pub revoked_at : Option String
  pub device_label : String

pub record SessionIssueResult : Type 0 where
  pub token : String
  pub user : PublicUser
  pub session : PublicSession

-- A principal of kind `HUMAN_SESSION`.
pub record HumanPrincipal : Type 0 where
  pub session_id : String
  pub user_id : String
  pub roles : List UserRole
  pub scopes : List String
  pub auth_level : AuthenticationLevel

pub record SecurityEvent : Type 0 where
  pub user_id : String
  pub action : String
  pub command_id : String

pub record HumanAuth : Type 0 where
  pub users : UserStore
  pub sessions : SessionStore
  pub security_events : List SecurityEvent

pub data HumanAuthError : Type 0 where
  identity : IdentityError → HumanAuthError
  invalid_credentials : HumanAuthError
  session_invalid : HumanAuthError
  reauth_required : HumanAuthError
  session_not_revocable : HumanAuthError
  challenge_invalid : HumanAuthError
  invalid_date : HumanAuthError

-- The configuration that the service reads, times in seconds.
pub record Config : Type 0 where
  pub dummy_password_hash : String
  pub idle_ttl : ℕ
  pub absolute_ttl : ℕ
  pub recovery_ttl : ℕ
  pub max_sessions : ℕ

abbrev pub Service : Type 0 → Type 0
Service A = Exec HumanAuthError HumanAuth A

abbrev pub wrapped : {A : Type 0} → Result IdentityError A → Result HumanAuthError A
wrapped (ok a) = ok a
wrapped (err e) = err (identity e)

-- A call of `this.users`.
abbrev pub on_users : {A : Type 0} → Exec IdentityError UserStore A → Service A
on_users m state =
    let (result, users) = m state.users in (wrapped result, record state { users = users })

abbrev pub public_user : UserRecord → PublicUser
public_user user = record {
  id = user.id;
  email = user.email_normalized;
  name = user.name;
  email_verified = elim user.email_verified_at [ none ↦ false | some _ ↦ true ];
  created_at = user.created_at;
}

abbrev pub public_session : SessionRecord → Bool → PublicSession
public_session session current = record {
  session_id = session.session_id;
  current = current;
  created_at = session.created_at;
  last_seen_at = session.last_seen_at;
  expires_at = session.expires_at;
  revoked_at = session.revoked_at;
  device_label = session.device.label;
}

unfoldable pub security_event : String → String → String → Service (Unit {0})
security_event user_id action command_id = modify (λ state. record state {
  security_events =
      state.security_events
      ++ record { user_id = user_id; action = action; command_id = command_id } ∷ [];
})

unfoldable pub require_user : String → Service UserRecord
unfolding find_by_id
require_user id state = or_raise (find_by_id id state.users) session_invalid state

-- What a request brings with it: the random id and token of a new session, and the time.
pub record Fresh : Type 0 where
  pub session_id : String
  pub token : String
  pub now : ℕ

-- The configuration, the password hasher, the digest of a value for a purpose, the normal form of an
-- email, and the text of a date.
pub record Ports : Type 0 where
  pub config : Config
  pub hash : String → String
  pub verify : String → String → Bool
  pub needs_rehash : String → Bool
  pub digest : String → String → String
  pub normalize_email : String → String
  pub date_text : ℕ → String
