-- ===== src/Identity/Sessions.antt =====
-- `MemorySessionStore` of identity/infrastructure/memory-identity.stores.ts, and `SessionRecord` of
-- identity/domain/identity.types.ts. Times that are compared or sorted are in milliseconds, where the
-- code has the texts of dates, which sort in the same order; `none` is a text that is no date.
-- `revokedAt` stays a text: only its truth is tested.
use exchanger.Prelude.{
  ℕ, ◌+◌, String, Bool, true, false, ◌||◌, not, List, [], ◌∷◌, Option, none, some, ltb, ◌==◌,
  str_eq, if◌then◌else◌, drop,
}
use exchanger.Prelude.Dict.{Dict, get, put, values}
use exchanger.Auth.Roles.{UserRole}
use exchanger.Auth.Registry.{is_expired}

pub data AuthenticationLevel : Type 0 where
  password : AuthenticationLevel
  password_reauthenticated : AuthenticationLevel

pub record Device : Type 0 where
  pub label : String
  pub user_agent_digest : String
  pub ip_prefix_digest : String

pub record Correlation : Type 0 where
  pub created_by_correlation_id : String
  pub token_digest : Option String
  pub revoke_generation : Option String

pub record SessionRecord : Type 0 where
  pub session_id : String
  pub user_id : String
  pub roles : List UserRole
  pub scopes : List String
  pub auth_level : AuthenticationLevel
  pub created_at : ℕ
  pub last_seen_at : ℕ
  pub expires_at : Option ℕ
  pub absolute_expires_at : Option ℕ
  pub revoked_at : Option String
  pub device : Device
  pub correlation : Correlation
  pub security_version : ℕ

pub record StoredSession : Type 0 where
  pub digest : String
  pub session : SessionRecord

abbrev pub SessionStore : Type 0
SessionStore = Dict StoredSession

-- A text that is set is true unless it is empty.
abbrev pub is_set : Option String → Bool
is_set none = false
is_set (some String.[]) = false
is_set (some (String.◌∷◌ c s)) = true

unfoldable pub create : String → SessionRecord → SessionStore → SessionStore
create token_digest session sessions =
    put session.session_id (record { digest = token_digest; session = session }) sessions

-- `[...this.sessions.values()].find((item) => item.digest === tokenDigest)`
unfoldable pub first_with : String → List StoredSession → Option StoredSession
first_with token_digest [] = none
first_with token_digest (item ∷ items) =
    if str_eq item.digest token_digest then some item else first_with token_digest items

unfoldable pub find_by_token_digest : String → ℕ → SessionStore → Option SessionRecord
unfolding first_with values
find_by_token_digest token_digest now sessions = elim (first_with token_digest (values sessions)) [
  | none ↦ none
  | some item ↦
      if is_set item.session.revoked_at || is_expired item.session.expires_at now
      then none
      else some item.session
]

unfoldable pub touch : String → SessionRecord → SessionStore → Bool × SessionStore
touch token_digest session sessions = elim (get session.session_id sessions) [
  | none ↦ (false, sessions)
  | some current ↦
      if not (str_eq current.digest token_digest)
        || is_set current.session.revoked_at
        || not (current.session.security_version == session.security_version)
      then (false, sessions)
      else (true, create token_digest session sessions)
]

unfoldable pub sessions_of : String → List StoredSession → List SessionRecord
sessions_of user_id [] = []
sessions_of user_id (item ∷ items) =
    let rest = sessions_of user_id items in
    if str_eq item.session.user_id user_id then item.session ∷ rest else rest

-- The stable sort, with the latest first.
unfoldable pub insert_by_age : SessionRecord → List SessionRecord → List SessionRecord
insert_by_age a [] = a ∷ []
insert_by_age a (b ∷ sessions) =
    let rest = insert_by_age a sessions in
    if ltb a.created_at b.created_at then b ∷ rest else a ∷ b ∷ sessions

unfoldable pub sort_by_age : List SessionRecord → List SessionRecord
unfolding insert_by_age
sort_by_age [] = []
sort_by_age (a ∷ sessions) = insert_by_age a (sort_by_age sessions)

unfoldable pub list_by_user : String → SessionStore → List SessionRecord
unfolding sessions_of sort_by_age values
list_by_user user_id sessions = sort_by_age (sessions_of user_id (values sessions))

abbrev pub with_revocation : String → StoredSession → StoredSession
with_revocation revoked_at found = record found {
  session = record found.session { revoked_at = some revoked_at };
}

unfoldable pub revoke : String → String → String → SessionStore → Bool × SessionStore
revoke user_id session_id revoked_at sessions = elim (get session_id sessions) [
  | none ↦ (false, sessions)
  | some found ↦
      if not (str_eq found.session.user_id user_id) || is_set found.session.revoked_at
      then (false, sessions)
      else (true, put session_id (with_revocation revoked_at found) sessions)
]

abbrev pub count_of : Bool → ℕ
count_of true = 1
count_of false = 0

-- The loops of `revokeAll` and `trimToLimit` over the sessions of a list.
unfoldable pub revoke_each : String → String → List SessionRecord → SessionStore → ℕ × SessionStore
unfolding revoke
revoke_each user_id revoked_at [] sessions = (0, sessions)
revoke_each user_id revoked_at (session ∷ rest) sessions =
    let (revoked, sessions') = revoke user_id session.session_id revoked_at sessions in
    let (count, sessions'') = revoke_each user_id revoked_at rest sessions' in
    (count_of revoked + count, sessions'')

abbrev pub is_excepted : Option String → String → Bool
is_excepted none session_id = false
is_excepted (some except) session_id = str_eq session_id except

unfoldable pub all_but : Option String → List SessionRecord → List SessionRecord
all_but except [] = []
all_but except (session ∷ sessions) =
    let rest = all_but except sessions in
    if is_excepted except session.session_id then rest else session ∷ rest

unfoldable pub revoke_all : String → String → Option String → SessionStore → ℕ × SessionStore
unfolding revoke_each all_but list_by_user
revoke_all user_id revoked_at except sessions =
    revoke_each user_id revoked_at (all_but except (list_by_user user_id sessions)) sessions

unfoldable pub not_revoked : List SessionRecord → List SessionRecord
not_revoked [] = []
not_revoked (session ∷ sessions) =
    let rest = not_revoked sessions in if is_set session.revoked_at then rest else session ∷ rest

unfoldable pub trim_to_limit : String → ℕ → String → SessionStore → ℕ × SessionStore
unfolding revoke_each not_revoked list_by_user
trim_to_limit user_id maximum revoked_at sessions =
    revoke_each user_id revoked_at (drop maximum (not_revoked (list_by_user user_id sessions)))
      sessions
