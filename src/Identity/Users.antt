-- ===== src/Identity/Users.antt =====
-- `MemoryUserStore` of identity/infrastructure/memory-identity.stores.ts, and `UserRecord` of
-- identity/domain/identity.types.ts. The random id of a user and the time are arguments; a time is in
-- milliseconds, and the expiry of a challenge `none` where its text is no date.
use Prim.Native.Char.{code}
use exchanger.Prelude.{
  ℕ, ◌+◌, String, Bool, true, false, ◌&&◌, ◌||◌, List, [], ◌∷◌, Option, none, some, concat, leb,
  ◌==◌, str_eq, if◌then◌else◌,
}
use exchanger.Prelude.Dict.{Dict, get, has, put, remove}
use exchanger.Prelude.Exec.{Result, ok, err, Exec}
use exchanger.Auth.Roles.{UserRole, user}
use exchanger.Auth.Registry.{is_expired}

pub record UserRecord : Type 0 where
  pub id : String
  pub email_normalized : String
  pub name : String
  pub password_hash : String
  pub roles : List UserRole
  pub scopes : List String
  pub email_verified_at : Option ℕ
  pub password_reset_required : Bool
  pub security_version : ℕ
  pub created_at : ℕ
  pub updated_at : ℕ

pub data ChallengeKind : Type 0 where
  email_verify : ChallengeKind
  password_reset : ChallengeKind

pub record Challenge : Type 0 where
  pub user_id : String
  pub expires_at : Option ℕ
  pub consumed : Bool

pub record UserStore : Type 0 where
  pub users : Dict UserRecord
  pub user_id_by_email : Dict String
  pub challenges : Dict Challenge

pub data IdentityError : Type 0 where
  registration_failed : IdentityError
  user_not_found : IdentityError

abbrev pub new_user : String → String → String → String → ℕ → UserRecord
new_user id email_normalized name password_hash now = record {
  id = id;
  email_normalized = email_normalized;
  name = name;
  password_hash = password_hash;
  roles = user ∷ [];
  scopes =
      "profile:read" ∷ "profile:write" ∷ "sessions:manage" ∷ "trading:read" ∷ "trading:write" ∷ [];
  email_verified_at = none;
  password_reset_required = false;
  security_version = 1;
  created_at = now;
  updated_at = now;
}

unfoldable pub create :
    String → String → String → String → ℕ → Exec IdentityError UserStore UserRecord
create id email_normalized name password_hash now store =
    if has email_normalized store.user_id_by_email then (err registration_failed, store) else (
      ok (new_user id email_normalized name password_hash now),
      record store {
        users = put id (new_user id email_normalized name password_hash now) store.users;
        user_id_by_email = put email_normalized id store.user_id_by_email;
      },
    )

-- `id ? (this.users.get(id) ?? null) : null`
abbrev pub user_at : Option String → Dict UserRecord → Option UserRecord
user_at none users = none
user_at (some String.[]) users = none
user_at (some (String.◌∷◌ c s)) users = get (String.◌∷◌ c s) users

unfoldable pub find_by_email : String → UserStore → Option UserRecord
find_by_email email_normalized store =
    user_at (get email_normalized store.user_id_by_email) store.users

unfoldable pub find_by_id : String → UserStore → Option UserRecord
find_by_id user_id store = get user_id store.users

unfoldable pub mutate : String → (UserRecord → UserRecord) → Exec IdentityError UserStore UserRecord
mutate user_id operation store = elim (get user_id store.users) [
  | none ↦ (err user_not_found, store)
  | some u ↦ (ok (operation u), record store { users = put user_id (operation u) store.users })
]

unfoldable pub update_name : String → String → ℕ → Exec IdentityError UserStore UserRecord
unfolding mutate
update_name user_id name now = mutate user_id (λ u. record u { name = name; updated_at = now })

abbrev pub with_password : String → Bool → ℕ → UserRecord → UserRecord
with_password password_hash require_reset now u = record u {
  password_hash = password_hash;
  password_reset_required = require_reset;
  security_version = u.security_version + 1;
  updated_at = now;
}

unfoldable pub update_password :
    String → String → Bool → ℕ → Exec IdentityError UserStore UserRecord
unfolding mutate
update_password user_id password_hash require_reset now =
    mutate user_id (with_password password_hash require_reset now)

unfoldable pub rehash_password : String → String → String → ℕ → UserStore → UserStore
rehash_password user_id previous_hash password_hash now store = elim (get user_id store.users) [
  | none ↦ store
  | some u ↦
      if str_eq u.password_hash previous_hash
      then record store {
        users =
            put user_id (record u { password_hash = password_hash; updated_at = now }) store.users;
      }
      else store
]

unfoldable pub mark_email_verified : String → ℕ → Exec IdentityError UserStore UserRecord
unfolding mutate
mark_email_verified user_id now =
    mutate user_id (λ u. record u { email_verified_at = some now; updated_at = now })

-- `${kind}:`
unfoldable pub kind_prefix : ChallengeKind → String
kind_prefix email_verify = "EMAIL_VERIFY:"
kind_prefix password_reset = "PASSWORD_RESET:"

unfoldable pub challenge_key : ChallengeKind → String → String
unfolding kind_prefix
challenge_key kind digest = concat (kind_prefix kind) digest

-- `key.startsWith(prefix)`
unfoldable pub starts_with : String → String → Bool
starts_with String.[] key = true
starts_with (String.◌∷◌ c prefix) String.[] = false
starts_with (String.◌∷◌ c prefix) (String.◌∷◌ d key) = code c == code d && starts_with prefix key

-- The loop of `issueChallenge` and `completePasswordReset`.
unfoldable pub consume_all : String → String → Dict Challenge → Dict Challenge
unfolding starts_with
consume_all prefix user_id [] = []
consume_all prefix user_id ((key, challenge) ∷ challenges) =
    let rest = consume_all prefix user_id challenges in
    if starts_with prefix key && str_eq challenge.user_id user_id
    then (key, record challenge { consumed = true }) ∷ rest
    else (key, challenge) ∷ rest

abbrev pub fresh_challenge : String → Option ℕ → Challenge
fresh_challenge user_id expires_at = record {
  user_id = user_id;
  expires_at = expires_at;
  consumed = false;
}

unfoldable pub issue_challenge : String → ChallengeKind → String → Option ℕ → UserStore → UserStore
unfolding consume_all challenge_key
issue_challenge user_id kind digest expires_at store = record store {
  challenges =
      put (challenge_key kind digest) (fresh_challenge user_id expires_at)
        (consume_all (kind_prefix kind) user_id store.challenges);
}

unfoldable pub invalidate_challenge : ChallengeKind → String → UserStore → UserStore
unfolding challenge_key
invalidate_challenge kind digest store = elim (get (challenge_key kind digest) store.challenges) [
  | none ↦ store
  | some challenge ↦ record store {
    challenges =
        put (challenge_key kind digest) (record challenge { consumed = true }) store.challenges;
  }
]

unfoldable pub consume_challenge :
    ChallengeKind → String → ℕ → UserStore → Option UserRecord × UserStore
unfolding challenge_key
consume_challenge kind digest now store = elim (get (challenge_key kind digest) store.challenges) [
  | none ↦ (none, store)
  | some challenge ↦
      if challenge.consumed || is_expired challenge.expires_at now then (none, store) else (
        get challenge.user_id store.users,
        record store {
          challenges =
              put (challenge_key kind digest) (record challenge { consumed = true })
                store.challenges;
        },
      )
]

abbrev pub answered :
    Result IdentityError UserRecord × UserStore
    → Result IdentityError (Option UserRecord) × UserStore
answered (ok u, store) = (ok (some u), store)
answered (err e, store) = (err e, store)

abbrev pub reset_for :
    Option UserRecord → String → ℕ → Exec IdentityError UserStore (Option UserRecord)
reset_for none password_hash now store = (ok none, store)
reset_for (some u) password_hash now store = answered (
    update_password u.id password_hash false now (record store {
      challenges = consume_all (kind_prefix password_reset) u.id store.challenges;
    }))

unfoldable pub complete_password_reset :
    String → String → ℕ → Exec IdentityError UserStore (Option UserRecord)
unfolding consume_challenge update_password consume_all kind_prefix
complete_password_reset digest password_hash now store =
    let (found, store') = consume_challenge password_reset digest now store in
    reset_for found password_hash now store'

-- The loop of `cleanupExpiredChallenges`, over the entries that it has not seen.
unfoldable pub cleanup_from : ℕ → ℕ → ℕ → Dict Challenge → Dict Challenge → ℕ × Dict Challenge
cleanup_from limit now removed [] challenges = (removed, challenges)
cleanup_from limit now removed ((key, challenge) ∷ entries) challenges =
    let skip = cleanup_from limit now removed entries challenges in
    let delete = cleanup_from limit now (removed + 1) entries (remove key challenges) in
    if leb limit removed
    then (removed, challenges)
    else if challenge.consumed || is_expired challenge.expires_at now
    then delete
    else skip

unfoldable pub cleanup_expired_challenges : ℕ → ℕ → UserStore → ℕ × UserStore
unfolding cleanup_from
cleanup_expired_challenges limit now store =
    let (removed, challenges) = cleanup_from limit now 0 store.challenges store.challenges in
    (removed, record store { challenges = challenges })
