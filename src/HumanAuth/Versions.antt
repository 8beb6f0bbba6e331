-- ===== src/HumanAuth/Versions.antt =====
-- The security version of a user in `MemoryUserStore` (identity/infrastructure/memory-identity.stores.ts)
-- never goes back.
use exchanger.Prelude.{
  ℕ, ◌≡◌, ◌≤◌, refl, subst, inl, inr, String, false, Option, none, some, arith, str_eq, str_eq_iff,
  Bool-cases, Option-cases, if◌then◌else◌,
}
use exchanger.Prelude.Dict.{get, has, put, get-put}
use exchanger.Identity.Users.{
  UserRecord, UserStore, password_reset, new_user, create, mutate, update_name, update_password,
  with_password, rehash_password, mark_email_verified, issue_challenge, invalidate_challenge,
  consume_challenge, complete_password_reset, reset_for, consume_all, kind_prefix,
  cleanup_expired_challenges,
}
use exchanger.Identity.Challenges.{
  Call, creates, renames, changes_password, rehashes, verifies, issues, invalidates, consumes,
  resets, cleans, call,
}
use exchanger.Identity.Resets.{answered-state, invalidate_challenge-users, consume_challenge-users}

abbrev pub version_at : Option UserRecord → ℕ
version_at none = 0
version_at (some user) = user.security_version

-- The version of a user, zero where there is none.
abbrev pub version_of : String → UserStore → ℕ
version_of id store = version_at (get id store.users)

abbrev pub Grows : UserStore → UserStore → Type 0
Grows before after = (id : String) → version_of id before ≤ version_of id after

-- A registration has a new id.
abbrev pub IsFresh : Call → UserStore → Type 0
IsFresh (creates id email_normalized name password_hash now) store = get id store.users ≡ none
IsFresh _ store = Unit

same-Grows : (before after : UserStore) → after.users ≡ before.users → Grows before after
same-Grows before after same id = rw same (omega arith)

put-Grows :
    (id : String) (user : UserRecord) (before after : UserStore)
    → version_of id before ≤ user.security_version
    → after.users ≡ put id user before.users
    → Grows before after
put-Grows id user before after more written k =
    let place = get-put id k user before.users in
    let at : get k after.users ≡ (if str_eq id k then some user else get k before.users) =
      rw written place in
    elim (Bool-cases (str_eq id k)) [
      | inl same ↦
          let e : id ≡ k = (str_eq_iff id k).0 same in
          rw (at, same) (subst (λ j. version_of j before ≤ user.security_version) e more)
      | inr other ↦ rw (at, other) (omega arith)
    ]

mutate-Grows :
    (id : String) (operation : UserRecord → UserRecord) (store : UserStore)
    → ((user : UserRecord) → user.security_version ≤ (operation user).security_version)
    → Grows store (mutate id operation store).1
unfolding mutate
mutate-Grows id operation store more = elim (Option-cases (get id store.users)) [
  | inl missing ↦ same-Grows store (mutate id operation store).1 (rw (missing, mutate) refl)
  | inr (user, found) ↦
      put-Grows id (operation user) store (mutate id operation store).1 (rw found (more user))
        (rw (found, mutate) refl)
]

create-Grows :
    (id email_normalized name password_hash : String) (now : ℕ) (store : UserStore)
    → get id store.users ≡ none
    → Grows store (create id email_normalized name password_hash now store).1
unfolding create
create-Grows id email_normalized name password_hash now store new =
    elim (Bool-cases (has email_normalized store.user_id_by_email)) [
      | inl known ↦
          same-Grows store (create id email_normalized name password_hash now store).1
            (rw (known, create) refl)
      | inr fresh ↦
          put-Grows id (new_user id email_normalized name password_hash now) store
            (create id email_normalized name password_hash now store).1 (rw new (omega arith))
            (rw (fresh, create) refl)
    ]

rehash_password-Grows :
    (id previous_hash password_hash : String) (now : ℕ) (store : UserStore)
    → Grows store (rehash_password id previous_hash password_hash now store)
unfolding rehash_password
rehash_password-Grows id previous_hash password_hash now store =
    elim (Option-cases (get id store.users)) [
      | inl missing ↦
          same-Grows store (rehash_password id previous_hash password_hash now store)
            (rw (missing, rehash_password) refl)
      | inr (user, found) ↦ elim (Bool-cases (str_eq user.password_hash previous_hash)) [
        | inl same ↦
            put-Grows id (record user { password_hash = password_hash; updated_at = now }) store
              (rehash_password id previous_hash password_hash now store) (rw found (omega arith))
              (rw (found, same, rehash_password) refl)
        | inr other ↦
            same-Grows store (rehash_password id previous_hash password_hash now store)
              (rw (found, other, rehash_password) refl)
      ]
    ]

reset_for-Grows :
    (found : Option UserRecord) (password_hash : String) (now : ℕ) (store : UserStore)
    → Grows store (reset_for found password_hash now store).1
unfolding update_password
reset_for-Grows none password_hash now store = λ k. omega arith
reset_for-Grows (some user) password_hash now store =
    let store' : UserStore = record store {
      challenges = consume_all (kind_prefix password_reset) user.id store.challenges;
    } in
    let updated =
      mutate-Grows user.id (with_password password_hash false now) store' (λ u. omega arith) in
    rw (answered-state (update_password user.id password_hash false now store')) updated

pub call-Grows : (c : Call) (store : UserStore) → IsFresh c store → Grows store (call c store)
unfolding call update_name update_password mark_email_verified issue_challenge
    complete_password_reset cleanup_expired_challenges
call-Grows (creates id email_normalized name password_hash now) store fresh =
    create-Grows id email_normalized name password_hash now store fresh
call-Grows (renames id name now) store fresh = mutate-Grows id _ store (λ u. omega arith)
call-Grows (changes_password id password_hash require_reset now) store fresh =
    mutate-Grows id _ store (λ u. omega arith)
call-Grows (rehashes id previous_hash password_hash now) store fresh =
    rehash_password-Grows id previous_hash password_hash now store
call-Grows (verifies id now) store fresh = mutate-Grows id _ store (λ u. omega arith)
call-Grows (issues id kind digest expires_at) store fresh = λ k. omega arith
call-Grows (invalidates kind digest) store fresh =
    same-Grows store (invalidate_challenge kind digest store)
      (invalidate_challenge-users kind digest store)
call-Grows (consumes kind digest now) store fresh =
    same-Grows store (consume_challenge kind digest now store).1
      (consume_challenge-users kind digest now store)
call-Grows (resets digest password_hash now) store fresh =
    let consumed = consume_challenge password_reset digest now store in
    let rest = reset_for-Grows consumed.0 password_hash now consumed.1 in
    λ k. omega (
      arith,
      rest k,
      same-Grows store consumed.1 (consume_challenge-users password_reset digest now store) k,
    )
call-Grows (cleans limit now) store fresh = λ k. omega arith
