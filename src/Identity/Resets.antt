-- ===== src/Identity/Resets.antt =====
-- What `completePasswordReset` and `issueChallenge` of `MemoryUserStore`
-- (identity/infrastructure/memory-identity.stores.ts) do to the other challenges of a user.
use Prim.Native.Char.{code}
use text.Mathlib.TextLemmas.{cons-append}
use exchanger.Prelude.{
  ℕ, ◌≡◌, refl, sym, ap, subst, ◌∙◌, inl, inr, String, true, false, ◌||◌, List, [], ◌∷◌, Option,
  none, some, arith, concat, ==_iff, str_eq, str_eq_iff, Bool-cases, Option-cases,
}
use exchanger.Prelude.Dict.{Dict, get, has, put, get-put}
use exchanger.Prelude.Dict.Each.{All}
use exchanger.Prelude.Exec.{Result, ok, err}
use exchanger.Auth.Registry.{is_expired}
use exchanger.Identity.Users.{
  UserRecord, UserStore, IdentityError, answered, ChallengeKind, password_reset, Challenge, create,
  new_user, update_name, update_password, rehash_password, mark_email_verified, mutate, kind_prefix,
  challenge_key, starts_with, consume_all, issue_challenge, invalidate_challenge, consume_challenge,
  complete_password_reset, reset_for, cleanup_expired_challenges, with_password,
}
use exchanger.Identity.Challenges.{
  Call, creates, renames, changes_password, rehashes, verifies, issues, invalidates, consumes,
  resets, cleans, call, call_all, IsSpent, IssuesOther, call_all-IsSpent,
  update_password-challenges, refused,
}

starts_with-concat : (prefix s : String) → starts_with prefix (concat prefix s) ≡ true
unfolding starts_with
starts_with-concat String.[] s = refl
starts_with-concat (String.◌∷◌ c prefix) s =
    rw (cons-append c prefix s)
      (ground (arith, ==_iff (code c) (code c), starts_with-concat prefix s))

consume_all-own :
    (prefix user_id key : String) (challenge : Challenge) (challenges : Dict Challenge)
    → starts_with prefix key ≡ true
    → challenge.user_id ≡ user_id
    → get key challenges ≡ some challenge
    → IsSpent key (consume_all prefix user_id challenges)
unfolding consume_all get
consume_all-own prefix user_id key challenge [] starts own found = refl
consume_all-own prefix user_id key challenge ((k, c) ∷ challenges) starts own found =
    elim (Bool-cases (str_eq k key)) [
      | inl here ↦
          ground (arith, starts, own, found, here, str_eq_iff k key, str_eq_iff c.user_id user_id)
      | inr other ↦ ground (
        arith,
        other,
        consume_all-own prefix user_id key challenge challenges starts own
            (ground (arith, other, found)),
      )
    ]

starts_with-challenge_key :
    (kind : ChallengeKind) (digest : String)
    → starts_with (kind_prefix kind) (challenge_key kind digest) ≡ true
unfolding challenge_key
starts_with-challenge_key kind digest = starts_with-concat (kind_prefix kind) digest

-- Every user is kept under the id of the record.
abbrev pub IsNamed : UserStore → Type 0
IsNamed store = (k : String) (u : UserRecord) → get k store.users ≡ some u → u.id ≡ k

put-IsNamed :
    (id : String) (u : UserRecord) (store after : UserStore)
    → IsNamed store
    → u.id ≡ id
    → after.users ≡ put id u store.users
    → IsNamed after
put-IsNamed id u store after named name written k v found =
    let place = get-put id k u store.users in
    let old = named k v in
    let at : get k (put id u store.users) ≡ some v = rw (← written) found in
    ground (arith, place, name, old, at, str_eq_iff id k)

mutate-IsNamed :
    (user_id : String) (operation : UserRecord → UserRecord) (store : UserStore)
    → ((u : UserRecord) → (operation u).id ≡ u.id)
    → IsNamed store
    → IsNamed (mutate user_id operation store).1
unfolding mutate
mutate-IsNamed user_id operation store keeps named = elim (Option-cases (get user_id store.users)) [
  | inl missing ↦ rw (missing, mutate) named
  | inr (u, found) ↦
      put-IsNamed user_id (operation u) store (mutate user_id operation store).1 named
        (keeps u ∙ named user_id u found) (rw (found, mutate) refl)
]

pub consume_challenge-users :
    (kind : ChallengeKind) (digest : String) (now : ℕ) (store : UserStore)
    → (consume_challenge kind digest now store).1.users ≡ store.users
unfolding consume_challenge
consume_challenge-users kind digest now store = ground arith

pub answered-state : (r : Result IdentityError UserRecord × UserStore) → (answered r).1 ≡ r.1
answered-state (ok u, store) = refl
answered-state (err e, store) = refl

pub invalidate_challenge-users :
    (kind : ChallengeKind) (digest : String) (store : UserStore)
    → (invalidate_challenge kind digest store).users ≡ store.users
unfolding invalidate_challenge
invalidate_challenge-users kind digest store = ground arith

rehash_password-IsNamed :
    (user_id previous_hash password_hash : String) (now : ℕ) (store : UserStore)
    → IsNamed store
    → IsNamed (rehash_password user_id previous_hash password_hash now store)
unfolding rehash_password
rehash_password-IsNamed user_id previous_hash password_hash now store named =
    elim (Option-cases (get user_id store.users)) [
      | inl missing ↦ rw (missing, rehash_password) named
      | inr (u, found) ↦ elim (Bool-cases (str_eq u.password_hash previous_hash)) [
        | inl same ↦
            put-IsNamed user_id (record u { password_hash = password_hash; updated_at = now }) store
              (rehash_password user_id previous_hash password_hash now store) named
              (named user_id u found) (rw (found, same, rehash_password) refl)
        | inr other ↦ rw (found, other, rehash_password) named
      ]
    ]

reset_for-IsNamed :
    (found : Option UserRecord) (password_hash : String) (now : ℕ) (store : UserStore)
    → IsNamed store
    → IsNamed (reset_for found password_hash now store).1
unfolding update_password
reset_for-IsNamed none password_hash now store named = named
reset_for-IsNamed (some u) password_hash now store named =
    let cleared = consume_all (kind_prefix password_reset) u.id store.challenges in
    let store' : UserStore = record store { challenges = cleared } in
    let updated =
      mutate-IsNamed u.id (with_password password_hash false now) store' (λ u. refl) named in
    rw (answered-state (update_password u.id password_hash false now store')) updated

pub call-IsNamed : (c : Call) (store : UserStore) → IsNamed store → IsNamed (call c store)
unfolding call create issue_challenge update_name update_password mark_email_verified
    complete_password_reset cleanup_expired_challenges
call-IsNamed (creates id email_normalized name password_hash now) store named =
    elim (Bool-cases (has email_normalized store.user_id_by_email)) [
      | inl known ↦ rw (known, call, create) named
      | inr new ↦
          put-IsNamed id (new_user id email_normalized name password_hash now) store
            (create id email_normalized name password_hash now store).1 named refl
            (rw (new, create) refl)
    ]
call-IsNamed (renames user_id name now) store named =
    mutate-IsNamed user_id _ store (λ u. refl) named
call-IsNamed (changes_password user_id password_hash require_reset now) store named =
    mutate-IsNamed user_id _ store (λ u. refl) named
call-IsNamed (rehashes user_id previous_hash password_hash now) store named =
    rehash_password-IsNamed user_id previous_hash password_hash now store named
call-IsNamed (verifies user_id now) store named = mutate-IsNamed user_id _ store (λ u. refl) named
call-IsNamed (issues user_id kind digest expires_at) store named = named
call-IsNamed (invalidates kind digest) store named =
    λ k u found. named k u (rw (← invalidate_challenge-users kind digest store) found)
call-IsNamed (consumes kind digest now) store named =
    λ k u found. named k u (rw (← consume_challenge-users kind digest now store) found)
call-IsNamed (resets digest password_hash now) store named =
    let consumed = consume_challenge password_reset digest now store in
    reset_for-IsNamed consumed.0 password_hash now consumed.1 (λ k u found.
      named k u (rw (← consume_challenge-users password_reset digest now store) found))
call-IsNamed (cleans limit now) store named = named

call_all-IsNamed :
    (calls : List Call) (store : UserStore) → IsNamed store → IsNamed (call_all calls store)
unfolding call_all
call_all-IsNamed [] store named = named
call_all-IsNamed (c ∷ calls) store named =
    call_all-IsNamed calls (call c store) (call-IsNamed c store named)

abbrev pub empty_store : UserStore
empty_store = record { users = []; user_id_by_email = []; challenges = [] }

-- A reset that answers with a user leaves no reset challenge of that user.
reset_for-others :
    (found : Option UserRecord) (key password_hash : String) (now : ℕ) (store : UserStore)
    (user : UserRecord) (challenge : Challenge)
    → IsNamed store
    → (reset_for found password_hash now store).0 ≡ ok (some user)
    → starts_with (kind_prefix password_reset) key ≡ true
    → get key store.challenges ≡ some challenge
    → challenge.user_id ≡ user.id
    → IsSpent key (reset_for found password_hash now store).1.challenges
unfolding update_password mutate
reset_for-others none key password_hash now store user challenge named h starts at own =
    absurd (ground (arith, h))
reset_for-others (some u) key password_hash now store user challenge named h starts at own =
    elim (Option-cases (get u.id store.users)) [
      | inl missing ↦ absurd (ground (arith, missing, h))
      | inr (old, found) ↦
          let name = named u.id old found in
          let mine : challenge.user_id ≡ u.id = ground (arith, own, name, found, h) in
          let spent =
            consume_all-own (kind_prefix password_reset) u.id key challenge store.challenges starts
              mine at in
          let store' : UserStore = record store {
            challenges = consume_all (kind_prefix password_reset) u.id store.challenges;
          } in
          let updated = update_password u.id password_hash false now store' in
          let same : (answered updated).1.challenges ≡ store'.challenges =
            ap (λ (t : UserStore). t.challenges) (answered-state updated)
            ∙ update_password-challenges key u.id password_hash false now store' in
          subst (IsSpent key) (sym same) spent
    ]

consume_challenge-keeps :
    (kind : ChallengeKind) (digest key : String) (now : ℕ) (store : UserStore)
    (challenge : Challenge)
    → get key store.challenges ≡ some challenge
    → (c : Challenge) × (get key (consume_challenge kind digest now store).1.challenges ≡ some c)
      × (c.user_id ≡ challenge.user_id)
unfolding consume_challenge
consume_challenge-keeps kind digest key now store challenge found =
    let k = challenge_key kind digest in
    elim (Option-cases (get k store.challenges)) [
      | inl missing ↦ (challenge, rw (missing, consume_challenge) found, refl)
      | inr (c, here) ↦ elim (Bool-cases (c.consumed || is_expired c.expires_at now)) [
        | inl dead ↦ (challenge, rw (here, dead, consume_challenge) found, refl)
        | inr live ↦
            let written = get-put k key (record c { consumed = true }) store.challenges in
            elim (Bool-cases (str_eq k key)) [
              | inl same ↦ (
                record c { consumed = true },
                rw (here, live, consume_challenge) (written ∙ (rw same refl)),
                ground (arith, found, here, same, str_eq_iff k key),
              )
              | inr other ↦
                  (challenge, rw (here, live, consume_challenge) (written ∙ (rw other found)), refl)
            ]
      ]
    ]

complete_password_reset-refused :
    (digest password_hash : String) (now : ℕ) (store : UserStore)
    → IsSpent (challenge_key password_reset digest) store.challenges
    → complete_password_reset digest password_hash now store ≡ (ok none, store)
unfolding complete_password_reset
complete_password_reset-refused digest password_hash now store h =
    rw (refused password_reset digest now store h, complete_password_reset) refl

-- In any history of a user store: once a password reset has answered with a user, every challenge for a
-- reset that was issued to that user before is refused and changes nothing, whatever calls come
-- between; unless it is issued again.
pub complete_password_reset-others :
    (before later : List Call) (digest other password_hash hash : String) (now again : ℕ)
    (user : UserRecord) (challenge : Challenge)
    → let store = call_all before empty_store in
      let reset = complete_password_reset digest password_hash now store in
      let after = call_all later reset.1 in
      reset.0 ≡ ok (some user)
      → get (challenge_key password_reset other) store.challenges ≡ some challenge
      → challenge.user_id ≡ user.id
      → All (IssuesOther (challenge_key password_reset other)) later
      → complete_password_reset other hash again after ≡ (ok none, after)
unfolding complete_password_reset get
complete_password_reset-others before later digest other password_hash hash now again user challenge
      h at own others =
    let store = call_all before empty_store in
    let key = challenge_key password_reset other in
    let consumed = consume_challenge password_reset digest now store in
    let named : IsNamed store = call_all-IsNamed before empty_store (λ k u found. cc) in
    let named' : IsNamed consumed.1 = λ k u found.
      named k u (rw (← consume_challenge-users password_reset digest now store) found) in
    let (c, kept, owner) =
      consume_challenge-keeps password_reset digest key now store challenge at in
    let spent =
      reset_for-others consumed.0 key password_hash now consumed.1 user c named' h
        (starts_with-challenge_key password_reset other) kept (owner ∙ own) in
    let reset = complete_password_reset digest password_hash now store in
    complete_password_reset-refused other hash again (call_all later reset.1)
      (call_all-IsSpent key later reset.1 others spent)
