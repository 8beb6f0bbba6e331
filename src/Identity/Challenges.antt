-- ===== src/Identity/Challenges.antt =====
-- Sequences of calls of `MemoryUserStore` (identity/infrastructure/memory-identity.stores.ts), and
-- challenges that are spent.
use exchanger.Prelude.{
  ℕ, ◌+◌, ◌≡◌, refl, inl, inr, String, Bool, true, false, List, [], ◌∷◌, Option, none, some, arith,
  str_eq, str_eq_iff, Option-cases,
}
use exchanger.Prelude.Dict.{Dict, get, put, remove, get-put, get-remove}
use exchanger.Prelude.Dict.Each.{All}
use exchanger.Identity.Users.{
  UserRecord, UserStore, ChallengeKind, password_reset, Challenge, fresh_challenge, create,
  update_name, update_password, rehash_password, mark_email_verified, mutate, kind_prefix,
  challenge_key, consume_all, issue_challenge, invalidate_challenge, consume_challenge,
  complete_password_reset, reset_for, cleanup_from, cleanup_expired_challenges,
}

pub data Call : Type 0 where
  creates : String → String → String → String → ℕ → Call
  renames : String → String → ℕ → Call
  changes_password : String → String → Bool → ℕ → Call
  rehashes : String → String → String → ℕ → Call
  verifies : String → ℕ → Call
  issues : String → ChallengeKind → String → Option ℕ → Call
  invalidates : ChallengeKind → String → Call
  consumes : ChallengeKind → String → ℕ → Call
  resets : String → String → ℕ → Call
  cleans : ℕ → ℕ → Call

unfoldable pub call : Call → UserStore → UserStore
call (creates id email_normalized name password_hash now) store =
    (create id email_normalized name password_hash now store).1
call (renames user_id name now) store = (update_name user_id name now store).1
call (changes_password user_id password_hash require_reset now) store =
    (update_password user_id password_hash require_reset now store).1
call (rehashes user_id previous_hash password_hash now) store =
    rehash_password user_id previous_hash password_hash now store
call (verifies user_id now) store = (mark_email_verified user_id now store).1
call (issues user_id kind digest expires_at) store =
    issue_challenge user_id kind digest expires_at store
call (invalidates kind digest) store = invalidate_challenge kind digest store
call (consumes kind digest now) store = (consume_challenge kind digest now store).1
call (resets digest password_hash now) store =
    (complete_password_reset digest password_hash now store).1
call (cleans limit now) store = (cleanup_expired_challenges limit now store).1

unfoldable pub call_all : List Call → UserStore → UserStore
unfolding call
call_all [] store = store
call_all (c ∷ calls) store = call_all calls (call c store)

abbrev spent : Option Challenge → Bool
spent none = true
spent (some challenge) = challenge.consumed

-- The challenge of a key can be consumed no more.
abbrev pub IsSpent : String → Dict Challenge → Type 0
IsSpent key challenges = spent (get key challenges) ≡ true

abbrev pub IssuesOther : String → Call → Type 0
IssuesOther key (issues user_id kind digest expires_at) =
    str_eq (challenge_key kind digest) key ≡ false
IssuesOther key _ = Unit

module _ (key : String) where
  consume_all-IsSpent :
      (prefix user_id : String) (challenges : Dict Challenge)
      → IsSpent key challenges
      → IsSpent key (consume_all prefix user_id challenges)
  unfolding consume_all get
  consume_all-IsSpent prefix user_id [] h = refl
  consume_all-IsSpent prefix user_id ((k, challenge) ∷ challenges) h =
      ground (arith, h, consume_all-IsSpent prefix user_id challenges)

  put-IsSpent :
      (k : String) (challenge : Challenge) (challenges : Dict Challenge)
      → IsSpent key challenges
      → IsSpent key (put k (record challenge { consumed = true }) challenges)
  put-IsSpent k challenge challenges h =
      ground (arith, h, get-put k key (record challenge { consumed = true }) challenges)

  pub consume_challenge-IsSpent :
      (kind : ChallengeKind) (digest : String) (now : ℕ) (store : UserStore)
      → IsSpent key store.challenges
      → IsSpent key (consume_challenge kind digest now store).1.challenges
  unfolding consume_challenge
  consume_challenge-IsSpent kind digest now store h =
      let k = challenge_key kind digest in
      elim (Option-cases (get k store.challenges)) [
        | inl missing ↦ ground (arith, missing, h)
        | inr (challenge, found) ↦
            ground (arith, found, h, put-IsSpent k challenge store.challenges)
      ]

  pub update_password-challenges :
      (user_id password_hash : String) (require_reset : Bool) (now : ℕ) (store : UserStore)
      → (update_password user_id password_hash require_reset now store).1.challenges
        ≡ store.challenges
  unfolding update_password mutate
  update_password-challenges user_id password_hash require_reset now store = ground arith

  cleanup_from-IsSpent :
      (limit now removed : ℕ) (entries challenges : Dict Challenge)
      → IsSpent key challenges
      → IsSpent key (cleanup_from limit now removed entries challenges).1
  unfolding cleanup_from
  cleanup_from-IsSpent limit now removed [] challenges h = h
  cleanup_from-IsSpent limit now removed ((k, challenge) ∷ entries) challenges h = ground (
    arith,
    h,
    get-remove k key challenges,
    cleanup_from-IsSpent limit now removed entries challenges h,
    cleanup_from-IsSpent limit now (removed + 1) entries (remove k challenges),
  )

  reset_for-IsSpent :
      (found : Option UserRecord) (password_hash : String) (now : ℕ) (store : UserStore)
      → IsSpent key store.challenges
      → IsSpent key (reset_for found password_hash now store).1.challenges
  reset_for-IsSpent none password_hash now store h = h
  reset_for-IsSpent (some u) password_hash now store h =
      let cleared = consume_all (kind_prefix password_reset) u.id store.challenges in
      let consumed = consume_all-IsSpent (kind_prefix password_reset) u.id store.challenges h in
      let store' : UserStore = record store { challenges = cleared } in
      let kept = update_password-challenges u.id password_hash false now store' in
      ground (arith, consumed, kept)

  call-IsSpent :
      (c : Call) (store : UserStore)
      → IssuesOther key c
      → IsSpent key store.challenges
      → IsSpent key (call c store).challenges
  unfolding call create update_name rehash_password mark_email_verified mutate issue_challenge
      invalidate_challenge complete_password_reset cleanup_expired_challenges
  call-IsSpent (creates id email_normalized name password_hash now) store other h =
      ground (arith, h)
  call-IsSpent (renames user_id name now) store other h = ground (arith, h)
  call-IsSpent (changes_password user_id password_hash require_reset now) store other h =
      rw (update_password-challenges user_id password_hash require_reset now store) h
  call-IsSpent (rehashes user_id previous_hash password_hash now) store other h = ground (arith, h)
  call-IsSpent (verifies user_id now) store other h = ground (arith, h)
  call-IsSpent (issues user_id kind digest expires_at) store other h =
      let consumed = consume_all (kind_prefix kind) user_id store.challenges in
      let old : IsSpent key consumed =
        consume_all-IsSpent (kind_prefix kind) user_id store.challenges h in
      ground (
        arith,
        other,
        old,
        get-put (challenge_key kind digest) key (fresh_challenge user_id expires_at) consumed,
      )
  call-IsSpent (invalidates kind digest) store other h =
      let k = challenge_key kind digest in
      elim (Option-cases (get k store.challenges)) [
        | inl missing ↦ ground (arith, missing, h)
        | inr (challenge, found) ↦
            ground (arith, found, h, put-IsSpent k challenge store.challenges)
      ]
  call-IsSpent (consumes kind digest now) store other h =
      consume_challenge-IsSpent kind digest now store h
  call-IsSpent (resets digest password_hash now) store other h =
      let consumed = consume_challenge password_reset digest now store in
      reset_for-IsSpent consumed.0 password_hash now consumed.1
        (consume_challenge-IsSpent password_reset digest now store h)
  call-IsSpent (cleans limit now) store other h =
      cleanup_from-IsSpent limit now 0 store.challenges store.challenges h

  pub call_all-IsSpent :
      (calls : List Call) (store : UserStore)
      → All (IssuesOther key) calls
      → IsSpent key store.challenges
      → IsSpent key (call_all calls store).challenges
  unfolding call_all
  call_all-IsSpent [] store other h = h
  call_all-IsSpent (c ∷ calls) store other h =
      call_all-IsSpent calls (call c store) other.1 (call-IsSpent c store other.0 h)

pub refused :
    (kind : ChallengeKind) (digest : String) (now : ℕ) (store : UserStore)
    → IsSpent (challenge_key kind digest) store.challenges
    → consume_challenge kind digest now store ≡ (none, store)
unfolding consume_challenge
refused kind digest now store h =
    elim (Option-cases (get (challenge_key kind digest) store.challenges)) [
      | inl missing ↦ ground (arith, missing)
      | inr (challenge, found) ↦ ground (arith, found, h)
    ]

spends :
    (kind : ChallengeKind) (digest : String) (now : ℕ) (store : UserStore) (user : UserRecord)
    → (consume_challenge kind digest now store).0 ≡ some user
    → IsSpent (challenge_key kind digest) (consume_challenge kind digest now store).1.challenges
unfolding consume_challenge
spends kind digest now store user h =
    let k = challenge_key kind digest in
    elim (Option-cases (get k store.challenges)) [
      | inl missing ↦ absurd (ground (arith, missing, h))
      | inr (challenge, found) ↦ ground (
        arith,
        found,
        h,
        get-put k k (record challenge { consumed = true }) store.challenges,
        str_eq_iff k k,
      )
    ]

-- Once `consumeChallenge` has given the user of a challenge, the challenge is refused and changes nothing,
-- whatever calls come between; unless a challenge of the same kind and digest is issued again.
pub consume_challenge_once :
    (kind : ChallengeKind) (digest : String) (now again : ℕ) (store : UserStore) (user : UserRecord)
    (calls : List Call)
    → let after = call_all calls (consume_challenge kind digest now store).1 in
      (consume_challenge kind digest now store).0 ≡ some user
      → All (IssuesOther (challenge_key kind digest)) calls
      → consume_challenge kind digest again after ≡ (none, after)
consume_challenge_once kind digest now again store user calls h others =
    refused kind digest again _ (
      call_all-IsSpent (challenge_key kind digest) calls (consume_challenge kind digest now store).1
        others (spends kind digest now store user h))
