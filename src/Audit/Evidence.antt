-- ===== src/Audit/Evidence.antt =====
-- `append` and `verifyIntegrity` of audit/domain/audit-log.ts over any entries and any chains.
use exchanger.Prelude.{
  ℕ, ◌+◌, ◌≡◌, refl, sym, ◌∙◌, ap, String, true, List, [], ◌∷◌, ◌++◌, arith, ==_iff, str_eq_iff,
  length,
}
use exchanger.Audit.Chain.{
  AuditBody, AuditRecord, AuditEntry, genesis, last_hash, new_record, append, verify_from,
  verify_integrity,
}

-- What the chain protects of a record: all but its id.
abbrev pub bodies : {D : Type 0} → List (AuditRecord D) → List (AuditBody D)
bodies [] = []
bodies (r ∷ rs) = r.body ∷ bodies rs

module _ {D : Type 0} (hash : AuditBody D → String) where
  unfoldable pub append_all : List (AuditEntry D) → List (AuditRecord D) → List (AuditRecord D)
  append_all [] records = records
  append_all (entry ∷ entries) records = append_all entries (append hash entry records)

  verify_from-append :
      (records : List (AuditRecord D)) (r : AuditRecord D) (sequence : ℕ) (previous : String)
      → verify_from hash sequence previous records ≡ true
      → r.body.sequence ≡ length records + sequence
      → r.body.previous_hash ≡ last_hash previous records
      → r.hash ≡ hash r.body
      → verify_from hash sequence previous (records ++ r ∷ []) ≡ true
  unfolding verify_from last_hash
  verify_from-append [] r sequence previous h a b c = ground (
    arith,
    ==_iff r.body.sequence sequence,
    str_eq_iff r.body.previous_hash previous,
    str_eq_iff r.hash (hash r.body),
  )
  verify_from-append (x ∷ xs) r sequence previous h a b c =
      ground (arith, verify_from-append xs r (sequence + 1) x.hash)

  append-verify_integrity :
      (entry : AuditEntry D) (records : List (AuditRecord D))
      → verify_integrity hash records ≡ true
      → verify_integrity hash (append hash entry records) ≡ true
  unfolding verify_integrity append
  append-verify_integrity entry records h =
      verify_from-append records
        (new_record hash entry (length records + 1) (last_hash genesis records)) 1 genesis h refl
        refl refl

  -- Appending any records to an intact log, such as the empty one, leaves it intact.
  pub append_all-verify_integrity :
      (entries : List (AuditEntry D)) (records : List (AuditRecord D))
      → verify_integrity hash records ≡ true
      → verify_integrity hash (append_all entries records) ≡ true
  unfolding append_all
  append_all-verify_integrity [] records h = h
  append_all-verify_integrity (entry ∷ entries) records h =
      append_all-verify_integrity entries (append hash entry records)
        (append-verify_integrity entry records h)

  -- No two bodies at one place of two logs have the same hash, unless they are the same.
  abbrev pub CollisionFree : List (AuditRecord D) → List (AuditRecord D) → Type 0
  CollisionFree (x ∷ xs) (y ∷ ys) =
      (hash x.body ≡ hash y.body → x.body ≡ y.body) × CollisionFree xs ys
  CollisionFree _ _ = Unit

  verified_head :
      (x : AuditRecord D) (xs : List (AuditRecord D)) (sequence : ℕ) (previous : String)
      → verify_from hash sequence previous (x ∷ xs) ≡ true
      → (x.hash ≡ hash x.body)
        × (x.body.previous_hash ≡ previous)
        × (verify_from hash (sequence + 1) x.hash xs ≡ true)
  unfolding verify_from
  verified_head x xs sequence previous h =
      ground (arith, str_eq_iff x.hash (hash x.body), str_eq_iff x.body.previous_hash previous)

  chains_agree :
      (xs ys : List (AuditRecord D)) (sequence : ℕ) (p q : String)
      → CollisionFree xs ys
      → verify_from hash sequence p xs ≡ true
      → verify_from hash sequence q ys ≡ true
      → length xs ≡ length ys
      → last_hash p xs ≡ last_hash q ys
      → (bodies xs ≡ bodies ys) × (p ≡ q)
  unfolding last_hash
  chains_agree [] [] sequence p q free h k l e = (refl, e)
  chains_agree [] (y ∷ ys) sequence p q free h k l e = absurd (omega (arith, l))
  chains_agree (x ∷ xs) [] sequence p q free h k l e = absurd (omega (arith, l))
  chains_agree (x ∷ xs) (y ∷ ys) sequence p q free h k l e =
      let a = verified_head x xs sequence p h in
      let b = verified_head y ys sequence q k in
      let rest : (bodies xs ≡ bodies ys) × (x.hash ≡ y.hash) =
        chains_agree xs ys (sequence + 1) x.hash y.hash free.1 a.2 b.2 (omega (arith, l)) e in
      let same : x.body ≡ y.body = free.0 (sym a.0 ∙ rest.1 ∙ b.0) in
      (cc, sym a.1 ∙ ap (λ (t : AuditBody D). t.previous_hash) same ∙ b.1)

  -- Two intact logs of the same length that end in the same hash hold the same records, up to the
  -- ids, if different bodies at one place of both have different hashes.
  pub verify_integrity-bodies :
      (xs ys : List (AuditRecord D))
      → CollisionFree xs ys
      → verify_integrity hash xs ≡ true
      → verify_integrity hash ys ≡ true
      → length xs ≡ length ys
      → last_hash genesis xs ≡ last_hash genesis ys
      → bodies xs ≡ bodies ys
  unfolding verify_integrity
  verify_integrity-bodies xs ys free h k l e = (chains_agree xs ys 1 genesis genesis free h k l e).0

  -- The id of a record with another text in its place.
  abbrev pub with_ids : String → List (AuditRecord D) → List (AuditRecord D)
  with_ids text [] = []
  with_ids text (r ∷ rs) = record r { id = text } ∷ with_ids text rs

  verify_from-with_ids :
      (text : String) (rs : List (AuditRecord D)) (sequence : ℕ) (previous : String)
      → verify_from hash sequence previous (with_ids text rs)
        ≡ verify_from hash sequence previous rs
  unfolding verify_from
  verify_from-with_ids text [] sequence previous = refl
  verify_from-with_ids text (r ∷ rs) sequence previous =
      ground (arith, verify_from-with_ids text rs (sequence + 1) r.hash)

  -- The ids of the records are not protected: with any text in place of the ids, a log is intact
  -- exactly if it was before.
  pub verify_integrity-with_ids :
      (text : String) (rs : List (AuditRecord D))
      → verify_integrity hash (with_ids text rs) ≡ verify_integrity hash rs
  unfolding verify_integrity
  verify_integrity-with_ids text rs = verify_from-with_ids text rs 1 genesis
