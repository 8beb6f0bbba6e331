-- ===== src/Trading/Fencing.antt =====
-- Sequences of calls of trading/sequencer/memory-sequencer.store.ts, by the holder of a lease and others.
use exchanger.Prelude.{
  ℕ, ◌+◌, ◌<◌, ◌≡◌, refl, ◌∙◌, String, true, false, List, [], ◌∷◌, some, arith, str_eq, str_eq_iff,
  Bool-cases, Option-cases, inl, inr,
}
use exchanger.Prelude.Dict.{get, get-put, get-remove}
use exchanger.Prelude.Dict.Each.{All}
use exchanger.Trading.Leases.{
  new_lease, PartitionLease, DurableSnapshot, MemorySequencerStore, is_current, acquire, renew,
  reserve_sequence, complete_recovery, save_snapshot, graceful_shutdown, or_zero,
}

-- The calls of the store that change its state.
pub data LeaseCall (T : Type 0) : Type 0 where
  acquires : String → String → ℕ → ℕ → LeaseCall T
  renews : PartitionLease → ℕ → ℕ → LeaseCall T
  reserves : PartitionLease → LeaseCall T
  completes_recovery : PartitionLease → ℕ → LeaseCall T
  saves_snapshot : PartitionLease → ℕ → T → LeaseCall T
  shuts_down : PartitionLease → LeaseCall T

module _ {T : Type 0} where
  abbrev pub caller : LeaseCall T → String
  caller (acquires instrument_id owner_id ttl_ms now) = owner_id
  caller (renews lease ttl_ms now) = lease.owner_id
  caller (reserves lease) = lease.owner_id
  caller (completes_recovery lease sequence) = lease.owner_id
  caller (saves_snapshot lease version payload) = lease.owner_id
  caller (shuts_down lease) = lease.owner_id

  -- A call that reads the clock reads a time before this one. The others do not look at it.
  abbrev pub IsBefore : ℕ → LeaseCall T → Type 0
  IsBefore until (acquires instrument_id owner_id ttl_ms now) = now < until
  IsBefore until (renews lease ttl_ms now) = now < until
  IsBefore until _ = Unit

  -- A call of someone other than the holder of a lease, while the lease is valid
  pub record IsIntrusion (held : PartitionLease) (call : LeaseCall T) : Type 0 where
    pub other : str_eq held.owner_id (caller call) ≡ false
    pub valid : IsBefore held.lease_until call

  unfoldable pub perform : LeaseCall T → MemorySequencerStore T → MemorySequencerStore T
  unfolding acquire renew reserve_sequence complete_recovery save_snapshot graceful_shutdown
  perform (acquires instrument_id owner_id ttl_ms now) s =
      (acquire instrument_id owner_id ttl_ms now s).1
  perform (renews lease ttl_ms now) s = (renew lease ttl_ms now s).1
  perform (reserves lease) s = (reserve_sequence lease s).1
  perform (completes_recovery lease sequence) s = (complete_recovery lease sequence s).1
  perform (saves_snapshot lease version payload) s = (save_snapshot lease version payload s).1
  perform (shuts_down lease) s = (graceful_shutdown lease s).1

  unfoldable pub perform_all : List (LeaseCall T) → MemorySequencerStore T → MemorySequencerStore T
  unfolding perform
  perform_all [] s = s
  perform_all (call ∷ calls) s = perform_all calls (perform call s)

  -- The same lease, sequence and snapshot of one instrument.
  pub record SamePartition (i : String) (s t : MemorySequencerStore T) : Type 0 where
    pub lease : get i t.leases ≡ get i s.leases
    pub sequence : get i t.sequences ≡ get i s.sequences
    pub snapshot : get i t.snapshots ≡ get i s.snapshots

  acquire-SamePartition :
      (j owner : String) (ttl now : ℕ) (i : String) (s : MemorySequencerStore T)
      {held : PartitionLease}
      → get i s.leases ≡ some held
      → str_eq held.owner_id owner ≡ false
      → SamePartition i s (acquire j owner ttl now s).1
  unfolding acquire
  acquire-SamePartition j owner ttl now i s {held} h other = elim (Option-cases (get j s.leases)) [
    | inl unowned ↦ record {
      lease =
          ground (arith, str_eq_iff j i, get-put j i (new_lease j owner 1 (now + ttl)) s.leases);
      sequence = ground arith;
      snapshot = ground arith;
    }
    | inr (current, owned) ↦ record {
      lease = ground (
        arith,
        str_eq_iff j i,
        get-put j i (new_lease j owner current.fencing_epoch (now + ttl)) s.leases,
      );
      sequence = ground arith;
      snapshot = ground arith;
    }
  ]

  refused :
      (lease : PartitionLease) (i : String) (s : MemorySequencerStore T) {held : PartitionLease}
      → get i s.leases ≡ some held
      → str_eq held.owner_id lease.owner_id ≡ false
      → is_current lease (get lease.instrument_id s.leases) ≡ true
      → str_eq lease.instrument_id i ≡ false
  unfolding is_current
  refused lease i s {held} h other current = ground (arith, str_eq_iff lease.instrument_id i)

  perform-SamePartition :
      (call : LeaseCall T) (i : String) (s : MemorySequencerStore T) {held : PartitionLease}
      → get i s.leases ≡ some held
      → str_eq held.owner_id (caller call) ≡ false
      → SamePartition i s (perform call s)
  unfolding perform renew reserve_sequence complete_recovery save_snapshot graceful_shutdown
  perform-SamePartition (acquires j owner ttl now) i s h other =
      acquire-SamePartition j owner ttl now i s h other
  perform-SamePartition (renews lease ttl now) i s {held} h other =
      elim (Bool-cases (is_current lease (get lease.instrument_id s.leases))) [
        | inr stale ↦
            rw (stale, perform, renew) (record { lease = refl; sequence = refl; snapshot = refl })
        | inl current ↦
            rw (current, perform, renew)
              (acquire-SamePartition lease.instrument_id lease.owner_id ttl now i s h other)
      ]
  perform-SamePartition (reserves lease) i s {held} h other = record {
    lease = ground arith;
    sequence = ground (
      arith,
      refused lease i s h other,
      get-put lease.instrument_id i (or_zero (get lease.instrument_id s.sequences) + 1) s.sequences,
    );
    snapshot = ground arith;
  }
  perform-SamePartition (completes_recovery lease sequence) i s {held} h other = record {
    lease = ground arith;
    sequence =
        ground
          (arith, refused lease i s h other, get-put lease.instrument_id i sequence s.sequences);
    snapshot = ground arith;
  }
  perform-SamePartition (saves_snapshot lease version payload) i s {held} h other =
      let kept : DurableSnapshot T = record {
        version = version;
        instrument_id = lease.instrument_id;
        last_sequence = or_zero (get lease.instrument_id s.sequences);
        boundary_event_offset = 0;
        fencing_epoch = lease.fencing_epoch;
        payload = payload;
        checksum = "component-checksum";
      } in
      record {
        lease = ground arith;
        sequence = ground arith;
        snapshot =
            ground
              (arith, refused lease i s h other, get-put lease.instrument_id i kept s.snapshots);
      }
  perform-SamePartition (shuts_down lease) i s {held} h other = record {
    lease = ground (arith, refused lease i s h other, get-remove lease.instrument_id i s.leases);
    sequence = ground arith;
    snapshot = ground arith;
  }

  -- While a partition is leased to an owner and the lease has not expired at any time that a call
  -- reads, no calls of others, whatever tokens they hold and whatever they return or throw, change its
  -- lease, its sequence or its snapshot.
  pub perform_all-SamePartition :
      (calls : List (LeaseCall T)) (i : String) (s : MemorySequencerStore T) {held : PartitionLease}
      → get i s.leases ≡ some held
      → All (IsIntrusion held) calls
      → SamePartition i s (perform_all calls s)
  unfolding perform_all
  perform_all-SamePartition [] i s h others = record {
    lease = refl;
    sequence = refl;
    snapshot = refl;
  }
  perform_all-SamePartition (call ∷ calls) i s {held} h others =
      let first : SamePartition i s (perform call s) =
        perform-SamePartition call i s h others.0.other in
      let rest : SamePartition i (perform call s) (perform_all calls (perform call s)) =
        perform_all-SamePartition calls i (perform call s) (first.lease ∙ h) others.1 in
      record {
        lease = rest.lease ∙ first.lease;
        sequence = rest.sequence ∙ first.sequence;
        snapshot = rest.snapshot ∙ first.snapshot;
      }
