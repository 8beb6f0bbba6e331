-- ===== src/Trading/Leases.antt =====
-- trading/sequencer/memory-sequencer.store.ts: leases of partitions, with a fencing epoch. `Date.now()` is an
-- argument, in milliseconds; an error rejects or throws.
use exchanger.Prelude.{
  ℕ, ◌+◌, String, Bool, false, not, ◌||◌, Option, none, some, ◌==◌, str_eq, if◌then◌else◌,
}
use exchanger.Prelude.Dict.{Dict, get, put, remove}
use exchanger.Prelude.Exec.{ok, err, Exec}

pub record PartitionLease : Type 0 where
  pub instrument_id : String
  pub owner_id : String
  pub fencing_epoch : ℕ
  pub lease_until : ℕ
  pub recovery_required : Bool

-- The payload of a snapshot is a type `T`.
pub record DurableSnapshot (T : Type 0) : Type 0 where
  pub version : ℕ
  pub instrument_id : String
  pub last_sequence : ℕ
  pub boundary_event_offset : ℕ
  pub fencing_epoch : ℕ
  pub payload : T
  pub checksum : String

pub record MemorySequencerStore (T : Type 0) : Type 0 where
  pub leases : Dict PartitionLease
  pub sequences : Dict ℕ
  pub snapshots : Dict (DurableSnapshot T)

pub data LeaseError : Type 0 where
  partition_already_owned stale_fencing_token : LeaseError

abbrev pub or_zero : Option ℕ → ℕ
or_zero none = 0
or_zero (some n) = n

-- `assertLease` throws exactly if this is false.
unfoldable pub is_current : PartitionLease → Option PartitionLease → Bool
is_current lease none = false
is_current lease (some current) = not (
    not (str_eq current.owner_id lease.owner_id)
    || not (current.fencing_epoch == lease.fencing_epoch))

abbrev pub new_lease : String → String → ℕ → ℕ → PartitionLease
new_lease instrument_id owner_id epoch until = record {
  instrument_id = instrument_id;
  owner_id = owner_id;
  fencing_epoch = epoch;
  lease_until = until;
  recovery_required = false;
}

module _ {T : Type 0} where
  unfoldable pub acquire :
      String → String → ℕ → ℕ → Exec LeaseError (MemorySequencerStore T) PartitionLease
  acquire instrument_id owner_id ttl_ms now s = elim (get instrument_id s.leases) [
    | none ↦
        let lease = new_lease instrument_id owner_id 1 (now + ttl_ms) in
        (ok lease, record s { leases = put instrument_id lease s.leases })
    | some current ↦
        let lease = new_lease instrument_id owner_id current.fencing_epoch (now + ttl_ms) in
        if str_eq current.owner_id owner_id
        then (ok lease, record s { leases = put instrument_id lease s.leases })
        else (err partition_already_owned, s)
  ]

  -- A call that starts with `assertLease`
  abbrev guarded :
      {A : Type 0}
      → PartitionLease
      → Exec LeaseError (MemorySequencerStore T) A
      → Exec LeaseError (MemorySequencerStore T) A
  guarded lease body s =
      if is_current lease (get lease.instrument_id s.leases)
      then body s
      else (err stale_fencing_token, s)

  unfoldable pub renew :
      PartitionLease → ℕ → ℕ → Exec LeaseError (MemorySequencerStore T) PartitionLease
  unfolding is_current acquire
  renew lease ttl_ms now = guarded lease (acquire lease.instrument_id lease.owner_id ttl_ms now)

  unfoldable pub reserve_sequence : PartitionLease → Exec LeaseError (MemorySequencerStore T) ℕ
  unfolding is_current
  reserve_sequence lease = guarded lease (λ s.
      let sequence = or_zero (get lease.instrument_id s.sequences) + 1 in
      (ok sequence, record s { sequences = put lease.instrument_id sequence s.sequences }))

  unfoldable pub complete_recovery :
      PartitionLease → ℕ → Exec LeaseError (MemorySequencerStore T) (Unit {0})
  unfolding is_current
  complete_recovery lease recovered_sequence = guarded lease (λ s.
      (ok tt, record s { sequences = put lease.instrument_id recovered_sequence s.sequences }))

  unfoldable pub save_snapshot :
      PartitionLease → ℕ → T → Exec LeaseError (MemorySequencerStore T) (DurableSnapshot T)
  unfolding is_current
  save_snapshot lease version payload = guarded lease (λ s.
      let snapshot : DurableSnapshot T = record {
        version = version;
        instrument_id = lease.instrument_id;
        last_sequence = or_zero (get lease.instrument_id s.sequences);
        boundary_event_offset = 0;
        fencing_epoch = lease.fencing_epoch;
        payload = payload;
        checksum = "component-checksum";
      } in
      (ok snapshot, record s { snapshots = put lease.instrument_id snapshot s.snapshots }))

  unfoldable pub graceful_shutdown :
      PartitionLease → Exec LeaseError (MemorySequencerStore T) (Unit {0})
  unfolding is_current
  graceful_shutdown lease =
      guarded lease (λ s. (ok tt, record s { leases = remove lease.instrument_id s.leases }))
