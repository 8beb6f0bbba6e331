-- ===== src/Gateway/Idempotency.antt =====
-- `class IdempotencyStore` of gateway/application/gateway.idempotency.ts. A call of `execute` and the end
-- of its operation are two steps, between which others may come. The fingerprint of a request, the
-- SHA-256 of its JSON text by node:crypto, is an argument.
use exchanger.Prelude.{
  ℕ, ◌+◌, ◌≤◌, ◌≡◌, refl, ◌⊎◌, inl, inr, String, Bool, true, false, not, ◌&&◌, List, [], ◌∷◌, none,
  some, arith, str_eq, str_eq_iff, if◌then◌else◌, Option-cases,
}
use exchanger.Prelude.Dict.{Dict, get, put, remove, get-put, get-remove}

pub record IdempotencyRecord (V : Type 0) : Type 0 where
  pub fingerprint : String
  pub result : V

-- `inFlight` maps a key to the fingerprint of its running operation.
pub record IdempotencyStore (V : Type 0) : Type 0 where
  pub records : Dict (IdempotencyRecord V)
  pub in_flight : Dict String

abbrev pub empty_store : {V : Type 0} → IdempotencyStore V
empty_store = record { records = []; in_flight = [] }

-- What `execute` does: return a stored result, throw a conflict, wait for the running operation, or start one.
pub data Execution (V : Type 0) : Type 0 where
  replayed : V → Execution V
  key_reused joined started : Execution V

module _ {V : Type 0} where
  unfoldable pub execute : String → String → IdempotencyStore V → Execution V × IdempotencyStore V
  execute key fingerprint s = elim (get key s.records) [
    | some previous ↦
        if str_eq previous.fingerprint fingerprint
        then (replayed previous.result, s)
        else (key_reused, s)
    | none ↦ elim (get key s.in_flight) [
      | some running ↦ if str_eq running fingerprint then (joined, s) else (key_reused, s)
      | none ↦ (started, record s { in_flight = put key fingerprint s.in_flight })
    ]
  ]

  -- The running operation of the key returns: `then` and `finally`.
  unfoldable pub complete : String → V → IdempotencyStore V → IdempotencyStore V
  complete key value s = elim (get key s.in_flight) [
    | none ↦ s
    | some fingerprint ↦ record {
      records = put key (record { fingerprint = fingerprint; result = value }) s.records;
      in_flight = remove key s.in_flight;
    }
  ]

  -- It throws: `finally` alone.
  unfoldable pub fail : String → IdempotencyStore V → IdempotencyStore V
  fail key s = record s { in_flight = remove key s.in_flight }

-- What `executeSensitive` does: its retries are told only that it was done, and a running operation is
-- not waited for. When it ends, `complete` stores a marker in place of the value.
pub data SensitiveExecution : Type 0 where
  already_issued sensitive_key_reused issuing : SensitiveExecution

abbrev pub is_issuing : SensitiveExecution → ℕ
is_issuing issuing = 1
is_issuing _ = 0

unfoldable pub execute_sensitive :
    {V : Type 0} → String → String → IdempotencyStore V → SensitiveExecution × IdempotencyStore V
execute_sensitive key fingerprint s = elim (get key s.records) [
  | some previous ↦
      if str_eq previous.fingerprint fingerprint
      then (already_issued, s)
      else (sensitive_key_reused, s)
  | none ↦ elim (get key s.in_flight) [
    | some running ↦
        if str_eq running fingerprint then (already_issued, s) else (sensitive_key_reused, s)
    | none ↦ (issuing, record s { in_flight = put key fingerprint s.in_flight })
  ]
]

-- The steps of the store, in the order in which they happen.
pub data StoreEvent (V : Type 0) : Type 0 where
  executes executes_sensitive : String → String → StoreEvent V
  completes : String → V → StoreEvent V
  fails : String → StoreEvent V

module _ {V : Type 0} where
  unfoldable pub step : StoreEvent V → IdempotencyStore V → IdempotencyStore V
  unfolding execute execute_sensitive complete fail
  step (executes key fingerprint) s = (execute key fingerprint s).1
  step (executes_sensitive key fingerprint) s = (execute_sensitive key fingerprint s).1
  step (completes key value) s = complete key value s
  step (fails key) s = fail key s

  abbrev pub is_started : Execution V → ℕ
  is_started started = 1
  is_started _ = 0

  -- Whether the step starts an operation of the key: 1 or 0.
  unfoldable pub starts_in : String → StoreEvent V → IdempotencyStore V → ℕ
  unfolding execute execute_sensitive
  starts_in key (executes other fingerprint) s =
      if str_eq other key then is_started (execute other fingerprint s).0 else 0
  starts_in key (executes_sensitive other fingerprint) s =
      if str_eq other key then is_issuing (execute_sensitive other fingerprint s).0 else 0
  starts_in key (completes other value) s = 0
  starts_in key (fails other) s = 0

  -- How often the steps start an operation of the key.
  unfoldable pub starts : String → List (StoreEvent V) → IdempotencyStore V → ℕ
  unfolding step starts_in
  starts key [] s = 0
  starts key (e ∷ events) s = starts_in key e s + starts key events (step e s)

  unfoldable pub never_fails : String → List (StoreEvent V) → Bool
  never_fails key [] = true
  never_fails key (fails other ∷ events) = not (str_eq other key) && never_fails key events
  never_fails key (_ ∷ events) = never_fails key events

  -- The key has a result or a running operation.
  abbrev is_taken : String → IdempotencyStore V → Bool
  is_taken key s = elim (get key s.records) [
    | some _ ↦ true
    | none ↦ elim (get key s.in_flight) [ some _ ↦ true | none ↦ false ]
  ]

  step-is_taken :
      (key : String) (e : StoreEvent V) (events : List (StoreEvent V)) (s : IdempotencyStore V)
      → never_fails key (e ∷ events) ≡ true
      → is_taken key s ≡ true
      → is_taken key (step e s) ≡ true
  unfolding step execute execute_sensitive complete fail never_fails
  step-is_taken key (executes other fingerprint) events s safe h =
      ground (arith, get-put other key fingerprint s.in_flight)
  step-is_taken key (executes_sensitive other fingerprint) events s safe h =
      ground (arith, get-put other key fingerprint s.in_flight)
  step-is_taken key (completes other value) events s safe h =
      elim (Option-cases (get other s.in_flight)) [
        | inl idle ↦ ground arith
        | inr (fingerprint, running) ↦ ground (
          arith,
          get-put other key (record { fingerprint = fingerprint; result = value }) s.records,
          get-remove other key s.in_flight,
        )
      ]
  step-is_taken key (fails other) events s safe h = ground (arith, get-remove other key s.in_flight)

  tail-never_fails :
      (key : String) (e : StoreEvent V) (events : List (StoreEvent V))
      → never_fails key (e ∷ events) ≡ true
      → never_fails key events ≡ true
  unfolding never_fails
  tail-never_fails key (executes other fingerprint) events h = h
  tail-never_fails key (executes_sensitive other fingerprint) events h = h
  tail-never_fails key (completes other value) events h = h
  tail-never_fails key (fails other) events h = ground arith

  starts_in-is_taken :
      (key : String) (e : StoreEvent V) (s : IdempotencyStore V)
      → is_taken key s ≡ true
      → starts_in key e s ≡ 0
  unfolding starts_in execute execute_sensitive
  starts_in-is_taken key (executes other fingerprint) s h = ground (arith, str_eq_iff other key)
  starts_in-is_taken key (executes_sensitive other fingerprint) s h =
      ground (arith, str_eq_iff other key)
  starts_in-is_taken key (completes other value) s h = refl
  starts_in-is_taken key (fails other) s h = refl

  starts-is_taken :
      (key : String) (events : List (StoreEvent V)) (s : IdempotencyStore V)
      → never_fails key events ≡ true
      → is_taken key s ≡ true
      → starts key events s ≡ 0
  unfolding starts
  starts-is_taken key [] s safe h = refl
  starts-is_taken key (e ∷ events) s safe h = ground (
    arith,
    starts_in-is_taken key e s h,
    starts-is_taken key events (step e s) (tail-never_fails key e events safe)
        (step-is_taken key e events s safe h),
  )

  step-started :
      (key : String) (e : StoreEvent V) (s : IdempotencyStore V)
      → (starts_in key e s ≡ 0) ⊎ ((starts_in key e s ≡ 1) × (is_taken key (step e s) ≡ true))
  unfolding starts_in step execute execute_sensitive
  step-started key (executes other fingerprint) s =
      ground (arith, get-put other key fingerprint s.in_flight, str_eq_iff other key)
  step-started key (executes_sensitive other fingerprint) s =
      ground (arith, get-put other key fingerprint s.in_flight, str_eq_iff other key)
  step-started key (completes other value) s = inl refl
  step-started key (fails other) s = inl refl

  -- Whatever calls and ends of operations follow each other, an operation is started at most once for a
  -- key, if none of that key's operations fails.
  pub starts_once :
      (key : String) (events : List (StoreEvent V)) (s : IdempotencyStore V)
      → never_fails key events ≡ true
      → starts key events s ≤ 1
  unfolding starts
  starts_once key [] s safe = omega arith
  starts_once key (e ∷ events) s safe = elim (step-started key e s) [
    | inl quiet ↦
        ground (arith, starts_once key events (step e s) (tail-never_fails key e events safe))
    | inr (start, taken) ↦
        ground
          (arith, starts-is_taken key events (step e s) (tail-never_fails key e events safe) taken)
  ]
