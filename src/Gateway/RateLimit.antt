-- ===== src/Gateway/RateLimit.antt =====
-- gateway/application/gateway.rate-limit.ts: a fixed window of requests for each key. The limit and the
-- length of the window come from the configuration: parameters here. Times are in milliseconds.
use exchanger.Prelude.{
  ℕ, ◌+◌, ◌-◌, ◌≡◌, ◌<◌, String, false, List, [], ◌∷◌, Option, none, some, arith, length, ltb, leb,
  str_eq, str_eq_iff, if◌then◌else◌, min,
}
use exchanger.Prelude.Dict.{Dict, get, put, get-put}
use exchanger.Prelude.Dict.Each.{All}
use exchanger.Prelude.Exec.{Result, ok, err, Exec}

pub record RateWindow : Type 0 where
  pub started_at : ℕ
  pub count : ℕ

pub data RateLimitError : Type 0 where
  rate_limit_exceeded : RateLimitError

module _ (limit window_ms : ℕ) where
  -- `!current || now - current.startedAt >= windowMs ? { startedAt: now, count: 0 } : current`
  unfoldable pub window_at : ℕ → Option RateWindow → RateWindow
  window_at now none = record { started_at = now; count = 0 }
  window_at now (some current) =
      if leb (current.started_at + window_ms) now
      then record { started_at = now; count = 0 }
      else current

  -- The window is counted and stored before the limit is tested.
  unfoldable pub check : String → ℕ → Exec RateLimitError (Dict RateWindow) (Unit {0})
  unfolding window_at
  check key_id now windows =
      let window = window_at now (get key_id windows) in
      let count = window.count + 1 in
      let windows' = put key_id (record window { count = count }) windows in
      if ltb limit count then (err rate_limit_exceeded, windows') else (ok tt, windows')

  abbrev pub allowed : Result RateLimitError (Unit {0}) → ℕ
  allowed (ok _) = 1
  allowed (err _) = 0

  -- How many of the requests of a key at these times are let through.
  unfoldable pub allowed_of : String → List ℕ → Dict RateWindow → ℕ
  allowed_of key_id [] windows = 0
  allowed_of key_id (now ∷ times) windows =
      let (result, windows') = check key_id now windows in
      allowed result + allowed_of key_id times windows'

  -- Of the requests of a key that come before the end of its window, exactly as many are let
  -- through as the limit has left.
  pub allowed_of-window :
      (key_id : String) (times : List ℕ) (windows : Dict RateWindow) (w : RateWindow)
      → get key_id windows ≡ some w
      → All (λ t. t < w.started_at + window_ms) times
      → allowed_of key_id times windows ≡ min (length times) (limit - w.count)
  unfolding allowed_of check window_at
  allowed_of-window key_id [] windows w found within = ground arith
  allowed_of-window key_id (now ∷ times) windows w found within =
      let next : RateWindow = record w { count = w.count + 1 } in
      let rest : allowed_of key_id times (put key_id next windows)
          ≡ min (length times) (limit - (w.count + 1)) =
        allowed_of-window key_id times (put key_id next windows) next
          (ground (arith, get-put key_id key_id next windows, str_eq_iff key_id key_id)) within.1 in
      ground (arith, rest, within.0)

  -- A request of one key leaves the windows of the others as they were.
  pub check-other :
      (key_id other : String) (now : ℕ) (windows : Dict RateWindow)
      → str_eq key_id other ≡ false
      → get other (check key_id now windows).1 ≡ get other windows
  unfolding check
  check-other key_id other now windows h = ground (
    arith,
    get-put key_id other
        (record (window_at now (get key_id windows)) {
          count = (window_at now (get key_id windows)).count + 1;
        })
        windows,
  )
