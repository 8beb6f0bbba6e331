-- ===== src/Gateway/Tests.antt =====
-- The theorems of the gateway at concrete inputs.
use exchanger.Prelude.{ℕ, ◌-◌, ◌≤◌, ◌≡◌, refl, List, [], ◌∷◌, arith, length, min}
use exchanger.Prelude.Dict.{Dict, get}
use exchanger.Gateway.RateLimit.{RateWindow, check, allowed_of, allowed_of-window, check-other}
use exchanger.Gateway.Idempotency.{
  StoreEvent, executes, completes, fails, empty_store, starts, never_fails, starts_once,
}

abbrev window : RateWindow
window = record { started_at = 100; count = 1 }

abbrev times : List ℕ
times = 110 ∷ 120 ∷ 130 ∷ []

abbrev windows : Dict RateWindow
windows = ("key-1", window) ∷ []

allowed_of-window_example : allowed_of 2 60 "key-1" times windows ≡ min (length times) (2 - 1)
allowed_of-window_example =
    allowed_of-window 2 60 "key-1" times windows window (unfold get in refl)
      (omega arith, (omega arith, (omega arith, tt)))

check-other_example : get "key-1" (check 2 60 "key-2" 110 windows).1 ≡ get "key-1" windows
check-other_example = check-other 2 60 "key-2" "key-1" 110 windows refl

abbrev events : List (StoreEvent ℕ)
events = executes "k" "f" ∷ executes "k" "f" ∷ fails "j" ∷ completes "k" 7 ∷ executes "k" "g" ∷ []

starts_once_example : starts "k" events empty_store ≤ 1
starts_once_example = starts_once "k" events empty_store (unfold never_fails in refl)
