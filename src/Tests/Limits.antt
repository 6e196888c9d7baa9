-- ===== src/Tests/Limits.antt =====
-- The theorems on the limiter, at concrete inputs.
use event_driven_notificatio.Base.{ℕ, suc, ◌≡◌, [], ◌∷◌, none, length, arith}
use event_driven_notificatio.RateLimit.{allowed_count}
use event_driven_notificatio.RateLimit.Window
use event_driven_notificatio.RateLimit.Window.{least}

-- A limit of 2 in a window of 1 s.
allowed_in_window_example :
    allowed_count 2 1000000000 (100 ∷ 200 ∷ 300 ∷ 400 ∷ []) none
    ≡ least (suc (length {A = ℕ} (200 ∷ 300 ∷ 400 ∷ []))) 2
allowed_in_window_example =
    Window.allowed_in_window 2 1000000000 100 (200 ∷ 300 ∷ 400 ∷ [])
      (omega arith, (omega arith, (omega arith, tt)))
