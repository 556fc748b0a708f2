-- ===== src/Worker.antt =====
-- worker/worker.go: what the Stop and the Wait of a worker promise.
use coriolis_logger.Common.{◌≡◌, Bool, true, Result, ok, panic}

-- `stop` gives what a worker is after `Stop`, and its answer; `ended` whether `Wait` returns.
pub record StopsOnce {S : Type 0} (stop : S → S × Result (Unit {0})) (ended : S → Bool)
    : Type 0 where
  pub ends : (s : S) → (stop s).1 ≡ ok tt → ended (stop s).0 ≡ true
  pub once : (s : S) → ¬ ((stop s).1 ≡ panic) → (stop (stop s).0).1 ≡ panic
