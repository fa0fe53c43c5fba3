-- ===== src/RateLimit/Tests.antt =====
-- A limit of two requests a minute, and the theorems at it.
use readprism.Prelude.Text.{codes, text_eq}
use readprism.Prelude.{ℕ, ◌≡◌, refl, true, none, some, [], ◌∷◌, arith, if◌then◌else◌}
use readprism.RateLimit.Window.{RateLimiter, Redis, Request, client_ip, charge, call}
use readprism.RateLimit.Cap.{run, run_capped}

abbrev limiter : RateLimiter
limiter = record {
  rate_limit_enabled = true;
  max_requests = 2;
  window_seconds = 60;
  fail_closed = true;
}

abbrev at : ℕ → Request
at now = record {
  now = now;
  forwarded = none;
  host = some (codes "198.51.100.7");
  incr_up = true;
  expire_up = true;
}

capped_run : run limiter (λ ip. none) (at 100 ∷ at 110 ∷ at 120 ∷ at 160 ∷ []) ≡ 3
unfolding run call charge client_ip
capped_run = refl

run_capped_example : run limiter (λ ip. none) (at 100 ∷ at 110 ∷ at 120 ∷ []) ≡ 2
run_capped_example =
    run_capped limiter refl (omega arith) (λ ip. none) (at 100) (at 110 ∷ at 120 ∷ []) refl refl
      refl ((refl, omega arith, refl), ((refl, omega arith, refl), tt))

-- A counter that was left without an expiry.
abbrev counters : Redis
counters ip =
    if text_eq ip (codes "198.51.100.7")
    then some (record { count = 2; expires_at = none })
    else none

found :
    counters (client_ip none (some (codes "198.51.100.7")))
    ≡ some (record { count = 2; expires_at = none })
unfolding client_ip
found = refl
