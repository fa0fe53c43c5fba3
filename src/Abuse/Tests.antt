-- ===== src/Abuse/Tests.antt =====
-- The theorems of the abuse controls at concrete hosts and accounts.
use readprism.Prelude.{ℕ, ◌-◌, ◌≡◌, min, refl, Bool, true, none, some, List, [], ◌∷◌, arith}
use readprism.Prelude.Text.{Text, codes}
use readprism.Url.{UrlParts}
use readprism.Abuse.Budgets.{Settings, Store, hour}
use readprism.Abuse.Caps.{asked, granted, run_polls, run_polls_capped}

abbrev settings : Settings
settings = record {
  hosted = true;
  hosted_fetch_budget_per_hour = 2;
  hosted_host_polls_per_hour = 1;
  hosted_max_sources_per_host = 2;
  inbound_max_message_bytes = 1000;
  hosted_inbound_per_day = 10;
  hosted_inbound_mb_per_day = 1;
}

abbrev store : Store
store = record {
  fetches = λ user hour. 2;
  polls = λ host hour. 0;
  inbound_count = λ user day. 0;
  inbound_bytes = λ user day. 0;
  calls = 0;
  paused_until = λ user. none;
}

abbrev up : ℕ → Bool
up n = true

-- Every link is of the host that it spells.
abbrev spelled : Text → UrlParts
spelled link = record {
  scheme = codes "https";
  username = none;
  password = none;
  hostname = some link;
  port = none;
  netloc = link;
  path = [];
}

abbrev a : Text
a = codes "a.example"

abbrev b : Text
b = codes "b.example"

abbrev now : ℕ
now = 1_789_866_000_000_000

abbrev polls : List (Text × ℕ)
polls = (a, now) ∷ (b, now) ∷ (a, now) ∷ []

run_polls_capped_example :
    granted settings up spelled a (hour now) polls (run_polls settings up spelled store polls)
    ≡ min (asked settings up spelled a (hour now) polls) (1 - 0)
run_polls_capped_example =
    run_polls_capped settings up spelled (λ n. refl) refl (omega arith) a (hour now) store polls
      (λ e. cc)
