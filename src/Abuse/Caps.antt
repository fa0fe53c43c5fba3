-- ===== src/Abuse/Caps.antt =====
-- What the counters of backend/app/services/abuse.py guarantee: polls of a host in an hour, the budget
-- of an account, and the notice of its pause.
use readprism.Prelude.{
  ℕ, ◌+◌, ◌-◌, ◌≡◌, ◌≢◌, ◌≤◌, ◌<◌, ◌↔◌, min, refl, inl, inr, Bool, true, false, ◌&&◌, not, ◌||◌,
  none, some, List, [], ◌∷◌, ◌==◌, leb, arith, Bool-cases,
}
use readprism.Prelude.Text.{Text, text_eq, text_eq_iff}
use readprism.Url.{UrlParts}
use readprism.Abuse.Budgets.{
  Settings, Store, hour, hour_length, next_hour, host_of, charge_fetch, poll_host, charge_host_poll,
  pause_fetches, require_fetch_budget,
}

abbrev one_if : Bool → ℕ
one_if true = 1
one_if false = 0

unnamed : (h : Text) → h ≢ [] → text_eq h [] ≡ false
unnamed [] n = absurd (n refl)
unnamed (c ∷ h) n = refl

module _ (s : Settings) (up : ℕ → Bool) (urlparse : Text → UrlParts) where
  -- The polls of links in order, each at its moment; the answers.
  unfoldable pub run_polls : Store → List (Text × ℕ) → List Bool
  run_polls r [] = []
  run_polls r ((url, now) ∷ polls) =
      let (ok, r') = charge_host_poll s up urlparse r url now in ok ∷ run_polls r' polls

  abbrev is_at : Text → ℕ → Text × ℕ → Bool
  is_at host k (url, now) = text_eq (host_of urlparse url) host && hour now == k

  -- How many of them are of a host in an hour, and how many of those pass.
  abbrev pub asked : Text → ℕ → List (Text × ℕ) → ℕ
  asked host k [] = 0
  asked host k (p ∷ polls) = one_if (is_at host k p) + asked host k polls

  abbrev pub granted : Text → ℕ → List (Text × ℕ) → List Bool → ℕ
  granted host k (p ∷ polls) (ok ∷ answers) =
      one_if (is_at host k p && ok) + granted host k polls answers
  granted host k _ _ = 0

  module _ (works : (n : ℕ) → up n ≡ true) (hosted : s.hosted ≡ true)
      (limited : 0 < s.hosted_host_polls_per_hour) where
    poll_step :
        (host : Text) (k : ℕ) (r : Store) (h : Text) (now : ℕ)
        → host ≢ []
        → let (ok, r') = poll_host s up r h now in
          ((text_eq h host && hour now == k) ≡ true
            → (ok ≡ leb (r.polls host k + 1) s.hosted_host_polls_per_hour)
              × (r'.polls host k ≡ r.polls host k + 1))
          × ((text_eq h host && hour now == k) ≡ false → r'.polls host k ≡ r.polls host k)
    unfolding poll_host
    poll_step host k r h now named =
        let ok = works r.calls in
        let self = text_eq_iff host host in
        let some_name : text_eq host [] ≡ false = unnamed host named in
        elim (Bool-cases (text_eq h host)) [
          | inl same ↦
              rw ((text_eq_iff h host).0 same)
                (ground (arith, self, some_name, ok, hosted, limited))
          | inr other ↦ ground (arith, other)
        ]

    -- While Redis answers, the number of polls of one host that pass in one hour is the smaller of the
    -- number that are asked for and what the earlier ones leave of the cap, whichever links they are of
    -- and whatever other hosts are polled between them.
    pub run_polls_capped :
        (host : Text) (k : ℕ) (r : Store) (polls : List (Text × ℕ))
        → host ≢ []
        → granted host k polls (run_polls r polls)
          ≡ min (asked host k polls) (s.hosted_host_polls_per_hour - r.polls host k)
    unfolding run_polls charge_host_poll
    run_polls_capped host k r [] named = omega arith
    run_polls_capped host k r ((url, now) ∷ polls) named =
        let h = host_of urlparse url in
        let r' = (poll_host s up r h now).1 in
        let rest = run_polls_capped host k r' polls named in
        let step = poll_step host k r h now named in ground (arith, rest, step)

module _ (s : Settings) (up : ℕ → Bool) (r : Store) (user now : ℕ) where
  -- A fetch on demand passes exactly when the instance is self-hosted, sets no budget, cannot reach
  -- Redis, or the account has a fetch left in this hour. One that is refused waits for the next hour,
  -- which is at most an hour away, and the account's notice says so; no other account's changes, and
  -- one that passes leaves no notice.
  pub require_fetch_budget_lem :
      let (until, r') = require_fetch_budget s up r user now in
      ((until ≡ none) ↔ (
        (not s.hosted
          || s.hosted_fetch_budget_per_hour == 0
          || not (up r.calls)
          || leb (r.fetches user (hour now) + 1) s.hosted_fetch_budget_per_hour)
        ≡ true))
      × ((t : ℕ)
          → until ≡ some t
          → (now < t) × (t ≤ now + hour_length) × (r'.paused_until user ≡ some t))
      × (until ≡ none → r'.paused_until ≡ r.paused_until)
      × ((u : ℕ) → (u == user) ≡ false → r'.paused_until u ≡ r.paused_until u)
  unfolding require_fetch_budget charge_fetch pause_fetches next_hour
  require_fetch_budget_lem =
      (ground arith, λ t e. ground (arith, e), λ e. ground (arith, e), λ u e. ground (arith, e))
