-- ===== src/Ingestion/Charges.antt =====
-- What a poll costs its subscribers, and how long a refused one waits: `_within_budgets` of
-- backend/app/workers/tasks/ingest_feeds.py over backend/app/services/abuse.py.
use readprism.Prelude.{
  ℕ, ◌+◌, ◌*◌, ◌≡◌, ◌≤◌, ◌<◌, refl, ap, ◌∙◌, inl, inr, Bool, true, false, ◌&&◌, not, List, [], ◌∷◌,
  ◌==◌, if◌then◌else◌, mem, arith, Bool-cases,
}
use readprism.Prelude.Text.{Text}
use readprism.Url.{UrlParts}
use readprism.Entitlements.Quotas.{Account}
use readprism.Abuse.Budgets.{
  Store, hour, hour_length, next_hour, charge_fetch, charge_host_poll, poll_host, pause_fetches,
}
use readprism.Ingestion.Poll.{Source, or_text}
use readprism.Ingestion.FeedPoll.{
  Config, abuse_of, Subscriber, distinct_users, has_paused, drop_paused, unpaused, charge_each,
  check_accounts, within_budgets, user_ids, set_next,
}

abbrev pub one_if : Bool → ℕ
one_if true = 1
one_if false = 0

-- How often a number is in a list.
abbrev occurrences : ℕ → List ℕ → ℕ
occurrences u [] = 0
occurrences u (v ∷ l) = one_if (u == v) + occurrences u l

occurrences-distinct_users :
    (u : ℕ) (subs : List Subscriber) (seen : List ℕ)
    → occurrences u (distinct_users subs seen) ≡ one_if (mem u (user_ids subs) && not (mem u seen))
unfolding distinct_users
occurrences-distinct_users u [] seen = refl
occurrences-distinct_users u (s ∷ subs) seen =
    let skip = occurrences-distinct_users u subs seen in
    let rest = occurrences-distinct_users u subs (s.user_id ∷ seen) in
    elim (Bool-cases (u == s.user_id)) [
      | inl same ↦
          let here : u ≡ s.user_id = ground (arith, same) in
          rw here (ground (arith, rw here at skip, rw here at rest))
      | inr other ↦ ground (arith, skip, rest, other)
    ]

module _ (c : Config) (now : ℕ) (users : List Account) where
  occurrences-drop_paused :
      (u : ℕ) (ids : List ℕ)
      → occurrences u (drop_paused c now users ids)
        ≡ (if has_paused c now users u then 0 else occurrences u ids)
  occurrences-drop_paused u [] = ground arith
  occurrences-drop_paused u (v ∷ ids) =
      let rest = occurrences-drop_paused u ids in
      elim (Bool-cases (u == v)) [
        | inl same ↦
            let here : u ≡ v = ground (arith, same) in rw here (ground (arith, rw here at rest))
        | inr other ↦ ground (arith, rest, other)
      ]

  module _ (up : ℕ → Bool) (works : (n : ℕ) → up n ≡ true) (hosted : c.billing.hosted ≡ true)
      (limited : 0 < c.abuse.hosted_fetch_budget_per_hour) where
    charge_each_fetches :
        (u : ℕ) (ids : List ℕ) (r : Store)
        → (charge_each c up now r ids).1.fetches u (hour now)
          ≡ r.fetches u (hour now) + occurrences u ids
    unfolding charge_each charge_fetch
    charge_each_fetches u [] r = omega arith
    charge_each_fetches u (v ∷ ids) r =
        let r' = (charge_fetch (abuse_of c) up r v 1 now).1 in
        let rest = charge_each_fetches u ids r' in
        let ok = works r.calls in
        elim (Bool-cases (u == v)) [
          | inl same ↦
              let here : u ≡ v = ground (arith, same) in
              rw here (ground (arith, rw here at rest, ok, hosted, limited))
          | inr other ↦ ground (arith, rest, other, ok, hosted, limited)
        ]

    check_accounts_fetches :
        (urlparse : Text → UrlParts) (row : Source) (u : ℕ) (ids : List ℕ) (r : Store)
        → (check_accounts c up urlparse now row ids r).store.fetches u (hour now)
          ≡ r.fetches u (hour now) + occurrences u ids
    unfolding pause_fetches charge_host_poll poll_host
    check_accounts_fetches urlparse row u [] r = omega arith
    check_accounts_fetches urlparse row u (v ∷ ids) r =
        ground (arith, charge_each_fetches u (v ∷ ids) r)

    -- On a hosted instance with a budget, and while Redis answers, a feed's poll costs each account that
    -- follows it and is not paused one fetch of this hour's budget, however many of its sources follow
    -- the feed and whether or not the poll then goes on; it costs a paused account and everyone else
    -- nothing.
    pub within_budgets_fetches :
        (urlparse : Text → UrlParts) (row : Source) (subs : List Subscriber) (r : Store) (u : ℕ)
        → (within_budgets c up urlparse now users subs row r).store.fetches u (hour now)
          ≡ r.fetches u (hour now)
            + one_if (mem u (user_ids subs) && not (has_paused c now users u))
    unfolding within_budgets unpaused
    within_budgets_fetches urlparse row subs r u =
        let distinct = distinct_users subs [] in
        let left = drop_paused c now users distinct in
        let ids = unpaused c now users distinct in
        let charged = check_accounts_fetches urlparse row u ids r in
        let which : ids ≡ left = ap (λ h. if not h then distinct else left) hosted in
        let same = ap (occurrences u) which in
        let kept = occurrences-drop_paused u distinct in
        let once = occurrences-distinct_users u subs [] in
        let total : occurrences u ids
            ≡ one_if (mem u (user_ids subs) && not (has_paused c now users u)) =
          same ∙ ground (arith, kept, once) in
        charged ∙ ap (λ n. r.fetches u (hour now) + n) total

module _ (c : Config) (now : ℕ) (users : List Account) (up : ℕ → Bool)
    (urlparse : Text → UrlParts) where
  check_accounts_wait :
      (row : Source) (ids : List ℕ) (r : Store)
      → let b = check_accounts c up urlparse now row ids r in
        (b.goes_on ≡ true → b.row ≡ row)
        × (b.goes_on ≡ false
            → (t : ℕ) × (b.row ≡ set_next t row) × (now < t) × (t ≤ now + 12 * hour_length))
  unfolding pause_fetches next_hour
  check_accounts_wait row [] r =
      (λ e. cc, λ e. (now + 12 * hour_length, refl, omega arith, omega arith))
  check_accounts_wait row (u ∷ ids) r = elim (Bool-cases (charge_each c up now r (u ∷ ids)).0) [
    | inl fits ↦
        let r' = (charge_each c up now r (u ∷ ids)).1 in
        elim (Bool-cases
          (charge_host_poll (abuse_of c) up urlparse r' (or_text row.feed_url row.url) now).0) [
            | inl polled ↦ rw fits (rw polled (λ e. refl, λ e. cc))
            | inr refused ↦
                rw fits (rw refused (λ e. cc, λ e. (next_hour now, refl, omega arith, omega arith)))
          ]
    | inr over ↦ rw over (λ e. cc, λ e. (next_hour now, refl, omega arith, omega arith))
  ]

  -- A poll that goes on finds the feed's row as it was. One that the budgets refuse only moves the
  -- feed's next poll, to a moment after now and at most twelve hours away: a refused feed is neither
  -- polled again at once nor forgotten.
  pub within_budgets_wait :
      (subs : List Subscriber) (row : Source) (r : Store)
      → let b = within_budgets c up urlparse now users subs row r in
        (b.goes_on ≡ true → b.row ≡ row)
        × (b.goes_on ≡ false
            → (t : ℕ) × (b.row ≡ set_next t row) × (now < t) × (t ≤ now + 12 * hour_length))
  unfolding within_budgets
  within_budgets_wait subs row r =
      check_accounts_wait row (unpaused c now users (distinct_users subs [])) r
