-- ===== src/Ingestion/Health.antt =====
-- The life of a feed: which outcomes reset it, how a streak of failures is counted, when it dies, and
-- how often its reader is told.
use mathlib.Core.Path.{subst}
use readprism.Prelude.{
  sym, ℕ, suc, ◌+◌, ◌*◌, ◌≤◌, ◌<◌, ◌≡◌, ◌≢◌, ◌↔◌, true, false, ◌||◌, none, some, List, [], ◌∷◌, ◌⊎◌,
  arith, or_else, length,
}
use readprism.Prelude.Text.{Text}
use readprism.Url.{UrlParts}
use readprism.Ingestion.Schedule.{
  healthy, day, dead_after, on_quiet, on_new_items, on_error, on_rate_limited, youtube_error,
}
use readprism.Ingestion.Poll.{
  Source, Outcome, or_text, is_dead_reddit_feed, next_state, write_schedule, mark_reddit_feed_dead,
  apply_poll_result, is_youtube_feed, is_dead,
}

-- What the code keeps true of a row: a feed that has not failed has no failure on record, one that has
-- failed has, and a dead feed is not polled. A feed that its reader revived counts as healthy with the
-- failures that it had.
pub record IsSound (s : Source) : Type 0 where
  pub clean : or_else s.fetch_error_count 0 ≡ 0 → s.failure_since ≡ none
  pub begun : 0 < or_else s.fetch_error_count 0 → s.failure_since ≢ none
  pub stopped : is_dead s.feed_status ≡ true → s.is_active ≡ false

module _ (urlparse : Text → UrlParts) (days : ℕ) (rng : ℕ → ℕ) (source : Source) (now : ℕ)
    (o : Outcome) where
  -- A poll of a sound row, revived rows included, leaves it sound, on the Reddit path too, and then only
  -- a feed without failures counts as healthy.
  pub apply_poll_result-IsSound :
      IsSound source
      → let r = apply_poll_result urlparse days rng source now o in
        IsSound r × (or_else r.feed_status healthy ≡ healthy → or_else r.fetch_error_count 0 ≡ 0)
  unfolding apply_poll_result write_schedule mark_reddit_feed_dead next_state on_quiet on_new_items
      on_error on_rate_limited youtube_error
  apply_poll_result-IsSound h = ground arith

  abbrev url : Text
  url = or_text source.feed_url source.url

  abbrev after : Source
  after = apply_poll_result urlparse days rng source now o

  -- A poll that kills a live feed raises the notice to its reader; every other poll leaves the notice
  -- as it stands, so a notice that was shown is not raised again for a feed that is dead already. A poll
  -- that does not kill the feed does not pause it.
  pub apply_poll_result_notice :
      (is_dead after.feed_status ≡ true → after.is_active ≡ false)
      × (is_dead after.feed_status ≡ true
          → is_dead source.feed_status ≡ false
          → after.dead_notice_pending ≡ true)
      × (is_dead source.feed_status ≡ true → after.dead_notice_pending ≡ source.dead_notice_pending)
      × (is_dead after.feed_status ≡ false
          → (after.dead_notice_pending ≡ source.dead_notice_pending)
            × (after.is_active ≡ source.is_active))
  unfolding apply_poll_result write_schedule mark_reddit_feed_dead
  apply_poll_result_notice = ground arith

  -- Any poll that succeeds ends the streak of failures, however long it was.
  pub apply_poll_result_recovers :
      o.error ≡ false
      → o.gone ≡ false
      → is_dead_reddit_feed urlparse url now ≡ false
      → (after.feed_status ≡ some healthy)
        × (after.fetch_error_count ≡ some 0)
        × (after.failure_since ≡ none)
  unfolding apply_poll_result write_schedule next_state on_quiet on_new_items
  apply_poll_result_recovers e g r = ground arith

  -- A feed that is not YouTube's and that Reddit's shutdown does not end is dead after a poll exactly
  -- when the server says that it is gone, or when the poll fails seven days or more after the streak
  -- began.
  pub apply_poll_result_dead_iff :
      is_dead_reddit_feed urlparse url now ≡ false
      → is_youtube_feed urlparse url ≡ false
      → (is_dead after.feed_status ≡ true) ↔ (
          (o.gone ≡ true)
          ⊎ ((o.error ≡ true) × (or_else source.failure_since now + dead_after ≤ now)))
  unfolding apply_poll_result write_schedule next_state on_quiet on_new_items on_error
      on_rate_limited
  apply_poll_result_dead_iff r y = ground arith

  -- A YouTube feed outlives a burst of any errors, 404 and 410 included: it dies exactly when a poll
  -- fails after the configured days of failure.
  pub apply_poll_result_youtube_iff :
      is_dead_reddit_feed urlparse url now ≡ false
      → is_youtube_feed urlparse url ≡ true
      → (is_dead after.feed_status ≡ true)
        ↔ (((o.error || o.gone) ≡ true) × (or_else source.failure_since now + days * day ≤ now))
  unfolding apply_poll_result write_schedule next_state on_quiet on_new_items youtube_error
  apply_poll_result_youtube_iff r y = ground arith

module _ (urlparse : Text → UrlParts) (days : ℕ) (rng : ℕ → ℕ) where
  -- The polls of a row in order, each at its moment.
  unfoldable pub polls : Source → List (ℕ × Outcome) → Source
  polls source [] = source
  polls source ((now, o) ∷ rest) = polls (apply_poll_result urlparse days rng source now o) rest

  -- Every poll of the list fails, before the Reddit shutdown.
  abbrev pub AllFail : Text → List (ℕ × Outcome) → Type 0
  AllFail link [] = Unit
  AllFail link ((now, o) ∷ rest) =
      ((o.error || o.gone) ≡ true)
      × (is_dead_reddit_feed urlparse link now ≡ false)
      × AllFail link rest

  failing_poll :
      (source : Source) (now : ℕ) (o : Outcome)
      → (o.error || o.gone) ≡ true
      → is_dead_reddit_feed urlparse (or_text source.feed_url source.url) now ≡ false
      → let r = apply_poll_result urlparse days rng source now o in
        (r.fetch_error_count ≡ some (or_else source.fetch_error_count 0 + 1))
        × (r.failure_since ≡ some (or_else source.failure_since now))
        × (or_text r.feed_url r.url ≡ or_text source.feed_url source.url)
  unfolding apply_poll_result write_schedule next_state on_error on_rate_limited youtube_error
  failing_poll source now o f r = ground arith

  -- A streak of failures counts every one of them and dates from its first, whatever mix of errors and
  -- Retry-After it is made of.
  pub polls_streak :
      (source : Source) (now : ℕ) (o : Outcome) (rest : List (ℕ × Outcome))
      → AllFail (or_text source.feed_url source.url) ((now, o) ∷ rest)
      → let r = polls source ((now, o) ∷ rest) in
        (r.fetch_error_count ≡ some (or_else source.fetch_error_count 0 + suc (length rest)))
        × (r.failure_since ≡ some (or_else source.failure_since now))
  unfolding polls
  polls_streak source now o [] h = ground (arith, failing_poll source now o h.0 h.1)
  polls_streak source now o ((t, p) ∷ rest) h =
      let r = apply_poll_result urlparse days rng source now o in
      let (counted, dated, same) = failing_poll source now o h.0 h.1 in
      ground
        (arith, polls_streak r t p rest (subst (λ u. AllFail u ((t, p) ∷ rest)) (sym same) h.2))
