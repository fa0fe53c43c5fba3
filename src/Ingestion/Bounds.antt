-- ===== src/Ingestion/Bounds.antt =====
-- Bounds on the poll interval and on the next poll, through every branch of `apply_poll_result`.
use native.Mathlib.Nat.{pow-suc}
use readprism.Prelude.{
  ℕ, zero, suc, ◌+◌, ◌*◌, ◌/◌, ◌^◌, ◌≤◌, ◌<◌, ◌≡◌, Bool, false, some, List, [], ◌∷◌, inl, inr,
  arith, min, max, or_else, length, Bool-cases, length-drop, ◌-◌, ◌++◌,
}
use readprism.Prelude.Int.{pos_part, pos}
use readprism.Prelude.Text.{Text}
use readprism.Url.{UrlParts}
use readprism.Ingestion.Schedule.{
  ScheduleState, min_interval, max_interval, error_base, youtube_max_backoff, backoff, on_quiet,
  on_new_items, on_error, on_rate_limited, youtube_error, max_gaps, last_gaps, initial_interval,
}
use readprism.Ingestion.Poll.{
  Source, Outcome, state_of, or_text, is_dead_reddit_feed, next_state, write_schedule,
  mark_reddit_feed_dead, apply_poll_result, is_youtube_feed,
}

-- `rng.uniform(0.9, 1.1)` times whole seconds, in microseconds.
abbrev pub IsJitter : (ℕ → ℕ) → Type 0
IsJitter rng = (i : ℕ) → (900_000 * i ≤ rng i) × (rng i ≤ 1_100_000 * i)

abbrev pub InRange : ℕ → Type 0
InRange i = (min_interval ≤ i) × (i ≤ max_interval)

-- A stored interval that is missing or zero stands for the default.
abbrev pub RowInRange : Source → Type 0
RowInRange s = InRange (state_of s).interval_seconds × (length s.recent_gap_seconds ≤ max_gaps)

abbrev StateInRange : ScheduleState → Type 0
StateInRange s = InRange s.interval_seconds × (length s.recent_gaps ≤ max_gaps)

two_pow_pos : (n : ℕ) → 1 ≤ 2 ^ n
two_pow_pos zero = omega arith
two_pow_pos (suc n) = rw pow-suc (omega (arith, two_pow_pos n))

pub backoff-le : (n cap : ℕ) → backoff n cap ≤ cap
unfolding backoff
backoff-le n cap = omega arith

pub backoff-ge : (n cap : ℕ) → error_base ≤ cap → error_base ≤ backoff n cap
unfolding backoff
backoff-ge n cap h = omega (arith, two_pow_pos n)

-- Each further failure doubles the delay until the cap.
pub backoff-suc : (n cap : ℕ) → backoff (suc n) cap ≡ min (2 * backoff n cap) cap
unfolding backoff
backoff-suc n cap = rw pow-suc (omega arith)

-- An interval guessed from a feed's history stays between 15 minutes and 24 hours.
pub initial_interval-InRange : (gaps : List ℕ) → InRange (initial_interval gaps)
unfolding initial_interval
initial_interval-InRange [] = omega arith
initial_interval-InRange (g ∷ gaps) = omega arith

length-last_gaps : (gaps : List ℕ) → length (last_gaps gaps) ≤ max_gaps
length-last_gaps gaps = omega (arith, length-drop (length gaps - max_gaps) gaps)

module _ (days : ℕ) (rng : ℕ → ℕ) (youtube : Bool) (o : Outcome) (s : ScheduleState) (now : ℕ) where
  next_state-InRange : StateInRange s → StateInRange (next_state days rng youtube o s now).0
  unfolding next_state on_quiet on_new_items on_error on_rate_limited youtube_error
  next_state-InRange h =
      ground (arith, length-last_gaps (s.recent_gaps ++ (pos_part o.gap_seconds ∷ [])))

  -- The longest wait that a poll can ask for: a jittered day, or what the server asked for.
  abbrev pub longest_wait : ℕ
  longest_wait = max (1_100_000 * max_interval) (pos_part (or_else o.retry_after (pos 0)))

  next_state_due :
      IsJitter rng
      → InRange s.interval_seconds
      → let when = (next_state days rng youtube o s now).1 in
        (now < when) × (when ≤ now + longest_wait)
  unfolding next_state on_quiet on_new_items on_error on_rate_limited youtube_error
  next_state_due jitter h = ground (
    arith,
    jitter (min max_interval (s.interval_seconds * 5 / 4)),
    jitter (max min_interval (s.interval_seconds * 2 / 3)),
    backoff-le (s.consecutive_errors + 1) max_interval,
    backoff-ge (s.consecutive_errors + 1) max_interval,
    backoff-le (s.consecutive_errors + 1) youtube_max_backoff,
    backoff-ge (s.consecutive_errors + 1) youtube_max_backoff,
  )

module _ (urlparse : Text → UrlParts) (days : ℕ) (rng : ℕ → ℕ) where
  -- Whatever a poll reports, the stored interval stays between 15 minutes and 24 hours, and at most
  -- 20 gaps are remembered.
  pub apply_poll_result-RowInRange :
      (source : Source) (now : ℕ) (o : Outcome)
      → RowInRange source
      → RowInRange (apply_poll_result urlparse days rng source now o)
  unfolding apply_poll_result write_schedule mark_reddit_feed_dead
  apply_poll_result-RowInRange source now o h =
      let url = or_text source.feed_url source.url in
      elim (Bool-cases (is_dead_reddit_feed urlparse url now)) [
        | inl e ↦ rw e h
        | inr e ↦ rw e (
            ground (
              arith,
              next_state-InRange days rng (is_youtube_feed urlparse url) o (state_of source) now h,
            ))
      ]

  -- Unless the feed is a Reddit feed after the shutdown, a poll schedules the next one strictly later,
  -- and at most a jittered day or the server's Retry-After away.
  pub apply_poll_result_due :
      (source : Source) (now : ℕ) (o : Outcome)
      → IsJitter rng
      → RowInRange source
      → is_dead_reddit_feed urlparse (or_text source.feed_url source.url) now ≡ false
      → (when : ℕ) × ((apply_poll_result urlparse days rng source now o).next_poll_at ≡ some when)
        × (now < when)
        × (when ≤ now + max (1_100_000 * max_interval) (pos_part (or_else o.retry_after (pos 0))))
  unfolding apply_poll_result write_schedule
  apply_poll_result_due source now o jitter h e =
      let url = or_text source.feed_url source.url in
      let step = next_state days rng (is_youtube_feed urlparse url) o (state_of source) now in
      let due =
        next_state_due days rng (is_youtube_feed urlparse url) o (state_of source) now jitter h.0 in
      (step.1, rw e, due.0, due.1)
