-- ===== src/Ingestion/Schedule.antt =====
-- The poll schedule of one feed: backend/app/services/ingestion/schedule.py. A moment is a count of
-- microseconds, the grain of `datetime`; intervals are whole seconds, as in the source. `rng` gives the
-- microseconds of `interval * rng.uniform(0.9, 1.1)` seconds.
use mathlib.Core.List.{foldr}
use readprism.Prelude.{
  ℕ, ◌+◌, ◌-◌, ◌*◌, ◌/◌, ◌^◌, min, max, Bool, false, ◌&&◌, ◌||◌, Option, none, some, List, [], ◌∷◌,
  ◌++◌, ltb, leb, ◌==◌, if◌then◌else◌, or_else, length, drop, get_elem?,
}
use readprism.Prelude.Int.{ℤ, pos, pos_part}

abbrev pub second : ℕ
second = 1_000_000

abbrev pub day : ℕ
day = 86_400 * second

abbrev pub min_interval : ℕ
min_interval = 15 * 60

abbrev pub max_interval : ℕ
max_interval = 24 * 60 * 60

abbrev pub default_interval : ℕ
default_interval = 60 * 60

abbrev pub error_base : ℕ
error_base = 5 * 60

abbrev pub dead_after : ℕ
dead_after = 7 * day

abbrev pub max_gaps : ℕ
max_gaps = 20

pub data FeedStatus : Type 0 where
  healthy degraded failing platform_outage dead : FeedStatus

pub record ScheduleState : Type 0 where
  pub interval_seconds : ℕ
  pub consecutive_errors : ℕ
  pub recent_gaps : List ℕ
  pub status : FeedStatus
  pub failure_since : Option ℕ

-- On half a number of seconds: `seconds / 2` is a float, and `int` cuts it.
unfoldable pub clamp_half : ℕ → ℕ
clamp_half seconds = min max_interval (max (2 * min_interval) seconds / 2)

insert_sorted : ℕ → List ℕ → List ℕ
insert_sorted a [] = a ∷ []
insert_sorted a (b ∷ l) = if leb a b then a ∷ b ∷ l else b ∷ insert_sorted a l

-- `sorted`
sort : List ℕ → List ℕ
unfolding insert_sorted
sort = foldr insert_sorted []

unfoldable pub initial_interval : List ℕ → ℕ
unfolding sort clamp_half
initial_interval [] = default_interval
initial_interval (g ∷ gaps) =
    let ordered = sort (g ∷ gaps) in clamp_half (or_else (get_elem? ordered (length ordered / 2)) 0)

-- `failure_since is not None and now - failure_since >= _DEAD_AFTER`
abbrev pub lapsed : Option ℕ → ℕ → Bool
lapsed none now = false
lapsed (some t) now = leb (t + dead_after) now

unfoldable pub health_status : ℕ → Option ℕ → ℕ → Bool → FeedStatus
health_status errors failure_since now gone =
    if gone || (ltb 0 errors && lapsed failure_since now)
    then dead
    else if errors == 0
    then healthy
    else if leb errors 2
    then degraded
    else failing

-- 304 or a poll that produced no new items.
unfoldable pub on_quiet : ScheduleState → ℕ → (ℕ → ℕ) → ScheduleState × ℕ
on_quiet state now rng =
    let interval = min max_interval (state.interval_seconds * 5 / 4) in
    (
      record {
        interval_seconds = interval;
        consecutive_errors = 0;
        recent_gaps = state.recent_gaps;
        status = healthy;
        failure_since = none;
      },
      now + rng interval,
    )

-- `l[-20:]`
abbrev pub last_gaps : List ℕ → List ℕ
last_gaps l = drop (length l - max_gaps) l

unfoldable pub on_new_items : ScheduleState → ℕ → (ℕ → ℕ) → ℤ → ScheduleState × ℕ
on_new_items state now rng gap_seconds =
    let interval = max min_interval (state.interval_seconds * 2 / 3) in
    (
      record {
        interval_seconds = interval;
        consecutive_errors = 0;
        recent_gaps = last_gaps (state.recent_gaps ++ (pos_part gap_seconds ∷ []));
        status = healthy;
        failure_since = none;
      },
      now + rng interval,
    )

-- The state after a failed poll, of which only the status differs by the kind of failure.
abbrev pub failed : ScheduleState → ℕ → FeedStatus → ScheduleState
failed state now s = record {
  interval_seconds = state.interval_seconds;
  consecutive_errors = state.consecutive_errors + 1;
  recent_gaps = state.recent_gaps;
  status = s;
  failure_since = some (or_else state.failure_since now);
}

-- Exponential backoff, in seconds.
unfoldable pub backoff : ℕ → ℕ → ℕ
backoff errors cap = min (error_base * 2 ^ errors) cap

-- `retry_after` is in microseconds here.
unfoldable pub on_error : ScheduleState → ℕ → Option ℤ → Bool → ScheduleState × ℕ
unfolding health_status
on_error state now retry_after gone =
    let errors = state.consecutive_errors + 1 in
    let since = or_else state.failure_since now in
    let delay =
      max (backoff errors max_interval * second) (pos_part (or_else retry_after (pos 0))) in
    (failed state now (health_status errors (some since) now gone), now + delay)

unfoldable pub on_rate_limited : ScheduleState → ℕ → ℤ → ScheduleState × ℕ
unfolding health_status
on_rate_limited state now retry_after =
    let errors = state.consecutive_errors + 1 in
    let since = or_else state.failure_since now in
    let wait = pos_part retry_after in
    let delay = if ltb 0 wait then wait else backoff errors max_interval * second in
    (failed state now (health_status errors (some since) now false), now + delay)

-- Microseconds to wait before calling a host; `none` asks the caller to wait for a free slot.
unfoldable pub politeness_delay : Option ℕ → ℕ → ℕ → Option ℕ
politeness_delay last now inflight =
    if leb 2 inflight then none else elim last [ none ↦ some 0 | some t ↦ some (t + second - now) ]

abbrev pub youtube_max_backoff : ℕ
youtube_max_backoff = 3 * 60 * 60

unfoldable pub youtube_error : ℕ → ScheduleState → ℕ → ScheduleState × ℕ
youtube_error dead_after_days state now =
    let errors = state.consecutive_errors + 1 in
    let since = or_else state.failure_since now in
    let status = if leb (since + dead_after_days * day) now then dead else platform_outage in
    (failed state now status, now + backoff errors youtube_max_backoff * second)
