-- ===== src/Ranking/Report.antt =====
-- The win rate of the PRS over all interleaved digests: `interleaving_report` of
-- backend/app/services/ranking/interleaving.py. The rows of the query, and the interactions of each
-- account, are arguments; a rate is its numerator and denominator, before rounding.
use readprism.Prelude.{
  length, ℕ, ◌+◌, ◌*◌, ◌≤◌, ◌≡◌, refl, Option, none, some, List, [], ◌∷◌, arith, ◌==◌, leb,
  if◌then◌else◌,
}
use readprism.Ranking.Interleaving.{
  Team, Interaction, Verdict, prs_wins, baseline_wins, tie, digest_outcome,
}

-- A row of the query: an impression that has a team.
pub record Impression : Type 0 where
  pub digest : ℕ
  pub user : ℕ
  pub item : ℕ
  pub team : Team

pub record DigestInfo : Type 0 where
  pub digest : ℕ
  pub user : ℕ
  pub teams : List (ℕ × Team)

-- `teams[item] = team`
unfoldable pub put_team : ℕ → Team → List (ℕ × Team) → List (ℕ × Team)
put_team item team [] = (item, team) ∷ []
put_team item team ((i, t) ∷ l) =
    let rest = put_team item team l in if i == item then (item, team) ∷ l else (i, t) ∷ rest

-- `setdefault` on the digest, then the item's team.
unfoldable pub put_row : Impression → List DigestInfo → List DigestInfo
unfolding put_team
put_row r [] = record { digest = r.digest; user = r.user; teams = (r.item, r.team) ∷ [] } ∷ []
put_row r (d ∷ ds) =
    let rest = put_row r ds in
    if d.digest == r.digest
    then record d { teams = put_team r.item r.team d.teams } ∷ ds
    else d ∷ rest

unfoldable pub group_digests : List Impression → List DigestInfo → List DigestInfo
group_digests [] ds = ds
group_digests (r ∷ rows) ds = group_digests rows (put_row r ds)

-- A Counter of outcomes.
pub record Counts : Type 0 where
  pub prs : ℕ
  pub baseline : ℕ
  pub ties : ℕ

abbrev pub no_counts : Counts
no_counts = record { prs = 0; baseline = 0; ties = 0 }

abbrev pub count_verdict : Verdict → Counts → Counts
count_verdict prs_wins c = record c { prs = c.prs + 1 }
count_verdict baseline_wins c = record c { baseline = c.baseline + 1 }
count_verdict tie c = record c { ties = c.ties + 1 }

unfoldable pub count_for : ℕ → Verdict → List (ℕ × Counts) → List (ℕ × Counts)
count_for user v [] = (user, count_verdict v no_counts) ∷ []
count_for user v ((u, c) ∷ l) =
    let rest = count_for user v l in if u == user then (u, count_verdict v c) ∷ l else (u, c) ∷ rest

abbrev pub add_counts : Counts → Counts → Counts
add_counts a b = record {
  prs = a.prs + b.prs;
  baseline = a.baseline + b.baseline;
  ties = a.ties + b.ties;
}

unfoldable pub pool : List (ℕ × Counts) → Counts
pool [] = no_counts
pool ((u, c) ∷ l) = add_counts c (pool l)

abbrev pub win_rate : Counts → Option (ℕ × ℕ)
win_rate c = if c.prs + c.baseline == 0 then none else some (c.prs, c.prs + c.baseline)

abbrev insert_some : (ℕ × ℕ) → List (ℕ × ℕ) → List (ℕ × ℕ)
insert_some x [] = x ∷ []
insert_some (a, b) ((c, d) ∷ l) =
    let rest = insert_some (a, b) l in
    if leb (a * d) (c * b) then (a, b) ∷ (c, d) ∷ l else (c, d) ∷ rest

abbrev insert_rate : Option (ℕ × ℕ) → List (ℕ × ℕ) → List (ℕ × ℕ)
insert_rate none l = l
insert_rate (some x) l = insert_some x l

unfoldable pub sorted_rates : List (ℕ × Counts) → List (ℕ × ℕ)
sorted_rates [] = []
sorted_rates ((u, c) ∷ l) = insert_rate (win_rate c) (sorted_rates l)

pub record Report : Type 0 where
  pub digests : ℕ
  pub pooled : Counts
  pub users : ℕ
  pub user_win_rates : List (ℕ × ℕ)

module _ (interactions : ℕ → ℕ → Option Interaction) where
  unfoldable pub tally : List DigestInfo → List (ℕ × Counts) → List (ℕ × Counts)
  tally [] per_user = per_user
  tally (d ∷ ds) per_user =
      tally ds (count_for d.user (digest_outcome d.teams (interactions d.user)) per_user)

  unfoldable pub interleaving_report : List Impression → Report
  unfolding tally group_digests
  interleaving_report rows =
      let digests = group_digests rows [] in
      let per_user = tally digests [] in
      record {
        digests = length digests;
        pooled = pool per_user;
        users = length per_user;
        user_win_rates = sorted_rates per_user;
      }

abbrev pub total : Counts → ℕ
total c = c.prs + (c.baseline + c.ties)

count_for-total :
    (user : ℕ) (v : Verdict) (l : List (ℕ × Counts))
    → total (pool (count_for user v l)) ≡ total (pool l) + 1
unfolding count_for pool
count_for-total user prs_wins [] = refl
count_for-total user baseline_wins [] = refl
count_for-total user tie [] = refl
count_for-total user prs_wins ((u, c) ∷ l) = ground (arith, count_for-total user prs_wins l)
count_for-total user baseline_wins ((u, c) ∷ l) =
    ground (arith, count_for-total user baseline_wins l)
count_for-total user tie ((u, c) ∷ l) = ground (arith, count_for-total user tie l)

count_for-users :
    (user : ℕ) (v : Verdict) (l : List (ℕ × Counts)) → length (count_for user v l) ≤ length l + 1
unfolding count_for
count_for-users user v [] = omega arith
count_for-users user v ((u, c) ∷ l) = ground (arith, count_for-users user v l)

module _ (interactions : ℕ → ℕ → Option Interaction) where
  tally-total :
      (ds : List DigestInfo) (l : List (ℕ × Counts))
      → total (pool (tally interactions ds l)) ≡ total (pool l) + length ds
  unfolding tally
  tally-total [] l = omega arith
  tally-total (d ∷ ds) l =
      let v = digest_outcome d.teams (interactions d.user) in
      let later = tally-total ds (count_for d.user v l) in
      let here = count_for-total d.user v l in omega arith

  tally-users :
      (ds : List DigestInfo) (l : List (ℕ × Counts))
      → length (tally interactions ds l) ≤ length l + length ds
  unfolding tally
  tally-users [] l = omega arith
  tally-users (d ∷ ds) l =
      let v = digest_outcome d.teams (interactions d.user) in
      let later = tally-users ds (count_for d.user v l) in
      let here = count_for-users d.user v l in omega arith

  -- The report counts every digest once: as a win of one team or the other, or as a tie; and there are no
  -- more accounts than digests.
  pub interleaving_report-total :
      (rows : List Impression)
      → let report = interleaving_report interactions rows in
        (total report.pooled ≡ report.digests) × (report.users ≤ report.digests)
  unfolding interleaving_report pool
  interleaving_report-total rows =
      let digests = group_digests rows [] in
      let sum = tally-total digests [] in
      let users = tally-users digests [] in (omega arith, omega arith)
