-- ===== src/Ranking/Tests.antt =====
-- Two rankings, and the theorems at them.
use readprism.Prelude.{
  ℕ, zero, suc, ◌+◌, ◌≤◌, ◌≡◌, refl, Bool, true, false, Option, none, some, List, [], ◌∷◌, arith,
}
use readprism.Ranking.Interleaving.{
  Team, prs, baseline, team_draft, Row, ids, newest_first, Interaction, rounds, pick, turn,
  take_item, rest_of, skip, count_new, insert_newest, digest_outcome, wins, finished,
}
use readprism.Ranking.Report.{
  Impression, interleaving_report, group_digests, put_row, put_team, tally, count_for, pool,
  sorted_rates,
}
use readprism.Ranking.Draft.{SameMembers}
use readprism.Ranking.TeamDraft.{picked, IsDistinct, team_draft-IsDistinct}
use readprism.Ranking.Fairness.{picks_among, team_draft_fair}

abbrev by_score : List ℕ
by_score = 4 ∷ 1 ∷ 2 ∷ 3 ∷ []

abbrev by_date : List ℕ
by_date = 3 ∷ 1 ∷ 4 ∷ 2 ∷ []

abbrev heads_first : ℕ → Bool
heads_first zero = true
heads_first (suc n) = false

abbrev drafted : List (ℕ × Team)
drafted = (4, prs) ∷ (3, baseline) ∷ (1, baseline) ∷ (2, prs) ∷ []

team_draft_run : team_draft by_score by_date heads_first ≡ drafted
unfolding team_draft rounds pick turn take_item rest_of skip count_new
team_draft_run = refl

abbrev row : ℕ → ℕ → ℕ → Row
row id date score = record {
  id = id;
  published_at = some date;
  fetched_at = none;
  score = score;
  team = none;
}

abbrev rows : List Row
rows = row 4 20 900 ∷ row 1 30 800 ∷ row 2 10 700 ∷ row 3 40 600 ∷ []

newest_first_run : ids (newest_first rows) ≡ by_date
unfolding newest_first insert_newest
newest_first_run = refl

same : SameMembers by_score by_date
same k = ground arith

team_draft-IsDistinct_example : IsDistinct (picked (team_draft by_score by_date heads_first))
team_draft-IsDistinct_example = team_draft-IsDistinct by_score by_date heads_first

team_draft_fair_example :
    (picks_among 3 prs (team_draft by_score by_date heads_first)
      ≤ picks_among 3 baseline (team_draft by_score by_date heads_first) + 1)
    × (picks_among 3 baseline (team_draft by_score by_date heads_first)
        ≤ picks_among 3 prs (team_draft by_score by_date heads_first) + 1)
team_draft_fair_example = team_draft_fair by_score by_date heads_first 3 same

abbrev reading : ℕ → Option Interaction
reading zero = none
reading (suc n) =
    some (record { read_completion = some 800; explicit_rating = none; saved = false })

abbrev impressions : List Impression
impressions =
    record { digest = 1; user = 7; item = 4; team = prs }
    ∷ record { digest = 1; user = 7; item = 3; team = baseline }
    ∷ record { digest = 2; user = 8; item = 0; team = prs }
    ∷ record { digest = 1; user = 7; item = 2; team = prs }
    ∷ []

report_run : interleaving_report (λ user. reading) impressions ≡ record {
  digests = 2;
  pooled = record { prs = 1; baseline = 0; ties = 1 };
  users = 2;
  user_win_rates = (1, 1) ∷ [];
}
unfolding interleaving_report group_digests put_row put_team tally count_for pool sorted_rates
    digest_outcome wins finished
report_run = refl
