-- ===== src/Ranking/Fairness.antt =====
-- The draft is fair: `team_draft` and `interleave_ranked` in
-- backend/app/services/ranking/interleaving.py give the two teams as many items as they can.
use readprism.Prelude.{
  mem, ℕ, zero, suc, ◌+◌, ◌≤◌, ◌≡◌, sym, Bool, List, [], ◌∷◌, inl, inr, arith, if◌then◌else◌,
}
use readprism.Ranking.Interleaving.{Team, prs, baseline, Draft, other, team_draft, is_team}
use readprism.Ranking.Draft.{Orders, SameMembers}
use readprism.Ranking.Picks.{picks_of}
use readprism.Ranking.Rounds.{IsStep}
use readprism.Ranking.TeamDraft.{
  Run, team_draft-Run, orders_of, start_draft, first_unused-new, first_unused-mem,
}

-- How many of the first n picks are a team's.
unfoldable pub picks_among : ℕ → Team → List (ℕ × Team) → ℕ
picks_among zero t l = 0
picks_among (suc n) t [] = 0
picks_among (suc n) t ((x, u) ∷ l) = (if is_team t u then 1 else 0) + picks_among n t l

module _ (orders : Orders) (same : SameMembers (orders prs) (orders baseline)) where
  same_members : (t : Team) (k : ℕ) → mem k (orders t) ≡ mem k (orders (other t))
  same_members prs k = same k
  same_members baseline k = sym (same k)

  -- With the same items in both rankings, the team that picks is never ahead.
  step_fair :
      (d d' : Draft) (x : ℕ) (t : Team)
      → IsStep orders d x d' t
      → picks_of t d ≤ picks_of (other t) d
  step_fair d d' x t (first, used, valid, more, still, inl fair) = fair
  step_fair d d' x t (first, used, valid, more, still, inr out) =
      let found = first_unused-mem d.used (orders t) x first in
      let new = first_unused-new d.used (orders t) x first in
      let left = out x in let also = same_members t x in ground (arith, found, new, left, also)

  abbrev IsBalanced : ℕ → ℕ → Type 0
  IsBalanced a b = (a ≤ b + 1) × (b ≤ a + 1)

  Run-fair :
      (n : ℕ) (d : Draft) (l : List (ℕ × Team))
      → Run orders d l
      → IsBalanced d.prs_count d.baseline_count
      → IsBalanced (d.prs_count + picks_among n prs l) (d.baseline_count + picks_among n baseline l)
  unfolding picks_among
  Run-fair zero d l run (h, h') = (omega arith, omega arith)
  Run-fair (suc n) d [] run (h, h') = (omega arith, omega arith)
  Run-fair (suc n) d ((x, prs) ∷ l) (d', step, run) (h, h') =
      let fair = step_fair d d' x prs step in
      let (first, used, valid, more, still, _) = step in
      let later = Run-fair n d' l run (omega arith, omega arith) in (omega arith, omega arith)
  Run-fair (suc n) d ((x, baseline) ∷ l) (d', step, run) (h, h') =
      let fair = step_fair d d' x baseline step in
      let (first, used, valid, more, still, _) = step in
      let later = Run-fair n d' l run (omega arith, omega arith) in (omega arith, omega arith)

-- When both rankings have the same items, then at every point of the draft the numbers of items that the
-- two teams have picked so far differ by one at most.
pub team_draft_fair :
    (p b : List ℕ) (coin : ℕ → Bool) (n : ℕ)
    → SameMembers p b
    → (picks_among n prs (team_draft p b coin) ≤ picks_among n baseline (team_draft p b coin) + 1)
      × (picks_among n baseline (team_draft p b coin) ≤ picks_among n prs (team_draft p b coin) + 1)
team_draft_fair p b coin n same =
    let fair =
      Run-fair (orders_of p b) same n (start_draft p b) (team_draft p b coin)
        (team_draft-Run p b coin) (omega arith, omega arith) in
    (omega arith, omega arith)
