-- ===== src/Ranking/Outcome.antt =====
-- The interleaved digest and its verdict: `interleave_ranked` and `digest_outcome` in
-- backend/app/services/ranking/interleaving.py.
use readprism.Prelude.{
  mem, ℕ, ◌≡◌, refl, sym, ap, ◌∙◌, Bool, true, false, ◌||◌, Option, none, some, List, [], ◌∷◌, inl,
  inr, arith, Option-cases, map, ◌==◌, if◌then◌else◌,
}
use readprism.Ranking.Interleaving.{
  Team, prs, baseline, other, team_draft, Row, ids, newest_first, interleave_ranked, tag_rows,
  find_row, insert_newest, Interaction, or_row, cons_row, wins, digest_outcome, Verdict, prs_wins,
  baseline_wins, tie,
}
use readprism.Ranking.Draft.{mem-append}
use readprism.Ranking.TeamDraft.{picked, team_draft_complete}

mem-insert_newest :
    (k : ℕ) (r : Row) (rows : List Row)
    → mem k (ids (insert_newest r rows)) ≡ ((k == r.id) || mem k (ids rows))
unfolding insert_newest
mem-insert_newest k r [] = refl
mem-insert_newest k r (s ∷ rows) = ground (arith, mem-insert_newest k r rows)

mem-newest_first : (k : ℕ) (rows : List Row) → mem k (ids (newest_first rows)) ≡ mem k (ids rows)
unfolding newest_first
mem-newest_first k [] = refl
mem-newest_first k (r ∷ rows) =
    mem-insert_newest k r (newest_first rows) ∙ ap (λ b. (k == r.id) || b) (mem-newest_first k rows)

find_row-id : (id : ℕ) (rows : List Row) (r : Row) → find_row id rows ≡ some r → r.id ≡ id
unfolding find_row
find_row-id id [] r h = cc
find_row-id id (s ∷ rows) r h = elim (Option-cases (find_row id rows)) [
  | inl none_there ↦
      let here = sym (ap (λ o. or_row o (if s.id == id then some s else none)) none_there) ∙ h in
      ground (arith, here)
  | inr (u, found) ↦
      find_row-id id rows r
        (found ∙ sym (ap (λ o. or_row o (if s.id == id then some s else none)) found) ∙ h)
]

find_row-none : (id : ℕ) (rows : List Row) → find_row id rows ≡ none → mem id (ids rows) ≡ false
unfolding find_row
find_row-none id [] h = refl
find_row-none id (s ∷ rows) h = elim (Option-cases (find_row id rows)) [
  | inl none_there ↦
      let here = sym (ap (λ o. or_row o (if s.id == id then some s else none)) none_there) ∙ h in
      let later = find_row-none id rows none_there in ground (arith, here, later)
  | inr (u, found) ↦
      let here = sym (ap (λ o. or_row o (if s.id == id then some s else none)) found) ∙ h in cc
]

-- The tags of rows.
abbrev pub tags : List Row → List (ℕ × Option Team)
tags = map (λ r. (r.id, r.team))

abbrev pub tagged : List (ℕ × Team) → List (ℕ × Option Team)
tagged [] = []
tagged ((x, t) ∷ l) = (x, some t) ∷ tagged l

tag_rows-tags :
    (rows : List Row) (l : List (ℕ × Team))
    → ((k : ℕ) → mem k (picked l) ≡ true → mem k (ids rows) ≡ true)
    → (out : List Row) × (tag_rows rows l ≡ some out) × (tags out ≡ tagged l)
unfolding tag_rows
tag_rows-tags rows [] all = ([], refl, refl)
tag_rows-tags rows ((x, t) ∷ l) all =
    let (out, e, same) = tag_rows-tags rows l (λ k m. all k (ground (arith, m))) in
    let here = all x (ground arith) in
    elim (Option-cases (find_row x rows)) [
      | inl gone ↦ let no = find_row-none x rows gone in absurd (ground (arith, here, no))
      | inr (r, found) ↦ (
        record r { team = some t } ∷ out,
        ap (λ o. cons_row t o (tag_rows rows l)) found ∙ ap (cons_row t (some r)) e,
        ap (λ i. (i, some t) ∷ tags out) (find_row-id x rows r found)
            ∙ ap (λ ts. (x, some t) ∷ ts) same,
      )
    ]

-- Interleaving never misses a row: it returns the rows of the draft in the draft's order, each tagged with
-- the team that picked it.
pub interleave_ranked-tags :
    (ranked : List Row) (coin : ℕ → Bool)
    → (out : List Row) × (interleave_ranked ranked coin ≡ some out)
      × (tags out ≡ tagged (team_draft (ids ranked) (ids (newest_first ranked)) coin))
unfolding interleave_ranked
interleave_ranked-tags ranked coin =
    let p = ids ranked in
    let b = ids (newest_first ranked) in
    tag_rows-tags ranked (team_draft p b coin) (λ k m.
      let there = team_draft_complete p b coin k in
      let split = mem-append k p b in
      let same = mem-newest_first k ranked in ground (arith, m, there, split, same))

-- The impressions of a digest with the teams exchanged.
abbrev pub swap_teams : List (ℕ × Team) → List (ℕ × Team)
swap_teams [] = []
swap_teams ((x, t) ∷ l) = (x, other t) ∷ swap_teams l

abbrev pub other_verdict : Verdict → Verdict
other_verdict prs_wins = baseline_wins
other_verdict baseline_wins = prs_wins
other_verdict tie = tie

wins-swap :
    (t : Team) (interactions : ℕ → Option Interaction) (l : List (ℕ × Team))
    → wins (other t) interactions (swap_teams l) ≡ wins t interactions l
unfolding wins
wins-swap t interactions [] = refl
wins-swap prs interactions ((x, prs) ∷ l) = ground (arith, wins-swap prs interactions l)
wins-swap prs interactions ((x, baseline) ∷ l) = ground (arith, wins-swap prs interactions l)
wins-swap baseline interactions ((x, prs) ∷ l) = ground (arith, wins-swap baseline interactions l)
wins-swap baseline interactions ((x, baseline) ∷ l) =
    ground (arith, wins-swap baseline interactions l)

-- The verdict favours no team: exchanging the teams of all impressions exchanges the verdict.
pub digest_outcome-swap :
    (teams : List (ℕ × Team)) (interactions : ℕ → Option Interaction)
    → digest_outcome (swap_teams teams) interactions
      ≡ other_verdict (digest_outcome teams interactions)
unfolding digest_outcome
digest_outcome-swap teams interactions =
    let p = wins-swap prs interactions teams in
    let b = wins-swap baseline interactions teams in ground (arith, p, b)
