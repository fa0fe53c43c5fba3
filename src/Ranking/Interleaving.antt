-- ===== src/Ranking/Interleaving.antt =====
-- Team-draft interleaving: backend/app/services/ranking/interleaving.py. Items are named by their ids,
-- which the source only compares. `coin n` is the n-th draw of `rng.random() < 0.5`. A cursor into a
-- ranking is the part of the ranking from the cursor on.
use mathlib.Core.List.{foldr}
use readprism.Prelude.Int.{ℤ, pos, negsuc}
use readprism.Prelude.{
  mem, ℕ, zero, suc, ◌+◌, Bool, true, false, ◌&&◌, ◌||◌, Option, none, some, List, [], ◌∷◌, ◌++◌,
  map, ltb, leb, ◌==◌, if◌then◌else◌, or_else,
}

pub data Team : Type 0 where
  prs baseline : Team

-- `len(set(l) - set(used))`
unfoldable pub count_new : List ℕ → List ℕ → ℕ
count_new used [] = 0
count_new used (x ∷ l) = if mem x used then count_new used l else suc (count_new (x ∷ used) l)

pub record Draft : Type 0 where
  pub used : List ℕ
  pub prs_count : ℕ
  pub baseline_count : ℕ
  pub prs_rest : List ℕ
  pub baseline_rest : List ℕ
  pub draws : ℕ

-- The inner loop: past what was picked already.
unfoldable pub skip : List ℕ → List ℕ → List ℕ
skip used [] = []
skip used (x ∷ l) = if mem x used then skip used l else x ∷ l

-- Whose turn it is, and the draft after the coin that this may take.
unfoldable pub turn : (ℕ → Bool) → Draft → Team × Draft
turn coin d =
    if ltb d.prs_count d.baseline_count
    then (prs, d)
    else if ltb d.baseline_count d.prs_count
    then (baseline, d)
    else (if coin d.draws then prs else baseline, record d { draws = d.draws + 1 })

abbrev pub other : Team → Team
other prs = baseline
other baseline = prs

-- The items left to a team, its cursor moved on.
unfoldable pub rest_of : Team → Draft → List ℕ
rest_of prs d = skip d.used d.prs_rest
rest_of baseline d = skip d.used d.baseline_rest

-- Picks the item under the cursor of a team, if there is one.
unfoldable pub take_item : Team → List ℕ → Draft → Option (ℕ × Team × Draft)
take_item team [] d = none
take_item prs (x ∷ l) d =
    some (x, prs, record d { used = x ∷ d.used; prs_count = d.prs_count + 1; prs_rest = x ∷ l })
take_item baseline (x ∷ l) d = some (
  x,
  baseline,
  record d { used = x ∷ d.used; baseline_count = d.baseline_count + 1; baseline_rest = x ∷ l },
)

abbrev pub or_pick :
    Option (ℕ × Team × Draft) → Option (ℕ × Team × Draft) → Option (ℕ × Team × Draft)
or_pick none p = p
or_pick (some p) q = some p

-- One round of the outer loop; `none` is its `break`.
unfoldable pub pick : (ℕ → Bool) → Draft → Option (ℕ × Team × Draft)
pick coin d =
    let (team, d') = turn coin d in
    or_pick (take_item team (rest_of team d') d')
      (take_item (other team) (rest_of (other team) d') d')

-- The outer loop, by the number of items that are left to pick.
unfoldable pub rounds : (ℕ → Bool) → ℕ → Draft → List (ℕ × Team)
rounds coin zero d = []
rounds coin (suc n) d = elim (pick coin d) [
  | none ↦ []
  | some (x, team, d') ↦ (x, team) ∷ rounds coin n d'
]

unfoldable pub team_draft : List ℕ → List ℕ → (ℕ → Bool) → List (ℕ × Team)
team_draft prs_order baseline_order coin =
    rounds coin (count_new [] (prs_order ++ baseline_order)) (record {
      used = [];
      prs_count = 0;
      baseline_count = 0;
      prs_rest = prs_order;
      baseline_rest = baseline_order;
      draws = 0;
    })

-- A ranked row: the item's id and dates, its score in the order of the floats, and the team that the
-- breakdown is tagged with.
pub record Row : Type 0 where
  pub id : ℕ
  pub published_at : Option ℕ
  pub fetched_at : Option ℕ
  pub score : ℕ
  pub team : Option Team

-- The moment of a row; `datetime.min` where it has no date.
abbrev pub moment : Row → ℕ
moment row = or_else row.published_at (or_else row.fetched_at 0)

unfoldable pub insert_newest : Row → List Row → List Row
insert_newest r [] = r ∷ []
insert_newest r (s ∷ l) = if leb (moment s) (moment r) then r ∷ s ∷ l else s ∷ insert_newest r l

-- `sorted(rows, key=moment, reverse=True)`, which is stable.
unfoldable pub newest_first : List Row → List Row
unfolding insert_newest
newest_first = foldr insert_newest []

abbrev pub or_row : Option Row → Option Row → Option Row
or_row none r = r
or_row (some r) s = some r

-- `by_id[id]`: the last row of an id stands.
unfoldable pub find_row : ℕ → List Row → Option Row
find_row id [] = none
find_row id (r ∷ rows) = or_row (find_row id rows) (if r.id == id then some r else none)

abbrev pub cons_row : Team → Option Row → Option (List Row) → Option (List Row)
cons_row team (some r) (some rows) = some (record r { team = some team } ∷ rows)
cons_row team _ _ = none

-- The rows of a draft, tagged; `none` is a KeyError.
unfoldable pub tag_rows : List Row → List (ℕ × Team) → Option (List Row)
unfolding find_row
tag_rows rows [] = some []
tag_rows rows ((id, team) ∷ drafted) = cons_row team (find_row id rows) (tag_rows rows drafted)

abbrev pub ids : List Row → List ℕ
ids = map (λ r. r.id)

unfoldable pub interleave_ranked : List Row → (ℕ → Bool) → Option (List Row)
interleave_ranked ranked coin =
    tag_rows ranked (team_draft (ids ranked) (ids (newest_first ranked)) coin)

-- What a reader did with an item; the completion is in thousandths.
pub record Interaction : Type 0 where
  pub read_completion : Option ℕ
  pub explicit_rating : Option ℤ
  pub saved : Bool

abbrev is_positive : ℤ → Bool
is_positive (pos n) = ltb 0 n
is_positive (negsuc n) = false

unfoldable pub finished : Option Interaction → Bool
finished none = false
finished (some i) =
    leb 700 (or_else i.read_completion 0)
    || is_positive (or_else i.explicit_rating (pos 0))
    || i.saved

abbrev pub is_team : Team → Team → Bool
is_team prs prs = true
is_team baseline baseline = true
is_team _ _ = false

-- `wins[team]`, over the impressions of a digest.
unfoldable pub wins : Team → (ℕ → Option Interaction) → List (ℕ × Team) → ℕ
wins team interactions [] = 0
wins team interactions ((id, t) ∷ teams) =
    (if finished (interactions id) && is_team t team then 1 else 0) + wins team interactions teams

pub data Verdict : Type 0 where
  prs_wins baseline_wins tie : Verdict

unfoldable pub digest_outcome : List (ℕ × Team) → (ℕ → Option Interaction) → Verdict
digest_outcome teams interactions =
    let p = wins prs interactions teams in
    let b = wins baseline interactions teams in
    if ltb b p then prs_wins else if ltb p b then baseline_wins else tie
