-- ===== src/Ranking/TeamDraft.antt =====
-- What `team_draft` in backend/app/services/ranking/interleaving.py guarantees, for every sequence of
-- coin flips.
use mathlib.Core.Path.{subst}
use readprism.Prelude.{
  mem, ℕ, zero, suc, ◌≤◌, ◌≡◌, refl, sym, ap, ◌∙◌, Bool, true, false, ◌||◌, none, some, List, [],
  ◌∷◌, ◌++◌, arith,
}
use readprism.Ranking.Interleaving.{Team, prs, baseline, Draft, pick, rounds, team_draft, count_new}
use readprism.Ranking.Draft.{Orders, first_unused, mem-append, count_new_pick, count_new_zero}
use readprism.Ranking.Picks.{IsDraft, RanOut}
use readprism.Ranking.Rounds.{IsStep, IsRound, pick-IsRound}

-- The picks of a draft from a state on, to the end.
abbrev pub Run : Orders → Draft → List (ℕ × Team) → Type 0
Run orders d [] = (t : Team) → RanOut orders d t
Run orders d ((x, t) ∷ l) = (d' : Draft) × IsStep orders d x d' t × Run orders d' l

abbrev pub picked : List (ℕ × Team) → List ℕ
picked [] = []
picked ((x, t) ∷ l) = x ∷ picked l

pub first_unused-new : (used l : List ℕ) (x : ℕ) → first_unused used l ≡ some x → mem x used ≡ false
unfolding first_unused
first_unused-new used [] x h = cc
first_unused-new used (y ∷ l) x h = ground (arith, first_unused-new used l x)

pub first_unused-mem : (used l : List ℕ) (x : ℕ) → first_unused used l ≡ some x → mem x l ≡ true
unfolding first_unused
first_unused-mem used [] x h = cc
first_unused-mem used (y ∷ l) x h = ground (arith, first_unused-mem used l x)

module _ (orders : Orders) where
  abbrev pub both : List ℕ
  both = orders prs ++ orders baseline

  mem-both : (t : Team) (x : ℕ) → mem x (orders t) ≡ true → mem x both ≡ true
  mem-both prs x h = ground (arith, mem-append x (orders prs) (orders baseline))
  mem-both baseline x h = ground (arith, mem-append x (orders prs) (orders baseline))

  -- A pick uses up one of the items that were left.
  step_fewer :
      (d d' : Draft) (x : ℕ) (t : Team)
      → IsStep orders d x d' t
      → count_new d.used both ≡ suc (count_new d'.used both)
  step_fewer d d' x t (first, used, _, _, _, _) =
      count_new_pick x d.used both (first_unused-new d.used (orders t) x first)
        (mem-both t x (first_unused-mem d.used (orders t) x first))
      ∙ ap (λ u. suc (count_new u both)) (sym used)

  -- The loop reaches its end when it may run as often as items are left.
  rounds-Run :
      (coin : ℕ → Bool) (n : ℕ) (d : Draft)
      → IsDraft orders d
      → count_new d.used both ≤ n
      → Run orders d (rounds coin n d)
  unfolding rounds
  rounds-Run coin zero d valid le =
      λ t k m. count_new_zero k d.used both (omega arith) (mem-both t k m)
  rounds-Run coin (suc n) d valid le =
      (elim (pick coin d)
          as (λ p.
            IsRound orders d p
            → Run orders d
                (elim p [ none ↦ [] | some (x, team, d') ↦ (x, team) ∷ rounds coin n d' ])) [
                  | none ↦ λ out. out
                  | some (x, t, d') ↦ λ step. (
                    d',
                    step,
                    rounds-Run coin n d' step.2
                        (let fewer = step_fewer d d' x t step in omega arith),
                  )
                ])
        (pick-IsRound orders coin d valid)

abbrev pub orders_of : List ℕ → List ℕ → Orders
orders_of prs_order baseline_order prs = prs_order
orders_of prs_order baseline_order baseline = baseline_order

abbrev pub start_draft : List ℕ → List ℕ → Draft
start_draft prs_order baseline_order = record {
  used = [];
  prs_count = 0;
  baseline_count = 0;
  prs_rest = prs_order;
  baseline_rest = baseline_order;
  draws = 0;
}

pub team_draft-Run :
    (p b : List ℕ) (coin : ℕ → Bool) → Run (orders_of p b) (start_draft p b) (team_draft p b coin)
unfolding team_draft
team_draft-Run p b coin =
    rounds-Run (orders_of p b) coin (count_new [] (p ++ b)) (start_draft p b)
      (elim [ prs ↦ ([], refl, λ k h. h) | baseline ↦ ([], refl, λ k h. h) ]) (omega arith)

abbrev pub IsDistinct : List ℕ → Type 0
IsDistinct [] = Unit
IsDistinct (x ∷ l) = (mem x l ≡ false) × IsDistinct l

-- Every pick is the best item of its team's ranking that is not picked yet.
abbrev pub IsBest : Orders → List ℕ → List (ℕ × Team) → Type 0
IsBest orders used [] = Unit
IsBest orders used ((x, t) ∷ l) =
    (first_unused used (orders t) ≡ some x) × IsBest orders (x ∷ used) l

module _ (orders : Orders) where
  Run-later :
      (d : Draft) (l : List (ℕ × Team))
      → Run orders d l
      → (k : ℕ) → mem k d.used ≡ true
      → mem k (picked l) ≡ false
  Run-later d [] run k m = refl
  Run-later d ((x, t) ∷ l) (d', (first, used, _, _, _, _), run) k m =
      let new = first_unused-new d.used (orders t) x first in
      let seen = ap (mem k) used in
      let later = Run-later d' l run k (ground (arith, seen)) in ground (arith, later, new)

  Run-IsDistinct : (d : Draft) (l : List (ℕ × Team)) → Run orders d l → IsDistinct (picked l)
  Run-IsDistinct d [] run = tt
  Run-IsDistinct d ((x, t) ∷ l) (d', (first, used, _, _, _, _), run) =
      let seen = ap (mem x) used in
      (Run-later d' l run x (ground (arith, seen)), Run-IsDistinct d' l run)

  Run-IsBest : (d : Draft) (l : List (ℕ × Team)) → Run orders d l → IsBest orders d.used l
  Run-IsBest d [] run = tt
  Run-IsBest d ((x, t) ∷ l) (d', (first, used, _, _, _, _), run) =
      (first, subst (λ u. IsBest orders u l) used (Run-IsBest d' l run))

  Run-only :
      (d : Draft) (l : List (ℕ × Team))
      → Run orders d l
      → (k : ℕ) → mem k (picked l) ≡ true
      → mem k (both orders) ≡ true
  Run-only d [] run k m = ground (arith, m)
  Run-only d ((x, t) ∷ l) (d', (first, used, _, _, _, _), run) k m =
      let found = mem-both orders t x (first_unused-mem d.used (orders t) x first) in
      let later = Run-only d' l run k in ground (arith, found, later)

  Run-all :
      (d : Draft) (l : List (ℕ × Team))
      → Run orders d l
      → (t : Team) (k : ℕ) → mem k (orders t) ≡ true
      → (mem k d.used || mem k (picked l)) ≡ true
  Run-all d [] run t k m = ground (arith, run t k m)
  Run-all d ((x, u) ∷ l) (d', (first, used, _, _, _, _), run) t k m =
      let seen = ap (mem k) used in
      let later = Run-all d' l run t k m in ground (arith, seen, later)

module _ (p b : List ℕ) (coin : ℕ → Bool) where
  -- No item is picked twice, also where a ranking names an item twice.
  pub team_draft-IsDistinct : IsDistinct (picked (team_draft p b coin))
  team_draft-IsDistinct =
      Run-IsDistinct (orders_of p b) (start_draft p b) (team_draft p b coin)
        (team_draft-Run p b coin)

  -- The draft picks exactly the items that one of the two rankings has.
  pub team_draft_complete : (k : ℕ) → mem k (picked (team_draft p b coin)) ≡ mem k (p ++ b)
  team_draft_complete k =
      let run = team_draft-Run p b coin in
      let all = Run-all (orders_of p b) (start_draft p b) (team_draft p b coin) run in
      let only = Run-only (orders_of p b) (start_draft p b) (team_draft p b coin) run k in
      let from_p = all prs k in
      let from_b = all baseline k in
      let split = mem-append k p b in ground (arith, only, from_p, from_b, split)

  -- Every item of the draft is, when it is picked, the first item of its team's ranking that no team has
  -- picked before.
  pub team_draft-IsBest : IsBest (orders_of p b) [] (team_draft p b coin)
  team_draft-IsBest =
      Run-IsBest (orders_of p b) (start_draft p b) (team_draft p b coin) (team_draft-Run p b coin)
