-- ===== src/Ranking/Rounds.antt =====
-- One round of the draft, from before the coin to after the pick: the body of the outer loop of
-- `team_draft` in backend/app/services/ranking/interleaving.py.
use mathlib.Core.Path.{subst}
use readprism.Prelude.{
  mem, ℕ, ◌+◌, ◌≤◌, ◌≡◌, sym, ap, ◌∙◌, Bool, Option, none, some, ◌∷◌, ◌⊎◌, inl, inr,
}
use readprism.Ranking.Interleaving.{Team, prs, baseline, Draft, turn, other, pick}
use readprism.Ranking.Draft.{Orders, first_unused}
use readprism.Ranking.Picks.{picks_of, IsDraft, RanOut, IsTaken, IsPick, pick-IsPick, turn_fair}

module _ (orders : Orders) (d : Draft) where
  -- A team is not ahead of the other, or the other has nothing left.
  abbrev pub IsFair : Team → Type 0
  IsFair t = (picks_of t d ≤ picks_of (other t) d) ⊎ RanOut orders d (other t)

  -- A pick of x by team t.
  abbrev pub IsStep : ℕ → Draft → Team → Type 0
  IsStep x d' t =
      (first_unused d.used (orders t) ≡ some x)
      × (d'.used ≡ x ∷ d.used)
      × IsDraft orders d'
      × (picks_of t d' ≡ picks_of t d + 1)
      × (picks_of (other t) d' ≡ picks_of (other t) d)
      × IsFair t

  abbrev pub IsRound : Option (ℕ × Team × Draft) → Type 0
  IsRound none = (t : Team) → RanOut orders d t
  IsRound (some (x, t, d')) = IsStep x d' t

  module _ (e : Draft) (eu : e.used ≡ d.used) (ep : e.prs_count ≡ d.prs_count)
      (eb : e.baseline_count ≡ d.baseline_count) where
    same_picks : (t : Team) → picks_of t e ≡ picks_of t d
    same_picks prs = ep
    same_picks baseline = eb

    same_RanOut : (t : Team) → RanOut orders e t → RanOut orders d t
    same_RanOut t out k m = sym (ap (mem k) eu) ∙ out k m

    IsTaken-IsStep :
        (t : Team) (x : ℕ) (u : Team) (d' : Draft)
        → IsFair t
        → IsTaken orders e t x u d'
        → IsStep x d' u
    IsTaken-IsStep t x u d' fair (same, first, used, valid, more, still) =
        subst (IsStep x d') (sym same) (
          sym (ap (λ v. first_unused v (orders t)) eu) ∙ first,
          used ∙ ap (λ v. x ∷ v) eu,
          valid,
          more ∙ ap (λ n. n + 1) (same_picks t),
          still ∙ same_picks (other t),
          fair,
        )

    IsPick-IsRound :
        (t : Team) (p : Option (ℕ × Team × Draft))
        → picks_of t d ≤ picks_of (other t) d
        → IsPick orders e t p
        → IsRound p
    IsPick-IsRound prs none fair (out, out') = elim [
      | prs ↦ same_RanOut prs out
      | baseline ↦ same_RanOut baseline out'
    ]
    IsPick-IsRound baseline none fair (out, out') = elim [
      | prs ↦ same_RanOut prs out'
      | baseline ↦ same_RanOut baseline out
    ]
    IsPick-IsRound t (some (x, u, d')) fair (inl taken) = IsTaken-IsStep t x u d' (inl fair) taken
    IsPick-IsRound prs (some (x, u, d')) fair (inr (out, taken)) =
        IsTaken-IsStep baseline x u d' (inr (same_RanOut prs out)) taken
    IsPick-IsRound baseline (some (x, u, d')) fair (inr (out, taken)) =
        IsTaken-IsStep prs x u d' (inr (same_RanOut baseline out)) taken

pub pick-IsRound :
    (orders : Orders) (coin : ℕ → Bool) (d : Draft)
    → IsDraft orders d
    → IsRound orders d (pick coin d)
pick-IsRound orders coin d valid =
    let (fair, eu, _, _, ep, eb) = turn_fair coin d in
    IsPick-IsRound orders d (turn coin d).1 eu ep eb (turn coin d).0 (pick coin d) fair
      (pick-IsPick orders coin d valid)
