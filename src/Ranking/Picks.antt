-- ===== src/Ranking/Picks.antt =====
-- One pick of the draft: the picked item is the best of its team that is left, and the draft stays valid.
use mathlib.Core.List.{append_assoc}
use mathlib.Core.Path.{subst}
use readprism.Prelude.{
  mem, ℕ, ◌+◌, ◌≤◌, ◌≡◌, refl, sym, ap, ◌∙◌, Bool, true, Option, none, some, List, [], ◌∷◌, ◌++◌,
  ◌⊎◌, inl, inr, arith, Bool-cases,
}
use readprism.Ranking.Interleaving.{
  Team, prs, baseline, Draft, skip, turn, other, rest_of, take_item, or_pick, pick,
}
use readprism.Ranking.Draft.{
  IsPast, first_unused, first_unused-past, first_unused-skip, head_of, Orders, mem-append,
}

abbrev pub cursor : Team → Draft → List ℕ
cursor prs d = d.prs_rest
cursor baseline d = d.baseline_rest

abbrev pub picks_of : Team → Draft → ℕ
picks_of prs d = d.prs_count
picks_of baseline d = d.baseline_count

-- Both cursors stand behind nothing but picked items.
abbrev pub IsDraft : Orders → Draft → Type 0
IsDraft orders d = (t : Team) → IsPast d.used (orders t) (cursor t d)

-- A team has no item left.
abbrev pub RanOut : Orders → Draft → Team → Type 0
RanOut orders d t = (k : ℕ) → mem k (orders t) ≡ true → mem k d.used ≡ true

IsPast-skip :
    (used order rest : List ℕ) → IsPast used order rest → IsPast used order (skip used rest)
unfolding skip
IsPast-skip used order [] h = h
IsPast-skip used order (x ∷ rest) (pre, e, past) = elim (Bool-cases (mem x used)) [
  | inl old ↦ rw old (
      IsPast-skip used order rest (
        pre ++ (x ∷ []),
        e ∙ sym (append_assoc pre (x ∷ []) rest),
        λ k m. ground (arith, past k, mem-append k pre (x ∷ [])),
      ))
  | inr new ↦ rw new (pre, e, past)
]

IsPast-used :
    (x : ℕ) (used order rest : List ℕ) → IsPast used order rest → IsPast (x ∷ used) order rest
IsPast-used x used order rest (pre, e, past) = (pre, e, λ k m. ground (arith, past k m))

IsPast-end :
    (used order : List ℕ) → IsPast used order [] → (k : ℕ) → mem k order ≡ true → mem k used ≡ true
IsPast-end used order (pre, e, past) k m =
    past k (ground (arith, ap (mem k) e, mem-append k pre []))

IsPast-first :
    (used order rest : List ℕ)
    → IsPast used order rest
    → first_unused used order ≡ first_unused used rest
IsPast-first used order rest (pre, e, past) =
    ap (first_unused used) e ∙ first_unused-past used pre rest past

module _ (orders : Orders) (d : Draft) where
  abbrev pub IsTaken : Team → ℕ → Team → Draft → Type 0
  IsTaken t x u d' =
      (u ≡ t)
      × (first_unused d.used (orders t) ≡ some x)
      × (d'.used ≡ x ∷ d.used)
      × IsDraft orders d'
      × (picks_of t d' ≡ picks_of t d + 1)
      × (picks_of (other t) d' ≡ picks_of (other t) d)

  abbrev pub IsTake : Team → Option (ℕ × Team × Draft) → Type 0
  IsTake t none = RanOut orders d t
  IsTake t (some (x, u, d')) = IsTaken t x u d'

  skipped :
      (t : Team) {l : List ℕ}
      → IsDraft orders d
      → skip d.used (cursor t d) ≡ l
      → IsPast d.used (orders t) l × (first_unused d.used (orders t) ≡ head_of l)
  skipped t valid e = (
    subst (IsPast d.used (orders t)) e (IsPast-skip d.used (orders t) (cursor t d) (valid t)),
    IsPast-first d.used (orders t) (cursor t d) (valid t)
        ∙ first_unused-skip d.used (cursor t d)
        ∙ ap head_of e,
  )

  take_item-IsTake :
      (t : Team) (l : List ℕ)
      → IsDraft orders d
      → skip d.used (cursor t d) ≡ l
      → IsTake t (take_item t l d)
  unfolding take_item
  take_item-IsTake t [] valid e = IsPast-end d.used (orders t) (skipped t valid e).0
  take_item-IsTake prs (x ∷ l) valid e =
      let (past, first) = skipped prs valid e in
      (
        refl,
        first,
        refl,
        elim [
          | prs ↦ IsPast-used x d.used (orders prs) (x ∷ l) past
          | baseline ↦ IsPast-used x d.used (orders baseline) d.baseline_rest (valid baseline)
        ],
        refl,
        refl,
      )
  take_item-IsTake baseline (x ∷ l) valid e =
      let (past, first) = skipped baseline valid e in
      (
        refl,
        first,
        refl,
        elim [
          | prs ↦ IsPast-used x d.used (orders prs) d.prs_rest (valid prs)
          | baseline ↦ IsPast-used x d.used (orders baseline) (x ∷ l) past
        ],
        refl,
        refl,
      )

  take_item-rest_of : (t : Team) → IsDraft orders d → IsTake t (take_item t (rest_of t d) d)
  unfolding rest_of
  take_item-rest_of prs valid = take_item-IsTake prs (skip d.used d.prs_rest) valid refl
  take_item-rest_of baseline valid =
      take_item-IsTake baseline (skip d.used d.baseline_rest) valid refl

  -- What a round does, by the team whose turn it is.
  abbrev pub IsPick : Team → Option (ℕ × Team × Draft) → Type 0
  IsPick t none = RanOut orders d t × RanOut orders d (other t)
  IsPick t (some (x, u, d')) = IsTaken t x u d' ⊎ (RanOut orders d t × IsTaken (other t) x u d')

  or_pick-IsPick :
      (t : Team) (p q : Option (ℕ × Team × Draft))
      → IsTake t p
      → IsTake (other t) q
      → IsPick t (or_pick p q)
  or_pick-IsPick t none none out h = (out, h)
  or_pick-IsPick t none (some (x, u, d')) out h = inr (out, h)
  or_pick-IsPick t (some (x, u, d')) q h _ = inl h

-- The turn goes to a team that is not ahead, and moves nothing but the coin.
pub turn_fair :
    (coin : ℕ → Bool) (d : Draft)
    → let (t, d') = turn coin d in
      (picks_of t d ≤ picks_of (other t) d)
      × (d'.used ≡ d.used)
      × (d'.prs_rest ≡ d.prs_rest)
      × (d'.baseline_rest ≡ d.baseline_rest)
      × (d'.prs_count ≡ d.prs_count)
      × (d'.baseline_count ≡ d.baseline_count)
unfolding turn
turn_fair coin d = ground arith

IsDraft-moved :
    (orders : Orders) (d e : Draft)
    → e.used ≡ d.used
    → e.prs_rest ≡ d.prs_rest
    → e.baseline_rest ≡ d.baseline_rest
    → IsDraft orders d
    → IsDraft orders e
IsDraft-moved orders d e eu ep eb valid = elim [
  | prs ↦
      subst (λ u. IsPast u (orders prs) e.prs_rest) (sym eu)
        (subst (IsPast d.used (orders prs)) (sym ep) (valid prs))
  | baseline ↦
      subst (λ u. IsPast u (orders baseline) e.baseline_rest) (sym eu)
        (subst (IsPast d.used (orders baseline)) (sym eb) (valid baseline))
]

-- One round on the draft after the coin.
pub pick-IsPick :
    (orders : Orders) (coin : ℕ → Bool) (d : Draft)
    → IsDraft orders d
    → IsPick orders (turn coin d).1 (turn coin d).0 (pick coin d)
unfolding pick
pick-IsPick orders coin d valid =
    let (fair, eu, ep, eb, _, _) = turn_fair coin d in
    let e = (turn coin d).1 in
    let t = (turn coin d).0 in
    let valid' : IsDraft orders e = IsDraft-moved orders d e eu ep eb valid in
    or_pick-IsPick orders e t (take_item t (rest_of t e) e)
      (take_item (other t) (rest_of (other t) e) e) (take_item-rest_of orders e t valid')
      (take_item-rest_of orders e (other t) valid')
