-- ===== src/Ranking/Draft.antt =====
-- What team-draft interleaving guarantees.
use readprism.Prelude.{
  mem, ℕ, suc, ◌≡◌, refl, ap, true, false, ◌||◌, Option, none, some, List, [], ◌∷◌, ◌++◌, arith,
  ◌==◌, if◌then◌else◌,
}
use readprism.Ranking.Interleaving.{Team, count_new, skip}

pub mem-append : (x : ℕ) (xs ys : List ℕ) → mem x (xs ++ ys) ≡ (mem x xs || mem x ys)
mem-append x [] ys = refl
mem-append x (y ∷ xs) ys = ground (arith, mem-append x xs ys)

-- Two lists have the same members.
abbrev pub SameMembers : List ℕ → List ℕ → Type 0
SameMembers u v = (k : ℕ) → mem k u ≡ mem k v

count_new_congr : (u v l : List ℕ) → SameMembers u v → count_new u l ≡ count_new v l
unfolding count_new
count_new_congr u v [] h = refl
count_new_congr u v (x ∷ l) h = ground (
  arith,
  h x,
  count_new_congr u v l h,
  count_new_congr (x ∷ u) (x ∷ v) l (λ k. ap (λ b. (k == x) || b) (h k)),
)

count_new_used : (x : ℕ) (u l : List ℕ) → mem x u ≡ true → count_new (x ∷ u) l ≡ count_new u l
count_new_used x u l h = count_new_congr (x ∷ u) u l (λ k. ground arith)

-- Picking a new item of the list leaves one item fewer.
pub count_new_pick :
    (x : ℕ) (u l : List ℕ)
    → mem x u ≡ false
    → mem x l ≡ true
    → count_new u l ≡ suc (count_new (x ∷ u) l)
unfolding count_new
count_new_pick x u [] new h = cc
count_new_pick x u (y ∷ l) new h = ground (
  arith,
  count_new_pick x u l new,
  count_new_pick x (y ∷ u) l,
  count_new_congr (x ∷ y ∷ u) (y ∷ x ∷ u) l (λ k. ground arith),
)

pub count_new_zero : (x : ℕ) (u l : List ℕ) → count_new u l ≡ 0 → mem x l ≡ true → mem x u ≡ true
unfolding count_new
count_new_zero x u [] z h = cc
count_new_zero x u (y ∷ l) z h = ground (arith, count_new_zero x u l)

-- The item that a team would pick next: the first of its ranking that is not picked yet.
unfoldable pub first_unused : List ℕ → List ℕ → Option ℕ
first_unused used [] = none
first_unused used (x ∷ l) = if mem x used then first_unused used l else some x

abbrev pub Orders : Type 0
Orders = Team → List ℕ

-- `rest` is a ranking from a cursor on, with everything before the cursor picked already.
abbrev pub IsPast : List ℕ → List ℕ → List ℕ → Type 0
IsPast used order rest =
    (pre : List ℕ) × (order ≡ pre ++ rest) × ((k : ℕ) → mem k pre ≡ true → mem k used ≡ true)

pub first_unused-past :
    (used pre rest : List ℕ)
    → ((k : ℕ) → mem k pre ≡ true → mem k used ≡ true)
    → first_unused used (pre ++ rest) ≡ first_unused used rest
unfolding first_unused
first_unused-past used [] rest h = refl
first_unused-past used (x ∷ pre) rest h =
    let here : mem x used ≡ true = h x (ground arith) in
    rw here (first_unused-past used pre rest (λ k m. h k (ground arith)))

abbrev pub head_of : List ℕ → Option ℕ
head_of [] = none
head_of (x ∷ l) = some x

pub first_unused-skip : (used l : List ℕ) → first_unused used l ≡ head_of (skip used l)
unfolding first_unused skip
first_unused-skip used [] = refl
first_unused-skip used (x ∷ l) = ground (arith, first_unused-skip used l)
