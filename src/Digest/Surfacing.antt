-- ===== src/Digest/Surfacing.antt =====
-- What a digest leaves in the table of interactions: `_ensure_interaction` and
-- `_mark_surfaced_in_digest` of backend/app/services/digest/builder.py.
use readprism.Prelude.Int.{ℤ}
use readprism.Prelude.{
  ℕ, ◌+◌, ◌≤◌, ◌≡◌, Bool, true, false, ◌&&◌, ◌||◌, List, [], ◌∷◌, ◌==◌, arith, All, max,
  if◌then◌else◌,
}
use readprism.Digest.Sections.{Row, SectionBuilder, build}
use readprism.Digest.Assembly.{
  Interaction, is_pair, ensure_interaction, mark_surfaced, ensure_all, surface_all, add_serendipity,
  section_order, placed_rows, build_digest,
}

-- The rows of a user and an item.
unfoldable pub count_pair : ℕ → ℕ → List Interaction → ℕ
count_pair u k [] = 0
count_pair u k (i ∷ rows) = (if is_pair u k i then 1 else 0) + count_pair u k rows

-- No user has two rows for an item: the table's unique constraint.
abbrev pub IsUnique : List Interaction → Type 0
IsUnique rows = (u k : ℕ) → count_pair u k rows ≤ 1

-- Whether an item stands in a digest of the user.
pub is_surfaced : ℕ → ℕ → List Interaction → Bool
is_surfaced u k [] = false
is_surfaced u k (i ∷ rows) = (is_pair u k i && i.surfaced_in_digest) || is_surfaced u k rows

count_pair-ensure :
    (user item : ℕ) (suggested : Bool) (rows : List Interaction) (u k : ℕ)
    → count_pair u k (ensure_interaction user item suggested rows)
      ≡ (if (user == u) && (item == k) then max 1 (count_pair u k rows) else count_pair u k rows)
unfolding count_pair ensure_interaction
count_pair-ensure user item suggested [] u k = ground arith
count_pair-ensure user item suggested (i ∷ rows) u k =
    let later = count_pair-ensure user item suggested rows u k in ground (arith, later)

count_pair-mark :
    (user item : ℕ) (prs : ℤ) (rows : List Interaction) (u k : ℕ)
    → count_pair u k (mark_surfaced user item prs rows)
      ≡ (if (user == u) && (item == k) then max 1 (count_pair u k rows) else count_pair u k rows)
unfolding count_pair mark_surfaced
count_pair-mark user item prs [] u k = ground arith
count_pair-mark user item prs (i ∷ rows) u k =
    let later = count_pair-mark user item prs rows u k in ground (arith, later)

ensure_all-IsUnique :
    (user : ℕ) (picks : List Row) (rows : List Interaction)
    → IsUnique rows
    → IsUnique (ensure_all user picks rows)
unfolding ensure_all
ensure_all-IsUnique user [] rows h = h
ensure_all-IsUnique user (r ∷ picks) rows h =
    ensure_all-IsUnique user picks (ensure_interaction user r.id true rows) λ u k.
      let before = h u k in
      let after = count_pair-ensure user r.id true rows u k in ground (arith, before, after)

surface_all-IsUnique :
    (user : ℕ) (placed : List Row) (rows : List Interaction)
    → IsUnique rows
    → IsUnique (surface_all user placed rows)
unfolding surface_all
surface_all-IsUnique user [] rows h = h
surface_all-IsUnique user (r ∷ placed) rows h =
    surface_all-IsUnique user placed (mark_surfaced user r.id r.prs rows) λ u k.
      let before = h u k in
      let after = count_pair-mark user r.id r.prs rows u k in ground (arith, before, after)

is_surfaced-mark :
    (user item : ℕ) (prs : ℤ) (rows : List Interaction)
    → is_surfaced user item (mark_surfaced user item prs rows) ≡ true
unfolding is_surfaced mark_surfaced
is_surfaced-mark user item prs [] = ground arith
is_surfaced-mark user item prs (i ∷ rows) =
    let later = is_surfaced-mark user item prs rows in ground (arith, later)

is_surfaced-stays :
    (user item : ℕ) (prs : ℤ) (rows : List Interaction) (u k : ℕ)
    → is_surfaced u k rows ≡ true
    → is_surfaced u k (mark_surfaced user item prs rows) ≡ true
unfolding is_surfaced mark_surfaced
is_surfaced-stays user item prs [] u k h = cc
is_surfaced-stays user item prs (i ∷ rows) u k h =
    let later = is_surfaced-stays user item prs rows u k in ground (arith, later)

surface_all-stays :
    (user : ℕ) (placed : List Row) (rows : List Interaction) (u k : ℕ)
    → is_surfaced u k rows ≡ true
    → is_surfaced u k (surface_all user placed rows) ≡ true
unfolding surface_all
surface_all-stays user [] rows u k h = h
surface_all-stays user (r ∷ placed) rows u k h =
    surface_all-stays user placed (mark_surfaced user r.id r.prs rows) u k
      (is_surfaced-stays user r.id r.prs rows u k h)

surface_all-All :
    (user : ℕ) (placed : List Row) (rows : List Interaction)
    → All (λ r. is_surfaced user r.id (surface_all user placed rows) ≡ true) placed
unfolding surface_all
surface_all-All user [] rows = tt
surface_all-All user (r ∷ placed) rows =
    let rows' = mark_surfaced user r.id r.prs rows in
    (
      surface_all-stays user placed rows' user r.id (is_surfaced-mark user r.id r.prs rows),
      surface_all-All user placed rows',
    )

-- Building a digest keeps one row of interactions for each user and item at most, and leaves every item
-- that it placed marked as surfaced for the user.
pub build_digest-surfaces :
    (s : SectionBuilder) (user : ℕ) (ranked picks : List Row) (interactions : List Interaction)
    → IsUnique interactions
    → let table = (build_digest s user ranked picks interactions).1 in
      let placed = placed_rows section_order (build s (add_serendipity ranked picks)) in
      IsUnique table × All (λ r. is_surfaced user r.id table ≡ true) placed
unfolding build_digest
build_digest-surfaces s user ranked picks interactions h =
    let placed = placed_rows section_order (build s (add_serendipity ranked picks)) in
    let suggested = ensure_all user picks interactions in
    (
      surface_all-IsUnique user placed suggested (ensure_all-IsUnique user picks interactions h),
      surface_all-All user placed suggested,
    )
