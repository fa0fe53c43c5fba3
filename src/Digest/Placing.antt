-- ===== src/Digest/Placing.antt =====
-- The stored rows of a digest: `build_digest` in backend/app/services/digest/builder.py.
use mathlib.Core.List.{map-append}
use readprism.Prelude.{
  ℕ, zero, suc, ◌+◌, ◌≤◌, ◌≡◌, refl, ap, sym, ◌∙◌, false, List, [], ◌∷◌, ◌++◌, map, mem, length,
  ◌==◌, arith, inl, inr, Bool-cases, if◌then◌else◌, length-append,
}
use readprism.Digest.Sections.{
  Row, Name, lead, creator, deep_reads, more, discovery, Board, SectionBuilder, build,
}
use readprism.Digest.Creators.{weigh, weigh-append, is_id}
use readprism.Digest.Passes.{IsDistinct}
use readprism.Digest.Guarantees.{weigh_board, build_once}
use readprism.Digest.Assembly.{
  row_ids, label, missing, add_serendipity, Interaction, DigestItem, store_section, section_order,
  placed_rows, store_sections, section_total, Digest, build_digest,
}

module _ (k : ℕ) where
  label-weigh :
      (ids : List ℕ) (rows : List Row) → weigh (is_id k) (label ids rows) ≡ weigh (is_id k) rows
  unfolding label
  label-weigh ids [] = refl
  label-weigh ids (r ∷ rows) = ground (arith, label-weigh ids rows)

  missing-weigh :
      (ids : List ℕ) (picks : List Row)
      → weigh (is_id k) (missing ids picks) ≡ (if mem k ids then 0 else weigh (is_id k) picks)
  unfolding missing
  missing-weigh ids [] = ground arith
  missing-weigh ids (r ∷ picks) =
      let rest = missing-weigh ids picks in
      elim (Bool-cases (mem r.id ids)) [
        | inl t ↦ rw t (ground (arith, rest, t))
        | inr f ↦ rw f (ground (arith, rest, f))
      ]

  absent-weigh : (rows : List Row) → mem k (row_ids rows) ≡ false → weigh (is_id k) rows ≡ 0
  absent-weigh [] h = refl
  absent-weigh (r ∷ rows) h = ground (arith, absent-weigh rows, h)

-- The picks are added once.
add_serendipity-IsDistinct :
    (ranked picks : List Row)
    → IsDistinct ranked
    → IsDistinct picks
    → IsDistinct (add_serendipity ranked picks)
unfolding add_serendipity
add_serendipity-IsDistinct ranked picks h g k =
    let sum =
      weigh-append (is_id k) (label (row_ids picks) ranked) (missing (row_ids ranked) picks) in
    let left = label-weigh k (row_ids picks) ranked in
    let right = missing-weigh k (row_ids ranked) picks in
    let a = h k in
    let b = g k in
    elim (Bool-cases (mem k (row_ids ranked))) [
      | inl t ↦ let right' = rw t at right in omega arith
      | inr f ↦ let right' = rw f at right in let none_left = absent-weigh k ranked f in omega arith
    ]

-- The numbers from `p`, `n` of them.
pub count_up : ℕ → ℕ → List ℕ
count_up p zero = []
count_up p (suc n) = p ∷ count_up (suc p) n

abbrev pub positions : List DigestItem → List ℕ
positions = map (λ d. d.position)

count_up-append : (p m n : ℕ) → count_up p (m + n) ≡ count_up p m ++ count_up (p + m) n
unfolding count_up
count_up-append p zero n =
    let sum : 0 + n ≡ n = omega arith in let start : p + 0 ≡ p = omega arith in rw (sum, start) refl
count_up-append p (suc m) n =
    let sum : suc m + n ≡ suc (m + n) = omega arith in
    let start : p + suc m ≡ suc p + m = omega arith in
    rw (sum, start) (ap (λ l. p ∷ l) (count_up-append (suc p) m n))

positions-store_section :
    (n : Name) (p : ℕ) (rows : List Row)
    → positions (store_section n p rows) ≡ count_up p (length rows)
unfolding store_section count_up
positions-store_section n p [] = refl
positions-store_section n p (r ∷ rows) = ap (λ l. p ∷ l) (positions-store_section n (suc p) rows)

positions-store_sections :
    (ns : List Name) (p : ℕ) (b : Board)
    → positions (store_sections ns p b) ≡ count_up p (section_total ns b)
unfolding store_sections section_total count_up
positions-store_sections [] p b = refl
positions-store_sections (n ∷ ns) p b =
    let rows = (b.sections n).items in
    let first = positions-store_section n p rows in
    let rest = positions-store_sections ns (p + length rows) b in
    map-append (λ d. d.position) (store_section n p rows) _
    ∙ ap (λ l. l ++ positions (store_sections ns (p + length rows) b)) first
    ∙ ap (λ l. count_up p (length rows) ++ l) rest
    ∙ sym (count_up-append p (length rows) (section_total ns b))

-- How often an item is stored.
pub times_stored : ℕ → List DigestItem → ℕ
times_stored k [] = 0
times_stored k (d ∷ items) = (if k == d.content_item_id then 1 else 0) + times_stored k items

times_stored-append :
    (k : ℕ) (l m : List DigestItem) → times_stored k (l ++ m) ≡ times_stored k l + times_stored k m
unfolding times_stored
times_stored-append k [] m = omega arith
times_stored-append k (d ∷ l) m = omega (arith, times_stored-append k l m)

times_stored-store_section :
    (k : ℕ) (n : Name) (p : ℕ) (rows : List Row)
    → times_stored k (store_section n p rows) ≡ weigh (is_id k) rows
unfolding times_stored store_section
times_stored-store_section k n p [] = refl
times_stored-store_section k n p (r ∷ rows) =
    omega (arith, times_stored-store_section k n (suc p) rows)

times_stored-store_sections :
    (k : ℕ) (ns : List Name) (p : ℕ) (b : Board)
    → times_stored k (store_sections ns p b) ≡ weigh (is_id k) (placed_rows ns b)
unfolding store_sections placed_rows times_stored
times_stored-store_sections k [] p b = refl
times_stored-store_sections k (n ∷ ns) p b =
    let rows = (b.sections n).items in
    let rest = store_sections ns (p + length rows) b in
    omega (
      arith,
      times_stored-append k (store_section n p rows) rest,
      times_stored-store_section k n p rows,
      times_stored-store_sections k ns (p + length rows) b,
      weigh-append (is_id k) rows (placed_rows ns b),
    )

weigh-placed_rows :
    (k : ℕ) (b : Board) → weigh (is_id k) (placed_rows section_order b) ≡ weigh_board (is_id k) b
unfolding placed_rows
weigh-placed_rows k b =
    let join = λ (n : Name) (ns : List Name).
      weigh-append (is_id k) (b.sections n).items (placed_rows ns b) in
    omega (
      arith,
      join lead (creator ∷ deep_reads ∷ more ∷ discovery ∷ []),
      join creator (deep_reads ∷ more ∷ discovery ∷ []),
      join deep_reads (more ∷ discovery ∷ []),
      join more (discovery ∷ []),
      join discovery [],
    )

length-store_section :
    (n : Name) (p : ℕ) (rows : List Row) → length (store_section n p rows) ≡ length rows
unfolding store_section
length-store_section n p [] = refl
length-store_section n p (r ∷ rows) = ap suc (length-store_section n (suc p) rows)

length-store_sections :
    (ns : List Name) (p : ℕ) (b : Board) → length (store_sections ns p b) ≡ section_total ns b
unfolding store_sections section_total
length-store_sections [] p b = refl
length-store_sections (n ∷ ns) p b =
    let rows = (b.sections n).items in
    omega (
      arith,
      length-append (store_section n p rows) (store_sections ns (p + length rows) b),
      length-store_section n p rows,
      length-store_sections ns (p + length rows) b,
    )

-- A digest as it is stored.
pub record IsStored (d : Digest) : Type 0 where
  pub numbered : positions d.items ≡ count_up 0 d.total_items
  pub counted : length d.items ≡ d.total_items
  pub once : (k : ℕ) → times_stored k d.items ≤ 1

-- When neither the ranking nor the picks name an item twice, the rows of a digest have the positions
-- from 0 on without a gap over all sections, as many as the digest says, and no item stands in two.
pub build_digest-IsStored :
    (s : SectionBuilder) (user : ℕ) (ranked picks : List Row) (interactions : List Interaction)
    → IsDistinct ranked
    → IsDistinct picks
    → IsStored (build_digest s user ranked picks interactions).0
unfolding build_digest
build_digest-IsStored s user ranked picks interactions h g =
    let rows = add_serendipity ranked picks in
    let board = build s rows in
    let distinct = add_serendipity-IsDistinct ranked picks h g in
    record {
      numbered = positions-store_sections section_order 0 board;
      counted = length-store_sections section_order 0 board;
      once = λ k. omega (
        arith,
        times_stored-store_sections k section_order 0 board,
        weigh-placed_rows k board,
        build_once s rows k distinct,
      );
    }
