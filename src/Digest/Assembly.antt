-- ===== src/Digest/Assembly.antt =====
-- A digest from its ranking: the last part of `build_digest` in
-- backend/app/services/digest/builder.py, from the serendipity picks to the stored rows, with
-- `_ensure_interaction` and `_mark_surfaced_in_digest`. Breakdowns are the flags of a row.
use readprism.Prelude.Int.{ℤ, pos}
use readprism.Prelude.{
  ℕ, suc, ◌+◌, Bool, true, false, ◌&&◌, Option, none, some, List, [], ◌∷◌, ◌++◌, map, mem, length,
  ◌==◌, if◌then◌else◌,
}
use readprism.Digest.Sections.{
  Row, Name, lead, creator, deep_reads, more, discovery, Board, SectionBuilder, build,
}

abbrev pub row_ids : List Row → List ℕ
row_ids = map (λ r. r.id)

abbrev pub candidate : Row → Row
candidate r = record r { serendipity_candidate = true }

-- Ranked rows of the picks are labelled.
unfoldable pub label : List ℕ → List Row → List Row
label ids [] = []
label ids (r ∷ rows) = (if mem r.id ids then candidate r else r) ∷ label ids rows

-- The picks that did not survive the ranking, with a score of 0.
unfoldable pub missing : List ℕ → List Row → List Row
missing ranked_ids [] = []
missing ranked_ids (r ∷ picks) =
    let rest = missing ranked_ids picks in
    if mem r.id ranked_ids then rest else candidate (record r { prs = pos 0 }) ∷ rest

unfoldable pub add_serendipity : List Row → List Row → List Row
unfolding label missing
add_serendipity ranked picks = label (row_ids picks) ranked ++ missing (row_ids ranked) picks

pub record Interaction : Type 0 where
  pub user_id : ℕ
  pub content_item_id : ℕ
  pub was_suggested : Bool
  pub surfaced_in_digest : Bool
  pub prs_score : Option ℤ

abbrev pub is_pair : ℕ → ℕ → Interaction → Bool
is_pair user item i = (i.user_id == user) && (i.content_item_id == item)

-- `_ensure_interaction`: a row is added where there is none.
unfoldable pub ensure_interaction : ℕ → ℕ → Bool → List Interaction → List Interaction
ensure_interaction user item was_suggested [] =
    record {
      user_id = user;
      content_item_id = item;
      was_suggested = was_suggested;
      surfaced_in_digest = false;
      prs_score = none;
    }
    ∷ []
ensure_interaction user item was_suggested (i ∷ rows) =
    let rest = ensure_interaction user item was_suggested rows in
    if is_pair user item i then i ∷ rows else i ∷ rest

-- `_mark_surfaced_in_digest`: the row is updated, or added.
unfoldable pub mark_surfaced : ℕ → ℕ → ℤ → List Interaction → List Interaction
mark_surfaced user item prs [] =
    record {
      user_id = user;
      content_item_id = item;
      was_suggested = false;
      surfaced_in_digest = true;
      prs_score = some prs;
    }
    ∷ []
mark_surfaced user item prs (i ∷ rows) =
    let rest = mark_surfaced user item prs rows in
    if is_pair user item i
    then record i { surfaced_in_digest = true; prs_score = some prs } ∷ rows
    else i ∷ rest

unfoldable pub ensure_all : ℕ → List Row → List Interaction → List Interaction
unfolding ensure_interaction
ensure_all user [] rows = rows
ensure_all user (r ∷ picks) rows = ensure_all user picks (ensure_interaction user r.id true rows)

-- A stored row of a digest; its impression has the same item, section and position.
pub record DigestItem : Type 0 where
  pub content_item_id : ℕ
  pub position : ℕ
  pub section : Name
  pub prs_score : ℤ

unfoldable pub store_section : Name → ℕ → List Row → List DigestItem
store_section n position [] = []
store_section n position (r ∷ rows) =
    record { content_item_id = r.id; position = position; section = n; prs_score = r.prs }
    ∷ store_section n (suc position) rows

unfoldable pub surface_all : ℕ → List Row → List Interaction → List Interaction
unfolding mark_surfaced
surface_all user [] rows = rows
surface_all user (r ∷ placed) rows = surface_all user placed (mark_surfaced user r.id r.prs rows)

-- The sections in the order of the dictionary.
abbrev pub section_order : List Name
section_order = lead ∷ creator ∷ deep_reads ∷ more ∷ discovery ∷ []

unfoldable pub placed_rows : List Name → Board → List Row
placed_rows [] b = []
placed_rows (n ∷ ns) b = (b.sections n).items ++ placed_rows ns b

-- The loop over the sections, with one running position.
unfoldable pub store_sections : List Name → ℕ → Board → List DigestItem
unfolding store_section
store_sections [] position b = []
store_sections (n ∷ ns) position b =
    let rows = (b.sections n).items in
    store_section n position rows ++ store_sections ns (position + length rows) b

unfoldable pub section_total : List Name → Board → ℕ
section_total [] b = 0
section_total (n ∷ ns) b = length (b.sections n).items + section_total ns b

pub record Digest : Type 0 where
  pub user_id : ℕ
  pub section_counts : Name → ℕ
  pub total_items : ℕ
  pub items : List DigestItem

-- From the ranking and the serendipity picks: the digest and the table of interactions.
unfoldable pub build_digest :
    SectionBuilder → ℕ → List Row → List Row → List Interaction → Digest × List Interaction
unfolding add_serendipity ensure_all store_sections section_total placed_rows surface_all
build_digest s user ranked picks interactions =
    let board = build s (add_serendipity ranked picks) in
    (
      record {
        user_id = user;
        section_counts = λ n. length (board.sections n).items;
        total_items = section_total section_order board;
        items = store_sections section_order 0 board;
      },
      surface_all user (placed_rows section_order board) (ensure_all user picks interactions),
    )
