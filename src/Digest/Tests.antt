-- ===== src/Digest/Tests.antt =====
-- A small ranking, its digest, and the theorems at it.
use readprism.Prelude.Int.{pos}
use readprism.Prelude.{ℕ, ◌-◌, ◌≡◌, refl, Bool, true, false, Option, none, some, List, [], ◌∷◌, map}
use readprism.Digest.Sections.{
  Row, lead, creator, deep_reads, more, discovery, Board, SectionBuilder, build, build_main, add,
  saturated, fill_discovery, fill, put_row, gather, insert_group, best_first, emit, fill_creators,
  fill_more, set_more,
}

abbrev article : ℕ → Option ℕ → Option ℕ → List ℕ → Bool → Row
article id by minutes topics from = record {
  id = id;
  prs = pos (100 - id);
  creator = by;
  reading_time_minutes = minutes;
  topic_clusters = topics;
  from_discovery = from;
  exploration = false;
  serendipity_candidate = false;
}

abbrev ranked : List Row
ranked =
    article 1 none none (7 ∷ []) false
    ∷ article 2 (some 5) (some 9) (7 ∷ []) false
    ∷ article 3 none (some 12) (8 ∷ []) false
    ∷ article 4 none none (7 ∷ 8 ∷ []) true
    ∷ article 5 (some 5) none (9 ∷ []) false
    ∷ article 6 none none [] false
    ∷ []

abbrev builder : SectionBuilder
builder = record { total_items = 6; serendipity_pct = 15; topic_share = 2 }

abbrev layout : Board → List (List ℕ)
layout b =
    map (λ n. map (λ r. r.id) (b.sections n).items)
      (lead ∷ creator ∷ deep_reads ∷ more ∷ discovery ∷ [])

build_run : layout (build builder ranked) ≡ ((1 ∷ 3 ∷ 5 ∷ []) ∷ [] ∷ [] ∷ (6 ∷ []) ∷ (4 ∷ []) ∷ [])
unfolding build build_main add saturated fill_discovery fill put_row gather insert_group best_first
    emit fill_creators fill_more set_more
build_run = refl
