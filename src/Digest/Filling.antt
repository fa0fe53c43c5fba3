-- ===== src/Digest/Filling.antt =====
-- When a digest stops short of its length: `SectionBuilder.build` in
-- backend/app/services/digest/sections.py.
use readprism.Prelude.{mem, All, ℕ, ◌≤◌, ◌≡◌, ◌⊎◌, Bool, true, ◌||◌, List}
use readprism.Digest.Sections.{Row, more, Board, is_full, saturated, is_discovery_eligible}
use readprism.Digest.Creators.{is_id}
use readprism.Digest.Guarantees.{weigh_board}

-- An item that the last pass would not place: it is used, for the discovery section only, or about a topic
-- that has its share.
abbrev is_spent : ℕ → Board → Row → Bool
is_spent m b r = mem r.id b.used_ids || is_discovery_eligible r || saturated m b r

module _ (m : ℕ) where
  abbrev Stops : List Row → Board → Type 0
  Stops l b = (is_full (b.sections more) ≡ true) ⊎ All (λ r. is_spent m b r ≡ true) l

-- Why the last pass has nothing to do for an item: it stands in a section, is meant for the discovery
-- section only, or is about a topic that has its share.
pub IsSettled : ℕ → Board → Row → Type 0
IsSettled m b r =
    (1 ≤ weigh_board (is_id r.id) b) ⊎ (is_discovery_eligible r ≡ true) ⊎ (saturated m b r ≡ true)
