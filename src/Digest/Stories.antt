-- ===== src/Digest/Stories.antt =====
-- Stories of a digest: `cluster_stories` of backend/app/services/digest/synthesis.py and the cards that
-- `_synthesize_topic_clusters` of backend/app/services/digest/builder.py makes of them. A vector, its
-- dimension and whether two of them reach the threshold are parameters, as is the model's briefing.
use readprism.Prelude.{
  ℕ, zero, suc, ◌+◌, ◌*◌, Bool, true, false, ◌&&◌, ◌||◌, not, Option, none, some, List, [], ◌∷◌,
  ◌++◌, map, leb, ltb, ◌==◌, if◌then◌else◌, length, is_some,
}
use readprism.Prelude.Text.{Text, codes, lower, member}

abbrev is_space : ℕ → Bool
is_space c = c == 32 || (leb 9 c && leb c 13) || (leb 28 c && leb c 31)

abbrev end_word : Text → List Text → List Text
end_word [] words = words
end_word (c ∷ t) words = (c ∷ t) ∷ words

-- `s.split()`, after the letters of a word that has begun.
unfoldable pub split_words : Text → Text → List Text
split_words word [] = end_word word []
split_words word (c ∷ s) =
    let inside = split_words (word ++ (c ∷ [])) s in
    let after = split_words [] s in if is_space c then end_word word after else inside

abbrev pub stop : List Text
stop =
    codes "the"
    ∷ codes "and"
    ∷ codes "for"
    ∷ codes "with"
    ∷ codes "from"
    ∷ codes "that"
    ∷ codes "this"
    ∷ codes "into"
    ∷ codes "your"
    ∷ codes "how"
    ∷ codes "why"
    ∷ codes "what"
    ∷ codes "a"
    ∷ codes "an"
    ∷ codes "in"
    ∷ codes "on"
    ∷ codes "of"
    ∷ codes "to"
    ∷ codes "is"
    ∷ codes "are"
    ∷ codes "it"
    ∷ codes "at"
    ∷ codes "by"
    ∷ []

-- The significant ones, each once.
unfoldable pub significant : List Text → List Text
significant [] = []
significant (t ∷ ts) =
    let rest = significant ts in
    if leb 3 (length t) && not (member t stop) && not (member t rest) then t ∷ rest else rest

unfoldable pub title_tokens : Text → List Text
unfolding split_words significant
title_tokens title = significant (split_words [] (lower title))

unfoldable pub common : List Text → List Text → ℕ
common [] right = 0
common (t ∷ ts) right = (if member t right then 1 else 0) + common ts right

-- `title_overlap(left, right) >= 0.6`, as a comparison of the counts.
unfoldable pub titles_overlap : Text → Text → Bool
unfolding title_tokens common
titles_overlap left right =
    let l = title_tokens left in
    let r = title_tokens right in
    let inter = common l r in
    ltb 0 (length l) && ltb 0 (length r) && leb (3 * (length l + length r)) (5 * inter + 3 * inter)

abbrev pub min_title_tokens : ℕ
min_title_tokens = 3

unfoldable pub same_title : Text → Text → Bool
unfolding titles_overlap
same_title seed title =
    titles_overlap seed title
    && leb min_title_tokens (length (title_tokens seed))
    && leb min_title_tokens (length (title_tokens title))

module _ (V : Type 0) (dim : V → ℕ) (close : V → V → Bool) where
  -- What clustering reads of an item, and what a card shows of it.
  pub record Item : Type 0 where
    pub id : ℕ
    pub title : Text
    pub url : Text
    pub source_id : Option ℕ
    pub embedding : Option V

  -- A story: its seed, and the items that joined it, the seed first.
  pub record Story : Type 0 where
    pub seed : Item
    pub items : List Item

  -- `dim`: the dimension of the first vector; 0 counts as none.
  unfoldable pub first_dim : List Item → ℕ
  first_dim [] = 1
  first_dim (i ∷ items) = elim i.embedding [
    | none ↦ first_dim items
    | some v ↦ elim (dim v) [ zero ↦ first_dim items | suc n ↦ suc n ]
  ]

  -- Whether an item joins the story of a seed: by vectors of the same dimension, or by the titles where
  -- neither has a vector.
  abbrev joins_vector : ℕ → V → Option V → Bool
  joins_vector d v none = false
  joins_vector d v (some w) = (dim v == d) && (dim w == d) && close w v

  abbrev pub by_kind : ℕ → Item → Item → Option V → Bool
  by_kind d seed i (some v) = joins_vector d v seed.embedding
  by_kind d seed i none = not (is_some seed.embedding) && same_title seed.title i.title

  unfoldable pub joins : ℕ → Item → Item → Bool
  unfolding same_title
  joins d seed i = by_kind d seed i i.embedding

  -- An item joins the first story that it is similar to, or seeds a new one.
  unfoldable pub place : ℕ → Item → List Story → List Story
  unfolding joins
  place d i [] = record { seed = i; items = i ∷ [] } ∷ []
  place d i (s ∷ stories) =
      let later = place d i stories in
      if joins d s.seed i
      then record { seed = s.seed; items = s.items ++ (i ∷ []) } ∷ stories
      else s ∷ later

  unfoldable pub cluster_from : ℕ → List Story → List Item → List Story
  unfolding place
  cluster_from d stories [] = stories
  cluster_from d stories (i ∷ items) = cluster_from d (place d i stories) items

  unfoldable pub cluster_stories : List Item → List Story
  unfolding cluster_from first_dim
  cluster_stories items = cluster_from (first_dim items) [] items

  -- What a digest shows for a story: the kept item, and the others as its perspectives.
  pub record Card : Type 0 where
    pub primary : Item
    pub perspectives : List Item
    pub story_briefing : Option Text

  abbrev pub others : List Item → List Item
  others [] = []
  others (i ∷ items) = items

  abbrev pub has_others : List Item → Bool
  has_others (i ∷ j ∷ items) = true
  has_others _ = false

  -- `brief` is the cache or the model, none where either fails.
  unfoldable pub card_of : Bool → (List Item → Option Text) → Story → Card
  card_of briefing brief s = record {
    primary = s.seed;
    perspectives = others s.items;
    story_briefing = if briefing && has_others s.items then brief s.items else none;
  }

  abbrev pub alone : Item → Card
  alone i = record { primary = i; perspectives = []; story_briefing = none }

  -- `_synthesize_topic_clusters`: the kept items with their payloads.
  unfoldable pub synthesize_topic_clusters :
      Bool → (List Item → Option Text) → List Item → List Card
  unfolding card_of cluster_stories
  synthesize_topic_clusters briefing brief items =
      if has_others items
      then map (card_of briefing brief) (cluster_stories items)
      else map alone items
