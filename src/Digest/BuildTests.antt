-- ===== src/Digest/BuildTests.antt =====
-- Small builds of a digest, and the theorems at them.
use readprism.Prelude.Int.{pos, pos_part}
use readprism.Prelude.{
  ℕ, ◌+◌, ◌-◌, ◌≤◌, ◌≡◌, refl, Bool, true, false, Option, none, some, List, [], ◌∷◌, All, arith,
  ◌==◌, length, map,
}
use readprism.Prelude.Text.{Text, codes}
use readprism.Accounts.Samples.{settings, ada}
use readprism.Billing.Account.{Plan, effective_plan}
use readprism.Entitlements.Quotas.{Quota, llm_summaries, is_paused, limit, plan_quotas}
use readprism.Entitlements.Allowance.{Redis}
use readprism.Digest.Sections.{Row, SectionBuilder, build}
use readprism.Digest.Assembly.{
  Interaction, add_serendipity, build_digest, placed_rows, section_order,
}
use readprism.Digest.Placing.{IsStored, build_digest-IsStored}
use readprism.Digest.Surfacing.{IsUnique, count_pair, is_surfaced, build_digest-surfaces}
use readprism.Digest.Prompts.{FeedbackPrompt, depth_level}
use readprism.Digest.Learning.{
  Preferences, adjust_digest_preferences, IsGentle, adjust_digest_preferences-IsGentle,
}
use readprism.Digest.Candidates.{Found, Queries}
use readprism.Digest.Stories
use readprism.Digest.Stories.{
  Card, synthesize_topic_clusters, cluster_stories, cluster_from, place, joins, first_dim, card_of,
  same_title, titles_overlap, title_tokens, split_words, significant, common,
}
use readprism.Digest.Cards.{weigh, weigh_cards, IsCard, synthesize_topic_clusters_keeps}
use readprism.Digest.Summaries.{Article, summarize_placed, summarize_placed_lem}

-- Vectors of one dimension, close when they are equal.
abbrev dim_one : ℕ → ℕ
dim_one v = 1

abbrev equal : ℕ → ℕ → Bool
equal v w = v == w

abbrev StoryItem : Type 0
StoryItem = Stories.Item ℕ dim_one equal

abbrev story_item : ℕ → Text → Option ℕ → StoryItem
story_item id title embedding = record {
  id = id;
  title = title;
  url = [];
  source_id = none;
  embedding = embedding;
}

abbrev found_stories : List StoryItem
found_stories =
    story_item 1 (codes "Terns reach Iceland early") none
    ∷ story_item 2 [] (some 4)
    ∷ story_item 3 (codes "Early terns reach Iceland") none
    ∷ story_item 4 [] (some 4)
    ∷ []

abbrev no_brief : List StoryItem → Option Text
no_brief items = none

abbrev card_ids : List (Card ℕ dim_one equal) → List (ℕ × List ℕ)
card_ids = map (λ c. (c.primary.id, map (λ i. i.id) c.perspectives))

two_cards :
    card_ids (synthesize_topic_clusters ℕ dim_one equal true no_brief found_stories)
    ≡ (1, 3 ∷ []) ∷ (2, 4 ∷ []) ∷ []
unfolding synthesize_topic_clusters cluster_stories cluster_from place joins first_dim card_of
    same_title titles_overlap title_tokens split_words significant common
two_cards = refl

-- An item that comes twice, as a warmup item and as a pick, is a perspective of itself.
own_perspective :
    card_ids (
      synthesize_topic_clusters ℕ dim_one equal true no_brief
        (story_item 2 [] (some 4) ∷ story_item 2 [] (some 4) ∷ []))
    ≡ (2, 2 ∷ []) ∷ []
unfolding synthesize_topic_clusters cluster_stories cluster_from place joins first_dim card_of
    same_title
own_perspective = refl

synthesize_topic_clusters_keeps_example :
    (weigh_cards ℕ dim_one equal
        (λ i. i.id)
        (synthesize_topic_clusters ℕ dim_one equal true no_brief found_stories)
      ≡ 10)
    × All
        (IsCard ℕ dim_one equal 1)
        (synthesize_topic_clusters ℕ dim_one equal true no_brief found_stories)
unfolding first_dim weigh
synthesize_topic_clusters_keeps_example =
    synthesize_topic_clusters_keeps ℕ dim_one equal true no_brief (λ i. i.id) found_stories

abbrev row : ℕ → Row
row id = record {
  id = id;
  prs = pos (100 - id);
  creator = none;
  reading_time_minutes = none;
  topic_clusters = [];
  from_discovery = false;
  exploration = false;
  serendipity_candidate = false;
}

abbrev ranked : List Row
ranked = row 1 ∷ row 2 ∷ row 3 ∷ []

abbrev picks : List Row
picks = row 2 ∷ row 9 ∷ []

abbrev builder : SectionBuilder
builder = record { total_items = 6; serendipity_pct = 15; topic_share = 2 }

abbrev opened_once : List Interaction
opened_once =
    record {
      user_id = 5;
      content_item_id = 1;
      was_suggested = false;
      surfaced_in_digest = false;
      prs_score = none;
    }
    ∷ []

build_digest-IsStored_example : IsStored (build_digest builder 5 ranked picks opened_once).0
build_digest-IsStored_example =
    build_digest-IsStored builder 5 ranked picks opened_once (λ k. ground arith) (λ k. ground arith)

opened_once-IsUnique : IsUnique opened_once
unfolding count_pair
opened_once-IsUnique u k = ground arith

build_digest-surfaces_example :
    let table = (build_digest builder 5 ranked picks opened_once).1 in
    let placed = placed_rows section_order (build builder (add_serendipity ranked picks)) in
    IsUnique table × All (λ r. is_surfaced 5 r.id table ≡ true) placed
build_digest-surfaces_example =
    build_digest-surfaces builder 5 ranked picks opened_once opened_once-IsUnique

abbrev no_depth : List FeedbackPrompt
no_depth =
    record {
      content_item_id = none;
      prompt = record { type = depth_level; text = [] };
      dismissed = true;
    }
    ∷ []

abbrev reader_preferences : Preferences
reader_preferences = record {
  digest_max_items = 12;
  digest_length_locked = false;
  serendipity_percentage = 40;
}

adjust_digest_preferences-IsGentle_example : IsGentle reader_preferences (
    adjust_digest_preferences (λ l. some (length l)) (4 ∷ 7 ∷ []) (some (2, 20)) reader_preferences)
adjust_digest_preferences-IsGentle_example =
    adjust_digest_preferences-IsGentle (λ l. some (length l)) (4 ∷ 7 ∷ []) (some (2, 20))
      reader_preferences

abbrev found : ℕ → ℕ → Found
found id source = record {
  item = record { id = id; source_id = some source };
  language = some (codes "EN");
}

abbrev queries : Queries
queries = record {
  has_feeds = true;
  candidates = found 1 7 ∷ found 2 7 ∷ found 3 8 ∷ [];
  fallback = found 4 7 ∷ [];
  serendipity = λ n. (found 3 8).item ∷ [];
  warmup = some ((found 3 8).item ∷ (found 9 9).item ∷ (found 9 9).item ∷ []);
  ceil_tenth = λ n. 1;
}

abbrev unconfigured : Plan → Quota → Option ℕ
unconfigured plan q = none

-- Nine summaries so far today.
abbrev redis : Redis
redis = record { count = λ q. pos 9; calls = 0 }

abbrev always : ℕ → Bool
always n = true

abbrev articles : List Article
articles =
    record { has_full_text = true; from_llm = false }
    ∷ record { has_full_text = true; from_llm = true }
    ∷ []

summarize_placed_lem_example :
    let (calls, r) =
      summarize_placed settings.billing unconfigured 0 always false true 12 ada.account articles
        redis in
    (calls ≤ 12)
    × (r.count llm_summaries ≡ pos (9 + calls))
    × (pos_part (r.count llm_summaries)
        ≤ limit settings.billing unconfigured 0 ada.account llm_summaries)
unfolding limit plan_quotas effective_plan is_paused
summarize_placed_lem_example =
    summarize_placed_lem settings.billing unconfigured 0 always false true 12 ada.account articles
      redis 9 refl (omega arith) refl refl refl (omega arith)
