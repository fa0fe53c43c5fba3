-- ===== src/Digest/Prompts.antt =====
-- Questions to new readers: `_generate_feedback_prompts` of backend/app/services/digest/builder.py.
use readprism.Prelude.{
  ℕ, zero, suc, ◌+◌, ◌%◌, Bool, true, false, ◌&&◌, ◌||◌, Option, none, some, List, [], ◌∷◌, length,
  get_elem?, ltb, ◌==◌, if◌then◌else◌,
}
use readprism.Prelude.Text.{Text, codes}

pub data PromptType : Type 0 where
  depth_level topic_accuracy source_quality : PromptType

abbrev pub same_type : PromptType → PromptType → Bool
same_type depth_level depth_level = true
same_type topic_accuracy topic_accuracy = true
same_type source_quality source_quality = true
same_type _ _ = false

pub record Prompt : Type 0 where
  pub type : PromptType
  pub text : Text

abbrev prompt : PromptType → Text → Prompt
prompt type text = record { type = type; text = text }

-- `_EARLY_PROMPTS`
abbrev pub early_prompts : List Prompt
early_prompts =
    prompt depth_level
      (codes "Was today's content the right depth, or would you prefer more in-depth analysis?")
    ∷ prompt topic_accuracy
        (codes "Did today's digest match your interests, or did anything feel off-topic?")
    ∷ prompt source_quality (codes "Were the sources today high quality and trustworthy for you?")
    ∷ prompt depth_level (codes "Were the articles too long, too short, or just right?")
    ∷ prompt topic_accuracy (codes "Was there a topic today you'd like to see more of?")
    ∷ prompt source_quality
        (codes "Did you discover any new sources today that you'd like to follow?")
    ∷ []

-- A stored prompt of the user.
pub record FeedbackPrompt : Type 0 where
  pub content_item_id : Option ℕ
  pub prompt : Prompt
  pub dismissed : Bool

unfoldable pub is_dismissed : PromptType → List FeedbackPrompt → Bool
is_dismissed t [] = false
is_dismissed t (p ∷ stored) = (p.dismissed && same_type p.prompt.type t) || is_dismissed t stored

-- The prompts of the types that the user has not dismissed.
unfoldable pub pool_of : List FeedbackPrompt → List Prompt → List Prompt
pool_of stored [] = []
pool_of stored (p ∷ prompts) =
    let rest = pool_of stored prompts in if is_dismissed p.type stored then rest else p ∷ rest

abbrev pub num_prompts : ℕ → ℕ
num_prompts user_age_days = if ltb user_age_days 7 then 3 else 2

abbrev pub anchor_of : ℕ → Option ℕ → Option ℕ
anchor_of zero anchor = anchor
anchor_of (suc i) anchor = none

abbrev cons_prompt : Option ℕ → Option Prompt → List FeedbackPrompt → List FeedbackPrompt
cons_prompt anchor none rest = rest
cons_prompt anchor (some p) rest =
    record { content_item_id = anchor; prompt = p; dismissed = false } ∷ rest

-- The loop, from `i` on for `n` prompts.
unfoldable pub rotate : List Prompt → ℕ → Option ℕ → ℕ → ℕ → List FeedbackPrompt
rotate pool existing anchor i zero = []
rotate pool existing anchor i (suc n) =
    cons_prompt (anchor_of i anchor) (get_elem? pool ((existing + i) % length pool))
      (rotate pool existing anchor (suc i) n)

-- The prompts of a new digest, with the first item of its first section that has one.
unfoldable pub generate_feedback_prompts : List FeedbackPrompt → Option ℕ → ℕ → List FeedbackPrompt
unfolding rotate pool_of
generate_feedback_prompts stored anchor user_age_days =
    let pool = pool_of stored early_prompts in
    if length pool == 0
    then []
    else rotate pool (length stored) anchor 0 (num_prompts user_age_days)

-- The end of `build_digest`: only an account of less than 14 days is asked, about a digest with items.
unfoldable pub digest_prompts : List FeedbackPrompt → Option ℕ → ℕ → ℕ → List FeedbackPrompt
unfolding generate_feedback_prompts
digest_prompts stored anchor user_age_days total =
    if ltb user_age_days 14 && ltb 0 total
    then generate_feedback_prompts stored anchor user_age_days
    else []
