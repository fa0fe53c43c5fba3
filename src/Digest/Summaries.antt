-- ===== src/Digest/Summaries.antt =====
-- Model summaries of a digest's items: `summarize_placed` of backend/app/services/digest/builder.py, with
-- `ensure_llm_summaries` of backend/app/services/summarization/lazy.py, over the daily allowance of the
-- account. What the model writes is left out; a failed call counts like one that succeeds.
use readprism.Prelude.Int.{pos, pos_part, ◌+ℤ◌, ◌-ℤ◌}
use readprism.Prelude.{
  ℕ, zero, suc, ◌+◌, ◌-◌, ◌≤◌, ◌<◌, ◌≡◌, refl, Bool, true, false, ◌&&◌, not, Option, none, some,
  List, [], ◌∷◌, min, length, take, ◌==◌, if◌then◌else◌, arith, inl, inr, Bool-cases, ap,
}
use readprism.Billing.Account.{Settings, Plan}
use readprism.Entitlements.Quotas.{Quota, llm_summaries, Account, is_paused, limit}
use readprism.Entitlements.Allowance.{
  Redis, called, cache_incr, used_today, remaining_today, record_use,
}

-- What `needs_llm_summary` reads of an item.
pub record Article : Type 0 where
  pub has_full_text : Bool
  pub from_llm : Bool

abbrev pub needs_llm_summary : Article → Bool
needs_llm_summary a = a.has_full_text && not a.from_llm

unfoldable pub todo : List Article → List Article
todo [] = []
todo (a ∷ items) = let rest = todo items in if needs_llm_summary a then a ∷ rest else rest

-- `ensure_llm_summaries`: how many calls it makes; `configured` is whether there is a summarizer.
unfoldable pub ensure_llm_summaries : Bool → List Article → ℕ → ℕ
unfolding todo
ensure_llm_summaries configured items top = if configured then length (take top (todo items)) else 0

abbrev pub min_left : ℕ → Option ℕ → ℕ
min_left top none = top
min_left top (some left) = min top left

module _ (s : Settings) (configured : Plan → Quota → Option ℕ) (now : ℕ) (up : ℕ → Bool) where
  -- `own_key` is whether the reader has a key of their own, `instance` whether the instance has one, and
  -- `top` is DIGEST_LLM_SUMMARY_LIMIT.
  unfoldable pub summarize_placed : Bool → Bool → ℕ → Account → List Article → Redis → ℕ × Redis
  unfolding ensure_llm_summaries
  summarize_placed own_key has_llm top a items r =
      let (left, r') = remaining_today s configured now up a llm_summaries r in
      let calls = ensure_llm_summaries has_llm items (min_left top left) in
      if own_key
      then (ensure_llm_summaries true items top, r)
      else (calls, record_use s configured now up a llm_summaries (pos calls) r')

length-take_bound : (n : ℕ) (items : List Article) → length (take n items) ≤ n
length-take_bound zero items = omega arith
length-take_bound (suc n) [] = omega arith
length-take_bound (suc n) (a ∷ items) = omega (arith, length-take_bound n items)

ensure_bound :
    (has_llm : Bool) (items : List Article) (top : ℕ) → ensure_llm_summaries has_llm items top ≤ top
unfolding ensure_llm_summaries
ensure_bound true items top = length-take_bound top (todo items)
ensure_bound false items top = omega arith

sub_pos : (c n : ℕ) → pos_part (pos c -ℤ pos n) ≡ c - n
unfolding ◌-ℤ◌
sub_pos c n = ground arith

add_pos : (n m : ℕ) → pos n +ℤ pos m ≡ pos (n + m)
unfolding ◌+ℤ◌
add_pos n m = ground arith

module _ (s : Settings) (configured : Plan → Quota → Option ℕ) (now : ℕ) (up : ℕ → Bool) where
  remaining_lem :
      (a : Account) (r : Redis) (n : ℕ)
      → is_paused s configured now a ≡ false
      → 0 < limit s configured now a llm_summaries
      → up r.calls ≡ true
      → r.count llm_summaries ≡ pos n
      → remaining_today s configured now up a llm_summaries r
        ≡ (some (limit s configured now a llm_summaries - n), called r)
  unfolding remaining_today used_today
  remaining_lem a r n running some_cap answers used =
      let cap = limit s configured now a llm_summaries in
      let limited : (cap == 0) ≡ false = ground arith in
      rw (running, limited, answers, used, sub_pos cap n) refl

  record_lem :
      (a : Account) (r : Redis) (n calls : ℕ)
      → 0 < limit s configured now a llm_summaries
      → up r.calls ≡ true
      → r.count llm_summaries ≡ pos n
      → (record_use s configured now up a llm_summaries (pos calls) r).count llm_summaries
        ≡ pos (n + calls)
  unfolding record_use cache_incr
  record_lem a r n calls some_cap answers used =
      let limited : (limit s configured now a llm_summaries == 0) ≡ false = ground arith in
      elim (Bool-cases (calls == 0)) [
        | inl z ↦
            let no_calls : calls ≡ 0 = ground (arith, z) in
            let same : n + calls ≡ n = omega arith in rw (z, same) used
        | inr k ↦ rw (k, limited, answers, used) (add_pos n calls)
      ]

  -- Where Redis answers and the account has an allowance, summaries for a digest on the instance's key
  -- are counted one by one, at most DIGEST_LLM_SUMMARY_LIMIT of them, and never take the account over
  -- its allowance; on the reader's own key nothing is counted.
  pub summarize_placed_lem :
      (own_key has_llm : Bool) (top : ℕ) (a : Account) (items : List Article) (r : Redis) (n : ℕ)
      → is_paused s configured now a ≡ false
      → 0 < limit s configured now a llm_summaries
      → up r.calls ≡ true
      → up (r.calls + 1) ≡ true
      → r.count llm_summaries ≡ pos n
      → n ≤ limit s configured now a llm_summaries
      → let (calls, r') = summarize_placed s configured now up own_key has_llm top a items r in
        (calls ≤ top)
        × (r'.count llm_summaries ≡ pos (if own_key then n else n + calls))
        × (pos_part (r'.count llm_summaries) ≤ limit s configured now a llm_summaries)
  unfolding summarize_placed
  summarize_placed_lem true has_llm top a items r n running some_cap first second used below =
      (ensure_bound true items top, used, rw used below)
  summarize_placed_lem false has_llm top a items r n running some_cap first second used below =
      let left = remaining_lem a r n running some_cap first used in
      let cap = limit s configured now a llm_summaries in
      let calls = ensure_llm_summaries has_llm items (min top (cap - n)) in
      let few = ensure_bound has_llm items (min top (cap - n)) in
      let counted = record_lem a (called r) n calls some_cap second used in
      let total = ap pos_part counted in
      rw left (omega (arith, few), counted, omega (arith, few, total))
