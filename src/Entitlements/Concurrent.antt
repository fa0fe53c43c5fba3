-- ===== src/Entitlements/Concurrent.antt =====
-- Requests of one account that take from one allowance at the same time: `take` of
-- backend/app/services/entitlements.py counts first and takes back afterwards, in two calls of the store,
-- so the calls of several requests interleave.
use readprism.Prelude.{
  ℕ, ◌+◌, ◌≤◌, ◌≡◌, refl, Bool, true, some, List, [], ◌∷◌, ◌++◌, arith, ap, ◌∙◌, inl, inr,
  if◌then◌else◌, Bool-cases,
}
use readprism.Prelude.Int.{ℤ, pos, ◌+ℤ◌, ◌-ℤ◌}
use readprism.Entitlements.Quotas.{Quota}
use readprism.Entitlements.Limits.{same_quota_self}
use readprism.Entitlements.Allowance.{Redis, cache_incr, fits, scaled, count_in, take_back, charge}

-- The store, what was granted, and the refused amounts that are still to be taken back.
pub record State : Type 0 where
  pub redis : Redis
  pub granted : ℕ
  pub refunds : List ℕ

abbrev pub sum : List ℕ → ℕ
sum [] = 0
sum (x ∷ xs) = x + sum xs

sum-append : (xs ys : List ℕ) → sum (xs ++ ys) ≡ sum xs + sum ys
sum-append [] ys = omega arith
sum-append (x ∷ xs) ys = omega (arith, sum-append xs ys)

module _ (up : ℕ → Bool) (cap : ℕ) (q : Quota) where
  -- The state after the first call of a request.
  unfoldable pub after_count : State → ℕ → State
  after_count s amount =
      let (granted, r') = count_in up cap q amount s.redis in
      record {
        redis = r';
        granted = if granted then s.granted + amount else s.granted;
        refunds = if granted then s.refunds else amount ∷ s.refunds;
      }

  -- One call of the store, by any of the requests: the first call of one that asks, or the second of one
  -- that was refused.
  pub data Step : State → State → Type 0 where
    counts : (s : State) (amount : ℕ) → Step s (after_count s amount)
    refunds :
        (s : State) (before after : List ℕ) (amount : ℕ)
        → s.refunds ≡ before ++ (amount ∷ after)
        → Step s (record s { redis = take_back up q amount s.redis; refunds = before ++ after })

  pub data Reach (s : State) : State → Type 0 where
    here : Reach s s
    next : {t u : State} → Reach s t → Step t u → Reach s u

  -- The counter is what was granted and what is still to be taken back; the grants keep to the cap.
  abbrev pub IsSafe : State → Type 0
  IsSafe s = (s.redis.count q ≡ pos (s.granted + sum s.refunds)) × (s.granted ≤ scaled q cap)

  module _ (always : (n : ℕ) → up n ≡ true) where
    incr_count : (r : Redis) (v : ℤ) → (cache_incr up r q v).1.count q ≡ r.count q +ℤ v
    unfolding cache_incr
    incr_count r v = rw (always r.calls, same_quota_self q) refl

    incr_answer : (r : Redis) (v : ℤ) → (cache_incr up r q v).0 ≡ some (r.count q +ℤ v)
    unfolding cache_incr
    incr_answer r v = rw (always r.calls) refl

    counted : (c : ℤ) (n m k : ℕ) → c ≡ pos n → k ≡ n + m → c +ℤ pos m ≡ pos k
    unfolding ◌+ℤ◌
    counted c n m k e f = ground arith

    taken_back : (c : ℤ) (n m k : ℕ) → c ≡ pos n → n ≡ k + m → c +ℤ (pos 0 -ℤ pos m) ≡ pos k
    unfolding ◌+ℤ◌ ◌-ℤ◌
    taken_back c n m k e f = ground arith

    within : (c : ℤ) (n : ℕ) → c ≡ pos n → fits (some c) (scaled q cap) ≡ true → n ≤ scaled q cap
    within c n e h = ground arith

    counts-IsSafe : (s : State) (amount : ℕ) → IsSafe s → IsSafe (after_count s amount)
    unfolding after_count
    counts-IsSafe s amount (exact, safe) =
        let total = s.granted + amount + sum s.refunds in
        let value = incr_count s.redis (pos amount) in
        let answer = incr_answer s.redis (pos amount) in
        let exact' = counted (s.redis.count q) _ amount total exact (omega arith) in
        elim (Bool-cases (fits (some (s.redis.count q +ℤ pos amount)) (scaled q cap))) [
          | inl ok ↦
              let fit = within (s.redis.count q +ℤ pos amount) total exact' ok in
              rw (answer, ok) (value ∙ exact', omega (arith, fit))
          | inr over ↦
              let same : total ≡ s.granted + (amount + sum s.refunds) = omega arith in
              rw (answer, over) (value ∙ exact' ∙ ap pos same, safe)
        ]

    Step-IsSafe : {s t : State} → Step s t → IsSafe s → IsSafe t
    Step-IsSafe (counts s amount) safe = counts-IsSafe s amount safe
    Step-IsSafe (refunds s before after amount e) (exact, safe) =
        let parts = sum-append before (amount ∷ after) in
        let same = ap sum e in
        let joined = sum-append before after in
        (
          incr_count s.redis (pos 0 -ℤ pos amount)
              ∙ taken_back (s.redis.count q) _ amount (s.granted + sum (before ++ after)) exact
                  (omega (arith, parts, same, joined)),
          safe,
        )

    -- While the store is up and only requests that take from it use an allowance, which starts the day at
    -- zero, then however their calls interleave, the account is never granted more than its limit on one
    -- day, and the counter is what was granted and what is still to be taken back.
    pub Reach-IsSafe :
        {s t : State}
        → s.redis.count q ≡ pos 0
        → s.granted ≡ 0
        → s.refunds ≡ []
        → Reach s t
        → IsSafe t
    Reach-IsSafe {s} zero_count none_granted none_due here =
        let nothing : 0 ≡ s.granted + sum s.refunds =
          omega (arith, none_granted, ap sum none_due) in
        (zero_count ∙ ap pos nothing, omega (arith, none_granted))
    Reach-IsSafe zero_count none_granted none_due (next r step) =
        Step-IsSafe step (Reach-IsSafe zero_count none_granted none_due r)

  -- The state that a request leaves behind when no other comes between its calls.
  abbrev pub after_charge : State → ℕ → State
  after_charge s amount =
      let (granted, r') = charge up cap q amount s.redis in
      record {
        redis = r';
        granted = if granted then s.granted + amount else s.granted;
        refunds = s.refunds;
      }

  -- The charge of the code is made of these steps.
  pub charge-Reach : (s : State) (amount : ℕ) → Reach s (after_charge s amount)
  unfolding charge after_count
  charge-Reach s amount =
      let first = next here (counts s amount) in
      elim (Bool-cases (count_in up cap q amount s.redis).0) [
        | inl ok ↦ rw ok (rw ok at first)
        | inr over ↦
            let first' = rw over at first in
            rw over (next first' (refunds _ [] s.refunds amount refl))
      ]
