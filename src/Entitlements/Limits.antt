-- ===== src/Entitlements/Limits.antt =====
-- What the limits guarantee: totals, daily allowances, failure of the counter store, and concurrent
-- requests.
use readprism.Prelude.{
  ℕ, ◌+◌, ◌≤◌, ◌≡◌, ◌≢◌, ◌↔◌, Bool, true, false, not, Option, ◌⊎◌, inl, inr, arith, Bool-cases,
}
use readprism.Prelude.Int.{ℤ, pos, negsuc, ◌+ℤ◌, ◌-ℤ◌, ◌≤ℤ◌, int_laws}
use readprism.Billing.Account.{Settings, Plan}
use readprism.Entitlements.Quotas.{
  Quota, sources, creators, newsletters, newsletter_mb, Account, allowed, is_paused, limit,
  enforce_source_limit, enforce_creator_limit,
}
use readprism.Entitlements.Allowance.{
  Redis, same_quota, cache_incr, scaled, charge, take, record_use, newsletter_allowed,
}

module _ (s : Settings) (configured : Plan → Quota → Option ℕ) (now : ℕ) where
  -- Sources may be added exactly when the account is not paused and either has no limit or stays within
  -- it; so for creators.
  pub enforce_limit_iff :
      (a : Account) (current_count adding : ℕ)
      → ((enforce_source_limit s configured now a current_count adding ≡ allowed) ↔ (
          (is_paused s configured now a ≡ false)
          × ((limit s configured now a sources ≡ 0)
              ⊎ (current_count + adding ≤ limit s configured now a sources))))
        × ((enforce_creator_limit s configured now a current_count adding ≡ allowed) ↔ (
            (is_paused s configured now a ≡ false)
            × ((limit s configured now a creators ≡ 0)
                ⊎ (current_count + adding ≤ limit s configured now a creators))))
  unfolding enforce_source_limit enforce_creator_limit
  enforce_limit_iff a current_count adding = ground arith

pub same_quota_self : (q : Quota) → same_quota q q ≡ true
same_quota_self q = ground arith

eq_of_same_quota : (q k : Quota) → same_quota q k ≡ true → q ≡ k
eq_of_same_quota q k h = ground arith

minus_one : (a : ℤ) → a +ℤ pos 1 +ℤ negsuc 0 ≡ a
minus_one a = omega int_laws

pub give_back : (a : ℤ) (n : ℕ) → a +ℤ pos n +ℤ (pos 0 -ℤ pos n) ≡ a
give_back a n = omega int_laws

-- With the store up, a charge that is granted leaves the counter within the cap, and one that is
-- refused leaves it as it was.
pub charge_effect :
    (up : ℕ → Bool) (cap : ℕ) (q : Quota) (amount : ℕ) (r : Redis)
    → ((n : ℕ) → up n ≡ true)
    → let (granted, r') = charge up cap q amount r in
      ((granted ≡ true)
        × (r'.count q ≡ r.count q +ℤ pos amount)
        × (r'.count q ≤ℤ pos (scaled q cap)))
      ⊎ ((granted ≡ false)
          × (r'.count q ≡ r.count q)
          × ¬ (r.count q +ℤ pos amount ≤ℤ pos (scaled q cap)))
unfolding charge cache_incr
charge_effect up cap q amount r on =
    ground (arith, on r.calls, on (r.calls + 1), same_quota_self q, give_back (r.count q) amount)

-- An increment or a charge leaves the other counters alone.
charge_others :
    (up : ℕ → Bool) (cap : ℕ) (q k : Quota) (amount : ℕ) (r : Redis)
    → same_quota q k ≡ false
    → (charge up cap q amount r).1.count k ≡ r.count k
unfolding charge cache_incr
charge_others up cap q k amount r ne = ground arith

module _ (s : Settings) (configured : Plan → Quota → Option ℕ) (now : ℕ) (up : ℕ → Bool) where
  -- `take` with the store up: a paused account gets nothing; an account without a limit gets all and is
  -- not counted; any other gets the amount exactly when today's use and the amount fit the limit, and
  -- then it is counted, while a refusal counts nothing. No other counter moves.
  pub take_effect :
      (a : Account) (q : Quota) (amount : ℕ) (r : Redis)
      → ((n : ℕ) → up n ≡ true)
      → let (granted, r') = take s configured now up a q amount r in
        let cap = limit s configured now a q in
        (is_paused s configured now a ≡ true → (granted ≡ false) × (r' ≡ r))
        × (is_paused s configured now a ≡ false → cap ≡ 0 → (granted ≡ true) × (r' ≡ r))
        × (is_paused s configured now a ≡ false
            → cap ≢ 0
            → ((granted ≡ true) ↔ (r.count q +ℤ pos amount ≤ℤ pos (scaled q cap)))
              × (granted ≡ true → r'.count q ≡ r.count q +ℤ pos amount)
              × (granted ≡ false → r'.count q ≡ r.count q))
        × ((k : Quota) → same_quota q k ≡ false → r'.count k ≡ r.count k)
  unfolding take
  take_effect a q amount r on =
      let cap = limit s configured now a q in
      let charged = charge_effect up cap q amount r on in
      (
        ground arith,
        ground arith,
        ground (arith, charged),
        λ k ne. ground (arith, charge_others up cap q k amount r ne),
      )

  take_refused :
      (a : Account) (q : Quota) (amount : ℕ) (r : Redis) (k : Quota)
      → ((n : ℕ) → up n ≡ true)
      → (take s configured now up a q amount r).0 ≡ false
      → (take s configured now up a q amount r).1.count k ≡ r.count k
  unfolding take
  take_refused a q amount r k on refused =
      let cap = limit s configured now a q in
      let charged = charge_effect up cap q amount r on in
      let others = charge_others up cap q k amount r in
      elim (Bool-cases (same_quota q k)) [
        | inl e ↦ let e' = eq_of_same_quota q k e in rw (← e') (ground (arith, charged))
        | inr ne ↦ ground (arith, others ne)
      ]

  take_granted :
      (a : Account) (q : Quota) (amount : ℕ) (r : Redis) (k : Quota)
      → ((n : ℕ) → up n ≡ true)
      → (take s configured now up a q amount r).0 ≡ true
      → let r' = (take s configured now up a q amount r).1 in
        ((limit s configured now a q ≡ 0) × (r' ≡ r))
        ⊎ ((limit s configured now a q ≢ 0)
            × (r'.count q ≡ r.count q +ℤ pos amount)
            × (same_quota q k ≡ false → r'.count k ≡ r.count k))
  unfolding take
  take_granted a q amount r k on granted =
      let cap = limit s configured now a q in
      ground (arith, charge_effect up cap q amount r on, charge_others up cap q k amount r)

  -- A newsletter that is refused leaves every counter as it was, also when its count was taken before
  -- its volume was refused.
  pub newsletter_allowed_refused :
      (a : Account) (size_bytes : ℕ) (r : Redis)
      → ((n : ℕ) → up n ≡ true)
      → let (ok, r') = newsletter_allowed s configured now up a size_bytes r in
        ok ≡ false → (k : Quota) → r'.count k ≡ r.count k
  unfolding newsletter_allowed record_use cache_incr
  newsletter_allowed_refused a size_bytes r on refused k =
      let r1 = (take s configured now up a newsletters 1 r).1 in
      ground (
        arith,
        take_refused a newsletters 1 r k on,
        take_granted a newsletters 1 r k on,
        take_refused a newsletter_mb size_bytes r1 k on,
        take_refused a newsletter_mb size_bytes r1 newsletters on,
        on (take s configured now up a newsletter_mb size_bytes r1).1.calls,
        eq_of_same_quota newsletters k,
        minus_one (r.count newsletters),
      )

-- With the store down every account that is not paused is served and nothing is counted, so an outage
-- never refuses a paying reader, and a paused account stays refused.
pub take_fails_open :
    (s : Settings) (configured : Plan → Quota → Option ℕ) (now : ℕ) (up : ℕ → Bool) (a : Account)
    (q : Quota) (amount : ℕ) (r : Redis)
    → ((n : ℕ) → up n ≡ false)
    → let (granted, r') = take s configured now up a q amount r in
      (granted ≡ not (is_paused s configured now a)) × (r'.count ≡ r.count)
unfolding take charge cache_incr
take_fails_open s configured now up a q amount r off =
    ground (arith, off r.calls, off (r.calls + 1))
