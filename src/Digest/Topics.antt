-- ===== src/Digest/Topics.antt =====
-- The share of a topic in a digest, and what fills it: `SectionBuilder.build` in
-- backend/app/services/digest/sections.py.
use mathlib.Core.Path.{subst}
use readprism.Prelude.{
  mem, ℕ, ◌+◌, ◌≤◌, ◌<◌, ◌≡◌, ◌⊎◌, refl, sym, max, true, false, List, [], ◌∷◌, ◌==◌, if◌then◌else◌,
  arith, Bool-cases, inl, inr,
}
use readprism.Digest.Sections.{
  Row, Name, lead, creator, deep_reads, more, discovery, Board, is_full, add, saturated, any_full,
  count_topic, set_more, SectionBuilder, build,
}
use readprism.Digest.Creators.{weigh, weigh-append}
use readprism.Digest.Passes.{allowed, IsDistinct, build-keeps}
use readprism.Digest.Guarantees.{add_full}

abbrev pub has_topic : ℕ → Row → ℕ
has_topic t r = if mem t r.topic_clusters then 1 else 0

-- The items outside the discovery section that have a topic.
abbrev pub followed : ℕ → Board → ℕ
followed t b =
    weigh (has_topic t) (b.sections lead).items
    + (weigh (has_topic t) (b.sections creator).items
        + (weigh (has_topic t) (b.sections deep_reads).items
            + weigh (has_topic t) (b.sections more).items))

any_full-mem :
    (m : ℕ) (counts : ℕ → ℕ) (l : List ℕ) (t : ℕ)
    → any_full m counts l ≡ false
    → mem t l ≡ true
    → counts t < m
any_full-mem m counts [] t h k = cc
any_full-mem m counts (u ∷ l) t h k = elim (Bool-cases (t == u)) [
  | inl e ↦
      let same : t ≡ u = ground (arith, e) in
      let low : counts u < m = ground (arith, h) in subst (λ v. counts v < m) (sym same) low
  | inr e ↦ any_full-mem m counts l t (ground (arith, h)) (ground (arith, k, e))
]

count_topic-mem : (t : ℕ) (l : List ℕ) → (if mem t l then 1 else 0) ≤ count_topic t l
count_topic-mem t [] = omega arith
count_topic-mem t (u ∷ l) = let later = count_topic-mem t l in ground (arith, later)

abbrev IsShared : ℕ → Board → Type 0
IsShared m b = (t : ℕ) → (followed t b ≤ b.topic_counts t) × (followed t b ≤ m)

-- Under the guards, a topic of a followed item has room.
not_saturated :
    (m : ℕ) (b : Board) (r : Row) (t : ℕ)
    → saturated m b r ≡ false
    → mem t r.topic_clusters ≡ true
    → b.topic_counts t < m
unfolding saturated
not_saturated m b r t h = any_full-mem m b.topic_counts r.topic_clusters t h

added_topics :
    (m : ℕ) (n : Name) (r : Row) (b : Board) (t : ℕ)
    → allowed m n b r ≡ true
    → is_full (b.sections n) ≡ false
    → (followed t (add n r b) ≤ followed t b + has_topic t r)
      × ((add n r b).topic_counts t ≡ b.topic_counts t + count_topic t r.topic_clusters)
      × ((followed t (add n r b) ≡ followed t b) ⊎ (saturated m b r ≡ false))
unfolding add
added_topics m lead r b t h room =
    let more_by = weigh-append (has_topic t) (b.sections lead).items (r ∷ []) in
    rw room (omega arith, refl, inr (ground (arith, h)))
added_topics m creator r b t h room =
    let more_by = weigh-append (has_topic t) (b.sections creator).items (r ∷ []) in
    rw room (omega arith, refl, inr (ground (arith, h)))
added_topics m deep_reads r b t h room =
    let more_by = weigh-append (has_topic t) (b.sections deep_reads).items (r ∷ []) in
    rw room (omega arith, refl, inr (ground (arith, h)))
added_topics m more r b t h room =
    let more_by = weigh-append (has_topic t) (b.sections more).items (r ∷ []) in
    rw room (omega arith, refl, inr (ground (arith, h)))
added_topics m discovery r b t h room = rw room (omega arith, refl, inl refl)

add-IsShared :
    (m : ℕ) (n : Name) (r : Row) (b : Board)
    → allowed m n b r ≡ true
    → IsShared m b
    → IsShared m (add n r b)
add-IsShared m n r b h a = elim (Bool-cases (is_full (b.sections n))) [
  | inl full ↦ subst (IsShared m) (sym (add_full n r b full)) a
  | inr room ↦ λ t.
      let (one, counts, case) = added_topics m n r b t h room in
      let (le, cap) = a t in
      let topics = count_topic-mem t r.topic_clusters in
      elim case [
        | inl same ↦ (ground (arith, one, counts, same, le, topics), ground (arith, same, cap))
        | inr free ↦
            let low = not_saturated m b r t free in
            (ground (arith, one, counts, le, topics), ground (arith, one, low, le, cap))
      ]
]

set_more-IsShared : (m cap : ℕ) (b : Board) → IsShared m b → IsShared m (set_more cap b)
unfolding set_more
set_more-IsShared m cap b a = a

-- When the ranking names no item twice, no topic has more items outside the discovery section than the
-- digest's share for a topic, which is one at least.
pub build_topics :
    (s : SectionBuilder) (ranked : List Row) (t : ℕ)
    → IsDistinct ranked
    → followed t (build s ranked) ≤ max 1 s.topic_share
build_topics s ranked t distinct =
    let m = max 1 s.topic_share in
    let (le, cap) =
      build-keeps s (IsShared m) (λ n r b. add-IsShared m n r b) (set_more-IsShared m) ranked
        distinct (λ t. (omega arith, omega arith)) t in
    cap
