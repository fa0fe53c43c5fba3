-- ===== src/Digest/Bounds.antt =====
-- The sizes of the sections of a digest: `SectionBuilder.build` in
-- backend/app/services/digest/sections.py.
use readprism.Prelude.{
  mem, length, length-append, ℕ, ◌+◌, ◌-◌, ◌≤◌, ◌≡◌, refl, ap, ◌∙◌, max, false, ◌||◌, List, [], ◌∷◌,
  if◌then◌else◌, arith, Bool-cases, inl, inr,
}
use readprism.Digest.Sections.{
  Row, Name, lead, creator, deep_reads, more, discovery, same_name, Board, is_full, add, saturated,
  total_of, fill_more, set_more, SectionBuilder, build_main, build, placed, max_of,
  is_discovery_eligible,
}
use readprism.Digest.Passes.{IsDistinct, build_main-keeps, fill_more-keeps}
use readprism.Digest.Guarantees.{set_section-keeps}

-- The sections keep to the caps.
abbrev IsCapped : (Name → ℕ) → Board → Type 0
IsCapped cap b =
    (n : Name)
    → (length (b.sections n).items ≤ (b.sections n).max_items) × ((b.sections n).max_items ≡ cap n)

add-IsCapped :
    (cap : Name → ℕ) (n : Name) (r : Row) (b : Board) → IsCapped cap b → IsCapped cap (add n r b)
unfolding add
add-IsCapped cap n r b a = elim (Bool-cases (is_full (b.sections n))) [
  | inl full ↦ rw full a
  | inr room ↦ rw room (
      let (le, e) = a n in
      set_section-keeps (λ k s. (length s.items ≤ s.max_items) × (s.max_items ≡ cap k)) n _
        b.sections
        (
          let more_by_one = length-append (b.sections n).items (r ∷ []) in
              ground (arith, room, more_by_one),
          e,
        )
        a)
]

build_main-IsCapped :
    (s : SectionBuilder) (ranked : List Row)
    → IsDistinct ranked
    → IsCapped (max_of s) (build_main s ranked)
build_main-IsCapped s ranked distinct =
    build_main-keeps s (IsCapped (max_of s)) (λ n r b _. add-IsCapped (max_of s) n r b) ranked
      distinct (λ n. (omega arith, refl))

add_others :
    (n : Name) (r : Row) (b : Board) (k : Name)
    → same_name n k ≡ false
    → (add n r b).sections k ≡ b.sections k
unfolding add
add_others n r b k other = elim (Bool-cases (is_full (b.sections n))) [
  | inl full ↦ rw full refl
  | inr room ↦ rw room (rw other refl)
]

fill_more_others :
    (m : ℕ) (l : List Row) (b : Board) (k : Name)
    → same_name more k ≡ false
    → (fill_more m l b).sections k ≡ b.sections k
unfolding fill_more
fill_more_others m [] b k other = refl
fill_more_others m (r ∷ l) b k other = elim (Bool-cases (is_full (b.sections more))) [
  | inl full ↦ rw full refl
  | inr room ↦
      rw room
        (elim (Bool-cases (mem r.id b.used_ids || is_discovery_eligible r || saturated m b r)) [
          | inl skip ↦ rw skip (fill_more_others m l b k other)
          | inr take ↦
              rw take (fill_more_others m l (add more r b) k other ∙ add_others more r b k other)
        ])
]

-- A cap of each section, that of `more` given.
abbrev cap_of : SectionBuilder → ℕ → Name → ℕ
cap_of s cap n = if same_name more n then cap else max_of s n

set_more-IsCapped :
    (s : SectionBuilder) (cap : ℕ) (b : Board)
    → IsCapped (max_of s) b
    → IsCapped (cap_of s cap) (set_more cap b)
unfolding set_more
set_more-IsCapped s cap b a lead = a lead
set_more-IsCapped s cap b a creator = a creator
set_more-IsCapped s cap b a deep_reads = a deep_reads
set_more-IsCapped s cap b a more = let (le, e) = a more in (omega arith, refl)
set_more-IsCapped s cap b a discovery = a discovery

build-IsCapped :
    (s : SectionBuilder) (ranked : List Row)
    → IsDistinct ranked
    → IsCapped (cap_of s (s.total_items - placed (build_main s ranked))) (build s ranked)
unfolding build
build-IsCapped s ranked distinct =
    let b = build_main s ranked in
    let cap = s.total_items - placed b in
    fill_more-keeps (max 1 s.topic_share) (IsCapped (cap_of s cap))
      (λ n r b _. add-IsCapped (cap_of s cap) n r b) ranked (set_more cap b)
      (set_more-IsCapped s cap b (build_main-IsCapped s ranked distinct))

pub build_others :
    (s : SectionBuilder) (ranked : List Row) (k : Name)
    → same_name more k ≡ false
    → (build s ranked).sections k ≡ (build_main s ranked).sections k
unfolding build set_more
build_others s ranked k other =
    let b = build_main s ranked in
    fill_more_others (max 1 s.topic_share) ranked (set_more (s.total_items - placed b) b) k other
    ∙ rw other refl

-- When the ranking names no item twice, each section but `more` keeps to the size that the builder sets
-- for it.
pub build_caps :
    (s : SectionBuilder) (ranked : List Row) (n : Name)
    → IsDistinct ranked
    → same_name more n ≡ false
    → length ((build s ranked).sections n).items ≤ max_of s n
build_caps s ranked n distinct other =
    let (le, e) = build-IsCapped s ranked distinct n in ground (arith, le, e, other)

pub build-placed :
    (s : SectionBuilder) (ranked : List Row)
    → IsDistinct ranked
    → (placed (build s ranked)
        ≡ placed (build_main s ranked) + length ((build s ranked).sections more).items)
      × (length ((build s ranked).sections more).items
          ≤ s.total_items - placed (build_main s ranked))
build-placed s ranked distinct =
    let same : (k : Name)
        → same_name more k ≡ false
        → length ((build s ranked).sections k).items
          ≡ length ((build_main s ranked).sections k).items =
      λ k h. ap (λ t. length t.items) (build_others s ranked k h) in
    let l = same lead refl in
    let c = same creator refl in
    let dr = same deep_reads refl in
    let ds = same discovery refl in
    let (none_yet, zero_cap) = build_main-IsCapped s ranked distinct more in
    let (le, e) = build-IsCapped s ranked distinct more in (omega arith, omega arith)

pub build_more_cap :
    (s : SectionBuilder) (ranked : List Row)
    → IsDistinct ranked
    → ((build s ranked).sections more).max_items ≡ s.total_items - placed (build_main s ranked)
build_more_cap s ranked distinct = (build-IsCapped s ranked distinct more).1

-- When the ranking names no item twice, a digest is never longer than its target length, or, where the
-- four other sections' sizes add up to more than the target, than those sizes together.
pub build_total :
    (s : SectionBuilder) (ranked : List Row)
    → IsDistinct ranked
    → placed (build s ranked) ≤ max s.total_items (total_of (max_of s))
build_total s ranked distinct =
    let (sum, le) = build-placed s ranked distinct in
    let l = build_main-IsCapped s ranked distinct lead in
    let c = build_main-IsCapped s ranked distinct creator in
    let dr = build_main-IsCapped s ranked distinct deep_reads in
    let m = build_main-IsCapped s ranked distinct more in
    let ds = build_main-IsCapped s ranked distinct discovery in ground (arith, l, c, dr, m, ds)
