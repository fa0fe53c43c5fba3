-- ===== src/Digest/Guarantees.antt =====
-- What a reader can rely on in the sections of a digest: `SectionBuilder.build` in
-- backend/app/services/digest/sections.py.
use readprism.Prelude.{
  mem, All, ℕ, ◌+◌, ◌≤◌, ◌≡◌, refl, ap, max, true, false, List, [], ◌∷◌, ◌++◌, if◌then◌else◌, arith,
  Bool-cases, inl, inr,
}
use readprism.Digest.Sections.{
  Row, Name, lead, creator, deep_reads, more, discovery, set_section, Section, Board, is_full, add,
  total_of, set_more, SectionBuilder, build,
}
use readprism.Digest.Creators.{weigh, weigh-append, is_id}
use readprism.Digest.Passes.{eligible, allowed, IsDistinct, build-keeps}

-- A weight over all sections.
abbrev pub weigh_board : (Row → ℕ) → Board → ℕ
weigh_board w b = total_of (λ n. weigh w (b.sections n).items)

pub add_full : (n : Name) (r : Row) (b : Board) → is_full (b.sections n) ≡ true → add n r b ≡ b
unfolding add
add_full n r b h = rw h refl

add_weigh :
    (w : Row → ℕ) (n : Name) (r : Row) (b : Board)
    → is_full (b.sections n) ≡ false
    → weigh_board w (add n r b) ≡ weigh_board w b + w r
unfolding add
add_weigh w lead r b h =
    rw h (let a = weigh-append w (b.sections lead).items (r ∷ []) in omega arith)
add_weigh w creator r b h =
    rw h (let a = weigh-append w (b.sections creator).items (r ∷ []) in omega arith)
add_weigh w deep_reads r b h =
    rw h (let a = weigh-append w (b.sections deep_reads).items (r ∷ []) in omega arith)
add_weigh w more r b h =
    rw h (let a = weigh-append w (b.sections more).items (r ∷ []) in omega arith)
add_weigh w discovery r b h =
    rw h (let a = weigh-append w (b.sections discovery).items (r ∷ []) in omega arith)

add_used :
    (n : Name) (r : Row) (b : Board)
    → is_full (b.sections n) ≡ false
    → (add n r b).used_ids ≡ r.id ∷ b.used_ids
unfolding add
add_used n r b h = rw h refl

abbrev IsOnce : Board → Type 0
IsOnce b = (k : ℕ) → weigh_board (is_id k) b ≤ (if mem k b.used_ids then 1 else 0)

add-IsOnce :
    (m : ℕ) (n : Name) (r : Row) (b : Board)
    → allowed m n b r ≡ true
    → IsOnce b
    → IsOnce (add n r b)
unfolding add
add-IsOnce m n r b h once = elim (Bool-cases (is_full (b.sections n))) [
  | inl full ↦ rw (add_full n r b full) once
  | inr room ↦ λ k.
      let old = once k in
      let sum = add_weigh (is_id k) n r b room in
      let used = ap (mem k) (add_used n r b room) in ground (arith, old, sum, used, h)
]

set_more-IsOnce : (cap : ℕ) (b : Board) → IsOnce b → IsOnce (set_more cap b)
unfolding set_more
set_more-IsOnce cap b once k = once k

-- When the ranking names no item twice, the whole digest places no item twice, in whatever sections.
pub build_once :
    (s : SectionBuilder) (ranked : List Row) (k : ℕ)
    → IsDistinct ranked
    → weigh_board (is_id k) (build s ranked) ≤ 1
build_once s ranked k distinct =
    let once : IsOnce (build s ranked) =
      build-keeps s IsOnce (λ n r b. add-IsOnce (max 1 s.topic_share) n r b) set_more-IsOnce ranked
        distinct (λ k. omega arith) in
    let here = once k in ground (arith, here)

-- Every id that is noted as used stands in a section.
abbrev AreShown : Board → Type 0
AreShown b = (k : ℕ) → (if mem k b.used_ids then 1 else 0) ≤ weigh_board (is_id k) b

add-AreShown :
    (m : ℕ) (n : Name) (r : Row) (b : Board)
    → allowed m n b r ≡ true
    → AreShown b
    → AreShown (add n r b)
unfolding add
add-AreShown m n r b h shown = elim (Bool-cases (is_full (b.sections n))) [
  | inl full ↦ rw (add_full n r b full) shown
  | inr room ↦ λ k.
      let old = shown k in
      let sum = add_weigh (is_id k) n r b room in
      let used = ap (mem k) (add_used n r b room) in ground (arith, old, sum, used)
]

set_more-AreShown : (cap : ℕ) (b : Board) → AreShown b → AreShown (set_more cap b)
unfolding set_more
set_more-AreShown cap b shown k = shown k

-- When the ranking names no item twice, what the builder notes as used stands in a section.
pub build_shown :
    (s : SectionBuilder) (ranked : List Row) (k : ℕ)
    → IsDistinct ranked
    → mem k (build s ranked).used_ids ≡ true
    → 1 ≤ weigh_board (is_id k) (build s ranked)
build_shown s ranked k distinct used =
    let shown : AreShown (build s ranked) =
      build-keeps s AreShown (λ n r b. add-AreShown (max 1 s.topic_share) n r b) set_more-AreShown
        ranked distinct (λ k. omega arith) in
    let here = shown k in ground (arith, here, used)

All-append : (P : Row → Type 0) (l : List Row) (r : Row) → All P l → P r → All P (l ++ (r ∷ []))
All-append P [] r a p = (p, tt)
All-append P (x ∷ l) r (q, a) p = (q, All-append P l r a p)

abbrev pub AllEligible : Board → Type 0
AllEligible b = (n : Name) → All (λ r. eligible n r ≡ true) (b.sections n).items

pub set_section-keeps :
    (P : Name → Section → Type 0) (n : Name) (s : Section) (f : Name → Section)
    → P n s
    → ((k : Name) → P k (f k))
    → (k : Name) → P k (set_section n s f k)
set_section-keeps P lead s f p a lead = p
set_section-keeps P creator s f p a creator = p
set_section-keeps P deep_reads s f p a deep_reads = p
set_section-keeps P more s f p a more = p
set_section-keeps P discovery s f p a discovery = p
set_section-keeps P _ s f p a k = a k

add-AllEligible :
    (m : ℕ) (n : Name) (r : Row) (b : Board)
    → allowed m n b r ≡ true
    → AllEligible b
    → AllEligible (add n r b)
unfolding add
add-AllEligible m n r b h a = elim (Bool-cases (is_full (b.sections n))) [
  | inl full ↦ rw full a
  | inr room ↦ rw room (
      let e : eligible n r ≡ true = ground (arith, h) in
      set_section-keeps (λ k s. All (λ r. eligible k r ≡ true) s.items) n _ b.sections
        (All-append (λ r. eligible n r ≡ true) (b.sections n).items r (a n) e) a)
]

set_more-AllEligible : (cap : ℕ) (b : Board) → AllEligible b → AllEligible (set_more cap b)
unfolding set_more
set_more-AllEligible cap b a =
    set_section-keeps (λ k s. All (λ r. eligible k r ≡ true) s.items) more _ b.sections (a more) a

-- When the ranking names no item twice, every item stands in a section that it is eligible for: no
-- exploration item leads, creators' items have a creator, deep reads take eight minutes or more, and
-- discovery candidates are in no section `more`, and nothing else is in discovery.
pub build-AllEligible :
    (s : SectionBuilder) (ranked : List Row) → IsDistinct ranked → AllEligible (build s ranked)
build-AllEligible s ranked distinct =
    build-keeps s AllEligible (λ n r b. add-AllEligible (max 1 s.topic_share) n r b)
      set_more-AllEligible ranked distinct
      (elim [ lead ↦ tt | creator ↦ tt | deep_reads ↦ tt | more ↦ tt | discovery ↦ tt ])
