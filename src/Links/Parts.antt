-- ===== src/Links/Parts.antt =====
-- A message of signed links determines its parts.
use readprism.Prelude.{
  ℕ, ◌≡◌, refl, sym, ap, ◌∙◌, Bool, true, ◌&&◌, not, List, [], ◌∷◌, ◌++◌, ◌==◌, if◌then◌else◌, All,
  arith,
}
use readprism.Prelude.Text.{Text}
use readprism.Links.Signed.{join}

-- No colon is in a text.
abbrev pub is_plain : Text → Bool
is_plain [] = true
is_plain (c ∷ t) = not (c == b':') && is_plain t

abbrev cons_first : ℕ → List Text → List Text
cons_first c [] = (c ∷ []) ∷ []
cons_first c (t ∷ ts) = (c ∷ t) ∷ ts

-- The text cut at its colons.
unfoldable cut : Text → List Text
cut [] = [] ∷ []
cut (c ∷ t) = let rest = cut t in if c == b':' then [] ∷ rest else cons_first c rest

cut-plain : (t : Text) → is_plain t ≡ true → cut t ≡ t ∷ []
unfolding cut
cut-plain [] p = refl
cut-plain (c ∷ t) p = ground (arith, p, cut-plain t (ground (arith, p)))

cut-append : (t rest : Text) → is_plain t ≡ true → cut (t ++ (b':' ∷ rest)) ≡ t ∷ cut rest
unfolding cut
cut-append [] rest p = refl
cut-append (c ∷ t) rest p = ground (arith, p, cut-append t rest (ground (arith, p)))

-- What is before the first colon does not depend on what follows.
abbrev pub ArePlain : List Text → Type 0
ArePlain = All (λ t. is_plain t ≡ true)

cut-join : (t : Text) (l : List Text) → ArePlain (t ∷ l) → cut (join (t ∷ l)) ≡ t ∷ l
unfolding join
cut-join t [] (p, a) = cut-plain t p
cut-join t (u ∷ l) (p, a) = cut-append t (join (u ∷ l)) p ∙ ap (λ x. t ∷ x) (cut-join u l a)

-- Messages of parts without colons are equal only if their parts are.
pub join_injective :
    (t u : Text) (l m : List Text)
    → ArePlain (t ∷ l)
    → ArePlain (u ∷ m)
    → join (t ∷ l) ≡ join (u ∷ m)
    → t ∷ l ≡ u ∷ m
join_injective t u l m p q e = sym (cut-join t l p) ∙ (ap cut e ∙ cut-join u m q)

abbrev first : List Text → Text
first [] = []
first (t ∷ l) = t

first_part : (t : Text) (l : List Text) → is_plain t ≡ true → first (cut (join (t ∷ l))) ≡ t
unfolding join
first_part t [] p = ap first (cut-plain t p)
first_part t (u ∷ l) p = ap first (cut-append t (join (u ∷ l)) p)

-- Messages whose first parts have no colon are equal only if those are, whatever follows.
pub join_first :
    (t u : Text) (l m : List Text)
    → is_plain t ≡ true
    → is_plain u ≡ true
    → join (t ∷ l) ≡ join (u ∷ m)
    → t ≡ u
join_first t u l m p q e = sym (first_part t l p) ∙ (ap (λ x. first (cut x)) e ∙ first_part u m q)
