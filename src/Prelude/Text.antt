-- ===== src/Prelude/Text.antt =====
-- Text as a list of code points, with the methods of `str` that the program uses. `lower` maps the
-- ASCII letters: hosts, schemes and price ids are ASCII.
use Prim.Native.Char.{code}
use Prim.Native.String.{String}
use readprism.Prelude.{
  ℕ, ◌+◌, ◌-◌, Bool, true, false, ◌&&◌, ◌||◌, List, [], ◌∷◌, map, ◌≡◌, ◌↔◌, arith, leb, ◌==◌,
  if◌then◌else◌, length, drop,
}

abbrev pub Text : Type 0
Text = List ℕ

abbrev pub codes : String → Text
codes String.[] = []
codes (String.◌∷◌ c s) = code c ∷ codes s

-- `s == t`
abbrev pub text_eq : Text → Text → Bool
text_eq [] [] = true
text_eq [] (d ∷ t) = false
text_eq (c ∷ s) [] = false
text_eq (c ∷ s) (d ∷ t) = (c == d) && text_eq s t

pub text_eq_iff : (s t : Text) → (text_eq s t ≡ true) ↔ (s ≡ t)
text_eq_iff [] [] = ground arith
text_eq_iff [] (d ∷ t) = ground arith
text_eq_iff (c ∷ s) [] = ground arith
text_eq_iff (c ∷ s) (d ∷ t) = ground (arith, text_eq_iff s t)

-- `s.startswith(p)`
abbrev pub starts_with : Text → Text → Bool
starts_with s [] = true
starts_with [] (d ∷ p) = false
starts_with (c ∷ s) (d ∷ p) = (c == d) && starts_with s p

-- `s.removeprefix(p)`
abbrev pub remove_prefix : Text → Text → Text
remove_prefix s p = if starts_with s p then drop (length p) s else s

-- `s.endswith(p)`
abbrev pub ends_with : Text → Text → Bool
ends_with s p = leb (length p) (length s) && text_eq (drop (length s - length p) s) p

abbrev pub lower_char : ℕ → ℕ
lower_char c = if leb b'A' c && leb c b'Z' then c + 32 else c

-- `s.lower()`
abbrev pub lower : Text → Text
lower = map lower_char

abbrev pub rstrip_cons : ℕ → ℕ → Text → Text
rstrip_cons k c [] = if c == k then [] else c ∷ []
rstrip_cons k c (d ∷ s) = c ∷ d ∷ s

-- `s.rstrip(k)` for one character `k`
abbrev pub rstrip : ℕ → Text → Text
rstrip k [] = []
rstrip k (c ∷ s) = rstrip_cons k c (rstrip k s)

-- `s in {…}`
abbrev pub member : Text → List Text → Bool
member s [] = false
member s (t ∷ ts) = text_eq s t || member s ts
