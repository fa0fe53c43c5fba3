-- ===== src/Ingestion/BitCount.antt =====
-- The distance of two hashes: `hamming` of backend/app/services/ingestion/simhash.py, whose bits are
-- counted on fuel.
use mathlib.Core.Path.{subst}
use Prim.Native.Nat.{bit_xor, bit_xor-bitwise, digits, differ}
use readprism.Prelude.{
  ℕ, zero, suc, ◌*◌, ◌/◌, ◌^◌, ◌≡◌, ◌≤◌, ◌<◌, refl, some, leb, arith, ◌+◌, ◌%◌, ◌==◌, if◌then◌else◌,
  sym, ◌∙◌, Bool-cases, inl, inr,
}
use readprism.Prelude.Text.{Text}
use readprism.Ingestion.Items.{HashLib, bit_count_from, hamming}

-- Twice a power.
abbrev double : ℕ → ℕ
double zero = 1
double (suc k) = 2 * double k

bit_count_zero : (f : ℕ) → bit_count_from f 0 ≡ 0
unfolding bit_count_from
bit_count_zero zero = refl
bit_count_zero (suc f) = refl

bit_count_enough : (k f n : ℕ) → n < double k → k ≤ f → bit_count_from f n ≡ bit_count_from k n
unfolding bit_count_from
bit_count_enough zero f n small enough =
    let none_left : 0 ≡ n = omega (arith, small) in
    subst (λ x. bit_count_from f x ≡ 0) none_left (bit_count_zero f)
bit_count_enough (suc k) zero n small enough = absurd (omega (arith, enough))
bit_count_enough (suc k) (suc f) n small enough =
    let rest = bit_count_enough k f (n / 2) (omega (arith, small)) (omega (arith, enough)) in
    ground (arith, rest)

below_double : (n : ℕ) → n < double n
below_double zero = omega arith
below_double (suc n) = omega (arith, below_double n)

-- The number of the lowest `k` binary places at which two numbers differ.
unfoldable pub differing : ℕ → ℕ → ℕ → ℕ
differing zero a b = 0
differing (suc k) a b = (if a % 2 == b % 2 then 0 else 1) + differing k (a / 2) (b / 2)

abbrev xor_digits : ℕ → ℕ → ℕ → ℕ
xor_digits = digits (λ b. b) differ

differing_zero : (k b : ℕ) → b < double k → bit_count_from k b ≡ differing k 0 b
unfolding differing bit_count_from
differing_zero zero b small = refl
differing_zero (suc k) b small =
    let rest = differing_zero k (b / 2) (omega (arith, small)) in
    let gone = bit_count_zero k in ground (arith, rest, gone)

differ_bit : (x y : ℕ) → x < 2 → y < 2 → differ x y ≡ (if x == y then 0 else 1)
differ_bit zero zero h g = refl
differ_bit zero (suc zero) h g = refl
differ_bit (suc zero) zero h g = refl
differ_bit (suc zero) (suc zero) h g = refl
differ_bit (suc (suc x)) y h g = absurd (omega (arith, h))
differ_bit zero (suc (suc y)) h g = absurd (omega (arith, g))
differ_bit (suc zero) (suc (suc y)) h g = absurd (omega (arith, g))

fuel_enough : (n : ℕ) → n < double 64 → bit_count_from n n ≡ bit_count_from 64 n
fuel_enough n small = elim (Bool-cases (leb 64 n)) [
  | inl long ↦ bit_count_enough 64 n n small (ground (arith, long))
  | inr short ↦ sym (bit_count_enough n 64 n (below_double n) (ground (arith, short)))
]

low_place : (a b : ℕ) → differ (a % 2) (b % 2) ≡ (if a % 2 == b % 2 then 0 else 1)
low_place a b = differ_bit (a % 2) (b % 2) (omega arith) (omega arith)

digits_bound : (k n a b : ℕ) → a ≤ n → a < double k → b < double k → xor_digits n a b < double k
digits_bound k zero a b le small small' = small'
digits_bound k (suc n) zero b le small small' = small'
digits_bound zero (suc n) (suc a) b le small small' = absurd (omega (arith, small))
digits_bound (suc k) (suc n) (suc a) b le small small' =
    let rest =
      digits_bound k n (suc a / 2) (b / 2) (omega (arith, le)) (omega (arith, small))
        (omega (arith, small')) in
    let low = low_place (suc a) b in ground (arith, rest, low)

digits_differing :
    (k n a b : ℕ)
    → a ≤ n
    → a < double k
    → b < double k
    → bit_count_from k (xor_digits n a b) ≡ differing k a b
unfolding differing bit_count_from
digits_differing k zero a b le small small' =
    let none_left : 0 ≡ a = omega (arith, le) in
    subst (λ x. bit_count_from k b ≡ differing k x b) none_left (differing_zero k b small')
digits_differing k (suc n) zero b le small small' = differing_zero k b small'
digits_differing zero (suc n) (suc a) b le small small' = refl
digits_differing (suc k) (suc n) (suc a) b le small small' =
    let high = xor_digits n (suc a / 2) (b / 2) in
    let rest =
      digits_differing k n (suc a / 2) (b / 2) (omega (arith, le)) (omega (arith, small))
        (omega (arith, small')) in
    let low = low_place (suc a) b in
    let bit = differ (suc a % 2) (b % 2) in
    let tail : bit_count_from k ((high * 2 + bit) / 2) ≡ differing k (suc a / 2) (b / 2) =
      subst (λ x. bit_count_from k x ≡ differing k (suc a / 2) (b / 2)) (ground (arith, low))
        rest in
    let gone = bit_count_zero k in ground (arith, tail, low, gone)

-- The distance of two hashes of 64 bits is the number of binary places at which they differ.
pub hamming_lem :
    (lib : HashLib) (left right : Text) (a b : ℕ)
    → lib.read_hex left ≡ some a
    → lib.read_hex right ≡ some b
    → a < 2 ^ 64
    → b < 2 ^ 64
    → hamming lib left right ≡ differing 64 a b
unfolding hamming
hamming_lem lib left right a b l r small small' =
    let n = xor_digits a a b in
    let bound : n < double 64 = digits_bound 64 a a b (omega arith) small small' in
    let same : bit_xor a b ≡ n = λ i. bit_xor-bitwise a b i in
    rw (l, r, same) ((fuel_enough n bound ∙ digits_differing 64 a a b (omega arith) small small'))
