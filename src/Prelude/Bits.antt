-- ===== src/Prelude/Bits.antt =====
-- The bits of a word, and the bitwise operations of C with a mask of one bit or with its complement.
use Prim.Native.Nat.{
  ℕ, zero, suc, ◌+◌, ◌-◌, ◌*◌, ◌/◌, ◌%◌, ◌^◌, ◌≤◌, ◌<◌, max, min, digits, bit_and, bit_or,
  bit_and-bitwise, bit_or-bitwise,
}
use pmu_roboflex.Prelude.Tests.{◌==◌, Bool-cases}
use mathlib.Core.Bool.{Bool, true, false, not, ◌||◌, ◌&&◌}
use mathlib.Core.Path.{◌≡◌, refl, ap, sym, ◌∙◌}
use mathlib.Core.Logic.{inl, inr}
use native.Mathlib.Omega.{arith}
use native.Mathlib.Nat.{pow-suc, one-le-pow}

-- Bit i of a word.
abbrev pub bit : ℕ → ℕ → Bool
bit w zero = w % 2 == 1
bit w (suc i) = bit (w / 2) i

pub bit-zero : (i : ℕ) → bit 0 i ≡ false
bit-zero zero = refl
bit-zero (suc i) = bit-zero i

-- An operation that works digit by digit works bit by bit.
module _ (z : ℕ → ℕ) (f : ℕ → ℕ → ℕ) (op : Bool → Bool → Bool)
    (f_small : (a b : ℕ) → f (a % 2) (b % 2) < 2)
    (f_op : (a b : ℕ) → (f (a % 2) (b % 2) == 1) ≡ op (a % 2 == 1) (b % 2 == 1))
    (z_op : (b i : ℕ) → bit (z b) i ≡ op false (bit b i)) where
  halves : (x a b : ℕ) → (x * 2 + f (a % 2) (b % 2)) / 2 ≡ x
  halves x a b = omega (arith, f_small a b)

  parity : (x a b : ℕ) → (x * 2 + f (a % 2) (b % 2)) % 2 ≡ f (a % 2) (b % 2)
  parity x a b = omega (arith, f_small a b)

  bit-digits : (n a b i : ℕ) → a ≤ n → bit (digits z f n a b) i ≡ op (bit a i) (bit b i)
  bit-digits zero zero b i h = rw (bit-zero, z_op) refl
  bit-digits zero (suc a) b i h = absurd (omega arith)
  bit-digits (suc n) zero b i h = rw (bit-zero, z_op) refl
  bit-digits (suc n) (suc a) b zero h = rw (parity, f_op) refl
  bit-digits (suc n) (suc a) b (suc i) h =
      rw halves (bit-digits n (suc a / 2) (b / 2) i (omega arith))

pub bit-or : (a b i : ℕ) → bit (bit_or a b) i ≡ (bit a i || bit b i)
bit-or a b i = rw bit_or-bitwise (
    bit-digits (λ b. b) max ◌||◌ (λ a b. ground arith) (λ a b. ground arith) (λ b i. refl) a a b i
      (omega arith))

pub bit-and : (a b i : ℕ) → bit (bit_and a b) i ≡ (bit a i && bit b i)
bit-and a b i = rw bit_and-bitwise (
    bit-digits (λ b. 0) min ◌&&◌ (λ a b. ground arith) (λ a b. ground arith) (λ b i. bit-zero i) a a
      b i (omega arith))

-- The bits of `1 << k`.
pub bit-one_hot : (k i : ℕ) → bit (2 ^ k) i ≡ (k == i)
bit-one_hot zero zero = refl
bit-one_hot zero (suc i) = rw bit-zero (ground arith)
bit-one_hot (suc k) zero = ground (arith, pow-suc 2 k)
bit-one_hot (suc k) (suc i) =
    let half : 2 ^ suc k / 2 ≡ 2 ^ k = omega (arith, pow-suc 2 k) in
    rw (half, bit-one_hot k i) (ground arith)

-- `~(1 << k)` in a word of n bits.
abbrev pub complement : ℕ → ℕ → ℕ
complement n w = 2 ^ n - 1 - w

bit-ones : (n i : ℕ) → i < n → bit (2 ^ n - 1) i ≡ true
bit-ones zero i h = absurd (omega arith)
bit-ones (suc n) zero h = ground (arith, pow-suc 2 n, one-le-pow n 2)
bit-ones (suc n) (suc i) h =
    let half : (2 ^ suc n - 1) / 2 ≡ 2 ^ n - 1 = omega (arith, pow-suc 2 n) in
    rw half (bit-ones n i (omega arith))

pow-lt : (k n : ℕ) → k < n → 2 ^ k < 2 ^ n
pow-lt k zero h = absurd (omega arith)
pow-lt zero (suc n) h = omega (arith, pow-suc 2 n, one-le-pow n 2)
pow-lt (suc k) (suc n) h = omega (arith, pow-suc 2 n, pow-suc 2 k, pow-lt k n (omega arith))

pub bit-complement_one_hot :
    (n k i : ℕ) → k < n → i < n → bit (complement n (2 ^ k)) i ≡ not (k == i)
bit-complement_one_hot zero k i h g = absurd (omega arith)
bit-complement_one_hot (suc n) zero zero h g = ground (arith, pow-suc 2 n, one-le-pow n 2)
bit-complement_one_hot (suc n) zero (suc i) h g =
    let half : complement (suc n) 1 / 2 ≡ 2 ^ n - 1 = omega (arith, pow-suc 2 n) in
    rw (half, bit-ones n i (omega arith)) (ground arith)
bit-complement_one_hot (suc n) (suc k) zero h g =
    ground (arith, pow-suc 2 n, pow-suc 2 k, pow-lt k n (omega arith))
bit-complement_one_hot (suc n) (suc k) (suc i) h g =
    let half : complement (suc n) (2 ^ suc k) / 2 ≡ complement n (2 ^ k) =
      omega (arith, pow-suc 2 n, pow-suc 2 k) in
    rw (half, bit-complement_one_hot n k i (omega arith) (omega arith)) (ground arith)

zero_of_bits : (n w : ℕ) → w ≤ n → ((i : ℕ) → bit w i ≡ false) → w ≡ 0
zero_of_bits n zero h all = refl
zero_of_bits zero (suc w) h all = absurd (omega arith)
zero_of_bits (suc n) (suc w) h all =
    let even : (suc w % 2 == 1) ≡ false = all 0 in
    let half : suc w / 2 ≡ 0 = zero_of_bits n (suc w / 2) (omega arith) (λ i. all (suc i)) in
    ground arith

other_bits : (w k i : ℕ) → bit w k ≡ false → (bit w i && (k == i)) ≡ false
other_bits w k i off = elim (Bool-cases (k == i)) [
  | inl e ↦ let same : k ≡ i = ground arith in rw (← same, off) refl
  | inr e ↦ rw e (ground arith)
]

-- `(w & (1 << k)) != 0` tests bit k.
pub bit_and-one_hot : (w k : ℕ) → (bit_and w (2 ^ k) == 0) ≡ not (bit w k)
bit_and-one_hot w k = elim (Bool-cases (bit w k)) [
  | inl on ↦
      let here : bit (bit_and w (2 ^ k)) k ≡ true = rw (bit-and, on, bit-one_hot) (ground arith) in
      elim (Bool-cases (bit_and w (2 ^ k) == 0)) [
        | inl e ↦
            let z : bit_and w (2 ^ k) ≡ 0 = ground arith in
            absurd
              (let bad : true ≡ false = sym here ∙ ap (λ (v : ℕ). bit v k) z ∙ bit-zero k in cc)
        | inr e ↦ rw (e, on) refl
      ]
  | inr off ↦
      let nil : bit_and w (2 ^ k) ≡ 0 =
        zero_of_bits (bit_and w (2 ^ k)) (bit_and w (2 ^ k)) (omega arith)
          (λ i. bit-and w (2 ^ k) i ∙ rw bit-one_hot (other_bits w k i off)) in
      rw (nil, off) refl
]
