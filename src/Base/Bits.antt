-- ===== src/Base/Bits.antt =====
-- Laws of the exclusive or, from the recursion on the digits that it stands for.
use Prim.Native.Nat.{
  ℕ, zero, suc, ◌+◌, ◌-◌, ◌*◌, ◌/◌, ◌%◌, ◌^◌, ◌≤◌, ◌<◌, bit_xor, digits, bitwise, differ,
  bit_xor-bitwise,
}
use mathlib.Core.Path.{◌≡◌, refl, sym, ap, ◌∙◌}
use mathlib.Core.Logic.{inl, inr}
use native.Mathlib.Nat.{pow-suc}
use native.Mathlib.Omega.{arith}
use fflib.Base.Tests.{leb, Bool-cases}

module _ (z : ℕ → ℕ) (f : ℕ → ℕ → ℕ) where
  -- Fuel that the first number does not need changes nothing.
  one_more : (n a b : ℕ) → a ≤ n → digits z f (suc n) a b ≡ digits z f n a b
  one_more zero zero b h = refl
  one_more zero (suc a) b h = absurd (omega arith)
  one_more (suc n) zero b h = refl
  one_more (suc n) (suc a) b h =
      ap (λ d. d * 2 + f (suc a % 2) (b % 2)) (one_more n (suc a / 2) (b / 2) (omega arith))

  digits-bitwise : (n a b : ℕ) → a ≤ n → digits z f n a b ≡ bitwise z f a b
  digits-bitwise zero zero b h = refl
  digits-bitwise zero (suc a) b h = absurd (omega arith)
  digits-bitwise (suc n) a b h = elim (Bool-cases (leb a n)) [
    | inl less ↦ one_more n a b (ground (arith, less)) ∙ digits-bitwise n a b (ground (arith, less))
    | inr all ↦ ap (λ k. digits z f k a b) {x = suc n} {y = a} (ground (arith, all))
  ]

zero-bit_xor : (b : ℕ) → bit_xor 0 b ≡ b
zero-bit_xor b = bit_xor-bitwise 0 b

-- The lowest digit, and the others.
pub bit_xor_digit : (a b : ℕ) → bit_xor a b ≡ bit_xor (a / 2) (b / 2) * 2 + differ (a % 2) (b % 2)
bit_xor_digit zero b = omega (arith, zero-bit_xor b, zero-bit_xor (b / 2))
bit_xor_digit (suc a) b =
    bit_xor-bitwise (suc a) b
    ∙ ap (λ d. d * 2 + differ (suc a % 2) (b % 2))
        (digits-bitwise (λ y. y) differ a (suc a / 2) (b / 2) (omega arith)
          ∙ sym (bit_xor-bitwise (suc a / 2) (b / 2)))

-- On two digits.
differ-lt : (x y : ℕ) → x < 2 → y < 2 → differ x y < 2
differ-lt zero y p q = q
differ-lt (suc x) zero p q = p
differ-lt (suc x) (suc y) p q = differ-lt x y (omega arith) (omega arith)

differ_twice : (x y : ℕ) → x < 2 → y < 2 → differ (differ x y) y ≡ x
differ_twice zero zero p q = refl
differ_twice zero (suc zero) p q = refl
differ_twice (suc zero) zero p q = refl
differ_twice (suc zero) (suc zero) p q = refl
differ_twice zero (suc (suc y)) p q = absurd (omega arith)
differ_twice (suc zero) (suc (suc y)) p q = absurd (omega arith)
differ_twice (suc (suc x)) y p q = absurd (omega arith)

differ-zero : (x : ℕ) → differ x 0 ≡ x
differ-zero zero = refl
differ-zero (suc x) = refl

halves :
    (a b : ℕ)
    → (bit_xor a b / 2 ≡ bit_xor (a / 2) (b / 2)) × (bit_xor a b % 2 ≡ differ (a % 2) (b % 2))
halves a b =
    let e = bit_xor_digit a b in
    let lt = differ-lt (a % 2) (b % 2) (omega arith) (omega arith) in
    (omega (arith, e, lt), omega (arith, e, lt))

bit_xor_below : (n a b : ℕ) → a ≤ n → b ≤ n → bit_xor (bit_xor a b) b ≡ a
bit_xor_below zero zero zero p q = refl
bit_xor_below zero zero (suc b) p q = absurd (omega arith)
bit_xor_below zero (suc a) b p q = absurd (omega arith)
bit_xor_below (suc n) a b p q =
    let (h, l) = halves a b in
    let ih = bit_xor_below n (a / 2) (b / 2) (omega arith) (omega arith) in
    let d = differ_twice (a % 2) (b % 2) (omega arith) (omega arith) in
    bit_xor_digit (bit_xor a b) b ∙ rw (h, l, ih, d) (omega arith)

pub bit_xor_twice : (a b : ℕ) → bit_xor (bit_xor a b) b ≡ a
bit_xor_twice a b = bit_xor_below (a + b) a b (omega arith) (omega arith)

zero_below : (n a : ℕ) → a ≤ n → bit_xor a 0 ≡ a
zero_below n zero p = refl
zero_below zero (suc a) p = absurd (omega arith)
zero_below (suc n) (suc a) p =
    bit_xor_digit (suc a) 0
    ∙ rw (zero_below n (suc a / 2) (omega arith), differ-zero (suc a % 2)) (omega arith)

pub bit_xor-zero : (a : ℕ) → bit_xor a 0 ≡ a
bit_xor-zero a = zero_below a a (omega arith)

-- A mask that is even leaves the lowest digit.
pub bit_xor-double :
    (a m : ℕ) → (bit_xor a (m * 2) / 2 ≡ bit_xor (a / 2) m) × (bit_xor a (m * 2) % 2 ≡ a % 2)
bit_xor-double a m =
    let (h, l) = halves a (m * 2) in
    let e : m * 2 / 2 ≡ m = omega arith in
    let o : m * 2 % 2 ≡ 0 = omega arith in
    (h ∙ ap (bit_xor (a / 2)) e, l ∙ ap (differ (a % 2)) o ∙ differ-zero (a % 2))

-- The mask 1 moves to the neighbour.
pub bit_xor_one : (a : ℕ) → bit_xor a 1 ≡ (a / 2) * 2 + (1 - a % 2)
bit_xor_one a =
    bit_xor_digit a 1
    ∙ rw (bit_xor-zero (a / 2)) (ap (λ d. a / 2 * 2 + d) (flip (a % 2) (omega arith)))
  where
    flip : (d : ℕ) → d < 2 → differ d 1 ≡ 1 - d
    flip zero lt = refl
    flip (suc zero) lt = refl
    flip (suc (suc d)) lt = absurd (omega arith)

pub bit_xor-pow_suc :
    (a j : ℕ)
    → (bit_xor a (2 ^ suc j) / 2 ≡ bit_xor (a / 2) (2 ^ j)) × (bit_xor a (2 ^ suc j) % 2 ≡ a % 2)
bit_xor-pow_suc a j = rw (pow-suc 2 j) (bit_xor-double a (2 ^ j))

-- A power of two keeps a number below a larger one.
pub bit_xor-pow-lt : (j k a : ℕ) → j < k → a < 2 ^ k → bit_xor a (2 ^ j) < 2 ^ k
bit_xor-pow-lt j zero a lt h = absurd (omega arith)
bit_xor-pow-lt zero (suc k) a lt h = omega (arith, bit_xor_one a, h)
bit_xor-pow-lt (suc j) (suc k) a lt h =
    let (up, low) = bit_xor-pow_suc a j in
    let half : a / 2 < 2 ^ k = omega (arith, h) in
    omega (arith, up, low, bit_xor-pow-lt j k (a / 2) (omega arith) half)

-- Above the number the power is added.
pub bit_xor-pow-add : (j a : ℕ) → a < 2 ^ j → bit_xor a (2 ^ j) ≡ a + 2 ^ j
bit_xor-pow-add zero a h = omega (arith, bit_xor_one a, h)
bit_xor-pow-add (suc j) a h =
    let (up, low) = bit_xor-pow_suc a j in
    let half : a / 2 < 2 ^ j = omega (arith, h) in
    omega (arith, up, low, bit_xor-pow-add j (a / 2) half)

pub pow_pos : (j : ℕ) → 0 < 2 ^ j
pow_pos zero = omega arith
pow_pos (suc j) = omega (arith, pow_pos j)

pub pow-lt : (i j : ℕ) → i < j → 2 ^ i < 2 ^ j
pow-lt i zero h = absurd (omega arith)
pow-lt zero (suc j) h = omega (arith, pow_pos j)
pow-lt (suc i) (suc j) h = omega (arith, pow-lt i j (omega arith))
