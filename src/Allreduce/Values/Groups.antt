-- ===== src/Allreduce/Values/Groups.antt =====
-- The groups of ranks that have met after some rounds of src/colls/ffallreduce.c: the numbers that
-- agree above their lowest digits.
use fflib.Base.{
  ℕ, zero, suc, ◌+◌, ◌-◌, ◌*◌, ◌/◌, ◌%◌, ◌^◌, ◌<◌, ◌≡◌, refl, sym, ap, ap₂, range-append, ◌∙◌, List,
  [], ◌∷◌, ◌++◌, range, arith, bit_xor,
}
use fflib.Base.Bits.{bit_xor_one, bit_xor-pow_suc}
use fflib.Allreduce.Values.{Reduce, combine}
use native.Mathlib.Nat.{pow-suc}

-- The group of the rank `a` after `j` rounds.
abbrev pub group : ℕ → ℕ → ℕ
group zero a = a
group (suc j) a = group j (a / 2)

pub group-half : (j a : ℕ) → group j a / 2 ≡ group (suc j) a
group-half zero a = refl
group-half (suc j) a = group-half j (a / 2)

pub group_zero : (j a : ℕ) → a < 2 ^ j → group j a ≡ 0
group_zero zero a h = omega (arith, h)
group_zero (suc j) a h = group_zero j (a / 2) (omega (arith, h))

-- The peer of a round is in the neighbouring group.
pub group-partner :
    (j a : ℕ) → group j (bit_xor a (2 ^ j)) ≡ group j a / 2 * 2 + (1 - group j a % 2)
group-partner zero a = bit_xor_one a
group-partner (suc j) a = ap (group j) (bit_xor-pow_suc a j).0 ∙ group-partner j (a / 2)

module _ {V : Type 0} (r : Reduce V) (x : ℕ → V) where
  -- What a group has in common after `j` rounds.
  abbrev pub total : ℕ → ℕ → V
  total zero q = x q
  total (suc j) q = r.op (total j (q * 2)) (total j (q * 2 + 1))

  combine-append :
      (xs ys : List ℕ) → combine r x (xs ++ ys) ≡ r.op (combine r x xs) (combine r x ys)
  combine-append [] ys = sym (r.left_unit (combine r x ys))
  combine-append (a ∷ xs) ys =
      ap (r.op (x a)) (combine-append xs ys) ∙ sym (r.assoc (x a) (combine r x xs) (combine r x ys))

  one_rank : (a : ℕ) → x a ≡ r.op (x a) r.unit
  one_rank a = sym (r.left_unit (x a)) ∙ r.comm r.unit (x a)

  -- It is the combination of the values of the group.
  pub total-combine : (j q : ℕ) → total j q ≡ combine r x (range (q * 2 ^ j) (2 ^ j))
  total-combine zero q =
      let e : q ≡ q * 1 = omega arith in one_rank q ∙ ap (λ i. r.op (x i) r.unit) e
  total-combine (suc j) q =
      let lo : q * 2 * 2 ^ j ≡ q * 2 ^ suc j = grind (arith, pow-suc 2 j) in
      let hi : (q * 2 + 1) * 2 ^ j ≡ q * 2 ^ suc j + 2 ^ j = grind (arith, pow-suc 2 j) in
      let n : 2 ^ j + 2 ^ j ≡ 2 ^ suc j = omega (arith, pow-suc 2 j) in
      ap₂ r.op (total-combine j (q * 2)) (total-combine j (q * 2 + 1))
      ∙ sym (combine-append (range (q * 2 * 2 ^ j) (2 ^ j)) (range ((q * 2 + 1) * 2 ^ j) (2 ^ j)))
      ∙ ap (combine r x) (
          ap₂ (λ l k. range l (2 ^ j) ++ range k (2 ^ j)) lo hi
          ∙ range-append (q * 2 ^ suc j) (2 ^ j) (2 ^ j)
          ∙ ap (range (q * 2 ^ suc j)) n)
