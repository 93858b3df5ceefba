-- ===== src/Gcomp/Sum/Result.antt =====
-- What SUM and `ffop_gcomp_operator_sum` leave in memory, in
-- src/components/gcomp/ffop_gcomp_operator.c.
use fflib.Base.{
  ℕ, zero, suc, ◌+◌, ◌*◌, ◌≤◌, ◌<◌, ◌≡◌, ◌≢◌, ◌⊎◌, refl, ◌∙◌, false, some, update, arith, inl, inr,
  Bool-cases, ◌==◌, ==→eq, ==-ne, ==-refl, ℤ, ffsuccess, int_eq,
}
use fflib.Buffer.{unitsize, ffdatatype_none}
use fflib.Gcomp.Sum.{sum, operator_sum}
use fflib.Gcomp.Sum.Blocks.{vsum-sum}

-- The `n` elements at `p` are those at `c`, or none of them.
abbrev pub IsApart : (u n p c : ℕ) → Type 0
IsApart u n p c = (p ≡ c) ⊎ ((i j : ℕ) → i < n → j < n → p + i * u ≢ c + j * u)

mul_lt : (u i j : ℕ) → 0 < u → i < j → i * u < j * u
mul_lt u i j pos lt = grind arith

apart : (u n p c i j : ℕ) → 0 < u → IsApart u n p c → i < j → j < n → p + j * u ≢ c + i * u
apart u n p c i j pos (inl e) lt le = λ h. omega (arith, h, e, mul_lt u i j pos lt)
apart u n p c i j pos (inr ne) lt le = ne j i le (omega arith)

module _ {V : Type 0} (add : V → V → V) (u n a b c : ℕ) where
  sum_frame :
      (i k : ℕ) (m : ℕ → V) (x : ℕ)
      → i + k ≡ n
      → ((j : ℕ) → i ≤ j → j < n → x ≢ c + j * u)
      → sum add u a b c i k m x ≡ m x
  unfolding sum
  sum_frame i zero m x e out = refl
  sum_frame i (suc k) m x e out =
      sum_frame (i + 1) k (update m (c + i * u) (add (m (a + i * u)) (m (b + i * u)))) x
        (omega arith) (λ j h. out j (omega arith))
      ∙ rw (==-ne x (c + i * u) (out i (omega arith) (omega arith))) refl

  module _ (pos : 0 < u) (pa : IsApart u n a c) (pb : IsApart u n b c) where
    sum_value :
        (i k : ℕ) (m : ℕ → V) (j : ℕ)
        → i + k ≡ n
        → i ≤ j
        → j < n
        → sum add u a b c i k m (c + j * u) ≡ add (m (a + j * u)) (m (b + j * u))
    unfolding sum
    sum_value i zero m j e le lt = absurd (omega arith)
    sum_value i (suc k) m j e le lt =
        let m1 = update m (c + i * u) (add (m (a + i * u)) (m (b + i * u))) in
        elim (Bool-cases (j == i)) [
          | inl hit ↦ rw (==→eq j i hit) (
              sum_frame (i + 1) k m1 (c + i * u) (omega arith)
                (λ q h h' same. omega (arith, same, mul_lt u i q pos (omega arith)))
              ∙ rw (==-refl (c + i * u)) refl)
          | inr miss ↦
              let less : i < j = ground (arith, miss) in
              sum_value (i + 1) k m1 j (omega arith) (omega arith) lt
              ∙ rw
                  (
                    ==-ne (a + j * u) (c + i * u) (apart u n a c i j pos pa less lt),
                    ==-ne (b + j * u) (c + i * u) (apart u n b c i j pos pb less lt),
                  )
                  refl
        ]

-- For a datatype with a size, ffop_gcomp_operator_sum is SUM.
pub operator_sum-sum :
    {V : Type 0} (add : ℤ → V → V → V) (fuel a b c size u : ℕ) (type : ℤ) (m : ℕ → V)
    → unitsize type ≡ some u
    → 0 < u
    → size < fuel
    → operator_sum add fuel a b c size type m ≡ some (sum (add type) u a b c 0 size m, ffsuccess)
unfolding operator_sum
operator_sum-sum add fuel a b c size u type m valid pos lt =
    rw (operator_sum, valid, sized type u valid pos, vsum-sum (add type) u a b c fuel size m lt)
      refl
  where
    sized : (d : ℤ) (u : ℕ) → unitsize d ≡ some u → 0 < u → int_eq d ffdatatype_none ≡ false
    sized d u e pos = ground arith

-- For a datatype with a size, ffop_gcomp_operator_sum succeeds and leaves in each element of the
-- destination the sum of the old elements of the sources, when the destination is each source or
-- apart from it, and changes nothing else.
pub operator_sum-add :
    {V : Type 0} (add : ℤ → V → V → V) (fuel a b c size u : ℕ) (type : ℤ) (m : ℕ → V)
    → unitsize type ≡ some u
    → 0 < u
    → size < fuel
    → IsApart u size a c
    → IsApart u size b c
    → (t : ℕ → V) × (operator_sum add fuel a b c size type m ≡ some (t, ffsuccess))
      × ((j : ℕ) → j < size → t (c + j * u) ≡ add type (m (a + j * u)) (m (b + j * u)))
      × ((x : ℕ) → ((j : ℕ) → j < size → x ≢ c + j * u) → t x ≡ m x)
operator_sum-add add fuel a b c size u type m valid pos lt pa pb = (
  sum (add type) u a b c 0 size m,
  operator_sum-sum add fuel a b c size u type m valid pos lt,
  (λ j less.
      sum_value (add type) u size a b c pos pa pb 0 size m j (omega arith) (omega arith) less),
  (λ x out. sum_frame (add type) u size a b c 0 size m x (omega arith) (λ j h. out j)),
)
