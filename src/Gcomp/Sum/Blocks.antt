-- ===== src/Gcomp/Sum/Blocks.antt =====
-- VSUM of src/components/gcomp/ffop_gcomp_operator.c, block by block, against one SUM.
use fflib.Base.{
  ℕ, zero, suc, ◌+◌, ◌-◌, ◌*◌, ◌≤◌, ◌<◌, ◌≡◌, refl, ap, ◌∙◌, some, ltb, update, arith, inl, inr,
  Bool-cases,
}
use native.Mathlib.Nat.{add-mul, add-zero}
use fflib.Gcomp.Sum.{block, sum, sum_from, vsum_loop, vsum}

shift : (a off i u : ℕ) → (a + off * u) + i * u ≡ a + (off + i) * u
shift a off i u = omega (arith, add-mul off i u)

module _ {V : Type 0} (add : V → V → V) (u a b c : ℕ) where
  sum-shift :
      (off i k : ℕ) (m : ℕ → V)
      → sum add u (a + off * u) (b + off * u) (c + off * u) i k m ≡ sum add u a b c (off + i) k m
  unfolding sum
  sum-shift off i zero m = refl
  sum-shift off i (suc k) m =
      let m1 = update m (c + (off + i) * u) (add (m (a + (off + i) * u)) (m (b + (off + i) * u))) in
      let e : off + (i + 1) ≡ off + i + 1 = omega arith in
      rw (shift a off i u, shift b off i u, shift c off i u)
        (sum-shift off (i + 1) k m1 ∙ ap (λ j. sum add u a b c j k m1) e)

  sum-append :
      (i k n : ℕ) (m : ℕ → V)
      → sum add u a b c (i + k) n (sum add u a b c i k m) ≡ sum add u a b c i (k + n) m
  unfolding sum
  sum-append i zero n m =
      let e : n ≡ 0 + n = omega arith in
      ap (λ j. sum add u a b c j n m) (add-zero i) ∙ ap (λ j. sum add u a b c i j m) e
  sum-append i (suc k) n m =
      let m1 = update m (c + i * u) (add (m (a + i * u)) (m (b + i * u))) in
      let e : i + suc k ≡ i + 1 + k = omega arith in
      let f : suc (k + n) ≡ suc k + n = omega arith in
      ap (λ j. sum add u a b c j n (sum add u a b c (i + 1) k m1)) e
      ∙ sum-append (i + 1) k n m1
      ∙ ap (λ j. sum add u a b c i j m) f

  -- With fuel above the elements left, the blocks add up to one SUM over those elements.
  vsum_loop-sum :
      (fuel to_reduce size : ℕ) (m : ℕ → V)
      → to_reduce < fuel
      → to_reduce ≤ size
      → vsum_loop add u fuel to_reduce size a b c m
        ≡ some (sum add u a b c (size - to_reduce) to_reduce m)
  unfolding vsum_loop
  vsum_loop-sum zero n size m lt le = absurd (omega arith)
  vsum_loop-sum (suc fuel) n size m lt le = elim (Bool-cases (ltb n block)) [
    | inl few ↦ rw few (
        ap some
          (sum-shift (size - n) 0 n m ∙ ap (λ j. sum add u a b c j n m) (add-zero (size - n))))
    | inr many ↦
        let ge : block ≤ n = ground (arith, many) in
        let ih =
          vsum_loop-sum fuel (n - block) size (sum_from add u (size - n) a b c block m)
            (omega arith) (omega arith) in
        rw (many, ih, sum-shift (size - n) 0 block m, add-zero (size - n))
          (ap some (
            ap (λ j. sum add u a b c j (n - block) (sum add u a b c (size - n) block m))
              (e n size ge le)
            ∙ sum-append (size - n) block (n - block) m
            ∙ ap (λ j. sum add u a b c (size - n) j m) (omega arith)))
  ]
    where
      e : (n size : ℕ) → block ≤ n → n ≤ size → size - (n - block) ≡ size - n + block
      e n size ge le = omega arith

  -- VSUM, which works in blocks of 1024 elements, leaves the memory as one plain loop over all
  -- elements does, also where the arrays overlap, and fuel above the number of elements is enough.
  pub vsum-sum :
      (fuel size : ℕ) (m : ℕ → V)
      → size < fuel
      → vsum add u fuel size a b c m ≡ some (sum add u a b c 0 size m)
  vsum-sum fuel size m lt =
      vsum_loop-sum fuel size size m lt (omega arith)
      ∙ ap (λ j. some (sum add u a b c j size m)) (omega arith)
