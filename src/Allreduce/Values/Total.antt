-- ===== src/Allreduce/Values/Total.antt =====
-- What the ranks end with, in src/colls/ffallreduce.c: the combination of all values when their
-- number is a power of two, and less on some ranks when it is not.
use fflib.Base.{
  ℕ, zero, suc, ◌+◌, ◌-◌, ◌*◌, ◌/◌, ◌%◌, ◌^◌, ◌≤◌, ◌<◌, ◌≡◌, refl, sym, ap, ap₂, ◌∙◌, true, false,
  range, arith, ltb, ◌==◌, Bool-cases, inl, inr,
}
use fflib.Base.Bits.{pow-lt, bit_xor-pow-lt, bit_xor-pow-add}
use fflib.Allreduce.{partner}
use fflib.Allreduce.Values.{Reduce, combine, round, run_rounds}
use fflib.Allreduce.Values.Groups.{
  group, group-half, group_zero, group-partner, total, total-combine,
}
use native.Mathlib.Nat.{pow-suc}

module _ {V : Type 0} (r : Reduce V) (x : ℕ → V) (csize j : ℕ) where
  -- After `i` rounds each of the first `2 ^ j` ranks has what its group has in common.
  abbrev Holds : ℕ → (ℕ → V) → Type 0
  Holds i s = (a : ℕ) → a < 2 ^ j → s a ≡ total r x i (group i a)

  meet :
      (i g h : ℕ)
      → h ≡ g / 2
      → r.op (total r x i (g / 2 * 2 + (1 - g % 2))) (total r x i g) ≡ total r x (suc i) h
  meet i g h e = elim (Bool-cases (g % 2 == 0)) [
    | inl even ↦
        let p : g / 2 * 2 + (1 - g % 2) ≡ h * 2 + 1 = ground (arith, e, even) in
        let q : g ≡ h * 2 = ground (arith, e, even) in
        ap₂ (λ a b. r.op (total r x i a) (total r x i b)) p q
        ∙ r.comm (total r x i (h * 2 + 1)) (total r x i (h * 2))
    | inr odd ↦
        let p : g / 2 * 2 + (1 - g % 2) ≡ h * 2 = ground (arith, e, odd) in
        let q : g ≡ h * 2 + 1 = ground (arith, e, odd) in
        ap₂ (λ a b. r.op (total r x i a) (total r x i b)) p q
  ]

  round-Holds :
      (i : ℕ) (s : ℕ → V)
      → i < j
      → 2 ^ j ≤ csize
      → Holds i s
      → Holds (suc i) (round r.op csize (2 ^ i) s)
  unfolding round
  round-Holds i s lt le holds a small =
      let near = bit_xor-pow-lt i j a lt small in
      let here : ltb (partner a (2 ^ i)) csize ≡ true = ground (arith, near) in
      rw here (
        ap₂ r.op (holds (partner a (2 ^ i)) near ∙ ap (total r x i) (group-partner i a))
          (holds a small)
        ∙ meet i (group i a) (group (suc i) a) (sym (group-half i a)))

  run-Holds :
      (n i k : ℕ) (s : ℕ → V)
      → i + n ≡ j
      → 2 ^ j ≤ csize
      → Holds i s
      → (t : ℕ → V) × (run_rounds r.op csize (n + k) (2 ^ i) s ≡ run_rounds r.op csize k (2 ^ j) t)
        × Holds j t
  unfolding run_rounds
  run-Holds zero i k s e le holds =
      let z : 0 + k ≡ k = omega arith in
      let same : i ≡ j = omega (arith, e) in
      (
        s,
        ap₂ (λ a b. run_rounds r.op csize a (2 ^ b) s) z same,
        (λ a small. holds a small ∙ ap (λ b. total r x b (group b a)) same),
      )
  run-Holds (suc n) i k s e le holds =
      let lt : i < j = omega (arith, e) in
      let more : ltb (2 ^ i) csize ≡ true = ground (arith, le, pow-lt i j lt) in
      let z : suc n + k ≡ suc (n + k) = omega arith in
      let (t, rest, all) =
        run-Holds n (suc i) k (round r.op csize (2 ^ i) s) (omega (arith, e)) le
          (round-Holds i s lt le holds) in
      (t, ap (λ a. run_rounds r.op csize a (2 ^ i) s) z ∙ rw (more, ← pow-suc 2 i) rest, all)

  -- Behind the masks below `2 ^ j`.
  stop : (k : ℕ) (t : ℕ → V) → csize ≤ 2 ^ j → run_rounds r.op csize k (2 ^ j) t ≡ t
  unfolding run_rounds
  stop zero t le = refl
  stop (suc k) t le = let over : ltb (2 ^ j) csize ≡ false = ground (arith, le) in rw over refl

module _ {V : Type 0} (r : Reduce V) (x : ℕ → V) where
  total_all : (j a : ℕ) → a < 2 ^ j → total r x j (group j a) ≡ combine r x (range 0 (2 ^ j))
  total_all j a lt =
      let z : 0 * 2 ^ j ≡ 0 = omega arith in
      ap (total r x j) (group_zero j a lt)
      ∙ total-combine r x j 0
      ∙ ap (λ l. combine r x (range l (2 ^ j))) z

  -- For an associative and commutative operator with a unit and a power of two of ranks, the rounds
  -- of recursive doubling leave on each rank what the operator gives on the values of all ranks,
  -- once each.
  pub run_rounds-combine :
      (j k a : ℕ)
      → a < 2 ^ j
      → run_rounds r.op (2 ^ j) (j + k) 1 x a ≡ combine r x (range 0 (2 ^ j))
  run_rounds-combine j k a lt =
      let (t, run, all) =
        run-Holds r x (2 ^ j) j j 0 k x (omega arith) (omega arith) (λ b small. refl) in
      ap (λ (s : ℕ → V). s a) (run ∙ stop r x (2 ^ j) j k t (omega arith))
      ∙ all a lt
      ∙ total_all j a lt

  -- For a number of ranks above 2^j and at most 2^(j+1), a rank below 2^j whose peer in the last
  -- round does not exist ends with what the operator gives on the values of the first 2^j ranks:
  -- the values of the ranks from 2^j on are missing there.
  pub run_rounds_short :
      (j k csize a : ℕ)
      → 2 ^ j < csize
      → csize ≤ 2 ^ suc j
      → a < 2 ^ j
      → csize ≤ a + 2 ^ j
      → run_rounds r.op csize (j + suc k) 1 x a ≡ combine r x (range 0 (2 ^ j))
  unfolding run_rounds round
  run_rounds_short j k csize a lo hi lt alone =
      let (t, run, all) =
        run-Holds r x csize j j 0 (suc k) x (omega arith) (omega (arith, lo)) (λ b small. refl) in
      let more : ltb (2 ^ j) csize ≡ true = ground (arith, lo) in
      let far : ltb (partner a (2 ^ j)) csize ≡ false =
        ground (arith, alone, bit_xor-pow-add j a lt) in
      ap (λ (s : ℕ → V). s a) run
      ∙ rw (more, ← pow-suc 2 j)
          (ap (λ (s : ℕ → V). s a) (stop r x csize (suc j) k (round r.op csize (2 ^ j) t) hi)
            ∙ rw far (all a lt ∙ total_all j a lt))
