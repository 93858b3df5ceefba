-- ===== src/Op/Sums.antt =====
-- The edges of a graph of operations, counted: into an operation, and from those not yet completed.
use fflib.Base.{
  ℕ, ◌+◌, ◌≤◌, ◌<◌, ◌≡◌, ◌≢◌, refl, true, false, List, [], ◌∷◌, arith, ◌==◌, if◌then◌else◌, has,
  count, update, Distinct,
}

abbrev pub Edges : Type 0
Edges = ℕ → List ℕ

-- How many edges lead from the operations `xs` into `b`.
unfoldable pub degree : Edges → List ℕ → ℕ → ℕ
degree e [] b = 0
degree e (a ∷ xs) b = count b (e a) + degree e xs b

-- How many of them come from an operation whose version is `v`.
unfoldable pub waiting : Edges → (ℕ → ℕ) → ℕ → List ℕ → ℕ → ℕ
waiting e ver v [] b = 0
waiting e ver v (a ∷ xs) b = (if ver a == v then count b (e a) else 0) + waiting e ver v xs b

module _ (e : Edges) where
  pub waiting-le-degree :
      (ver : ℕ → ℕ) (v : ℕ) (xs : List ℕ) (b : ℕ) → waiting e ver v xs b ≤ degree e xs b
  unfolding degree waiting
  waiting-le-degree ver v [] b = omega arith
  waiting-le-degree ver v (a ∷ xs) b = ground (arith, waiting-le-degree ver v xs b)

  -- All still have version `v`.
  pub waiting-degree :
      (ver : ℕ → ℕ) (v : ℕ) (xs : List ℕ) (b : ℕ)
      → ((a : ℕ) → has a xs ≡ true → ver a ≡ v)
      → waiting e ver v xs b ≡ degree e xs b
  unfolding degree waiting
  waiting-degree ver v [] b h = refl
  waiting-degree ver v (a ∷ xs) b h =
      ground (arith, h a, waiting-degree ver v xs b (λ x m. h x (ground arith)))

  -- Nothing is waited for once every operation with an edge into `b` has moved on.
  pub waiting_none :
      (ver : ℕ → ℕ) (v : ℕ) (xs : List ℕ) (b : ℕ)
      → ((a : ℕ) → has a xs ≡ true → 0 < count b (e a) → ver a ≢ v)
      → waiting e ver v xs b ≡ 0
  unfolding waiting
  waiting_none ver v [] b h = refl
  waiting_none ver v (a ∷ xs) b h =
      ground (arith, h a, waiting_none ver v xs b (λ x m. h x (ground arith)))

  -- An operation outside `xs` does not count.
  waiting-update_ne :
      (ver : ℕ → ℕ) (v : ℕ) (xs : List ℕ) (b p w : ℕ)
      → has p xs ≡ false
      → waiting e (update ver p w) v xs b ≡ waiting e ver v xs b
  unfolding waiting
  waiting-update_ne ver v [] b p w h = refl
  waiting-update_ne ver v (a ∷ xs) b p w h = ground (arith, waiting-update_ne ver v xs b p w)

  -- A completion takes the edges of the completed operation away.
  pub waiting-update :
      (ver : ℕ → ℕ) (v : ℕ) (xs : List ℕ) (b p w : ℕ)
      → Distinct xs
      → has p xs ≡ true
      → ver p ≡ v
      → w ≢ v
      → waiting e ver v xs b ≡ count b (e p) + waiting e (update ver p w) v xs b
  unfolding waiting
  waiting-update ver v [] b p w d h q n = cc
  waiting-update ver v (a ∷ xs) b p w d h q n =
      ground (arith, waiting-update ver v xs b p w d.1, waiting-update_ne ver v xs b p w)

  -- Where nothing is waited for, every operation with an edge into `b` has moved on.
  pub waiting_zero :
      (ver : ℕ → ℕ) (v : ℕ) (xs : List ℕ) (b a : ℕ)
      → waiting e ver v xs b ≡ 0
      → has a xs ≡ true
      → 0 < count b (e a)
      → ver a ≢ v
  unfolding waiting
  waiting_zero ver v [] b a z h c = cc
  waiting_zero ver v (x ∷ xs) b a z h c = ground (arith, waiting_zero ver v xs b a)

  pub degree_pos : (xs : List ℕ) (b a : ℕ) → has a xs ≡ true → 0 < count b (e a) → 0 < degree e xs b
  unfolding degree
  degree_pos [] b a h c = cc
  degree_pos (x ∷ xs) b a h c = ground (arith, degree_pos xs b a)
