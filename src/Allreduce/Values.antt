-- ===== src/Allreduce/Values.antt =====
-- The values in the receive buffers while all ranks run the schedules of src/colls/ffallreduce.c.
-- In a round each rank with a peer sends what its buffer holds, and its computation stores
-- `operator(received, own)` there.
pub mod Groups
pub mod Total
use fflib.Base.{ℕ, zero, suc, ◌+◌, ◌*◌, ltb, if◌then◌else◌, List, [], ◌∷◌, ◌≡◌}
use fflib.Allreduce.{partner}

module _ {V : Type 0} (op : V → V → V) (csize : ℕ) where
  -- The round of `mask`, on the rank `a`
  unfoldable pub round : (mask : ℕ) → (ℕ → V) → ℕ → V
  round mask s a = if ltb (partner a mask) csize then op (s (partner a mask)) (s a) else s a

  -- The rounds from `mask` on, `k` of them at most.
  unfoldable pub run_rounds : (k mask : ℕ) → (ℕ → V) → ℕ → V
  unfolding round
  run_rounds zero mask s = s
  run_rounds (suc k) mask s =
      let rest = run_rounds k (mask * 2) (round mask s) in if ltb mask csize then rest else s

-- A commutative monoid: what an operator of a reduction is, up to rounding.
pub record Reduce (V : Type 0) : Type 0 where
  pub op : V → V → V
  pub unit : V
  pub comm : (x y : V) → op x y ≡ op y x
  pub assoc : (x y z : V) → op (op x y) z ≡ op x (op y z)
  pub left_unit : (x : V) → op unit x ≡ x

module _ {V : Type 0} (r : Reduce V) where
  -- The values of some ranks combined.
  abbrev pub combine : (ℕ → V) → List ℕ → V
  combine x [] = r.unit
  combine x (a ∷ rest) = r.op (x a) (combine x rest)
