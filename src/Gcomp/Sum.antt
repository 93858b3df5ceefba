-- ===== src/Gcomp/Sum.antt =====
-- The functions of the built-in operators, in src/components/gcomp/ffop_gcomp_operator.c.
-- The memory holds one value of the TYPE at the address of each element; `add` is the `+` of the
-- TYPE, with what it does on overflow.
pub mod Blocks
pub mod Result
use fflib.Base.{
  ℕ, zero, suc, ◌+◌, ◌-◌, ◌*◌, Bool, true, false, Option, none, some, ℤ, ffsuccess, ffinvalid_arg,
  int_eq, ltb, update, if◌then◌else◌, ◌>>=◌,
}
use fflib.Buffer.{unitsize, ffdatatype_none}

abbrev pub block : ℕ
block = 1024

module _ {V : Type 0} (add : V → V → V) (unit : ℕ) where
  -- SUM, from `i` on, with `k` rounds left; `unit` is `sizeof(TYPE)`.
  unfoldable pub sum : (a b c : ℕ) (i k : ℕ) → (ℕ → V) → ℕ → V
  sum a b c i zero m = m
  sum a b c i (suc k) m =
      sum a b c (i + 1) k (update m (c + i * unit) (add (m (a + i * unit)) (m (b + i * unit))))

  -- SUM on the `n` elements from the element `off` on
  abbrev pub sum_from : (off a b c n : ℕ) → (ℕ → V) → ℕ → V
  sum_from off a b c n = sum (a + off * unit) (b + off * unit) (c + off * unit) 0 n

  -- The loop of VSUM, and the SUM behind it. `none`: the fuel is used up.
  unfoldable pub vsum_loop : (fuel to_reduce size : ℕ) (a b c : ℕ) → (ℕ → V) → Option (ℕ → V)
  vsum_loop zero to_reduce size a b c m = none
  vsum_loop (suc fuel) to_reduce size a b c m =
      let rest =
        vsum_loop fuel (to_reduce - block) size a b c (sum_from (size - to_reduce) a b c block m) in
      if ltb to_reduce block then some (sum_from (size - to_reduce) a b c to_reduce m) else rest

  -- VSUM
  abbrev pub vsum : (fuel size : ℕ) (a b c : ℕ) → (ℕ → V) → Option (ℕ → V)
  vsum fuel size a b c m = vsum_loop fuel size size a b c m

-- `memcpy` of `k` elements, from `i` on
unfoldable pub copy : {V : Type 0} (unit a c i k : ℕ) → (ℕ → V) → ℕ → V
copy unit a c i zero m = m
copy unit a c i (suc k) m = copy unit a c (i + 1) k (update m (c + i * unit) (m (a + i * unit)))

module _ {V : Type 0} (add : ℤ → V → V → V) where
  -- `ffop_gcomp_operator_sum`
  unfoldable pub operator_sum : (fuel : ℕ) (a b c size : ℕ) → ℤ → (ℕ → V) → Option ((ℕ → V) × ℤ)
  operator_sum fuel a b c size type m = elim (unitsize type) [
    | none ↦ some (m, ffinvalid_arg)
    | some u ↦
        if int_eq type ffdatatype_none
        then some (m, ffinvalid_arg)
        else (vsum (add type) u fuel size a b c m >>= λ n. some (n, ffsuccess))
  ]

-- `ffop_gcomp_operator_copy`. `none`: the datatype has no size, and `unitsize` is not initialised.
unfoldable pub operator_copy : {V : Type 0} (a c size : ℕ) → ℤ → (ℕ → V) → Option ((ℕ → V) × ℤ)
unfolding copy
operator_copy a c size type m = unitsize type >>= λ u.
    some ((if int_eq type ffdatatype_none then m else copy u a c 0 size m), ffsuccess)
