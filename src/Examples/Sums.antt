-- ===== src/Examples/Sums.antt =====
-- src/components/gcomp: a buffer of four 32-bit integers is added into another one.
use fflib.Base.{
  ℕ, ◌+◌, ◌*◌, ◌%◌, ◌<◌, ◌≡◌, ◌≢◌, refl, Option, none, some, arith, ℤ, pos, ffsuccess, ffcompleted,
  true, u32, inl, inr,
}
use fflib.Buffer.{Buffer, ffint32, ffbuffer_ptr}
use fflib.Gcomp.Sum.{operator_sum, vsum, sum}
use fflib.Gcomp.Sum.Blocks.{vsum-sum}
use fflib.Gcomp.Sum.Result.{IsApart, operator_sum-add}
use fflib.Gcomp.Post.{Comp, apply, gcomp_post}
use fflib.Gcomp.Post.Accumulate.{post-add}

abbrev pub add : ℤ → ℕ → ℕ → ℕ
add type x y = (x + y) % u32

abbrev pub values : ℕ → ℕ
values p = p

pub tmp-IsApart : IsApart 4 4 100 200
tmp-IsApart = inr (λ i j hi hj e. omega (arith, hi, hj, e))

-- 2500 elements: two blocks and a rest.
vsum-sum_example :
    vsum (add ffint32) 4 2501 2500 20000 40000 40000 values
    ≡ some (sum (add ffint32) 4 20000 40000 40000 0 2500 values)
vsum-sum_example = vsum-sum (add ffint32) 4 20000 40000 40000 2501 2500 values (omega arith)

operator_sum-add_example :
    (t : ℕ → ℕ) × (operator_sum add 5 100 200 200 4 ffint32 values ≡ some (t, ffsuccess))
    × ((j : ℕ)
        → j < 4
        → t (200 + j * 4) ≡ add ffint32 (values (100 + j * 4)) (values (200 + j * 4)))
    × ((x : ℕ) → ((j : ℕ) → j < 4 → x ≢ 200 + j * 4) → t x ≡ values x)
operator_sum-add_example =
    operator_sum-add add 5 100 200 200 4 4 ffint32 values refl (omega arith) (omega arith)
      tmp-IsApart (inl refl)

abbrev pub buffer_at : ℕ → Buffer
buffer_at h = record {
  type = ffbuffer_ptr;
  selfalloc = true;
  word = h * 100;
  count = 4;
  datatype = ffint32;
  options = 0;
}

abbrev pub comp : Comp
comp = record {
  buffer1 = 1;
  buffer2 = 2;
  buffer3 = 2;
  operator_type = pos 0;
  operator = record { type = 0; commutative = pos 1; idx = 0; op_fun = some 50 };
}

abbrev pub nobody : ℕ → (a b c size : ℕ) → ℤ → (ℕ → ℕ) → Option ((ℕ → ℕ) × ℤ)
nobody f a b c size type m = none

post-add_example :
    (t : ℕ → ℕ) × (gcomp_post (apply 50 51 5 add nobody) buffer_at none comp values
      ≡ some (t, ffcompleted))
    × ((j : ℕ)
        → j < 4
        → t (200 + j * 4) ≡ add ffint32 (values (100 + j * 4)) (values (200 + j * 4)))
    × ((x : ℕ) → ((j : ℕ) → j < 4 → x ≢ 200 + j * 4) → t x ≡ values x)
post-add_example =
    post-add 50 51 5 4 add nobody buffer_at comp values (λ e. omega arith) refl refl refl refl refl
      (omega arith) (omega arith) tmp-IsApart (inl refl)
