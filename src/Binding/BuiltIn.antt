-- ===== src/Binding/BuiltIn.antt =====
-- The computations with the functions of src/components/gcomp/ffop_gcomp_operator.c always end.
use fflib.Base.{
  ℕ, ◌<◌, ◌≡◌, ◌≢◌, refl, sym, if◌then◌else◌, Option, some, List, ℤ, ffsuccess, int_eq, ==-refl,
  ==-ne,
}
use fflib.Buffer.{unitsize, ffbuffer_ptr, ffdatatype_none}
use fflib.Gcomp.Post.{Comp, gcomp_post, apply, min3}
use fflib.Gcomp.Sum.{operator_copy, sum, copy}
use fflib.Gcomp.Sum.Result.{operator_sum-sum}
use fflib.Mpi.Transfer.{Issue}
use fflib.Binding.{Impl, Env}
use fflib.Binding.Local.{IsTotal}

copied :
    {V : Type 0} (u p q size : ℕ) (type : ℤ) (m : ℕ → V)
    → unitsize type ≡ some u
    → (t : ℕ → V) × (operator_copy p q size type m ≡ some (t, ffsuccess))
unfolding operator_copy
copied u p q size type m valid = (
  (if int_eq type ffdatatype_none then m else copy u p q 0 size m),
  rw (operator_copy, valid) refl,
)

module _ {V : Type 0} (isend irecv : List Issue → Issue → Option ℕ) (sum_fun copy_fun fuel u : ℕ)
    (add : ℤ → V → V → V) (user : ℕ → (a b c size : ℕ) → ℤ → (ℕ → V) → Option ((ℕ → V) × ℤ))
    (impl : Impl) (w : Env V) (c : Comp) where
  -- The sum, on three buffers with addresses whose datatype has a size.
  pub sum-IsTotal :
      c.operator.op_fun ≡ some sum_fun
      → c.buffer2 ≢ 0
      → (w.buffers c.buffer1).type ≡ ffbuffer_ptr
      → (w.buffers c.buffer2).type ≡ ffbuffer_ptr
      → (w.buffers c.buffer3).type ≡ ffbuffer_ptr
      → unitsize (w.buffers c.buffer1).datatype ≡ some u
      → 0 < u
      → min3 (w.buffers c.buffer1).count (w.buffers c.buffer2).count (w.buffers c.buffer3).count
        < fuel
      → IsTotal isend irecv (apply sum_fun copy_fun fuel add user) impl w c
  unfolding gcomp_post
  sum-IsTotal f two t1 t2 t3 valid pos lt m =
      let size =
        min3 (w.buffers c.buffer1).count (w.buffers c.buffer2).count (w.buffers c.buffer3).count in
      let done =
        operator_sum-sum add fuel (w.buffers c.buffer1).word (w.buffers c.buffer2).word
          (w.buffers c.buffer3).word size u (w.buffers c.buffer1).datatype m valid pos lt in
      (
        sum (add (w.buffers c.buffer1).datatype) u (w.buffers c.buffer1).word
            (w.buffers c.buffer2).word (w.buffers c.buffer3).word 0 size m,
        rw (t1, t2, t3, ==-ne c.buffer2 0 two, f, ==-refl sum_fun, done) refl,
      )

  -- The copy from the first buffer to the third.
  pub copy-IsTotal :
      c.operator.op_fun ≡ some copy_fun
      → sum_fun ≢ copy_fun
      → c.buffer2 ≡ 0
      → (w.buffers c.buffer1).type ≡ ffbuffer_ptr
      → (w.buffers c.buffer3).type ≡ ffbuffer_ptr
      → unitsize (w.buffers c.buffer1).datatype ≡ some u
      → IsTotal isend irecv (apply sum_fun copy_fun fuel add user) impl w c
  unfolding gcomp_post
  copy-IsTotal f ne two t1 t3 valid m =
      let size =
        min3 (w.buffers c.buffer1).count (w.buffers c.buffer1).count (w.buffers c.buffer3).count in
      let (t, done) =
        copied u (w.buffers c.buffer1).word (w.buffers c.buffer3).word size
          (w.buffers c.buffer1).datatype m valid in
      (
        t,
        rw (t1, t3, two, f, ==-ne copy_fun sum_fun (λ e. ne (sym e)), ==-refl copy_fun, done) refl,
      )
