-- ===== src/Gcomp/Post/Accumulate.antt =====
-- `ffop_gcomp_post` of src/components/gcomp/ffop_gcomp.c with the sum.
use fflib.Base.{
  ℕ, ◌+◌, ◌*◌, ◌<◌, ◌≡◌, ◌≢◌, refl, Option, none, some, ℤ, ffcompleted, ==-refl, ==-ne,
}
use fflib.Buffer.{Buffer, unitsize, ffbuffer_ptr}
use fflib.Gcomp.Sum.Result.{IsApart, operator_sum-add}
use fflib.Gcomp.Post.{Comp, apply, min3, gcomp_post}

module _ {V : Type 0} (sum_fun copy_fun fuel u : ℕ) (add : ℤ → V → V → V)
    (user : ℕ → (a b c size : ℕ) → ℤ → (ℕ → V) → Option ((ℕ → V) × ℤ)) (buffers : ℕ → Buffer)
    (comp : Comp) (m : ℕ → V) where
  abbrev pub b1 : Buffer
  b1 = buffers comp.buffer1

  abbrev pub b2 : Buffer
  b2 = buffers comp.buffer2

  abbrev pub b3 : Buffer
  b3 = buffers comp.buffer3

  abbrev pub size : ℕ
  size = min3 b1.count b2.count b3.count

  -- Posting a computation with the built-in sum on three buffers with addresses, whose datatype has
  -- a size, and whose destination is one of the sources or apart from each of them, returns
  -- FFCOMPLETED; every element of the destination below the smallest of the three counts is then
  -- the sum of the old elements of the sources, and no other element has changed.
  pub post-add :
      comp.buffer2 ≢ 0
      → b1.type ≡ ffbuffer_ptr
      → b2.type ≡ ffbuffer_ptr
      → b3.type ≡ ffbuffer_ptr
      → comp.operator.op_fun ≡ some sum_fun
      → unitsize b1.datatype ≡ some u
      → 0 < u
      → size < fuel
      → IsApart u size b1.word b3.word
      → IsApart u size b2.word b3.word
      → (t : ℕ → V) × (gcomp_post (apply sum_fun copy_fun fuel add user) buffers none comp m
          ≡ some (t, ffcompleted))
        × ((j : ℕ)
            → j < size
            → t (b3.word + j * u) ≡ add b1.datatype (m (b1.word + j * u)) (m (b2.word + j * u)))
        × ((x : ℕ) → ((j : ℕ) → j < size → x ≢ b3.word + j * u) → t x ≡ m x)
  unfolding gcomp_post
  post-add two t1 t2 t3 f valid pos lt p q =
      let (t, done, sums, rest) =
        operator_sum-add add fuel b1.word b2.word b3.word size u b1.datatype m valid pos lt p q in
      (t, rw (t1, t2, t3, ==-ne comp.buffer2 0 two, f, ==-refl sum_fun, done) refl, sums, rest)
