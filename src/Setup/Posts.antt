-- ===== src/Setup/Posts.antt =====
-- A computation of src/components/gcomp through the tables that `ffbind` of
-- src/bindings/mpi_binding.c and ffinit of src/ff.c fill.
use fflib.Base.{ℕ, ◌+◌, ◌*◌, ◌<◌, ◌≡◌, ◌≢◌, Option, some, List, ℤ, ffcompleted}
use fflib.Buffer.{unitsize, ffbuffer_ptr}
use fflib.Calls.{comp, type_comp}
use fflib.Gcomp.Sum.Result.{IsApart}
use fflib.Gcomp.Post.{Comp, apply}
use fflib.Gcomp.Post.Accumulate.{b1, b2, b3, size, post-add}
use fflib.Mpi.Transfer.{Issue}
use fflib.Progress.{Progressers}
use fflib.Binding.{Impl, Env, ffbind, impl_post}
use fflib.Binding.Local.{comp_done}
use fflib.Setup.{internal}
use fflib.Setup.Parts.{internal-IsBound}

module _ {V : Type 0} (isend irecv : List Issue → Issue → Option ℕ) (sum_fun copy_fun fuel u : ℕ)
    (add : ℤ → V → V → V) (user : ℕ → (a b c size : ℕ) → ℤ → (ℕ → V) → Option ((ℕ → V) × ℤ))
    (impl : Impl) (registered : Progressers) (p : ℕ) (w : Env V) (c : Comp) where
  abbrev operator : ℕ → (a b c size : ℕ) → ℤ → (ℕ → V) → Option ((ℕ → V) × ℤ)
  operator = apply sum_fun copy_fun fuel add user

  abbrev first : ℕ
  first = (b1 sum_fun copy_fun fuel u add user w.buffers c w.values).word

  abbrev second : ℕ
  second = (b2 sum_fun copy_fun fuel u add user w.buffers c w.values).word

  abbrev third : ℕ
  third = (b3 sum_fun copy_fun fuel u add user w.buffers c w.values).word

  abbrev least : ℕ
  least = size sum_fun copy_fun fuel u add user w.buffers c w.values

  -- Through the tables that ffbind and ffinit fill, posting an operation of the type FFCOMP whose
  -- union holds a computation with the built-in sum on three buffers with addresses, whose datatype
  -- has a size, and whose destination is one of the sources or apart from each of them, returns
  -- FFCOMPLETED, changes nothing of the environment but the memory, and leaves in each element of
  -- the destination below the smallest of the three counts the sum of the old elements of the
  -- sources, and all other elements as they were.
  pub impl_post-add :
      w.payloads p ≡ comp c
      → c.buffer2 ≢ 0
      → (w.buffers c.buffer1).type ≡ ffbuffer_ptr
      → (w.buffers c.buffer2).type ≡ ffbuffer_ptr
      → (w.buffers c.buffer3).type ≡ ffbuffer_ptr
      → c.operator.op_fun ≡ some sum_fun
      → unitsize (w.buffers c.buffer1).datatype ≡ some u
      → 0 < u
      → least < fuel
      → IsApart u least first third
      → IsApart u least second third
      → (t : ℕ → V) × (impl_post isend irecv operator
            (internal (ffbind impl registered).0)
            type_comp
            p
            w
          ≡ (record w { values = t }, ffcompleted))
        × ((j : ℕ)
            → j < least
            → t (third + j * u)
              ≡ add
                  (w.buffers c.buffer1).datatype
                  (w.values (first + j * u))
                  (w.values (second + j * u)))
        × ((x : ℕ) → ((j : ℕ) → j < least → x ≢ third + j * u) → t x ≡ w.values x)
  impl_post-add payload two t1 t2 t3 f valid pos lt apart apart' =
      let (t, done, sums, rest) =
        post-add sum_fun copy_fun fuel u add user w.buffers c w.values two t1 t2 t3 f valid pos lt
          apart apart' in
      (
        t,
        comp_done isend irecv operator (internal (ffbind impl registered).0) w p w c t
            (internal-IsBound impl registered) payload done,
        sums,
        rest,
      )
