-- ===== src/Setup/Parts.antt =====
-- The steps of ffinit of src/ff.c, one by one.
use fflib.Base.{
  ℕ, suc, ◌<◌, ◌≡◌, refl, ap, ◌∙◌, Option, some, ◌∷◌, arith, ℤ, ffsuccess, fferror, false, true,
  ◌>>=◌, if◌then◌else◌, leb,
}
use fflib.Storage
use fflib.Storage.{Storage, pool_create, Block, max_pools}
use fflib.Progress.{Progressers, max_progressers, register}
use fflib.Binding.{Impl, ffbind, ffmpi_finalize, mpi_progresser}
use fflib.Binding.Local.{IsBound}
use fflib.Setup.{
  Host, initial_pool_count, Library, init_thread, internal, mpi_start, call_impl, buffer_init,
  op_init, schedule_init, thread_start, ffinit,
}

-- All that is registered is the progresser of MPI.
abbrev pub OnlyMpi : Progressers → Type 0
OnlyMpi t = (i : ℕ) → i < t.progressers_count → t.progressers i ≡ mpi_progresser

pub internal-IsBound : (impl : Impl) (t : Progressers) → IsBound (internal (ffbind impl t).0)
unfolding internal ffbind
internal-IsBound impl t = record { sends = refl; recvs = refl; comps = refl; nops = refl }

pub register-OnlyMpi :
    (impl : Impl) (t : Progressers)
    → OnlyMpi t
    → t.progressers_count < max_progressers
    → OnlyMpi (ffbind impl t).1 × ((ffbind impl t).1.progressers_count ≡ suc t.progressers_count)
unfolding ffbind register
register-OnlyMpi impl t only lt =
    let room : leb max_progressers t.progressers_count ≡ false = ground arith in
    rw room ((λ i h. ground (arith, only i, h)), omega arith)

abbrev pub with_buffers : Library → Storage → Library
with_buffers l s = record l { buff_pool = 0; storage = s }

abbrev pub with_ops : Library → Storage → Library
with_ops l s = record l { op_pool = 1; storage = s }

abbrev pub with_schedules : Library → Storage → Library
with_schedules l s = record l { schedule_pool = 2; storage = s }

abbrev pub bound : Library → Storage → Library
bound l s = record l {
  impl = internal (ffbind l.impl l.progressers).0;
  progressers = (ffbind l.impl l.progressers).1;
  storage = s;
}

abbrev pub mine : Library → Library
mine l = record l { init_by_me = true; mpi_calls = init_thread ∷ l.mpi_calls }

module _ (host : Host) where
  pub buffer_lem :
      (l : Library) (s : Storage)
      → pool_create host.buffer_size initial_pool_count host.buffer_blocks l.storage ≡ some (0, s)
      → buffer_init host l ≡ some (with_buffers l s, ffsuccess)
  unfolding buffer_init
  buffer_lem l s e =
      ap
        (λ (o : Option (ℕ × Storage)).
          o >>= λ (r : ℕ × Storage). some (record l { buff_pool = r.0; storage = r.1 }, ffsuccess))
        e

  pub op_lem :
      (l : Library) (s : Storage)
      → pool_create host.op_size initial_pool_count host.op_blocks l.storage ≡ some (1, s)
      → op_init host l ≡ some (with_ops l s, ffsuccess)
  unfolding op_init
  op_lem l s e =
      ap
        (λ (o : Option (ℕ × Storage)).
          o >>= λ (r : ℕ × Storage). some (record l { op_pool = r.0; storage = r.1 }, ffsuccess))
        e

  pub schedule_lem :
      (l : Library) (s : Storage)
      → pool_create host.schedule_size initial_pool_count host.schedule_blocks l.storage
        ≡ some (2, s)
      → schedule_init host l ≡ some (with_schedules l s, ffsuccess)
  unfolding schedule_init
  schedule_lem l s e =
      ap
        (λ (o : Option (ℕ × Storage)). o >>= λ (r : ℕ × Storage).
          some (record l { schedule_pool = r.0; storage = r.1 }, ffsuccess))
        e

  pub ffinit_lem :
      (l : Library) (s : Storage) (a b c d e : Library) (code : ℤ)
      → Storage.init host.pool_entries l.storage ≡ some (s, ffsuccess)
      → buffer_init host (bound l s) ≡ some (a, ffsuccess)
      → op_init host a ≡ some (b, ffsuccess)
      → schedule_init host b ≡ some (c, ffsuccess)
      → call_impl host c.impl.init c ≡ some (d, code)
      → thread_start host (record d { terminate = false }) ≡ some (e, ffsuccess)
      → host.created ≡ true
      → ffinit host l ≡ some (e, ffsuccess)
  unfolding ffinit
  ffinit_lem l s a b c d e code p0 p1 p2 p3 p4 p5 p6 =
      rw (p0, p1, p2, p3, p4)
        (ap
            (λ k.
              if k
              then thread_start host (record d { terminate = false })
              else some (record d { terminate = false }, fferror))
            p6
          ∙ p5)

  pub impl_init :
      (l : Library)
      → (s : Storage) → (m : Library) → m.impl ≡ (bound l s).impl
      → call_impl host m.impl.init m ≡ mpi_start host m
  unfolding call_impl internal ffbind
  impl_init l s m e = ap (λ (i : Impl). call_impl host i.init m) e

  pub impl_finalizer :
      (l : Library) → (internal (ffbind l.impl l.progressers).0).finalize ≡ some ffmpi_finalize
  unfolding internal ffbind
  impl_finalizer l = refl
