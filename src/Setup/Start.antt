-- ===== src/Setup/Start.antt =====
-- What ffinit of src/ff.c leaves behind.
use fflib.Base.{ℕ, suc, ◌<◌, ◌≡◌, refl, ◌∙◌, some, [], ffsuccess, fferror, false, true, ◌||◌}
use fflib.Arman.{Entry}
use fflib.Storage.{is_freed, Block, max_pools}
use fflib.Gcomp.Operator.{built_in, ffsum, ffidentity}
use fflib.Gcomp.Operator.Custom.{IsCustom}
use fflib.Mpi.Progresser.Slots.{IsTable}
use fflib.Progress.{max_progressers}
use fflib.Binding.{ffmpi_finalize}
use fflib.Binding.Local.{IsBound}
use fflib.Setup.{Host, Library, sum_function, copy_function, ffinit}
use fflib.Setup.Pools.{Pooled, init-Pooled}
use fflib.Setup.Parts.{
  OnlyMpi, register-OnlyMpi, internal-IsBound, buffer_lem, op_lem, schedule_lem, ffinit_lem,
  impl_init, impl_finalizer, with_buffers, with_ops, with_schedules, bound, mine,
}
use fflib.Setup.Tables.{thread_lem, mpi_lem, mpi_single}

-- The memory is there, and the thread can be created.
pub record Serves (host : Host) : Type 0 where
  pub pool_memory : ℕ → Entry
  pub pool_given : host.pool_entries ≡ some pool_memory
  pub operator_memory : ℕ → Entry
  pub operator_given : host.operator_entries ≡ some operator_memory
  pub request_memory : ℕ → Entry
  pub request_given : host.request_entries ≡ some request_memory
  pub buffer_memory : ℕ → Block
  pub buffer_given : host.buffer_blocks ≡ some buffer_memory
  pub op_memory : ℕ → Block
  pub op_given : host.op_blocks ≡ some op_memory
  pub schedule_memory : ℕ → Block
  pub schedule_given : host.schedule_blocks ≡ some schedule_memory
  pub created : host.created ≡ true

-- No thread has run yet, and no pool was destroyed.
pub record IsUnused (l : Library) : Type 0 where
  pub pools : (i : ℕ) → is_freed (l.storage.pools i).pointer ≡ false
  pub waits : l.progresser_ready ≡ false

-- Each part is as its users expect it, with nothing in use.
pub record Started (l : Library) : Type 0 where
  pub bound : IsBound l.impl
  pub finalizer : l.impl.finalize ≡ some ffmpi_finalize
  pub pooled : Pooled l.storage
  pub buff_pool : l.buff_pool ≡ 0
  pub op_pool : l.op_pool ≡ 1
  pub schedule_pool : l.schedule_pool ≡ 2
  pub requests : (who : ℕ → ℕ) → IsTable who [] l.table
  pub customs : (fun : ℕ → ℕ) → IsCustom fun [] l.operators
  pub sum : l.operators.operators ffsum ≡ built_in ffsum sum_function
  pub identity : l.operators.operators ffidentity ≡ built_in ffidentity copy_function
  pub running : l.terminate ≡ false
  pub ready : l.progresser_ready ≡ true

module _ (host : Host) where
  -- Before any thread has run, when no pool was destroyed, memory is given, the thread can be
  -- created, MPI is initialised or gives MPI_THREAD_MULTIPLE, and fewer than 16 progressers are
  -- registered, all of them that of MPI: ffinit returns FFSUCCESS with a post function for each
  -- type of operation, three pools of 1024 free blocks at the indices 0, 1 and 2, an empty table of
  -- requests, the two built-in operators and no custom one, the thread in its loop, and one more
  -- registration of the progresser.
  pub ffinit-Started :
      (l : Library)
      → Serves host
      → IsUnused l
      → (host.initialized || host.thread_multiple) ≡ true
      → l.storage.next_free_pool < max_pools
      → OnlyMpi l.progressers
      → l.progressers.progressers_count < max_progressers
      → (t : Library) × (ffinit host l ≡ some (t, ffsuccess))
        × Started t
        × OnlyMpi t.progressers
        × (t.progressers.progressers_count ≡ suc l.progressers.progressers_count)
  ffinit-Started l v unused threads open_slots only room =
      let (s0, s1, s2, s3, e0, e1, e2, e3, pooled) =
        init-Pooled host v.pool_memory v.buffer_memory v.op_memory v.schedule_memory v.pool_given
          v.buffer_given v.op_given v.schedule_given l.storage open_slots unused.pools in
      let a = with_buffers (bound l s0) s1 in
      let b = with_ops a s2 in
      let c = with_schedules b s3 in
      let (mine, calls, operators, started, customs, sum, identity) =
        mpi_lem host v.operator_memory v.operator_given threads c in
      let d : Library = record c { operators = operators; init_by_me = mine; mpi_calls = calls } in
      let (only', count) = register-OnlyMpi l.impl l.progressers only room in
      let (table, ran, requests) =
        thread_lem host v.request_memory v.request_given l.progressers.progressers_count
          (record d { terminate = false }) count unused.waits only' in
      (
        record d { terminate = false; table = table; progresser_ready = true },
        ffinit_lem host l s0 a b c d _ ffsuccess e0 (buffer_lem host (bound l s0) s1 e1)
            (op_lem host a s2 e2) (schedule_lem host b s3 e3) (impl_init host l s0 c refl ∙ started)
            ran v.created,
        record {
          bound = internal-IsBound l.impl l.progressers;
          finalizer = impl_finalizer host l;
          pooled = pooled;
          buff_pool = refl;
          op_pool = refl;
          schedule_pool = refl;
          requests = requests;
          customs = customs;
          sum = sum;
          identity = identity;
          running = refl;
          ready = refl;
        },
        only',
        count,
      )

  -- Before any thread has run, when no pool was destroyed, memory is given, the thread can be
  -- created, and fewer than 16 progressers are registered, all of them that of MPI, but MPI is not
  -- initialised and does not give MPI_THREAD_MULTIPLE: ffinit returns FFSUCCESS although ffmpi_init
  -- has failed, and leaves the tables of operators as they were.
  pub ffinit_single :
      (l : Library)
      → Serves host
      → IsUnused l
      → host.initialized ≡ false
      → host.thread_multiple ≡ false
      → l.storage.next_free_pool < max_pools
      → OnlyMpi l.progressers
      → l.progressers.progressers_count < max_progressers
      → (t : Library) × (ffinit host l ≡ some (t, ffsuccess)) × (t.operators ≡ l.operators)
  ffinit_single l v unused fresh single open_slots only room =
      let (s0, s1, s2, s3, e0, e1, e2, e3, pooled) =
        init-Pooled host v.pool_memory v.buffer_memory v.op_memory v.schedule_memory v.pool_given
          v.buffer_given v.op_given v.schedule_given l.storage open_slots unused.pools in
      let a = with_buffers (bound l s0) s1 in
      let b = with_ops a s2 in
      let c = with_schedules b s3 in
      let (only', count) = register-OnlyMpi l.impl l.progressers only room in
      let (table, ran, requests) =
        thread_lem host v.request_memory v.request_given l.progressers.progressers_count
          (record (mine c) { terminate = false }) count unused.waits only' in
      (
        record (mine c) { terminate = false; table = table; progresser_ready = true },
        ffinit_lem host l s0 a b c (mine c) _ fferror e0 (buffer_lem host (bound l s0) s1 e1)
            (op_lem host a s2 e2) (schedule_lem host b s3 e3)
            (impl_init host l s0 c refl ∙ mpi_single host c fresh single) ran v.created,
        refl,
      )
