-- ===== src/Setup.antt =====
-- src/ff.c, src/components/mpi/ffmpi.c, the calls of init and finalize of src/ffbuffer.c,
-- src/ffop.c and src/ffschedule.c, and both ends of the thread of src/ffprogress.c.
-- What MPI, malloc, realloc and pthreads answer is a `Host`.
pub mod Pools
pub mod Parts
pub mod Tables
pub mod Start
pub mod Stop
pub mod Again
pub mod Posts
pub mod Ends
use fflib.Base.{
  ℕ, zero, suc, ◌+◌, Bool, true, false, ◌||◌, Option, none, some, List, [], ◌∷◌, ℤ, ffsuccess,
  fferror, int_eq, ◌==◌, leb, update, if◌then◌else◌, ◌>>=◌,
}
use fflib.Arman.{Entry}
use fflib.Storage
use fflib.Storage.{Storage, Block, pool_create, pool_destroy}
use fflib.Gcomp.Operator
use fflib.Gcomp.Operator.{Operators}
use fflib.Mpi.Progresser
use fflib.Mpi.Progresser.{Table}
use fflib.Progress.{Progressers}
use fflib.Calls.{type_send, type_recv, type_comp}
use fflib.Schedule.{type_nop}
use fflib.Binding.{
  Impl, ImplFunction, OpDescriptor, ffbind, mpi_progresser, ffnop_post, ffmpi_init, ffmpi_finalize,
  ffmpi_get_rank, ffmpi_get_size, ffop_gcomp_operator_custom_create,
  ffop_gcomp_operator_custom_delete, ffsend_tostring, ffrecv_tostring, ffnop_tostring,
  ffcomp_tostring, ffsend_finalize, ffrecv_finalize, ffnop_finalize, ffcomp_finalize, OpTostring,
  OpFinalize,
}

-- INITIAL_FFBUFFER_POOL_COUNT, INITIAL_FFOP_POOL_COUNT and INITIAL_FFSCHEDULE_POOL_COUNT
abbrev pub initial_pool_count : ℕ
initial_pool_count = 1024

pub record Host : Type 0 where
  -- MPI_Initialized, and whether MPI_Init_thread gives MPI_THREAD_MULTIPLE
  pub initialized : Bool
  pub thread_multiple : Bool
  pub rank : ℤ
  pub size : ℤ
  -- pthread_create and pthread_join
  pub created : Bool
  pub joined : Bool
  -- how many progressers the new thread has initialised when `ffinit` returns on an old flag
  pub ahead : ℕ
  -- malloc, for the managers of the pools, the operators and the requests
  pub pool_entries : Option (ℕ → Entry)
  pub operator_entries : Option (ℕ → Entry)
  pub request_entries : Option (ℕ → Entry)
  -- realloc, for the three pools, and the sizes of their elements
  pub buffer_blocks : Option (ℕ → Block)
  pub op_blocks : Option (ℕ → Block)
  pub schedule_blocks : Option (ℕ → Block)
  pub buffer_size : ℕ
  pub op_size : ℕ
  pub schedule_size : ℕ

-- What ffmpi.c asks of MPI.
pub data MpiCall : Type 0 where
  init_thread finalized : MpiCall

-- The descriptor `ff` and the static variables.
pub record Library : Type 0 where
  pub impl : Impl
  pub progressers : Progressers
  pub storage : Storage
  pub buff_pool : ℕ
  pub op_pool : ℕ
  pub schedule_pool : ℕ
  pub operators : Operators
  pub table : Table
  pub init_by_me : Bool
  pub terminate : Bool
  pub progresser_ready : Bool
  pub mpi_calls : List MpiCall

-- `ffop_gcomp_operator_sum` and `ffop_gcomp_operator_copy` as numbers.
abbrev pub sum_function : ℕ
sum_function = 0

abbrev pub copy_function : ℕ
copy_function = 1

abbrev pub set_internal : ℕ → OpTostring → OpFinalize → (ℕ → OpDescriptor) → ℕ → OpDescriptor
set_internal ty t f ops = update ops ty (record (ops ty) { tostring = some t; finalize = some f })

-- What `ffinit` writes into the table behind `ffbind`.
unfoldable pub internal : Impl → Impl
internal impl =
    let nop =
      update impl.ops type_nop
        (record (impl.ops type_nop) { init = none; post = some ffnop_post }) in
    record impl {
      ops = set_internal type_comp ffcomp_tostring ffcomp_finalize (
          set_internal type_nop ffnop_tostring ffnop_finalize (
            set_internal type_recv ffrecv_tostring ffrecv_finalize
              (set_internal type_send ffsend_tostring ffsend_finalize nop)));
    }

-- The answer of a call is dropped, and FFSUCCESS returned.
abbrev pub as_success : Library × ℤ → Option (Library × ℤ)
as_success r = some (r.0, ffsuccess)

module _ (host : Host) where
  -- `ffgcomp_init`
  unfoldable pub gcomp_start : Library → Option (Library × ℤ)
  gcomp_start l =
      Operator.init sum_function copy_function host.operator_entries l.operators >>= λ r.
      some (record l { operators = r.0 }, r.1)

  -- `ffmpi_init`, which ignores the answer of `ffgcomp_init`.
  unfoldable pub mpi_start : Library → Option (Library × ℤ)
  mpi_start l =
      let mine = record l { init_by_me = true; mpi_calls = init_thread ∷ l.mpi_calls } in
      let as_found = gcomp_start l >>= as_success in
      let started = gcomp_start mine >>= as_success in
      if host.initialized
      then as_found
      else if host.thread_multiple
      then started
      else some (mine, fferror)

  -- `ffmpi_finalize`
  unfoldable pub mpi_stop : Library → Option (Library × ℤ)
  mpi_stop l =
      some
        ((if l.init_by_me then record l { mpi_calls = finalized ∷ l.mpi_calls } else l), ffsuccess)

  -- The calls of `impl.init` and `impl.finalize`; `none`: NULL, or a function of another type.
  unfoldable pub call_impl : Option ImplFunction → Library → Option (Library × ℤ)
  call_impl none l = none
  call_impl (some ffmpi_init) l = mpi_start l
  call_impl (some ffmpi_finalize) l = mpi_stop l
  call_impl (some ffmpi_get_rank) l = none
  call_impl (some ffmpi_get_size) l = none
  call_impl (some ffop_gcomp_operator_custom_create) l = none
  call_impl (some ffop_gcomp_operator_custom_delete) l = none

  -- `ffbuffer_init`, `ffop_init` and `ffschedule_init`
  unfoldable pub buffer_init : Library → Option (Library × ℤ)
  buffer_init l =
      pool_create host.buffer_size initial_pool_count host.buffer_blocks l.storage >>= λ r.
      some (record l { buff_pool = r.0; storage = r.1 }, ffsuccess)

  unfoldable pub op_init : Library → Option (Library × ℤ)
  op_init l = pool_create host.op_size initial_pool_count host.op_blocks l.storage >>= λ r.
      some (record l { op_pool = r.0; storage = r.1 }, ffsuccess)

  unfoldable pub schedule_init : Library → Option (Library × ℤ)
  schedule_init l =
      pool_create host.schedule_size initial_pool_count host.schedule_blocks l.storage >>= λ r.
      some (record l { schedule_pool = r.0; storage = r.1 }, ffsuccess)

  -- The function `init` of the progresser with a number; none but that of MPI is ever registered.
  unfoldable pub progresser_init : ℕ → Library → Option (Library × ℤ)
  progresser_init n l =
      let mpi = Progresser.init host.request_entries l.table >>= λ r.
      some (record l { table = r.0 }, r.1) in
      if n == mpi_progresser then mpi else none

  -- The first loop of `progress_thread`, from `i` on, with `k` rounds left. `false`: an
  -- initialisation has failed, and the thread is gone.
  unfoldable pub init_progressers : (i k : ℕ) → Library → Option (Library × Bool)
  init_progressers i zero l = some (l, true)
  init_progressers i (suc k) l = progresser_init (l.progressers.progressers i) l >>= λ r.
      if int_eq r.1 ffsuccess then init_progressers (i + 1) k r.0 else some (r.0, false)

  -- `progress_thread` up to its loop, and the wait of `ffinit` for it. No function resets
  -- `_progresser_ready`: if an earlier thread has set it, `ffinit` waits for nothing. `none`:
  -- `ffinit` never returns, as nobody sets it.
  unfoldable pub thread_start : Library → Option (Library × ℤ)
  thread_start l =
      let count = l.progressers.progressers_count in
      let first = if leb host.ahead count then host.ahead else count in
      let early = init_progressers 0 first l >>= λ r. some (r.0, ffsuccess) in
      let awaited = init_progressers 0 count l >>= λ r.
      if r.1 then some (record r.0 { progresser_ready = true }, ffsuccess) else none in
      if l.progresser_ready then early else awaited

  -- `ffinit`. The answers of the functions that it calls are ignored.
  unfoldable pub ffinit : Library → Option (Library × ℤ)
  ffinit l =
      let (impl, progressers) = ffbind l.impl l.progressers in
      Storage.init host.pool_entries l.storage >>= λ s.
      buffer_init (record l { impl = internal impl; progressers = progressers; storage = s.0 })
      >>= λ a. op_init a.0 >>= λ b. schedule_init b.0 >>= λ c. call_impl c.0.impl.init c.0 >>= λ d.
          let l1 = record d.0 { terminate = false } in
          let running = thread_start l1 in if host.created then running else some (l1, fferror)

  -- `ffop_finalize` and `ffbuffer_finalize`
  unfoldable pub op_finalize : Library → Option (Library × ℤ)
  op_finalize l = pool_destroy l.op_pool l.storage >>= λ r. some (record l { storage = r.0 }, r.1)

  unfoldable pub buffer_finalize : Library → Option (Library × ℤ)
  buffer_finalize l =
      pool_destroy l.buff_pool l.storage >>= λ r. some (record l { storage = r.0 }, r.1)

  -- `fffinalize`; `ffstorage_finalize` and the ends of the progressers free memory alone.
  unfoldable pub fffinalize : Library → Option (Library × ℤ)
  fffinalize l =
      let l1 = record l { terminate = true } in
      let ended = call_impl l1.impl.finalize l1 >>= λ a.
      op_finalize a.0 >>= λ b. buffer_finalize b.0 >>= λ c. some (c.0, ffsuccess) in
      if host.joined then ended else some (l1, fferror)

  -- `ffrank` and `ffsize`: the number, and the code.
  abbrev number : Option ImplFunction → Option ℤ
  number none = none
  number (some ffmpi_init) = none
  number (some ffmpi_finalize) = none
  number (some ffmpi_get_rank) = some host.rank
  number (some ffmpi_get_size) = some host.size
  number (some ffop_gcomp_operator_custom_create) = none
  number (some ffop_gcomp_operator_custom_delete) = none

  unfoldable pub ffrank : Library → Option (ℤ × ℤ)
  ffrank l = number l.impl.get_rank >>= λ n. some (n, ffsuccess)

  unfoldable pub ffsize : Library → Option (ℤ × ℤ)
  ffsize l = number l.impl.get_size >>= λ n. some (n, ffsuccess)
