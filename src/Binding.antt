-- ===== src/Binding.antt =====
-- src/bindings/mpi_binding.c and the tables of src/ffinternal.h: which function a pointer of the
-- library holds, and what a call through the pointer `post` of an operation does.
-- A function is a constructor with its name; `none` is a NULL pointer.
pub mod Local
pub mod BuiltIn
use fflib.Base.{
  ℕ, Bool, true, Option, none, some, List, [], ◌∷◌, ℤ, fferror, ffcompleted, ltb, ◌==◌, update,
  if◌then◌else◌, ◌>>=◌,
}
use fflib.Buffer.{Buffer}
use fflib.Calls.{Payload, send, recv, comp, other, Transfer, type_send, type_recv, type_comp}
use fflib.Gcomp.Post.{Comp, gcomp_post}
use fflib.Mpi.Progresser.{Table}
use fflib.Mpi.Transfer.{Issue, mpi_post}
use fflib.Progress.{Progressers, register}

-- FFMAX_IDX
abbrev pub ffmax_idx : ℕ
ffmax_idx = 4

pub data OpInit : Type 0 where
  ffop_mpi_init ffop_gcomp_init : OpInit

pub data OpPost : Type 0 where
  ffop_mpi_send_post ffop_mpi_recv_post ffop_gcomp_post ffnop_post : OpPost

pub data OpWait : Type 0 where
  ffop_mpi_send_wait ffop_mpi_recv_wait ffop_gcomp_wait : OpWait

pub data OpTest : Type 0 where
  ffop_mpi_send_test ffop_mpi_recv_test ffop_gcomp_test : OpTest

pub data OpTostring : Type 0 where
  ffsend_tostring ffrecv_tostring ffnop_tostring ffcomp_tostring : OpTostring

pub data OpFinalize : Type 0 where
  ffsend_finalize ffrecv_finalize ffnop_finalize ffcomp_finalize : OpFinalize

pub data ImplFunction : Type 0 where
  ffmpi_init ffmpi_finalize ffmpi_get_rank ffmpi_get_size : ImplFunction
  ffop_gcomp_operator_custom_create ffop_gcomp_operator_custom_delete : ImplFunction

-- `ffop_descriptor_t`
pub record OpDescriptor : Type 0 where
  pub init : Option OpInit
  pub post : Option OpPost
  pub tostring : Option OpTostring
  pub finalize : Option OpFinalize
  pub wait : Option OpWait
  pub test : Option OpTest

-- `struct impl` of `ffdescr_t`
pub record Impl : Type 0 where
  pub init : Option ImplFunction
  pub finalize : Option ImplFunction
  pub get_rank : Option ImplFunction
  pub get_size : Option ImplFunction
  pub operator_create : Option ImplFunction
  pub operator_delete : Option ImplFunction
  pub ops : ℕ → OpDescriptor

-- The four assignments of `ffbind` for one type of operation.
abbrev pub bind_op : ℕ → OpInit → OpPost → OpWait → OpTest → (ℕ → OpDescriptor) → ℕ → OpDescriptor
bind_op ty i p w t ops =
    update ops ty (record (ops ty) { init = some i; post = some p; wait = some w; test = some t })

-- The progresser of MPI, as the number that stands for it.
abbrev pub mpi_progresser : ℕ
mpi_progresser = 0

-- `ffbind`, which ignores the answer of `ffprogresser_register`.
unfoldable pub ffbind : Impl → Progressers → Impl × Progressers
unfolding register
ffbind impl t = (
  record {
    init = some ffmpi_init;
    finalize = some ffmpi_finalize;
    get_rank = some ffmpi_get_rank;
    get_size = some ffmpi_get_size;
    operator_create = some ffop_gcomp_operator_custom_create;
    operator_delete = some ffop_gcomp_operator_custom_delete;
    ops = bind_op type_comp ffop_gcomp_init ffop_gcomp_post ffop_gcomp_wait ffop_gcomp_test (
        bind_op type_recv ffop_mpi_init ffop_mpi_recv_post ffop_mpi_recv_wait ffop_mpi_recv_test (
          bind_op type_send ffop_mpi_init ffop_mpi_send_post ffop_mpi_send_wait ffop_mpi_send_test
            impl.ops));
  },
  (register mpi_progresser t).0,
)

-- What the functions of the binding read and change: the unions of the operations, the buffers,
-- the memory, the table of requests, and what MPI was asked for, newest first. With `fault` the
-- behaviour has been undefined, and the rest means nothing.
pub record Env (V : Type 0) : Type 0 where
  pub payloads : ℕ → Payload
  pub buffers : ℕ → Buffer
  pub values : ℕ → V
  pub table : Table
  pub issued : List Issue
  pub fault : Bool

-- The member `send` of a union, and so on; `none`: another one was written.
abbrev pub as_send : Payload → Option Transfer
as_send (send t) = some t
as_send (recv t) = none
as_send (comp c) = none
as_send other = none

abbrev pub as_recv : Payload → Option Transfer
as_recv (send t) = none
as_recv (recv t) = some t
as_recv (comp c) = none
as_recv other = none

abbrev pub as_comp : Payload → Option Comp
as_comp (send t) = none
as_comp (recv t) = none
as_comp (comp c) = some c
as_comp other = none

-- MPI_Isend and MPI_Irecv answer with a request or an error, after all that was asked before.
-- `call` is the call of the function of an operator.
module _ {V : Type 0} (isend irecv : List Issue → Issue → Option ℕ)
    (call : ℕ → (a b c size : ℕ) → ℤ → (ℕ → V) → Option ((ℕ → V) × ℤ)) where
  abbrev issue : Option Issue → List Issue → List Issue
  issue none l = l
  issue (some i) l = i ∷ l

  -- `ffop_mpi_send_post(op, NULL)`
  unfoldable pub send_post : ℕ → Env V → Option (Env V × ℤ)
  unfolding mpi_post
  send_post p w = as_send (w.payloads p) >>= λ t.
      mpi_post (isend w.issued) p t w.buffers none w.table >>= λ r.
      some (record w { table = r.0; issued = issue r.1 w.issued }, r.2)

  -- `ffop_mpi_recv_post(op, NULL)`
  unfoldable pub recv_post : ℕ → Env V → Option (Env V × ℤ)
  unfolding mpi_post
  recv_post p w = as_recv (w.payloads p) >>= λ t.
      mpi_post (irecv w.issued) p t w.buffers none w.table >>= λ r.
      some (record w { table = r.0; issued = issue r.1 w.issued }, r.2)

  -- `ffop_gcomp_post(op, NULL)`
  unfoldable pub comp_post : ℕ → Env V → Option (Env V × ℤ)
  unfolding gcomp_post
  comp_post p w = as_comp (w.payloads p) >>= λ c.
      gcomp_post call w.buffers none c w.values >>= λ r. some (record w { values = r.0 }, r.1)

  -- `ffnop_post(op, NULL)`
  unfoldable pub nop_post : ℕ → Env V → Option (Env V × ℤ)
  nop_post p w = some (w, ffcompleted)

  unfoldable pub call_post : OpPost → ℕ → Env V → Option (Env V × ℤ)
  unfolding send_post recv_post comp_post nop_post
  call_post ffop_mpi_send_post p w = send_post p w
  call_post ffop_mpi_recv_post p w = recv_post p w
  call_post ffop_gcomp_post p w = comp_post p w
  call_post ffnop_post p w = nop_post p w

  -- What is left of a call: `none` is undefined behaviour.
  abbrev pub settle : Env V → Option (Env V × ℤ) → Env V × ℤ
  settle w none = (record w { fault = true }, fferror)
  settle w (some r) = r

  -- `ff.impl.ops[ty].post(op, NULL)`
  unfoldable pub impl_post : Impl → (ty p : ℕ) → Env V → Env V × ℤ
  unfolding call_post
  impl_post impl ty p w =
      let called = (impl.ops ty).post >>= λ f. call_post f p w in
      settle w (if ltb ty ffmax_idx then called else none)
