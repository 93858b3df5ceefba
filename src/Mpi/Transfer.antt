-- ===== src/Mpi/Transfer.antt =====
-- src/components/mpi/ffop_mpi_send.c, ffop_mpi_recv.c and ffop_mpi.c: a transfer becomes a request.
-- MPI_Isend and MPI_Irecv are parameters, by the request that they give, or `none` for an error.
pub mod Post
use fflib.Base.{
  ℕ, zero, suc, Bool, Option, none, some, List, [], ◌∷◌, ℤ, pos, negsuc, ffsuccess, fferror, ltb,
  if◌then◌else◌, ◌>>=◌,
}
use fflib.Buffer.{Buffer}
use fflib.Gcomp.Post.{get_buffer}
use fflib.Calls.{Transfer}
use fflib.Mpi.Progresser.{Table, track}

-- FFDATATYPE_SENTINEL
abbrev pub ffdatatype_sentinel : ℕ
ffdatatype_sentinel = 6

-- The `MPI_Datatype`s of `datatype_translation_table`; `zeroed` is an entry that no initialiser gives.
pub data MpiDatatype : Type 0 where
  mpi_int mpi_long_long mpi_double mpi_float mpi_char zeroed : MpiDatatype

-- The initialisers of the table; the entry FFDATATYPE_NONE has none.
abbrev pub initialisers : List MpiDatatype
initialisers = mpi_int ∷ mpi_long_long ∷ mpi_double ∷ mpi_float ∷ mpi_char ∷ []

abbrev pub entry : List MpiDatatype → ℕ → MpiDatatype
entry [] i = zeroed
entry (t ∷ ts) zero = t
entry (t ∷ ts) (suc i) = entry ts i

-- An access to `datatype_translation_table`; `none`: outside it.
unfoldable pub translate : ℤ → Option MpiDatatype
translate (pos d) = if ltb d ffdatatype_sentinel then some (entry initialisers d) else none
translate (negsuc d) = none

-- What is asked of MPI.
pub record Issue : Type 0 where
  pub buffer : ℕ
  pub count : ℕ
  pub datatype : MpiDatatype
  pub peer : ℕ
  pub tag : ℕ

-- `ffop_mpi_send_post` with `MPI_Isend`, and `ffop_mpi_recv_post` with `MPI_Irecv`, for the
-- operation `op`; `mem` is the set of addresses, or NULL.
unfoldable pub mpi_post :
    (start : Issue → Option ℕ)
    → (op : ℕ) → Transfer
    → (ℕ → Buffer)
    → Option (ℕ → ℕ)
    → Table
    → Option (Table × Option Issue × ℤ)
unfolding get_buffer translate track
mpi_post start op t buffers mem table =
    let b = buffers t.buffer in
    get_buffer b mem >>= λ buffer. translate b.datatype >>= λ datatype.
    let issue : Issue = record {
      buffer = buffer;
      count = b.count;
      datatype = datatype;
      peer = t.peer;
      tag = t.tag;
    } in
    elim (start issue) [
      | none ↦ some (table, some issue, fferror)
      | some req ↦ track op req table >>= λ r. some (r.0, some issue, r.1)
    ]
