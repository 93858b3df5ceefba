-- ===== src/Mpi/Transfer/Post.antt =====
-- The posts of src/components/mpi/ffop_mpi_send.c and ffop_mpi_recv.c against the table of requests.
use fflib.Base.{
  ==-refl, ℕ, ◌≡◌, refl, ◌∙◌, Option, none, some, List, ◌∷◌, pos, ffsuccess, fferror, ℤ, update,
}
use fflib.Buffer.{Buffer, ffbuffer_ptr}
use fflib.Calls.{Transfer}
use fflib.Mpi.Progresser.{Table}
use fflib.Mpi.Progresser.Slots.{IsTable, track-IsTable}
use fflib.Mpi.Transfer.{
  MpiDatatype, mpi_int, mpi_long_long, mpi_double, mpi_float, mpi_char, translate, Issue, mpi_post,
}

-- Which type of MPI holds the values of a datatype of src/ff.h.
pub data Holds : ℤ → MpiDatatype → Type 0 where
  int32 : Holds (pos 0) mpi_int
  int64 : Holds (pos 1) mpi_long_long
  double : Holds (pos 2) mpi_double
  float : Holds (pos 3) mpi_float
  char : Holds (pos 4) mpi_char

translate_lem : (d : ℤ) (ty : MpiDatatype) → Holds d ty → translate d ≡ some ty
unfolding translate
translate_lem d ty int32 = refl
translate_lem d ty int64 = refl
translate_lem d ty double = refl
translate_lem d ty float = refl
translate_lem d ty char = refl

module _ (start : Issue → Option ℕ) (op : ℕ) (t : Transfer) (buffers : ℕ → Buffer) (table : Table)
    (ty : MpiDatatype) (plain : (buffers t.buffer).type ≡ ffbuffer_ptr)
    (typed : Holds (buffers t.buffer).datatype ty) where
  -- What MPI is asked for.
  abbrev pub asked : Issue
  asked = record {
    buffer = (buffers t.buffer).word;
    count = (buffers t.buffer).count;
    datatype = ty;
    peer = t.peer;
    tag = t.tag;
  }

  -- When MPI refuses, the post says FFERROR and the table stays.
  pub post_refused :
      start asked ≡ none
      → mpi_post start op t buffers none table ≡ some (table, some asked, fferror)
  unfolding mpi_post
  post_refused refused =
      let known = translate_lem (buffers t.buffer).datatype ty typed in
      rw (plain, known, refused) refl

  -- When a transfer has a buffer with an address and with one of the five datatypes that have
  -- values, MPI gives a request, and an index is free: posting the transfer asks MPI for exactly
  -- the buffer, count, peer and tag of the operation, with the type of MPI that holds the values of
  -- the datatype, the request and the operation then stand at that index, and the table stays well
  -- formed.
  pub post-IsTable :
      {who : ℕ → ℕ} {live : List ℕ} (i req : ℕ) (rest : List ℕ)
      → (v : IsTable who live table) → v.stack ≡ i ∷ rest
      → start asked ≡ some req
      → (u : Table) × (mpi_post start op t buffers none table ≡ some (u, some asked, ffsuccess))
        × (u.requests i ≡ some req)
        × (u.posted_ops i ≡ some op)
        × (w : IsTable (update who i op) (i ∷ live) u) × (w.stack ≡ rest)
  unfolding mpi_post
  post-IsTable i req rest v top gives =
      let (u, done, free, kept, others, w, under) = track-IsTable op req i rest v top in
      let known = translate_lem (buffers t.buffer).datatype ty typed in
      (
        u,
        rw (plain, known, gives, done) refl,
        kept,
        w.filled i (rw (==-refl i) refl) ∙ rw (==-refl i) refl,
        w,
        under,
      )
