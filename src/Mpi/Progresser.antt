-- ===== src/Mpi/Progresser.antt =====
-- src/components/mpi/ffop_mpi_progresser.c: the table of the MPI requests in flight.
-- MPI_Testsome is a parameter, by what it returns: `none` for an error, or the indices of the
-- requests that have completed, MPI_UNDEFINED being no index.
pub mod Slots
pub mod Report
pub mod Start
use fflib.Base.{
  ℕ, zero, suc, ◌+◌, ◌≤◌, ◌<◌, ◌≡◌, refl, Bool, true, false, Option, none, some, List, [], ◌∷◌, ℤ,
  ffsuccess, fferror, int_eq, ltb, if◌then◌else◌, update, ◌>>=◌,
}
use fflib.Arman
use fflib.Arman.{Arman, Entry}
use fflib.Op.{Op}

abbrev pub ffmpi_max_req : ℕ
ffmpi_max_req = 256

-- The static variables; MPI_REQUEST_NULL and NULL are `none`.
pub record Table : Type 0 where
  pub posted_ops : ℕ → Option ℕ
  pub requests : ℕ → Option ℕ
  pub index_manager : Arman

-- The loop of `ffop_mpi_progresser_init`, from `i` on, with `k` rounds left.
unfoldable pub blank : ℕ → ℕ → Table → Table
blank zero i t = t
blank (suc k) i t =
    blank k (i + 1)
      (record t { requests = update t.requests i none; posted_ops = update t.posted_ops i none })

-- `ffop_mpi_progresser_init`; `memory` is what `malloc` returns for the index manager.
unfoldable pub init : Option (ℕ → Entry) → Table → Option (Table × ℤ)
init memory t = Arman.create ffmpi_max_req memory t.index_manager >>= λ r.
    let u = record t { index_manager = r.0 } in
    some (if int_eq r.1 ffsuccess then (blank ffmpi_max_req 0 u, ffsuccess) else (u, fferror))

-- `ffop_mpi_progresser_track`. The test `idx<0` is never true of a `uint32_t`; `none`: the writes
-- lie outside the arrays.
unfoldable pub track : ℕ → ℕ → Table → Option (Table × ℤ)
unfolding Arman.get
track op req t =
    let (idx, m) = Arman.get t.index_manager in
    if ltb idx ffmpi_max_req
    then some (
      record {
        posted_ops = update t.posted_ops idx (some op);
        requests = update t.requests idx (some req);
        index_manager = m;
      },
      ffsuccess,
    )
    else none

-- `ffop_mpi_progresser_release`. `none`: the assertion of `ffarman_put` fails.
unfoldable pub release : ℕ → Table → Option Table
unfolding Arman.put
release idx t = Arman.put t.index_manager idx >>= λ m. some (record {
  posted_ops = update t.posted_ops idx none;
  requests = update t.requests idx none;
  index_manager = m;
})

-- `FFOP_ENQUEUE`
abbrev pub enqueue : ℕ → Option ℕ → (ℕ → Op) → ℕ → Op
enqueue p list ops = update ops p (record (ops p) { next = list })

-- What `ffop_mpi_progresser_progress` changes: the table, the operations and the ready list.
pub record View : Type 0 where
  pub table : Table
  pub ops : ℕ → Op
  pub ready : Option ℕ

-- The loop over the indices that MPI_Testsome returned. `none`: NULL is read, or `release` fails.
unfoldable pub collect : List ℕ → View → Option View
collect [] v = some v
collect (i ∷ xs) v = v.table.posted_ops i >>= λ p. release i v.table >>= λ t.
    collect xs (record { table = t; ops = enqueue p v.ready v.ops; ready = some p })

-- `ffop_mpi_progresser_progress`
unfoldable pub progress : Option (List ℕ) → View → Option (View × ℤ)
unfolding collect release
progress none v = some (v, fferror)
progress (some indices) v = collect indices v >>= λ u. some (u, ffsuccess)
