-- ===== src/Mpi/Progresser/Slots.antt =====
-- What src/components/mpi/ffop_mpi_progresser.c keeps true of its table, and what it reports.
use fflib.Base.{
  ℕ, ◌+◌, ◌<◌, ◌≡◌, refl, ◌≢◌, ap, subst, true, false, none, some, List, [], ◌∷◌, arith, ffsuccess,
  ltb, has, count, erase, if◌then◌else◌, update, ==→eq, ==-refl, length, count-erase, length-erase,
  count-has, has-count,
}
use fflib.Arman
use fflib.Arman.Stack.{Holds, get-cons, get-nil, put-cons}
use fflib.Mpi.Progresser.{Table, ffmpi_max_req, track, release}

-- The indices `live` are in use, each for the operation `who` names; all others are blank and free.
pub record IsTable (who : ℕ → ℕ) (live : List ℕ) (t : Table) : Type 0 where
  pub stack : List ℕ
  pub held : Holds t.index_manager stack (length live)
  pub once : (a : ℕ) → count a stack + count a live ≡ (if ltb a ffmpi_max_req then 1 else 0)
  pub filled : (a : ℕ) → has a live ≡ true → t.posted_ops a ≡ some (who a)
  pub blank :
      (a : ℕ)
      → a < ffmpi_max_req
      → has a live ≡ false
      → (t.posted_ops a ≡ none) × (t.requests a ≡ none)

module _ {who : ℕ → ℕ} {live : List ℕ} {t : Table} where
  pub release-IsTable :
      (i : ℕ)
      → IsTable who live t
      → has i live ≡ true
      → (u : Table) × (release i t ≡ some u) × IsTable who (erase i live) u
  unfolding release
  release-IsTable i v m =
      let fit = length-erase i live m in
      let c = λ (a : ℕ). count-erase a i live m in
      let (b, done, held) = put-cons i (rw fit at v.held) in
      (
        record {
          posted_ops = update t.posted_ops i none;
          requests = update t.requests i none;
          index_manager = b;
        },
        rw done,
        record {
          stack = i ∷ v.stack;
          held = held;
          once = λ a. ground (arith, v.once a, c a);
          filled = λ a ma. ground (
            arith,
            v.filled a,
            has-count a (erase i live) ma,
            count-has a live,
            c a,
            v.once a,
            ==→eq a i,
          );
          blank = λ a lt ma.
              ground (arith, v.blank a lt, c a, has-count a live, count-has a (erase i live));
        },
      )

  -- With an index free, ffop_mpi_progresser_track puts the request at a place that no request in
  -- flight has, leaves all other places alone, and keeps the table well formed.
  pub track-IsTable :
      (op req i : ℕ) (rest : List ℕ)
      → (v : IsTable who live t) → v.stack ≡ i ∷ rest
      → (u : Table) × (track op req t ≡ some (u, ffsuccess))
        × (has i live ≡ false)
        × (u.requests i ≡ some req)
        × ((j : ℕ) → j ≢ i → u.requests j ≡ t.requests j)
        × (w : IsTable (update who i op) (i ∷ live) u) × (w.stack ≡ rest)
  unfolding track
  track-IsTable op req i rest v top =
      let (got, held) =
        get-cons (subst (λ (l : List ℕ). Holds t.index_manager l (length live)) top v.held) in
      let tops = λ (a : ℕ). ap (count a) top in
      let bound : ltb i ffmpi_max_req ≡ true = ground (arith, v.once i, tops i, ==-refl i) in
      let free : has i live ≡ false =
        ground (arith, v.once i, tops i, ==-refl i, has-count i live) in
      (
        record {
          posted_ops = update t.posted_ops i (some op);
          requests = update t.requests i (some req);
          index_manager = (Arman.get t.index_manager).1;
        },
        rw (got, bound),
        free,
        rw (==-refl i),
        (λ j ne. ground arith),
        record {
          stack = rest;
          held = held;
          once = λ a. ground (arith, v.once a, tops a);
          filled = λ a ma. ground (arith, v.filled a);
          blank = λ a lt ma. ground (arith, v.blank a lt);
        },
        refl,
      )

  -- With all 256 indices in use, the request is written outside the table.
  pub track_full : (op req : ℕ) (v : IsTable who live t) → v.stack ≡ [] → track op req t ≡ none
  unfolding track
  track_full op req v top =
      rw (get-nil (subst (λ (l : List ℕ). Holds t.index_manager l (length live)) top v.held))
