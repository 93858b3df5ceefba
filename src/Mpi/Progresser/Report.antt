-- ===== src/Mpi/Progresser/Report.antt =====
-- The pass over the completed requests of ffop_mpi_progresser_progress, in
-- src/components/mpi/ffop_mpi_progresser.c.
use fflib.Base.{
  ℕ, ◌≤◌, ◌≡◌, refl, true, false, some, List, [], ◌∷◌, arith, ffsuccess, has, count, erase, ==→eq,
  ==-refl, count-erase, Follows, Follows-same, Distinct, count-has,
}
use fflib.Mpi.Progresser.{View, enqueue, collect, progress}
use fflib.Mpi.Progresser.Slots.{IsTable, release-IsTable}

-- The ready list after the requests `xs`: the operation of the last one is at its head.
abbrev pub collected : (ℕ → ℕ) → List ℕ → List ℕ → List ℕ
collected who [] acc = acc
collected who (i ∷ xs) acc = collected who xs (who i ∷ acc)

-- The indices that stay in use.
abbrev pub less : List ℕ → List ℕ → List ℕ
less [] live = live
less (i ∷ xs) live = less xs (erase i live)

Distinct-collected :
    (who : ℕ → ℕ) (xs acc : List ℕ) → Distinct (collected who xs acc) → Distinct acc
Distinct-collected who [] acc d = d
Distinct-collected who (i ∷ xs) acc d = (Distinct-collected who xs (who i ∷ acc) d).1

pub enqueue-Follows :
    (p : ℕ) (acc : List ℕ) (v : View)
    → has p acc ≡ false
    → Follows (λ q. (v.ops q).next) v.ready acc
    → Follows (λ q. (enqueue p v.ready v.ops q).next) (some p) (p ∷ acc)
enqueue-Follows p acc v new f = (
  refl,
  rw (==-refl p) (
      Follows-same (λ q. (v.ops q).next) (λ q. (enqueue p v.ready v.ops q).next) v.ready acc
        (λ x h. ground (arith, ==→eq x p)) f),
)

module _ {who : ℕ → ℕ} where
  -- When MPI_Testsome reports requests that are in flight, each once, ffop_mpi_progresser_progress
  -- succeeds, puts the operation of each of them on the ready list, the last one first and in front
  -- of what was there, and frees their places in the table, as long as the operations are distinct.
  pub progress-IsTable :
      (xs acc live : List ℕ) (v : View)
      → IsTable who live v.table
      → ((a : ℕ) → count a xs ≤ count a live)
      → Follows (λ p. (v.ops p).next) v.ready acc
      → Distinct (collected who xs acc)
      → (u : View) × (progress (some xs) v ≡ some (u, ffsuccess))
        × IsTable who (less xs live) u.table
        × Follows (λ p. (u.ops p).next) u.ready (collected who xs acc)
  unfolding progress collect
  progress-IsTable [] acc live v t le f d = (v, refl, t, f)
  progress-IsTable (i ∷ xs) acc live v t le f d =
      let m : has i live ≡ true = count-has i live (ground (arith, le i, ==-refl i)) in
      let (b, done, good) = release-IsTable i t m in
      let new = (Distinct-collected who xs (who i ∷ acc) d).0 in
      let w : View = record {
        table = b;
        ops = enqueue (who i) v.ready v.ops;
        ready = some (who i);
      } in
      let (u, all, kept, led) =
        progress-IsTable xs (who i ∷ acc) (erase i live) w good
          (λ a. ground (arith, le a, count-erase a i live m)) (enqueue-Follows (who i) acc v new f)
          d in
      (u, (rw (t.filled i m, done) all), kept, led)
