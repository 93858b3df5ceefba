-- ===== src/Examples/Requests.antt =====
-- src/components/mpi/ffop_mpi_progresser.c: two requests in flight.
use fflib.Base.{
  erase, ℕ, ◌+◌, ◌≡◌, ◌≢◌, refl, none, some, [], ◌∷◌, arith, range, has, false, Follows, update,
  ffsuccess,
}
use fflib.Arman.{Entry}
use fflib.Op.{Op}
use fflib.Mpi.Progresser.{Table, View, ffmpi_max_req, init, track, progress}
use fflib.Mpi.Progresser.Slots.{IsTable, track-IsTable}
use fflib.Mpi.Progresser.Report.{progress-IsTable}
use fflib.Mpi.Progresser.Start.{init-IsTable}

abbrev entries : ℕ → Entry
entries _ = record { idx = 7; next = none }

abbrev zeroed : Table
zeroed = record {
  posted_ops = λ i. none;
  requests = λ i. none;
  index_manager = record {
    entries = entries;
    free_entries = none;
    free_free_entries = none;
    tofree = none;
  };
}

-- Operation 40 has index 0, operation 41 index 1.
abbrev who : ℕ → ℕ
who i = i + 40

init-IsTable_example :
    (u : Table) × (init (some entries) zeroed ≡ some (u, ffsuccess))
    × (v : IsTable who [] u) × (v.stack ≡ range 0 ffmpi_max_req)
init-IsTable_example = init-IsTable who entries zeroed

abbrev started : Table
started = (init-IsTable who entries zeroed).0

track-IsTable_example :
    (u : Table) × (track 40 9 started ≡ some (u, ffsuccess))
    × (has 0 [] ≡ false)
    × (u.requests 0 ≡ some 9)
    × ((j : ℕ) → j ≢ 0 → u.requests j ≡ started.requests j)
    × (w : IsTable (update who 0 40) (0 ∷ []) u) × (w.stack ≡ range 1 255)
track-IsTable_example =
    track-IsTable 40 9 0 (range 1 255) (init-IsTable who entries zeroed).2
      (init-IsTable who entries zeroed).3

abbrev first :
    (u : Table) × (track 40 9 started ≡ some (u, ffsuccess))
    × (has 0 [] ≡ false)
    × (u.requests 0 ≡ some 9)
    × ((j : ℕ) → j ≢ 0 → u.requests j ≡ started.requests j)
    × (w : IsTable (update who 0 40) (0 ∷ []) u) × (w.stack ≡ range 1 255)
first =
    track-IsTable 40 9 0 (range 1 255) (init-IsTable who entries zeroed).2
      (init-IsTable who entries zeroed).3

abbrev owner : ℕ → ℕ
owner = update (update who 0 40) 1 41

abbrev second :
    (u : Table) × (track 41 8 first.0 ≡ some (u, ffsuccess))
    × (has 1 (0 ∷ []) ≡ false)
    × (u.requests 1 ≡ some 8)
    × ((j : ℕ) → j ≢ 1 → u.requests j ≡ first.0.requests j)
    × (w : IsTable owner (1 ∷ 0 ∷ []) u) × (w.stack ≡ range 2 254)
second = track-IsTable 41 8 1 (range 2 254) first.5 first.6

-- Operation 7 is on the ready list already.
abbrev view : (ℕ → Op) → View
view ops = record { table = second.0; ops = ops; ready = some 7 }

abbrev ops : ℕ → Op
ops i = record {
  type = 0;
  id = i;
  dependent = λ k. 0;
  out_dep_count = 0;
  in_dep_count = 0;
  options = 0;
  sched_next = none;
  version = 1;
  dep_left = 0;
  next = none;
  completed = 0;
}

progress-IsTable_example :
    (u : View) × (progress (some (0 ∷ 1 ∷ [])) (view ops) ≡ some (u, ffsuccess))
    × IsTable owner [] u.table
    × Follows (λ p. (u.ops p).next) u.ready (41 ∷ 40 ∷ 7 ∷ [])
unfolding erase
progress-IsTable_example =
    progress-IsTable (0 ∷ 1 ∷ []) (7 ∷ []) (1 ∷ 0 ∷ []) (view ops) second.5 (λ a. ground arith)
      (refl, refl) (refl, (refl, (refl, tt)))
