-- ===== src/Examples/Thread.antt =====
-- The progress thread, new operations, and the requests of MPI.
use fflib.Base.{
  ℕ, ◌+◌, ◌≡◌, refl, Option, none, some, [], ◌∷◌, arith, ℤ, pos, ffsuccess, false, true, update,
  range,
}
use fflib.Op.{Op, State}
use fflib.Op.Sums.{Edges}
use fflib.Op.Round.{IsReady}
use fflib.Progress.{drain}
use fflib.Progress.Drain.{complete_all, drain-complete_all}
use fflib.Calls.{Transfer, typed}
use fflib.Calls.Fresh.{IsPlain, typed-IsReady}
use fflib.Buffer.{Buffer, ffbuffer_ptr}
use fflib.Arman.{Entry}
use fflib.Mpi.Progresser.{Table, ffmpi_max_req}
use fflib.Mpi.Progresser.Slots.{IsTable}
use fflib.Mpi.Progresser.Start.{init-IsTable}
use fflib.Mpi.Transfer.{mpi_double, Issue, mpi_post}
use fflib.Mpi.Transfer.Post.{double, post-IsTable}

abbrev op_at : ℕ → Option ℕ → Op
op_at i next = record {
  type = 1;
  id = i;
  dependent = λ k. 0;
  out_dep_count = 0;
  in_dep_count = 0;
  options = 2;
  sched_next = none;
  version = 0;
  dep_left = 0;
  next = next;
  completed = 0;
}

abbrev state_of : (ℕ → Op) → State ℕ
state_of ops = record { ops = ops; opid = 6; log = []; env = 0 }

-- Operation 5 is on the ready list before operation 3.
abbrev linked : ℕ → Op
linked = update (λ i. op_at i none) 5 (op_at 5 (some 3))

abbrev later : ℕ → ℕ → ℕ → ℕ × ℤ
later type p w = (w + 1, ffsuccess)

drain-complete_all_example :
    drain later 3 2 (some 5) (state_of linked) ≡ complete_all later 2 (5 ∷ 3 ∷ []) (state_of linked)
drain-complete_all_example =
    drain-complete_all later 3 2 (5 ∷ 3 ∷ []) (some 5) (state_of linked) (refl, (refl, refl))
      (omega arith)

-- An empty graph, and a new receive with the options of a sum into a shared destination.
abbrev no_edges : Edges
no_edges i = []

plain : IsPlain 16
plain = record { dep_and = refl; persistent = refl }

empty-IsReady : IsReady no_edges [] 0 (state_of linked)
empty-IsReady = record { idle = λ b m. absurd (absurd_bool m); ordered = tt }
  where
    absurd_bool : false ≡ true → ⊥
    absurd_bool e = cc

typed-IsReady_example : IsReady (update no_edges 7 []) (7 ∷ []) 0 (typed 7 1 16 (state_of linked))
typed-IsReady_example =
    typed-IsReady 7 1 16 plain no_edges [] (state_of linked) refl empty-IsReady refl

abbrev entries : ℕ → Entry
entries i = record { idx = 7; next = none }

abbrev zeroed : Table
zeroed = record {
  posted_ops = λ i. none;
  requests = λ i. none;
  index_manager = record {
    entries = entries;
    free_entries = none;
    free_free_entries = none;
    tofree = none;
  };
}

abbrev who : ℕ → ℕ
who i = i

abbrev begun :
    (u : Table) × (fflib.Mpi.Progresser.init (some entries) zeroed ≡ some (u, ffsuccess))
    × (v : IsTable who [] u) × (v.stack ≡ range 0 ffmpi_max_req)
begun = init-IsTable who entries zeroed

abbrev buffers : ℕ → Buffer
buffers h = record {
  type = ffbuffer_ptr;
  selfalloc = false;
  word = 4096;
  count = 10;
  datatype = pos 2;
  options = 0;
}

abbrev transfer : Transfer
transfer = record { peer = 1; tag = 9; buffer = 3 }

abbrev isend : Issue → Option ℕ
isend i = some 77

post-IsTable_example :
    (u : Table) × (mpi_post isend 5 transfer buffers none begun.0
      ≡ some (
        u,
        some (record { buffer = 4096; count = 10; datatype = mpi_double; peer = 1; tag = 9 }),
        ffsuccess,
      ))
    × (u.requests 0 ≡ some 77)
    × (u.posted_ops 0 ≡ some 5)
    × (w : IsTable (update who 0 5) (0 ∷ []) u) × (w.stack ≡ range 1 255)
post-IsTable_example =
    post-IsTable isend 5 transfer buffers begun.0 mpi_double refl double 0 77 (range 1 255) begun.2
      begun.3 refl
