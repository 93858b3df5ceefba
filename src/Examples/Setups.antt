-- ===== src/Examples/Setups.antt =====
-- src/ff.c: the library is set up on one host, and taken down.
use fflib.Base.{ℕ, ◌<◌, ◌≡◌, refl, none, some, [], ◌∷◌, arith, range, pos, true, false, ffsuccess}
use fflib.Arman
use fflib.Arman.{Entry}
use fflib.Arman.Stack.{Holds}
use fflib.Storage
use fflib.Storage.{Storage, null, allocated, freed, max_pools, Block}
use fflib.Binding.{Impl, OpDescriptor, Env, ffbind, impl_post}
use fflib.Setup.{buffer_init, internal, Host, Library, ffinit, fffinalize}
use fflib.Pools.{Pooled, create_schedule, delete_schedule}
use fflib.Pools.Leak.{IsServed, delete_schedule-create_schedule}
use fflib.Pools.Started.{pooled, Started-IsServed}
use fflib.Examples.Reductions.{site}
use fflib.Examples.Sums
use fflib.Examples.Sums.{add, values, buffer_at, nobody, tmp-IsApart}
use fflib.Base.{List, Option, ◌+◌, ◌*◌, ◌≢◌, inl, ffcompleted}
use fflib.Buffer.{ffint32}
use fflib.Calls.{Payload}
use fflib.Mpi.Transfer.{Issue}
use fflib.Gcomp.Post.{apply}
use fflib.Setup.Posts.{impl_post-add}
use fflib.Setup.Parts.{OnlyMpi, bound}
use fflib.Setup.Start.{IsUnused, Serves, Started, ffinit-Started, ffinit_single}
use fflib.Setup.Again.{ffinit-fffinalize}
use fflib.Setup.Stop.{calls_after, fffinalize-Started}

abbrev entries : ℕ → Entry
entries i = record { idx = 7; next = none }

abbrev blocks : ℕ → Block
blocks i = record { poolid = 9; id = 9; next = none }

abbrev host : Host
host = record {
  initialized = false;
  thread_multiple = true;
  rank = pos 0;
  size = pos 2;
  created = true;
  joined = true;
  ahead = 0;
  pool_entries = some entries;
  operator_entries = some entries;
  request_entries = some entries;
  buffer_blocks = some blocks;
  op_blocks = some blocks;
  schedule_blocks = some blocks;
  buffer_size = 40;
  op_size = 200;
  schedule_size = 64;
}

abbrev single : Host
single = record host { thread_multiple = false }

host-Serves : Serves host
host-Serves = record {
  pool_memory = entries;
  pool_given = refl;
  operator_memory = entries;
  operator_given = refl;
  request_memory = entries;
  request_given = refl;
  buffer_memory = blocks;
  buffer_given = refl;
  op_memory = blocks;
  op_given = refl;
  schedule_memory = blocks;
  schedule_given = refl;
  created = refl;
}

single-Serves : Serves single
single-Serves = record {
  pool_memory = entries;
  pool_given = refl;
  operator_memory = entries;
  operator_given = refl;
  request_memory = entries;
  request_given = refl;
  buffer_memory = blocks;
  buffer_given = refl;
  op_memory = blocks;
  op_given = refl;
  schedule_memory = blocks;
  schedule_given = refl;
  created = refl;
}

abbrev no_function : OpDescriptor
no_function = record {
  init = none;
  post = none;
  tostring = none;
  finalize = none;
  wait = none;
  test = none;
}

abbrev impl : Impl
impl = record {
  init = none;
  finalize = none;
  get_rank = none;
  get_size = none;
  operator_create = none;
  operator_delete = none;
  ops = λ _. no_function;
}

-- The static variables before the first call.
abbrev library : Library
library = record {
  impl = impl;
  progressers = record { progressers = λ _. 0; progressers_count = 0 };
  storage = record {
    pools = λ _. record {
      pointer = null;
      mem = blocks;
      head = none;
      pool_size = 0;
      curr_size = 0;
      elem_size = 0;
    };
    next_free_pool = 0;
    index_manager = record {
      entries = entries;
      free_entries = none;
      free_free_entries = none;
      tofree = none;
    };
  };
  buff_pool = 0;
  op_pool = 0;
  schedule_pool = 0;
  operators = record {
    operators = λ _. record { type = 0; commutative = pos 0; idx = 0; op_fun = none };
    custom_operators = λ _. record { type = 0; commutative = pos 0; idx = 0; op_fun = none };
    custom_idx = record {
      entries = entries;
      free_entries = none;
      free_free_entries = none;
      tofree = none;
    };
  };
  table = record {
    posted_ops = λ _. none;
    requests = λ _. none;
    index_manager = record {
      entries = entries;
      free_entries = none;
      free_free_entries = none;
      tofree = none;
    };
  };
  init_by_me = false;
  terminate = false;
  progresser_ready = false;
  mpi_calls = [];
}

library-OnlyMpi : OnlyMpi library.progressers
library-OnlyMpi i h = refl

library-IsUnused : IsUnused library
library-IsUnused = record { pools = λ i. refl; waits = refl }

ffinit-Started_example :
    (t : Library) × (ffinit host library ≡ some (t, ffsuccess))
    × Started t
    × OnlyMpi t.progressers
    × (t.progressers.progressers_count ≡ 1)
ffinit-Started_example =
    ffinit-Started host library host-Serves library-IsUnused refl (omega arith) library-OnlyMpi
      (omega arith)

ffinit_single_example :
    (t : Library) × (ffinit single library ≡ some (t, ffsuccess))
    × (t.operators ≡ library.operators)
ffinit_single_example =
    ffinit_single single library single-Serves library-IsUnused refl refl (omega arith)
      library-OnlyMpi (omega arith)

first :
    (t : Library) × (ffinit host library ≡ some (t, ffsuccess))
    × Started t
    × OnlyMpi t.progressers
    × (t.progressers.progressers_count ≡ 1)
first =
    ffinit-Started host library host-Serves library-IsUnused refl (omega arith) library-OnlyMpi
      (omega arith)

fffinalize-Started_example :
    (t : Library) × (fffinalize host first.0 ≡ some (t, ffsuccess))
    × Holds t.storage.index_manager (0 ∷ 1 ∷ range 3 125) 1
    × (t.mpi_calls ≡ calls_after host first.0)
    × (t.terminate ≡ true)
    × ((t.storage.pools 0).pointer ≡ freed)
    × ((t.storage.pools 1).pointer ≡ freed)
    × ((t.storage.pools 2).pointer ≡ allocated)
    × (t.storage.next_free_pool < max_pools)
fffinalize-Started_example = fffinalize-Started host first.0 first.2 refl

ffinit-fffinalize_example :
    (t : Library) × (fffinalize host first.0 ≡ some (t, ffsuccess))
    × (s : Storage) × (Storage.init (some entries) t.storage ≡ some (s, ffsuccess))
    × ((Arman.get s.index_manager).0 ≡ 0)
    × ((s.pools 0).pointer ≡ freed)
    × (buffer_init host (bound t s) ≡ none)
    × (ffinit host t ≡ none)
ffinit-fffinalize_example = ffinit-fffinalize host entries first.0 refl refl first.2

-- A sum, posted with the type FFCOMP.
abbrev env : Env ℕ
env = record {
  payloads = λ p. Payload.comp Sums.comp;
  buffers = buffer_at;
  values = values;
  table = library.table;
  issued = [];
  fault = false;
}

abbrev no_mpi : List Issue → Issue → Option ℕ
no_mpi l i = none

impl_post-add_example :
    (t : ℕ → ℕ) × (impl_post no_mpi no_mpi
        (apply 50 51 5 add nobody)
        (internal (ffbind impl library.progressers).0)
        2
        9
        env
      ≡ (record env { values = t }, ffcompleted))
    × ((j : ℕ)
        → j < 4
        → t (200 + j * 4) ≡ add ffint32 (values (100 + j * 4)) (values (200 + j * 4)))
    × ((x : ℕ) → ((j : ℕ) → j < 4 → x ≢ 200 + j * 4) → t x ≡ values x)
impl_post-add_example =
    impl_post-add no_mpi no_mpi 50 51 5 4 add nobody impl library.progressers 9 env Sums.comp refl
      (λ e. omega arith) refl refl refl refl refl (omega arith) (omega arith) tmp-IsApart (inl refl)

-- A schedule is created and deleted behind the first ffinit.
abbrev served : Pooled ℕ
served = pooled first.0 site.system site.memory

delete_schedule-create_schedule_example :
    (z : Pooled ℕ) × (create_schedule none none none served ≡ some (z, 0, ffsuccess))
    × (u : Pooled ℕ) × (delete_schedule (λ ty p w. (w, ffsuccess)) (λ f h x. (x, ffsuccess)) 0 z
        ≡ some (u, ffsuccess))
    × IsServed 1024 1024 (range 2 1022) (1 ∷ 0 ∷ []) (range 0 1024) [] u
delete_schedule-create_schedule_example =
    delete_schedule-create_schedule (λ ty p w. (w, ffsuccess)) (λ f h x. (x, ffsuccess)) none none
      none 1024 1024 0 1 0 (range 2 1022) [] (range 1 1023) [] served
      (Started-IsServed first.0 site.system site.memory first.2)
