-- ===== src/Examples/Pools.antt =====
-- src/ffstorage.c: a pool of two blocks.
use fflib.Base.{
  ℕ, ◌<◌, ◌≡◌, ◌≢◌, refl, Option, none, some, List, [], ◌∷◌, arith, range, count, Follows,
  if◌then◌else◌, ◌==◌,
}
use fflib.Arman.{Arman}
use fflib.Arman.Stack.{Holds}
use fflib.Storage.{allocated, Block, Pool, Storage, block, get, pool_create}
use fflib.Storage.Blocks.{IsPool, World, Call, take, give, run, IsSound, run-IsSound}
use fflib.Storage.Grow.{get_exhausted}
use fflib.Storage.Create.{pool_create-IsPool, pool_create_full}

abbrev garbage : ℕ → Block
garbage _ = block 9 9 (some 4)

abbrev pool : Pool
pool = record {
  pointer = allocated;
  mem = λ i. block 5 i (if i == 0 then some 1 else none);
  head = some 0;
  pool_size = 2;
  curr_size = 2;
  elem_size = 16;
}

pool-IsPool : IsPool 5 2 (0 ∷ 1 ∷ []) [] pool
pool-IsPool = record {
  given = refl;
  chain = (refl, (refl, refl));
  size = refl;
  left = refl;
  small = omega arith;
  total = refl;
  once = λ a. ground arith;
  owner = λ a lt. refl;
}

abbrev calls : List Call
calls = take ∷ take ∷ give 0 ∷ take ∷ take ∷ []

run-IsSound_example :
    (w : World) × (run 5 2 none (record { pool = pool; live = [] }) calls ≡ some w)
    × IsSound 5 2 none w
run-IsSound_example =
    run-IsSound 5 2 none calls (record { pool = pool; live = [] }) (0 ∷ 1 ∷ [], pool-IsPool)

-- Both blocks are in use.
abbrev exhausted : Pool
exhausted = record pool { head = none; curr_size = 0 }

exhausted-IsPool : IsPool 5 2 [] (1 ∷ 0 ∷ []) exhausted
exhausted-IsPool = record {
  given = refl;
  chain = refl;
  size = refl;
  left = refl;
  small = omega arith;
  total = refl;
  once = λ a. ground arith;
  owner = λ a lt. refl;
}

get_exhausted_example :
    (q : Pool) × (get 5 (some garbage) exhausted ≡ some (0, q))
    × Follows (λ i. (q.mem i).next) q.head (1 ∷ 2 ∷ 3 ∷ [])
    × ((a : ℕ) → a < 2 → count a (1 ∷ 0 ∷ []) ≡ 1)
get_exhausted_example = get_exhausted exhausted-IsPool (omega arith) (omega arith) garbage

-- The index manager of the pools with the index 7 left.
abbrev manager : Option ℕ → Option ℕ → Arman
manager p q = record {
  entries = λ _. record { idx = 7; next = none };
  free_entries = p;
  free_free_entries = q;
  tofree = some 0;
}

abbrev storage : Option ℕ → Option ℕ → Storage
storage p q = record { pools = λ _. pool; next_free_pool = 0; index_manager = manager p q }

one_left : Holds (manager (some 0) none) (7 ∷ []) 0
one_left = record {
  free_nodes = 0 ∷ [];
  spare_nodes = [];
  free = (refl, refl);
  spares = refl;
  carried = refl;
  room = refl;
  distinct = (refl, tt);
}

none_left : Holds (manager none (some 0)) [] 1
none_left = record {
  free_nodes = [];
  spare_nodes = 0 ∷ [];
  free = refl;
  spares = (refl, refl);
  carried = refl;
  room = refl;
  distinct = (refl, tt);
}

pool_create-IsPool_example :
    (t : Storage) × (pool_create 16 3 (some garbage) (storage (some 0) none) ≡ some (7, t))
    × IsPool 7 3 (range 0 3) [] (t.pools 7)
    × Holds t.index_manager [] 1
    × ((j : ℕ) → j ≢ 7 → t.pools j ≡ pool)
    × (t.next_free_pool ≡ 0)
pool_create-IsPool_example =
    pool_create-IsPool 16 2 garbage (storage (some 0) none) (omega arith) (omega arith) one_left
      (omega arith) refl

pool_create_full_example : pool_create 16 3 (some garbage) (storage none (some 0)) ≡ none
pool_create_full_example =
    pool_create_full 16 2 garbage (storage none (some 0)) (omega arith) (omega arith) none_left
