-- ===== src/Storage/Create.antt =====
-- `ffstorage_pool_create` of src/ffstorage.c.
use fflib.Base.{
  ℕ, suc, ◌+◌, ◌-◌, ◌%◌, ◌<◌, ◌≡◌, ◌≢◌, refl, true, false, none, some, List, [], ◌∷◌, arith, range,
  length-range, count-range, u32, ltb, leb, update, ==-refl, ==-ne,
}
use fflib.Arman
use fflib.Arman.{Arman}
use fflib.Arman.Stack.{Holds, get-cons, get-nil}
use fflib.Storage.{allocated, is_freed, Block, Pool, Storage, max_pools, pool_create}
use fflib.Storage.Blocks.{IsPool}
use fflib.Storage.Grow.{linked, linked_at, linked-Follows, alloc-suc}

module _ (elem_size k : ℕ) (m : ℕ → Block) (s : Storage) (small : suc k < u32) where
  -- The new pool at the index `i`.
  abbrev made : ℕ → Pool
  made i = record {
    pointer = allocated;
    mem = linked i k m;
    head = some 0;
    curr_size = (suc k + u32 - 0) % u32;
    pool_size = suc k;
    elem_size = elem_size;
  }

  made-IsPool : (i : ℕ) → IsPool i (suc k) (range 0 (suc k)) [] (made i)
  made-IsPool i = record {
    given = refl;
    chain = linked-Follows i k m;
    size = refl;
    left = omega (arith, length-range 0 (suc k));
    small = small;
    total = omega (arith, length-range 0 (suc k));
    once = λ a. ground (arith, count-range a 0 (suc k));
    owner = λ a lt. ground (arith, linked_at i k m a);
  }

  module _ (open_slots : s.next_free_pool < max_pools) where
    -- With an index below MAX_POOLS left, whose pool has not been destroyed before, and when memory
    -- is given, ffstorage_pool_create of one block or more takes the next index from the manager,
    -- makes there a pool of the requested number of blocks, all free in the order of their
    -- positions, and leaves the other pools and the counter next_free_pool alone.
    pub pool_create-IsPool :
        {i spare : ℕ} {stack : List ℕ}
        → Holds s.index_manager (i ∷ stack) spare
        → i < max_pools
        → is_freed (s.pools i).pointer ≡ false
        → (t : Storage) × (pool_create elem_size (suc k) (some m) s ≡ some (i, t))
          × IsPool i (suc k) (range 0 (suc k)) [] (t.pools i)
          × Holds t.index_manager stack (suc spare)
          × ((j : ℕ) → j ≢ i → t.pools j ≡ s.pools j)
          × (t.next_free_pool ≡ s.next_free_pool)
    unfolding pool_create
    pool_create-IsPool {i} held lt unfreed =
        let (got, held') = get-cons held in
        let guard : leb max_pools s.next_free_pool ≡ false = ground arith in
        let bound : ltb i max_pools ≡ true = ground arith in
        (
          record s {
            pools = update s.pools i (made i);
            index_manager = (Arman.get s.index_manager).1;
          },
          rw
              (
                guard,
                got,
                bound,
                alloc-suc i k m
                    (record (s.pools i) {
                      head = none;
                      elem_size = elem_size;
                      curr_size = 0;
                      pool_size = 0;
                    })
                    refl unfreed,
              )
              refl,
          rw (==-refl i) (made-IsPool i),
          held',
          λ j ne. rw (==-ne j i ne),
          refl,
        )

    -- With no index left the guard does not see it: the pool is written outside the array.
    pub pool_create_full :
        {spare : ℕ}
        → Holds s.index_manager [] spare
        → pool_create elem_size (suc k) (some m) s ≡ none
    unfolding pool_create
    pool_create_full held =
        let guard : leb max_pools s.next_free_pool ≡ false = ground arith in
        rw (get-nil held, guard)
