-- ===== src/Storage/Destroy.antt =====
-- `ffstorage_pool_destroy` of src/ffstorage.c, and what is created behind it.
use fflib.Base.{
  ℕ, suc, ◌<◌, ◌≡◌, ◌≢◌, refl, true, false, Option, none, some, List, ◌∷◌, arith, ffsuccess, leb,
  ltb, ==-refl, ==-ne, update,
}
use fflib.Arman.Stack.{Holds, put-cons, get-cons}
use fflib.Storage.{
  Block, Storage, Pool, free_pointer, allocated, freed, max_pools, alloc_pool_internal, pool_create,
  pool_destroy,
}

-- The storage after the pool `i` is destroyed.
pub record Destroyed (i spare : ℕ) (stack : List ℕ) (s t : Storage) : Type 0 where
  pub held : Holds t.index_manager (i ∷ stack) spare
  pub gone : (t.pools i).pointer ≡ freed
  pub others : (j : ℕ) → j ≢ i → t.pools j ≡ s.pools j
  pub slots : t.next_free_pool ≡ s.next_free_pool

pub pool_destroy_lem :
    {stack : List ℕ} {spare : ℕ} (i : ℕ) (s : Storage)
    → (s.pools i).pointer ≡ allocated
    → Holds s.index_manager stack (suc spare)
    → (t : Storage) × (pool_destroy i s ≡ some (t, ffsuccess)) × Destroyed i spare stack s t
unfolding pool_destroy
pool_destroy_lem i s given held =
    let (a, done, held') = put-cons i held in
    (
      record s {
        pools =
            update s.pools i (record (s.pools i) { pointer = free_pointer (s.pools i).pointer });
        index_manager = a;
      },
      rw (given, done) refl,
      record {
        held = held';
        gone = rw (==-refl i, given) refl;
        others = λ j ne. rw (==-ne j i ne) refl;
        slots = refl;
      },
    )

pub pool_destroy_twice :
    (i : ℕ) (s : Storage) → (s.pools i).pointer ≡ freed → pool_destroy i s ≡ none
unfolding pool_destroy
pool_destroy_twice i s gone = rw gone refl

module _ (elem_size count : ℕ) (memory : Option (ℕ → Block)) where
  alloc_freed :
      (i : ℕ) (m : Option (ℕ → Block)) (p : Pool)
      → p.pointer ≡ freed
      → alloc_pool_internal i count m p ≡ none
  unfolding alloc_pool_internal
  alloc_freed i none p gone = refl
  alloc_freed i (some m) p gone = rw gone refl

  pub pool_create_freed :
      {i spare : ℕ} {stack : List ℕ} (s : Storage)
      → s.next_free_pool < max_pools
      → Holds s.index_manager (i ∷ stack) spare
      → i < max_pools
      → (s.pools i).pointer ≡ freed
      → pool_create elem_size count memory s ≡ none
  unfolding pool_create
  pool_create_freed {i} s open_slots held lt gone =
      let (got, held') = get-cons held in
      let guard : leb max_pools s.next_free_pool ≡ false = ground arith in
      let bound : ltb i max_pools ≡ true = ground arith in
      rw
        (
          guard,
          got,
          bound,
          alloc_freed i memory
              (record (s.pools i) {
                head = none;
                elem_size = elem_size;
                curr_size = 0;
                pool_size = 0;
              })
              gone,
        )
        refl
