-- ===== src/Storage.antt =====
-- src/ffstorage.c, ffstorage.h: pools of blocks of one size, with a free list through the blocks.
-- A block of a pool is its position in the pool's memory; `none` is NULL. A `realloc` that moves
-- the memory keeps the positions: the dangling pointers that a move leaves are not modelled. The
-- pointer `mem` says whether there is memory behind it: freed memory is neither read nor written,
-- nor given to `realloc` or `free` again.
pub mod Blocks
pub mod Grow
pub mod Create
pub mod Destroy
use fflib.Base.{
  ℕ, zero, suc, ◌+◌, ◌-◌, ◌*◌, ◌%◌, Bool, Option, none, some, ℤ, ffsuccess, ffenomem, u32, leb, ltb,
  ◌==◌, ◌||◌, true, false, update, if◌then◌else◌, ◌>>=◌,
}
use fflib.Arman.{Arman, Entry}
use fflib.Arman

abbrev pub max_pools : ℕ
max_pools = 128

-- `ffmem_block_t`, less the field `size` that nothing reads.
pub record Block : Type 0 where
  pub poolid : ℕ
  pub id : ℕ
  pub next : Option ℕ

-- What a pointer to memory of malloc and realloc is: NULL, to memory in use, or to freed memory.
pub data Pointer : Type 0 where
  null allocated freed : Pointer

abbrev pub is_freed : Pointer → Bool
is_freed null = false
is_freed allocated = false
is_freed freed = true

abbrev pub is_allocated : Pointer → Bool
is_allocated null = false
is_allocated allocated = true
is_allocated freed = false

-- `ffpool_t`; `pointer` is that of the field `mem`, and `mem` what lies behind it.
pub record Pool : Type 0 where
  pub pointer : Pointer
  pub mem : ℕ → Block
  pub head : Option ℕ
  pub pool_size : ℕ
  pub curr_size : ℕ
  pub elem_size : ℕ

-- The static variables of ffstorage.c.
pub record Storage : Type 0 where
  pub pools : ℕ → Pool
  pub next_free_pool : ℕ
  pub index_manager : Arman

abbrev pub block : ℕ → ℕ → Option ℕ → Block
block poolid i p = record { poolid = poolid; id = i; next = p }

-- The loop of `alloc_pool_internal`, from block `i` on, with `k` rounds left.
unfoldable pub link : ℕ → ℕ → ℕ → (ℕ → Block) → ℕ → Block
link poolid zero i m = m
link poolid (suc k) i m = link poolid k (i + 1) (update m i (block poolid i (some (i + 1))))

-- `alloc_pool_internal`. `memory` is what `realloc` returns, the old blocks in front. `none`: a
-- write through NULL, or to block `count - 1` of no blocks, or a `realloc` of freed memory.
unfoldable pub alloc_pool_internal : ℕ → ℕ → Option (ℕ → Block) → Pool → Option (Pool × ℤ)
unfolding link
alloc_pool_internal poolid count memory p = memory >>= λ m.
    if is_freed p.pointer || count == 0
    then none
    else some (
      record {
        pointer = allocated;
        mem =
            update (link poolid (count - 1 - p.curr_size) p.curr_size m) (count - 1)
              (block poolid (count - 1) none);
        head = some 0;
        curr_size = (p.curr_size + (count + u32 - p.pool_size)) % u32;
        pool_size = count;
        elem_size = p.elem_size;
      },
      ffsuccess,
    )

-- `ffstorage_pool_get` at one pool: a block, and the pool without it. `memory` is what `realloc`
-- returns if the free list is empty. `none`: as there, or the memory is freed.
unfoldable pub take_head : Option ℕ → Pool → Option (ℕ × Pool)
take_head none p = none
take_head (some i) p =
    if is_allocated p.pointer
    then some (i, record p { head = (p.mem i).next; curr_size = (p.curr_size + u32 - 1) % u32 })
    else none

unfoldable pub get : ℕ → Option (ℕ → Block) → Pool → Option (ℕ × Pool)
unfolding take_head alloc_pool_internal
get poolid memory p = elim p.head [
  | none ↦
      alloc_pool_internal poolid (p.pool_size * 2 % u32) memory p >>= λ r. take_head r.0.head r.0
  | some i ↦ take_head (some i) p
]

-- `ffstorage_pool_put` at the pool of the block. `none`: the memory of the pool is freed.
unfoldable pub put : ℕ → Pool → Option Pool
put i p =
    if is_allocated p.pointer
    then some (record p {
      mem = update p.mem i (record (p.mem i) { next = p.head });
      head = some i;
      curr_size = (p.curr_size + 1) % u32;
    })
    else none

abbrev pub set_pool : Storage → ℕ → Pool → Storage
set_pool s i p = record s { pools = update s.pools i p }

-- `ffstorage_init`; `memory` is what `malloc` returns for the index manager.
unfoldable pub init : Option (ℕ → Entry) → Storage → Option (Storage × ℤ)
unfolding Arman.create
init memory s = Arman.create max_pools memory s.index_manager >>= λ r.
    some (record s { index_manager = r.0 }, ffsuccess)

-- `ffstorage_pool_create`: the handle of the new pool, or `FFENOMEM` as a `pool_h`. `none`: the
-- index lies outside the array `pools`, or the allocation faults.
unfoldable pub pool_create : ℕ → ℕ → Option (ℕ → Block) → Storage → Option (ℕ × Storage)
unfolding Arman.get alloc_pool_internal
pool_create elem_size initial_count memory s =
    let (poolid, manager) = Arman.get s.index_manager in
    let empty = record (s.pools poolid) {
      head = none;
      elem_size = elem_size;
      curr_size = 0;
      pool_size = 0;
    } in
    let made = alloc_pool_internal poolid initial_count memory empty >>= λ r.
    some (poolid, record s { pools = update s.pools poolid r.0; index_manager = manager }) in
    if leb max_pools s.next_free_pool
    then some (u32 - 4, s)
    else if ltb poolid max_pools
    then made
    else none

-- `free`
abbrev pub free_pointer : Pointer → Pointer
free_pointer null = null
free_pointer allocated = freed
free_pointer freed = freed

-- `ffstorage_pool_destroy`: the memory is freed, and the pointer to it stays. `none`: it is freed
-- already, or the assertion of `ffarman_put` fails.
unfoldable pub pool_destroy : ℕ → Storage → Option (Storage × ℤ)
unfolding Arman.put
pool_destroy poolid s =
    let p = s.pools poolid in
    let gone = set_pool s poolid (record p { pointer = free_pointer p.pointer }) in
    let ended = Arman.put s.index_manager poolid >>= λ m.
    some (record gone { index_manager = m }, ffsuccess) in
    if is_freed p.pointer then none else ended

-- `ffstorage_pool_get` and `ffstorage_pool_put` on the array of pools.
unfoldable pub pool_get : ℕ → Option (ℕ → Block) → Storage → Option (ℕ × Storage)
unfolding get
pool_get poolid memory s =
    get poolid memory (s.pools poolid) >>= λ r. some (r.0, set_pool s poolid r.1)

unfoldable pub pool_put : ℕ → ℕ → Storage → Option Storage
unfolding put
pool_put poolid i s =
    let owner = ((s.pools poolid).mem i).poolid in
    let given = put i (s.pools owner) >>= λ p. some (set_pool s owner p) in
    if is_allocated (s.pools poolid).pointer then given else none
