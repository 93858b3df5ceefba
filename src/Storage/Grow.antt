-- ===== src/Storage/Grow.antt =====
-- The growth of a pool: `alloc_pool_internal` of src/ffstorage.c.
use fflib.Base.{
  ℕ, zero, suc, ◌+◌, ◌-◌, ◌*◌, ◌%◌, ◌≤◌, ◌<◌, ◌≡◌, ◌∙◌, refl, ap, false, ◌&&◌, Option, none, some,
  List, [], arith, range, count, Follows, u32, ltb, leb, ◌==◌, if◌then◌else◌, update, ffsuccess,
  ◌>>=◌,
}
use fflib.Storage.{
  Block, Pool, allocated, is_freed, block, link, alloc_pool_internal, take_head, get,
}
use fflib.Storage.Blocks.{IsPool}

-- What the loop leaves at each block.
pub link_at :
    (poolid k i j : ℕ) (m : ℕ → Block)
    → link poolid k i m j
      ≡ (if leb i j && ltb j (i + k) then block poolid j (some (j + 1)) else m j)
unfolding link
link_at poolid zero i j m = ground arith
link_at poolid (suc k) i j m =
    ground (arith, link_at poolid k (i + 1) j (update m i (block poolid i (some (i + 1)))))

pub Follows-range :
    (m : ℕ → Block) (k i : ℕ)
    → ((j : ℕ) → i ≤ j → j < i + k → (m j).next ≡ some (j + 1))
    → (m (i + k)).next ≡ none
    → Follows (λ x. (m x).next) (some i) (range i (suc k))
Follows-range m zero i inner last = (refl, ground (arith, last))
Follows-range m (suc k) i inner last =
    let at : i + suc k ≡ i + 1 + k = omega arith in
    (
      refl,
      rw (inner i (omega arith) (omega arith)) (
          Follows-range m k (i + 1) (λ j h h'. inner j (omega arith) (omega arith))
            (rw at at last)),
    )

module _ (poolid k : ℕ) (m : ℕ → Block) where
  -- The blocks after an allocation of `k + 1` blocks for a pool that counts no free one.
  abbrev pub linked : ℕ → Block
  linked = update (link poolid k 0 m) k (block poolid k none)

  pub linked_at :
      (j : ℕ) → j ≤ k → linked j ≡ block poolid j (if j == k then none else some (j + 1))
  linked_at j h = ground (arith, link_at poolid k 0 j m)

  pub linked-Follows : Follows (λ x. (linked x).next) (some 0) (range 0 (suc k))
  linked-Follows =
      Follows-range linked k 0 (λ j h h'. ground (arith, link_at poolid k 0 j m))
        (ground (arith, link_at poolid k 0 k m))

  pub alloc-suc :
      (p : Pool)
      → p.curr_size ≡ 0
      → is_freed p.pointer ≡ false
      → alloc_pool_internal poolid (suc k) (some m) p
        ≡ some (
          record {
            pointer = allocated;
            mem = linked;
            head = some 0;
            curr_size = (suc k + u32 - p.pool_size) % u32;
            pool_size = suc k;
            elem_size = p.elem_size;
          },
          ffsuccess,
        )
  unfolding alloc_pool_internal
  alloc-suc p z unfreed =
      let some_blocks : (suc k == 0) ≡ false = ground arith in
      let last : suc k - 1 ≡ k = omega arith in
      let rounds : k - 0 ≡ k = omega arith in
      let total : 0 + (suc k + u32 - p.pool_size) ≡ suc k + u32 - p.pool_size = omega arith in
      rw (unfreed, some_blocks) (simp (z, last, rounds, total))

get_empty :
    (poolid : ℕ) (memory : Option (ℕ → Block)) (p : Pool)
    → p.head ≡ none
    → get poolid memory p ≡ (
        alloc_pool_internal poolid (p.pool_size * 2 % u32) memory p >>= λ r. take_head r.0.head r.0)
unfolding get
get_empty poolid memory p e = ground arith

module _ {poolid n : ℕ} {live : List ℕ} {p : Pool} (v : IsPool poolid n [] live p) (pos : 0 < n)
    (fits : n + n < u32) (m : ℕ → Block) where
  -- The doubled pool, less its first block.
  abbrev regrown : Pool
  regrown = record {
    pointer = allocated;
    mem = linked poolid (n + n - 1) m;
    head = (linked poolid (n + n - 1) m 0).next;
    curr_size = ((suc (n + n - 1) + u32 - p.pool_size) % u32 + u32 - 1) % u32;
    pool_size = suc (n + n - 1);
    elem_size = p.elem_size;
  }

  get-regrown : get poolid (some m) p ≡ some (0, regrown)
  unfolding take_head
  get-regrown =
      let doubled : p.pool_size * 2 % u32 ≡ suc (n + n - 1) = omega (arith, v.size) in
      get_empty poolid (some m) p v.chain
      ∙ rw (doubled, alloc-suc poolid (n + n - 1) m p v.left (ap is_freed v.given))

  -- When all blocks of a pool are in use, the next ffstorage_pool_get gives block 0 and leaves all
  -- other blocks of the doubled pool on the free list, although every old block is held by a
  -- client.
  pub get_exhausted :
      (q : Pool) × (get poolid (some m) p ≡ some (0, q))
      × Follows (λ i. (q.mem i).next) q.head (range 1 (n + n - 1))
      × ((a : ℕ) → a < n → count a live ≡ 1)
  get_exhausted = (
    regrown,
    get-regrown,
    (linked-Follows poolid (n + n - 1) m).1,
    λ a lt. ground (arith, v.once a),
  )
