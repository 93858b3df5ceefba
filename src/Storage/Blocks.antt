-- ===== src/Storage/Blocks.antt =====
-- src/ffstorage.c within the capacity of a pool: each block is free or in use.
use fflib.Base.{
  ℕ, ◌+◌, ◌-◌, ==→eq, update, ◌%◌, ◌<◌, ◌≡◌, refl, true, false, Option, some, List, [], ◌∷◌, arith,
  inl, inr, length, has, count, erase, count-erase, length-erase, has-count, Follows, Follows-same,
  u32, ltb, ==-refl, if◌then◌else◌, Bool-cases, ◌>>=◌,
}
use fflib.Storage.{Block, Pool, allocated, get, put}

-- A pool of `n` blocks, of which `free` lie on the free list, first one first, and clients hold
-- `live`.
pub record IsPool (poolid n : ℕ) (free live : List ℕ) (p : Pool) : Type 0 where
  pub given : p.pointer ≡ allocated
  pub chain : Follows (λ i. (p.mem i).next) p.head free
  pub size : p.pool_size ≡ n
  pub left : p.curr_size ≡ length free
  pub small : n < u32
  pub total : length free + length live ≡ n
  pub once : (a : ℕ) → count a free + count a live ≡ (if ltb a n then 1 else 0)
  pub owner : (a : ℕ) → a < n → (p.mem a).poolid ≡ poolid

module _ {poolid n : ℕ} {free live : List ℕ} {p : Pool} where
  -- The pool gives the first free block, which nobody holds.
  pub get-IsPool :
      (i : ℕ) (memory : Option (ℕ → Block))
      → IsPool poolid n (i ∷ free) live p
      → (q : Pool) × (get poolid memory p ≡ some (i, q)) × IsPool poolid n free (i ∷ live) q
  unfolding get
  get-IsPool i memory v = (
    record p { head = (p.mem i).next; curr_size = (p.curr_size + u32 - 1) % u32 },
    rw (v.chain.0, v.given) refl,
    record {
      given = v.given;
      chain = v.chain.1;
      size = v.size;
      left = ground (arith, v);
      small = v.small;
      total = ground (arith, v);
      once = λ a. ground (arith, v.once a);
      owner = v.owner;
    },
  )

  -- A block that comes back is the first free one.
  pub put-IsPool :
      (i : ℕ)
      → IsPool poolid n free live p
      → has i live ≡ true
      → (q : Pool) × (put i p ≡ some q)
        × IsPool poolid n (i ∷ free) (erase i live) q
        × ((a : ℕ) → (q.mem a).poolid ≡ (p.mem a).poolid)
  unfolding put
  put-IsPool i v held =
      let used = has-count i live held in
      let back : Pool = record p {
        mem = update p.mem i (record (p.mem i) { next = p.head });
        head = some i;
        curr_size = (p.curr_size + 1) % u32;
      } in
      (
        back,
        rw v.given refl,
        record {
          given = v.given;
          chain = (
            refl,
            rw (==-refl i) (
                Follows-same _ _ p.head free (λ x m. ground (arith, has-count x free m, v.once i))
                  v.chain),
          );
          size = v.size;
          left = ground (arith, v, length-erase i live held);
          small = v.small;
          total = omega (arith, v.total, length-erase i live held);
          once = λ a. ground (arith, v.once a, count-erase a i live held);
          owner = λ a lt. ground (arith, v.owner a lt);
        },
        λ a. ground (arith, ==→eq a i),
      )

-- A pool, and the blocks that its clients hold.
pub record World : Type 0 where
  pub pool : Pool
  pub live : List ℕ

pub data Call : Type 0 where
  take : Call
  give : ℕ → Call

module _ (poolid n : ℕ) (memory : Option (ℕ → Block)) where
  -- A client that holds all `n` blocks asks for no more, and gives back only what it holds.
  unfoldable pub step : World → Call → Option World
  step w take =
      if ltb (length w.live) n
      then (get poolid memory w.pool >>= λ r. some (record { pool = r.1; live = r.0 ∷ w.live }))
      else some w
  step w (give i) =
      let given = put i w.pool >>= λ p. some (record { pool = p; live = erase i w.live }) in
      if has i w.live then given else some w

  unfoldable pub run : World → List Call → Option World
  run w [] = some w
  run w (c ∷ cs) = step w c >>= λ w'. run w' cs

  abbrev pub IsSound : World → Type 0
  IsSound w = (free : List ℕ) × IsPool poolid n free w.live w.pool

  take-IsSound :
      (w : World) (free : List ℕ)
      → IsPool poolid n free w.live w.pool
      → (w' : World) × (step w take ≡ some w') × IsSound w'
  unfolding step
  take-IsSound w [] v =
      let full : ltb (length w.live) n ≡ false = ground (arith, v) in (w, rw full, ([], v))
  take-IsSound w (i ∷ free) v =
      let room : ltb (length w.live) n ≡ true = ground (arith, v) in
      let (q, done, v') = get-IsPool i memory v in
      (record { pool = q; live = i ∷ w.live }, rw (room, done), (free, v'))

  give-IsSound :
      (w : World) (i : ℕ) → IsSound w → (w' : World) × (step w (give i) ≡ some w') × IsSound w'
  unfolding step
  give-IsSound w i (free, v) = elim (Bool-cases (has i w.live)) [
    | inl held ↦
        let (q, back, v', owners) = put-IsPool i v held in
        (record { pool = q; live = erase i w.live }, rw (held, back) refl, (i ∷ free, v'))
    | inr other ↦ (w, rw other, (free, v))
  ]

  -- While the clients of a pool hold no more than the n blocks that it was created with and give
  -- back only what they hold, no history of ffstorage_pool_get and ffstorage_pool_put faults, and
  -- each block is with one client or on the free list, once.
  pub run-IsSound :
      (cs : List Call) (w : World) → IsSound w → (w' : World) × (run w cs ≡ some w') × IsSound w'
  unfolding run
  run-IsSound [] w s = (w, refl, s)
  run-IsSound (take ∷ cs) w s =
      let (w1, done, s1) = take-IsSound w s.0 s.1 in rw done (run-IsSound cs w1 s1)
  run-IsSound (give i ∷ cs) w s =
      let (w1, done, s1) = give-IsSound w i s in rw done (run-IsSound cs w1 s1)
