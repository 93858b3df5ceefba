-- ===== src/Setup/Pools.antt =====
-- The three pools that ffinit of src/ff.c creates.
use fflib.Base.{
  ◌>>=◌, ℕ, suc, ◌<◌, ◌≡◌, ◌≢◌, refl, ap, ◌∙◌, false, Option, some, List, [], ◌∷◌, arith, range, ℤ,
  ffsuccess,
}
use fflib.Arman.{Arman, Entry}
use fflib.Arman.Stack.{Holds, create-Holds}
use fflib.Storage
use fflib.Storage.{is_freed, Storage, Block, Pool, max_pools, pool_create}
use fflib.Storage.Blocks.{IsPool}
use fflib.Storage.Create.{pool_create-IsPool}
use fflib.Setup.{Host, initial_pool_count}

-- The storage `t` has one more pool than `s`, with the index `i`, all of whose blocks are free.
pub record Grown (i spare : ℕ) (stack : List ℕ) (s t : Storage) : Type 0 where
  pub pool : IsPool i initial_pool_count (range 0 initial_pool_count) [] (t.pools i)
  pub held : Holds t.index_manager stack (suc spare)
  pub others : (j : ℕ) → j ≢ i → t.pools j ≡ s.pools j
  pub slots : t.next_free_pool ≡ s.next_free_pool

module _ {i spare : ℕ} {stack : List ℕ} (s : Storage) (open_slots : s.next_free_pool < max_pools)
    (held : Holds s.index_manager (i ∷ stack) spare) (lt : i < max_pools) (size : ℕ) (m : ℕ → Block)
    (unfreed : is_freed (s.pools i).pointer ≡ false) where
  pub create-Grown :
      (t : Storage) × (pool_create size initial_pool_count (some m) s ≡ some (i, t))
      × Grown i spare stack s t
  create-Grown =
      let (t, done, pool, left, others, slots) =
        pool_create-IsPool size 1023 m s (omega arith) open_slots held lt unfreed in
      (t, done, record { pool = pool; held = left; others = others; slots = slots })

-- The index manager of `ffstorage_init`.
pub init-Holds :
    (m : ℕ → Entry) (s : Storage)
    → (t : Storage) × (Storage.init (some m) s ≡ some (t, ffsuccess))
      × Holds t.index_manager (range 0 max_pools) 0
      × (t.next_free_pool ≡ s.next_free_pool)
      × (t.pools ≡ s.pools)
unfolding Storage.init
init-Holds m s =
    let (a, made, held) = create-Holds max_pools m s.index_manager (omega arith) (omega arith) in
    (
      record s { index_manager = a },
      ap
          (λ (o : Option (Arman × ℤ)).
            o >>= λ (r : Arman × ℤ). some (record s { index_manager = r.0 }, ffsuccess))
          made,
      held,
      refl,
      refl,
    )

-- The three pools at the indices 0, 1 and 2.
pub record Pooled (t : Storage) : Type 0 where
  pub buffers : IsPool 0 initial_pool_count (range 0 initial_pool_count) [] (t.pools 0)
  pub ops : IsPool 1 initial_pool_count (range 0 initial_pool_count) [] (t.pools 1)
  pub schedules : IsPool 2 initial_pool_count (range 0 initial_pool_count) [] (t.pools 2)
  pub held : Holds t.index_manager (range 3 125) 3
  pub open_slots : t.next_free_pool < max_pools

module _ (host : Host) (entries : ℕ → Entry) (buffers ops schedules : ℕ → Block)
    (e : host.pool_entries ≡ some entries) (eb : host.buffer_blocks ≡ some buffers)
    (eo : host.op_blocks ≡ some ops) (es : host.schedule_blocks ≡ some schedules) (s : Storage)
    (open_slots : s.next_free_pool < max_pools)
    (unused : (i : ℕ) → is_freed (s.pools i).pointer ≡ false) where
  pub init-Pooled :
      (s0 s1 s2 t : Storage) × (Storage.init host.pool_entries s ≡ some (s0, ffsuccess))
      × (pool_create host.buffer_size initial_pool_count host.buffer_blocks s0 ≡ some (0, s1))
      × (pool_create host.op_size initial_pool_count host.op_blocks s1 ≡ some (1, s2))
      × (pool_create host.schedule_size initial_pool_count host.schedule_blocks s2 ≡ some (2, t))
      × Pooled t
  init-Pooled =
      rw (e, eb, eo, es)
        (let (s0, made, held, same, kept) = init-Holds entries s in
          let at = λ (i : ℕ). ap (λ (f : ℕ → Pool). is_freed (f i).pointer) kept ∙ unused i in
          let is_clear = λ (p : Pool). is_freed p.pointer in
          let (s1, m1, g1) =
            create-Grown s0 (omega (arith, open_slots, same)) held (omega arith) host.buffer_size
              buffers (at 0) in
          let (s2, m2, g2) =
            create-Grown s1 (omega (arith, open_slots, same, g1.slots)) g1.held (omega arith)
              host.op_size ops (ap is_clear (g1.others 1 (omega arith)) ∙ at 1) in
          let (t, m3, g3) =
            create-Grown s2 (omega (arith, open_slots, same, g1.slots, g2.slots)) g2.held
              (omega arith) host.schedule_size schedules
              (ap is_clear (g2.others 2 (omega arith) ∙ g1.others 2 (omega arith)) ∙ at 2) in
          (
            s0,
            s1,
            s2,
            t,
            made,
            m1,
            m2,
            m3,
            record {
              buffers = rw (g3.others 0 (omega arith), g2.others 0 (omega arith)) g1.pool;
              ops = rw (g3.others 1 (omega arith)) g2.pool;
              schedules = g3.pool;
              held = g3.held;
              open_slots = omega (arith, open_slots, same, g1.slots, g2.slots, g3.slots);
            },
          ))
