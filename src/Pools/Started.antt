-- ===== src/Pools/Started.antt =====
-- The pools after ffinit of src/ff.c serve the calls that create operations and schedules.
use fflib.Base.{[], arith, range, sym, subst}
use fflib.Buffer.{Memory}
use fflib.Storage.Blocks.{IsPool}
use fflib.Schedule.{System}
use fflib.Setup.{Library, initial_pool_count}
use fflib.Setup.Start.{Started}
use fflib.Pools.{Pooled}
use fflib.Pools.Leak.{IsServed}

module _ {W : Type 0} (l : Library) (system : System W) (memory : Memory) where
  -- The pools of the library, with the operations, schedules and buffers in them.
  abbrev pub pooled : Pooled W
  pooled = record {
    storage = l.storage;
    op_pool = l.op_pool;
    schedule_pool = l.schedule_pool;
    buff_pool = l.buff_pool;
    system = system;
    memory = memory;
  }

  -- All blocks are free.
  pub Started-IsServed :
      Started l
      → IsServed initial_pool_count initial_pool_count
          (range 0 initial_pool_count)
          []
          (range 0 initial_pool_count)
          []
          pooled
  Started-IsServed v = record {
    op_blocks =
        subst (λ i. IsPool i initial_pool_count (range 0 initial_pool_count) [] (l.storage.pools i))
          (sym v.op_pool) v.pooled.ops;
    schedule_blocks =
        subst (λ i. IsPool i initial_pool_count (range 0 initial_pool_count) [] (l.storage.pools i))
          (sym v.schedule_pool) v.pooled.schedules;
    apart = λ e. omega (arith, e, v.op_pool, v.schedule_pool);
  }
