-- ===== src/Pools.antt =====
-- The calls of src/ffop.c, src/ffschedule.c and src/ffbuffer.c that take a block from a pool or give one back.
-- What is created is known by the position of its block in its pool.
pub mod Leak
pub mod Started
use fflib.Base.{ℕ, Option, none, some, ℤ, ffsuccess, ◌>>=◌}
use fflib.Op.{State, create}
use fflib.Storage.{Storage, Block, pool_get, pool_put}
use fflib.Buffer
use fflib.Buffer.{Memory}
use fflib.Schedule.{System, schedule_create, before_delete}

-- The pools and what lies in them.
pub record Pooled (W : Type 0) : Type 0 where
  pub storage : Storage
  pub op_pool : ℕ
  pub schedule_pool : ℕ
  pub buff_pool : ℕ
  pub system : System W
  pub memory : Memory

module _ {W : Type 0} where
  -- `ffop_create`; `memory` is what `realloc` returns when the pool is exhausted.
  unfoldable pub op_create : Option (ℕ → Block) → Pooled W → Option (Pooled W × ℕ × ℤ)
  op_create memory y = pool_get y.op_pool memory y.storage >>= λ r. some (
    record y { storage = r.1; system = record y.system { state = create r.0 y.system.state } },
    r.0,
    ffsuccess,
  )

  -- `ffop_free`
  unfoldable pub op_free : ℕ → Pooled W → Option (Pooled W × ℤ)
  op_free p y = pool_put y.op_pool p y.storage >>= λ s. some (record y { storage = s }, ffsuccess)

  -- `ffschedule_create`, with the two calls of `ffnop`.
  unfoldable pub create_schedule :
      (memory begin_memory end_memory : Option (ℕ → Block)) → Pooled W → Option (Pooled W × ℕ × ℤ)
  create_schedule memory begin_memory end_memory y =
      pool_get y.schedule_pool memory y.storage >>= λ h.
      pool_get y.op_pool begin_memory h.1 >>= λ b. pool_get y.op_pool end_memory b.1 >>= λ e. some (
        record y { storage = e.1; system = (schedule_create h.0 b.0 e.0 y.system).0 },
        h.0,
        ffsuccess,
      )

  -- `ffschedule_delete`; `call` calls the callback.
  unfoldable pub delete_schedule :
      (impl_post : ℕ → ℕ → W → W × ℤ) (call : ℕ → ℕ → System W → System W × ℤ)
      → ℕ
      → Pooled W
      → Option (Pooled W × ℤ)
  delete_schedule impl_post call h y = pool_put y.schedule_pool h y.storage >>= λ s.
      some (record y { storage = s; system = before_delete impl_post call h y.system }, ffsuccess)

  -- `ffbuffer_create`: the handle, and the code. The other arguments are those of Buffer.create.
  unfoldable pub create_buffer :
      (memory : Option (ℕ → Block)) (read : ℕ → ℕ) (new_junk old_junk answer : ℕ) (addr count : ℕ)
      (datatype : ℤ) (options : ℕ)
      → Pooled W
      → Option (Pooled W × ℕ × ℤ)
  create_buffer memory read new_junk old_junk answer addr count datatype options y =
      pool_get y.buff_pool memory y.storage >>= λ h.
      Buffer.create read new_junk old_junk answer h.0 addr count datatype options y.memory >>= λ r.
      some (record y { storage = h.1; memory = r.0 }, h.0, r.1)

  -- `ffbuffer_delete`
  unfoldable pub delete_buffer : ℕ → Pooled W → Option (Pooled W × ℤ)
  delete_buffer h y = Buffer.delete h y.memory >>= λ m. pool_put y.buff_pool h y.storage >>= λ s.
      some (record y { memory = m; storage = s }, ffsuccess)
