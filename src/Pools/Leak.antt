-- ===== src/Pools/Leak.antt =====
-- Which blocks are in use after `ffschedule_create` and `ffschedule_delete` of src/ffschedule.c.
use fflib.Base.{
  ℕ, ◌<◌, ◌≡◌, ◌≢◌, refl, sym, ◌∙◌, subst, true, Option, some, List, ◌∷◌, arith, ℤ, ffsuccess, has,
  erase, has-count, ==-refl, ==-ne,
}
use fflib.Storage.{Storage, Block, pool_get, pool_put, set_pool}
use fflib.Storage.Blocks.{IsPool, get-IsPool, put-IsPool}
use fflib.Schedule.{System, schedule_create, before_delete}
use fflib.Pools.{Pooled, create_schedule, delete_schedule}

module _ {n : ℕ} (s : Storage) where
  -- A pool gives its first free block; the others stay.
  pool_get-IsPool :
      {free live : List ℕ} (poolid i : ℕ) (memory : Option (ℕ → Block))
      → IsPool poolid n (i ∷ free) live (s.pools poolid)
      → (t : Storage) × (pool_get poolid memory s ≡ some (i, t))
        × IsPool poolid n free (i ∷ live) (t.pools poolid)
        × ((j : ℕ) → j ≢ poolid → t.pools j ≡ s.pools j)
  unfolding pool_get
  pool_get-IsPool poolid i memory v =
      let (q, done, w) = get-IsPool i memory v in
      (
        set_pool s poolid q,
        rw done refl,
        rw (==-refl poolid) w,
        λ j ne. rw (==-ne j poolid ne) refl,
      )

  pool_put-IsPool :
      {free live : List ℕ} (poolid i : ℕ)
      → IsPool poolid n free live (s.pools poolid)
      → has i live ≡ true
      → (t : Storage) × (pool_put poolid i s ≡ some t)
        × IsPool poolid n (i ∷ free) (erase i live) (t.pools poolid)
        × ((j : ℕ) → j ≢ poolid → t.pools j ≡ s.pools j)
  unfolding pool_put
  pool_put-IsPool {free} {live} poolid i v held =
      let lt : i < n = ground (arith, v.once i, has-count i live held) in
      let owner = v.owner i lt in
      let (q, done, w, owners) = put-IsPool i v held in
      (
        set_pool s poolid q,
        rw (v.given, owner, done) refl,
        rw (==-refl poolid) w,
        λ j ne. rw (==-ne j poolid ne) refl,
      )

-- The free blocks and those in use, of operations and of schedules.
pub record IsServed {W : Type 0} (n m : ℕ) (ops used schedules running : List ℕ) (y : Pooled W)
    : Type 0 where
  pub op_blocks : IsPool y.op_pool n ops used (y.storage.pools y.op_pool)
  pub schedule_blocks : IsPool y.schedule_pool m schedules running (y.storage.pools y.schedule_pool)
  pub apart : y.op_pool ≢ y.schedule_pool

module _ {W : Type 0} {n m b e h : ℕ} {ops used schedules running : List ℕ} (y : Pooled W) where
  pub create_schedule-IsServed :
      (memory begin_memory end_memory : Option (ℕ → Block))
      → IsServed n m (b ∷ e ∷ ops) used (h ∷ schedules) running y
      → (z : Pooled W) × (create_schedule memory begin_memory end_memory y ≡ some (z, h, ffsuccess))
        × IsServed n m ops (e ∷ b ∷ used) schedules (h ∷ running) z
        × (z.system ≡ (schedule_create h b e y.system).0)
  unfolding create_schedule
  create_schedule-IsServed memory begin_memory end_memory v =
      let (s1, one, pool1, same1) =
        pool_get-IsPool y.storage y.schedule_pool h memory v.schedule_blocks in
      let (s2, two, pool2, same2) = pool_get-IsPool s1 y.op_pool b begin_memory (
        subst (IsPool y.op_pool n (b ∷ e ∷ ops) used) (sym (same1 y.op_pool v.apart))
          v.op_blocks) in
      let (s3, three, pool3, same3) = pool_get-IsPool s2 y.op_pool e end_memory pool2 in
      let back : y.schedule_pool ≢ y.op_pool = λ x. v.apart (sym x) in
      (
        record y { storage = s3; system = (schedule_create h b e y.system).0 },
        rw (one, two, three) refl,
        record {
          op_blocks = pool3;
          schedule_blocks =
              subst (IsPool y.schedule_pool m schedules (h ∷ running))
                (sym (same3 y.schedule_pool back ∙ same2 y.schedule_pool back)) pool1;
          apart = v.apart;
        },
        refl,
      )

module _ {W : Type 0} (impl_post : ℕ → ℕ → W → W × ℤ) (call : ℕ → ℕ → System W → System W × ℤ)
    {n m h : ℕ} {ops used schedules running : List ℕ} (y : Pooled W) where
  pub delete_schedule-IsServed :
      IsServed n m ops used schedules running y
      → has h running ≡ true
      → (z : Pooled W) × (delete_schedule impl_post call h y ≡ some (z, ffsuccess))
        × IsServed n m ops used (h ∷ schedules) (erase h running) z
  unfolding delete_schedule
  delete_schedule-IsServed v held =
      let (s, done, pool, same) =
        pool_put-IsPool y.storage y.schedule_pool h v.schedule_blocks held in
      (
        record y { storage = s; system = before_delete impl_post call h y.system },
        rw done refl,
        record {
          op_blocks =
              subst (IsPool y.op_pool n ops used) (sym (same y.op_pool v.apart)) v.op_blocks;
          schedule_blocks = pool;
          apart = v.apart;
        },
      )

-- With a free block for the schedule and two for operations, ffschedule_create followed by
-- ffschedule_delete succeeds and leaves the block of the schedule free as before, but the begin and
-- the end of the schedule in use for ever.
pub delete_schedule-create_schedule :
    {W : Type 0} (impl_post : ℕ → ℕ → W → W × ℤ) (call : ℕ → ℕ → System W → System W × ℤ)
    (memory begin_memory end_memory : Option (ℕ → Block)) (n m b e h : ℕ)
    (ops used schedules running : List ℕ) (y : Pooled W)
    → IsServed n m (b ∷ e ∷ ops) used (h ∷ schedules) running y
    → (z : Pooled W) × (create_schedule memory begin_memory end_memory y ≡ some (z, h, ffsuccess))
      × (u : Pooled W) × (delete_schedule impl_post call h z ≡ some (u, ffsuccess))
      × IsServed n m ops (e ∷ b ∷ used) (h ∷ schedules) running u
unfolding erase
delete_schedule-create_schedule impl_post call memory begin_memory end_memory n m b e h ops used
      schedules running y v =
    let (z, done, w, system) = create_schedule-IsServed y memory begin_memory end_memory v in
    let held : has h (h ∷ running) ≡ true = ground (arith, ==-refl h) in
    let first : erase h (h ∷ running) ≡ running = ground (arith, ==-refl h) in
    let (u, deleted, back) = delete_schedule-IsServed impl_post call z w held in
    (
      z,
      done,
      u,
      deleted,
      subst (λ l. IsServed n m ops (e ∷ b ∷ used) (h ∷ schedules) l u) first back,
    )
