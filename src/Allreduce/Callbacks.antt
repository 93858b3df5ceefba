-- ===== src/Allreduce/Callbacks.antt =====
-- The callbacks of the schedule of src/colls/ffallreduce.c: `ffallreduce_post_check` and
-- `ffallreduce_free`.
use fflib.Base.{
  ℕ, zero, suc, ◌+◌, Bool, true, not, ◌&&◌, ◌||◌, Option, some, ℤ, pos, negsuc, ffsuccess,
  ffinvalid_arg, int_eq, ltb, ◌==◌, if◌then◌else◌, ◌>>=◌,
}
use fflib.Buffer.{Buffer, Memory}
use fflib.Buffer
use fflib.Calls.{Alloc}
use fflib.Allreduce.{Site, Step, set_reduction}

-- The loop of `ffallreduce_free` over the temporary buffers, from `i` on.
unfoldable pub delete_tmpbuffs : (handles : ℕ → ℕ) (i k : ℕ) → Memory → Option Memory
delete_tmpbuffs handles i zero m = some m
delete_tmpbuffs handles i (suc k) m =
    Buffer.delete (handles i) m >>= λ n. delete_tmpbuffs handles (i + 1) k n

module _ {W : Type 0} where
  -- The loop of `ffallreduce_post_check` over the temporary buffers, from `i` on; the result of
  -- `ffbuffer_resize` is ignored.
  unfoldable pub resize_tmpbuffs :
      (tmp : ℕ → Alloc) (handles : ℕ → ℕ) (count : ℕ) (datatype : ℤ) (i k : ℕ) → Step W
  resize_tmpbuffs tmp handles count datatype i zero y = some y
  resize_tmpbuffs tmp handles count datatype i (suc k) y =
      Buffer.resize (tmp i).new_junk (tmp i).old_junk (tmp i).answer (handles i) 0 count datatype
        y.memory
      >>= λ r. resize_tmpbuffs tmp handles count datatype (i + 1) k (record y { memory = r.0 })

  -- `ffallreduce_post_check` and `ffallreduce_free`, with the state that the schedule has. A count
  -- below 2 ^ 31 is the same as an `int`.
  unfoldable pub post_check : (tmp : ℕ → Alloc) (sched : ℕ) → Site W → Option (Site W × ℤ)
  unfolding resize_tmpbuffs
  post_check tmp sched y = (y.system.schedules sched).state >>= λ p.
      let x = y.reductions p in
      let s = y.memory.buffers x.sndbuff in
      let r = y.memory.buffers x.rcvbuff in
      let own = not (x.sndbuff == 0) in
      let grown = resize_tmpbuffs tmp x.tmpbuffs r.count r.datatype 0 x.tmpbuffs_count y >>= λ z.
      set_reduction p (record x { count = pos r.count }) z >>= λ u. some (u, ffsuccess) in
      if (own && not (int_eq s.datatype r.datatype)) || not (int_eq r.datatype x.datatype)
      then some (y, ffinvalid_arg)
      else if own && not (s.count == r.count)
      then some (y, ffinvalid_arg)
      else if is_above r.count x.count
      then grown
      else some (y, ffsuccess)
    where
      is_above : ℕ → ℤ → Bool
      is_above n (pos k) = ltb k n
      is_above n (negsuc k) = true

  unfoldable pub free : (sched : ℕ) → Site W → Option (Site W × ℤ)
  unfolding delete_tmpbuffs
  free sched y = (y.system.schedules sched).state >>= λ p.
      let x = y.reductions p in
      delete_tmpbuffs x.tmpbuffs 0 x.tmpbuffs_count y.memory >>= λ m.
      (if x.free_sr_buff && not (x.sndbuff == 0) then Buffer.delete x.sndbuff m else some m)
      >>= λ n. (if x.free_sr_buff then Buffer.delete x.rcvbuff n else some n) >>= λ o.
          some (record y { memory = o }, ffsuccess)
