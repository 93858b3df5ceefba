-- ===== src/Buffer.antt =====
-- src/ffbuffer.c, ffbuffer.h and src/ffdatatype.c: the descriptors of the buffers and their memory.
-- A pointer is a number, NULL is 0. What `malloc` and `realloc` answer, and what an uninitialised
-- variable holds, are arguments. `none`: an assertion fails, or the behaviour is undefined.
pub mod Own
pub mod Life
use fflib.Base.{
  ℕ, zero, suc, ◌+◌, ◌*◌, ◌/◌, ◌%◌, ◌^◌, Bool, true, false, ◌||◌, Option, none, some, ℤ, pos,
  ffsuccess, ffenomem, ffinvalid_arg, int_eq, u32, ltb, ◌==◌, update, if◌then◌else◌, ◌>>=◌, bit_and,
}

abbrev pub ffint32 : ℤ
ffint32 = pos 0

abbrev pub ffint64 : ℤ
ffint64 = pos 1

abbrev pub ffdouble : ℤ
ffdouble = pos 2

abbrev pub fffloat : ℤ
fffloat = pos 3

abbrev pub ffdatatype_none : ℤ
ffdatatype_none = pos 5

abbrev pub ffbuffer_ptr : ℕ
ffbuffer_ptr = 32

abbrev pub ffbuffer_idx : ℕ
ffbuffer_idx = 64

-- The switch of `ffdatatype_size`; `none` is its default.
abbrev pub unitsize : ℤ → Option ℕ
unitsize d =
    if int_eq d ffint32
    then some 4
    else if int_eq d ffint64
    then some 8
    else if int_eq d ffdouble
    then some 8
    else if int_eq d fffloat
    then some 4
    else if int_eq d ffdatatype_none
    then some 0
    else none

-- `ffdatatype_size`: what `*size` holds afterwards, when it holds `old` before.
unfoldable pub datatype_size : ℤ → ℕ → ℕ × ℤ
datatype_size d old = elim (unitsize d) [ none ↦ (old, ffinvalid_arg) | some n ↦ (n, ffsuccess) ]

-- `ffbuffer_t`; `word` is the union of `ptr` and `idx`, whose lower half is `idx`.
pub record Buffer : Type 0 where
  pub type : ℕ
  pub selfalloc : Bool
  pub word : ℕ
  pub count : ℕ
  pub datatype : ℤ
  pub options : ℕ

-- The descriptors, and the bytes of each block on the heap by its address.
pub record Memory : Type 0 where
  pub buffers : ℕ → Buffer
  pub heap : ℕ → Option ℕ

-- `free`
unfoldable pub free : ℕ → (ℕ → Option ℕ) → Option (ℕ → Option ℕ)
free p heap = if p == 0 then some heap else (heap p >>= λ n. some (update heap p none))

-- `realloc`, when it answers `a`; on NULL the old block stays.
unfoldable pub realloc : (a p n : ℕ) → (ℕ → Option ℕ) → Option (ℕ → Option ℕ)
unfolding free
realloc a p n heap =
    if a == 0 then some heap else (free p heap >>= λ rest. some (update rest a (some n)))

abbrev pub set_buffer : ℕ → Buffer → (ℕ → Option ℕ) → Memory → Memory
set_buffer h b heap m = record { buffers = update m.buffers h b; heap = heap }

-- `ffbuffer_resize`; `a` is the answer of `realloc`, `new_junk` and `old_junk` are in the
-- variables `new_unitsize` and `old_unitsize`. Its assertion compares 0 or 1 with FFBUFFER_IDX and
-- never fails.
unfoldable pub resize :
    (new_junk old_junk a : ℕ) (handle addr new_count : ℕ) → ℤ → Memory → Option (Memory × ℤ)
unfolding datatype_size realloc free
resize new_junk old_junk a handle addr new_count new_datatype m =
    let b = m.buffers handle in
    let new_unitsize = (datatype_size new_datatype new_junk).0 in
    let old_unitsize = (datatype_size b.datatype old_junk).0 in
    let bytes = new_count * new_unitsize % 2 ^ 64 in
    if addr == 0
    then if b.word == 0 || ltb (b.count * old_unitsize % 2 ^ 64) bytes
      then (realloc a b.word bytes m.heap >>= λ heap. some (
          if a == 0 then (set_buffer handle (record b { word = 0 }) heap m, ffenomem) else (
            set_buffer handle (record b { word = a; count = new_count; datatype = new_datatype })
                heap m,
            ffsuccess,
          )))
      else some (
        set_buffer handle (record b { count = new_count; datatype = new_datatype }) m.heap m,
        ffsuccess,
      )
    else ((if b.selfalloc then free b.word m.heap else some m.heap) >>= λ heap. some (
      set_buffer handle (record b { word = addr; count = new_count; datatype = new_datatype }) heap
          m,
      ffsuccess,
    ))

-- `ffbuffer_create`, at the block `h` of the pool of buffers; `read` reads a `uint32_t`. On an error
-- of `ffbuffer_resize` the address of the caller's variable goes to `ffstorage_pool_put`: undefined.
unfoldable pub create :
    (read : ℕ → ℕ) (new_junk old_junk a : ℕ) (h addr count : ℕ)
    → ℤ
    → ℕ
    → Memory
    → Option (Memory × ℤ)
unfolding resize
create read new_junk old_junk a h addr count datatype options m =
    let selfalloc = addr == 0 in
    let b : Buffer = record {
      type = ffbuffer_ptr;
      selfalloc = selfalloc;
      word = addr;
      count = count;
      datatype = datatype;
      options = options;
    } in
    if bit_and options ffbuffer_idx == ffbuffer_idx
    then if selfalloc
      then none
      else some (
        set_buffer h (record b { type = ffbuffer_idx; word = addr / u32 * u32 + read addr % u32 })
            m.heap m,
        ffsuccess,
      )
    else (resize new_junk old_junk a h addr count datatype
          (set_buffer h (record b { datatype = ffdatatype_none }) m.heap m)
        >>= λ r. if int_eq r.1 ffsuccess then some r else none)

-- `ffbuffer_get_data`; its first assertion never fails either.
unfoldable pub get_data : ℕ → Memory → Option (ℕ × ℤ)
get_data handle m =
    if (m.buffers handle).word == 0 then none else some ((m.buffers handle).word, ffsuccess)

-- `ffbuffer_get_size`
unfoldable pub get_size : ℕ → Memory → ℕ × ℤ × ℤ
get_size handle m = ((m.buffers handle).count, (m.buffers handle).datatype, ffsuccess)

-- `ffbuffer_delete`, up to the return of the block to the pool.
unfoldable pub delete : ℕ → Memory → Option Memory
unfolding free
delete handle m =
    (if (m.buffers handle).selfalloc then free (m.buffers handle).word m.heap else some m.heap)
    >>= λ heap. some (record m { heap = heap })
