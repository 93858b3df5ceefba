-- ===== src/Gcomp/Post.antt =====
-- src/components/gcomp/ffop_gcomp.c: a computation is done when it is posted.
-- The spin lock of the destination makes the computation one step. `none`: NULL is read or called,
-- or an access lies outside an array.
pub mod Accumulate
use fflib.Base.{
  ℕ, ◌%◌, u32, Bool, true, false, Option, none, some, ℤ, ffsuccess, ffcompleted, int_eq, ltb, ◌==◌,
  if◌then◌else◌, ◌>>=◌,
}
use fflib.Buffer.{Buffer, ffbuffer_ptr}
use fflib.Gcomp.Operator.{Operator, Operators, get}
use fflib.Gcomp.Sum.{operator_sum, operator_copy}

-- `ffcomp_t`; a buffer is its handle, FFBUFF_NONE is 0.
pub record Comp : Type 0 where
  pub buffer1 : ℕ
  pub buffer2 : ℕ
  pub buffer3 : ℕ
  pub operator_type : ℤ
  pub operator : Operator

-- MAX_BUFFER_COUNT
abbrev pub max_buffer_count : ℕ
max_buffer_count = 3

-- GETBUFFER, with the set `mem` of addresses, or NULL
unfoldable pub get_buffer : Buffer → Option (ℕ → ℕ) → Option ℕ
get_buffer b mem =
    if b.type == ffbuffer_ptr
    then some b.word
    else (mem >>= λ set.
        if ltb (b.word % u32) max_buffer_count then some (set (b.word % u32)) else none)

-- MIN
abbrev pub min3 : ℕ → ℕ → ℕ → ℕ
min3 a b c = if ltb (if ltb a b then a else b) c then (if ltb a b then a else b) else c

-- `ffop_gcomp_init`
unfoldable pub gcomp_init : Operators → Comp → Option (Comp × ℤ)
unfolding get
gcomp_init s c = get c.operator_type s >>= λ r.
    some (elim r.0 [ none ↦ (c, r.1) | some d ↦ (record c { operator = d }, r.1) ])

-- The calls of a function by its number: the two of the library, or one of the user.
abbrev pub apply :
    {V : Type 0} (sum_fun copy_fun fuel : ℕ) (add : ℤ → V → V → V)
    (user : ℕ → (a b c size : ℕ) → ℤ → (ℕ → V) → Option ((ℕ → V) × ℤ))
    → ℕ
    → (a b c size : ℕ) → ℤ
    → (ℕ → V)
    → Option ((ℕ → V) × ℤ)
apply sum_fun copy_fun fuel add user f a b c size type m =
    if f == sum_fun
    then operator_sum add fuel a b c size type m
    else if f == copy_fun
    then operator_copy a c size type m
    else user f a b c size type m

-- `ffop_gcomp_post`
unfoldable pub gcomp_post :
    {V : Type 0} (call : ℕ → (a b c size : ℕ) → ℤ → (ℕ → V) → Option ((ℕ → V) × ℤ))
    → (ℕ → Buffer)
    → Option (ℕ → ℕ)
    → Comp
    → (ℕ → V)
    → Option ((ℕ → V) × ℤ)
unfolding get_buffer
gcomp_post call buffers mem comp m =
    let b1 = buffers comp.buffer1 in
    let b3 = buffers comp.buffer3 in
    let second : Option (ℕ × ℕ) =
      if comp.buffer2 == 0
      then some (0, b1.count)
      else get_buffer (buffers comp.buffer2) mem >>= λ p. some (p, (buffers comp.buffer2).count) in
    get_buffer b1 mem >>= λ buffer1. second >>= λ r2. get_buffer b3 mem >>= λ buffer3.
    comp.operator.op_fun >>= λ f.
    call f buffer1 r2.0 buffer3 (min3 b1.count r2.1 b3.count) b1.datatype m >>= λ r.
    some (r.0, if int_eq r.1 ffsuccess then ffcompleted else r.1)
