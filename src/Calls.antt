-- ===== src/Calls.antt =====
-- The calls of the user that create operations: src/ffsend.c, src/ffrecv.c and src/ffcomp.c.
-- The blocks that the pools give are arguments. `none`: the behaviour is undefined.
pub mod Fresh
use fflib.Base.{
  ℕ, zero, suc, ◌+◌, ◌-◌, ◌%◌, Option, none, some, ℤ, pos, negsuc, ffsuccess, ffcompleted, int_eq,
  u32, update, if◌then◌else◌, ◌>>=◌, bit_xor,
}
use fflib.Op.{Op, State, create}
use fflib.Buffer.{Memory}
use fflib.Buffer
use fflib.Gcomp.Operator.{Operator, Operators}
use fflib.Gcomp.Post.{Comp, gcomp_init}

abbrev pub type_send : ℕ
type_send = 0

abbrev pub type_recv : ℕ
type_recv = 1

abbrev pub type_comp : ℕ
type_comp = 2

-- An `int` as a `uint32_t`
abbrev pub as_u32 : ℤ → ℕ
as_u32 (pos n) = n % u32
as_u32 (negsuc n) = u32 - 1 - n % u32

-- `ffsend_t` and `ffrecv_t`
pub record Transfer : Type 0 where
  pub peer : ℕ
  pub tag : ℕ
  pub buffer : ℕ

-- The union in `struct ffop`.
pub data Payload : Type 0 where
  send : Transfer → Payload
  recv : Transfer → Payload
  comp : Comp → Payload
  other : Payload

pub record World (W : Type 0) : Type 0 where
  pub state : State W
  pub payloads : ℕ → Payload
  pub memory : Memory

module _ {W : Type 0} where
  -- A new operation at the block `p`, with its type and its options: `op->options ^= options`.
  unfoldable pub typed : (p type options : ℕ) → State W → State W
  unfolding create
  typed p type options s =
      let t = create p s in
      record t {
        ops =
            update t.ops p
              (record (t.ops p) { type = type; options = bit_xor (t.ops p).options options });
      }

  -- `ffsend_b` and `ffrecv_b`; the initialisation of both is `ffop_mpi_init`, which succeeds.
  unfoldable pub send_b : (p buffer : ℕ) (dest tag : ℤ) (options : ℕ) → World W → World W × ℤ
  unfolding typed
  send_b p buffer dest tag options y = (
    record y {
      state = typed p type_send options y.state;
      payloads =
          update y.payloads p
            (send (record { peer = as_u32 dest; tag = as_u32 tag; buffer = buffer }));
    },
    ffsuccess,
  )

  unfoldable pub recv_b : (p buffer : ℕ) (source tag : ℤ) (options : ℕ) → World W → World W × ℤ
  unfolding typed
  recv_b p buffer source tag options y = (
    record y {
      state = typed p type_recv options y.state;
      payloads =
          update y.payloads p
            (recv (record { peer = as_u32 source; tag = as_u32 tag; buffer = buffer }));
    },
    ffsuccess,
  )

  -- `ffcomp_b`; `old` is what the block holds as the descriptor of the operator.
  unfoldable pub comp_b :
      (operators : Operators) (old : Operator) (p buffer1 buffer2 : ℕ) (operator : ℤ)
      (options buffer3 : ℕ)
      → World W
      → Option (World W × ℤ)
  unfolding typed gcomp_init
  comp_b operators old p buffer1 buffer2 operator options buffer3 y =
      let c : Comp = record {
        buffer1 = buffer1;
        buffer2 = buffer2;
        buffer3 = buffer3;
        operator_type = operator;
        operator = old;
      } in
      gcomp_init operators c >>= λ r. some (
        record y {
          state = typed p type_comp options y.state;
          payloads = update y.payloads p (comp r.0);
        },
        r.1,
      )

-- What is open in a call of `ffbuffer_create`: the reads, the junk, the answer of `realloc`, the block.
pub record Alloc : Type 0 where
  pub read : ℕ → ℕ
  pub new_junk : ℕ
  pub old_junk : ℕ
  pub answer : ℕ
  pub block : ℕ

module _ {W : Type 0} where
  -- FFCALL of `ffbuffer_create`, then `next` with the buffer. The macro assigns the comparison, not
  -- the code, so that an error is returned as 1.
  unfoldable pub with_buffer :
      Alloc
      → (addr : ℕ) (count datatype : ℤ) (options : ℕ) → (World W → Option (World W × ℤ))
      → World W
      → Option (World W × ℤ)
  unfolding Buffer.create
  with_buffer a addr count datatype options next y =
      Buffer.create a.read a.new_junk a.old_junk a.answer a.block addr (as_u32 count) datatype
        options y.memory
      >>= λ r.
          let z = record y { memory = r.0 } in
          let rest = next z in if int_eq r.1 ffsuccess then rest else some (z, ffcompleted)

  -- `ffsend`, `ffrecv` and `ffcomp`
  unfoldable pub send_call :
      Alloc
      → (p addr : ℕ) (count datatype dest tag : ℤ) (options : ℕ) → World W
      → Option (World W × ℤ)
  unfolding with_buffer send_b
  send_call a p addr count datatype dest tag options y =
      with_buffer a addr count datatype options (λ z. some (send_b p a.block dest tag options z)) y

  unfoldable pub recv_call :
      Alloc
      → (p addr : ℕ) (count datatype source tag : ℤ) (options : ℕ) → World W
      → Option (World W × ℤ)
  unfolding with_buffer recv_b
  recv_call a p addr count datatype source tag options y =
      with_buffer a addr count datatype options (λ z. some (recv_b p a.block source tag options z))
        y

  unfoldable pub comp_call :
      (operators : Operators) (old : Operator) (a1 a2 a3 : Alloc) (p addr1 addr2 : ℕ)
      (count datatype operator : ℤ) (options addr3 : ℕ)
      → World W
      → Option (World W × ℤ)
  unfolding with_buffer comp_b
  comp_call operators old a1 a2 a3 p addr1 addr2 count datatype operator options addr3 y =
      with_buffer a1 addr1 count datatype options
        (with_buffer a2 addr2 count datatype options (
          with_buffer a3 addr3 count datatype options
            (comp_b operators old p a1.block a2.block operator options a3.block)))
        y
