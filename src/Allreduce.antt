-- ===== src/Allreduce.antt =====
-- src/colls/ffallreduce.c with FFALLREDUCE_REC_DOUBLING: the schedule of an allreduce.
-- The codes that the function ignores are ignored; the blocks that the pools and `malloc` give are
-- the record `Blocks`. `none`: an assertion fails, or the behaviour is undefined.
pub mod Rounds
pub mod Callbacks
pub mod Graph
pub mod Values
use fflib.Base.{
  ℕ, zero, suc, ◌+◌, ◌*◌, ◌-◌, ◌%◌, ◌^◌, Bool, true, false, not, ◌&&◌, ◌||◌, Option, none, some,
  List, [], ◌∷◌, ℤ, pos, negsuc, ffsuccess, ffinvalid_arg, int_eq, u32, ltb, ◌==◌, update,
  if◌then◌else◌, ◌>>=◌, bit_and, bit_xor,
}
use fflib.Op.{State, hb}
use fflib.Buffer.{Buffer, Memory}
use fflib.Buffer
use fflib.Gcomp.Operator.{Operator, Operators}
use fflib.Schedule.{
  System, nop, schedule_create, set_state, set_post_callback, set_delete_callback, add_op,
}
use fflib.Calls.{World, Alloc, Payload, as_u32, send_b, recv_b, comp_b}

abbrev pub ffinplace : ℕ
ffinplace = 1

abbrev pub ffcoll_buffers : ℕ
ffcoll_buffers = 128

abbrev pub ffcomp_dest_atomic : ℕ
ffcomp_dest_atomic = 16

-- `allreduce_state_t`; a buffer is its handle, FFBUFF_NONE is 0.
pub record Reduction : Type 0 where
  pub tmpbuffs : ℕ → ℕ
  pub sndbuff : ℕ
  pub rcvbuff : ℕ
  pub count : ℤ
  pub datatype : ℤ
  pub tmpbuffs_count : ℕ
  pub free_sr_buff : Bool

-- The library on one rank, and the states of the reductions by their addresses.
pub record Site (W : Type 0) : Type 0 where
  pub system : System W
  pub payloads : ℕ → Payload
  pub memory : Memory
  pub reductions : ℕ → Reduction

-- The blocks and the answers of `realloc` in one call of `ffallreduce`.
pub record Blocks : Type 0 where
  pub sched : ℕ
  pub begin_op : ℕ
  pub end_op : ℕ
  pub state : ℕ
  pub tmp : ℕ → Alloc
  pub snd : Alloc
  pub rcv : Alloc
  pub move : ℕ
  pub send : ℕ → ℕ
  pub recv : ℕ → ℕ
  pub comp : ℕ → ℕ
  pub old : Operator

abbrev pub Step : Type 0 → Type 0
Step W = Site W → Option (Site W)

module _ {W : Type 0} where
  abbrev pub in_order : List (Step W) → Step W
  in_order [] y = some y
  in_order (f ∷ fs) y = f y >>= λ z. in_order fs z

  abbrev pub on_state : (State W → Option (State W × ℤ)) → Step W
  on_state f y =
      f y.system.state >>= λ r. some (record y { system = record y.system { state = r.0 } })

  abbrev pub on_system : (System W → Option (System W × ℤ)) → Step W
  on_system f y = f y.system >>= λ r. some (record y { system = r.0 })

  abbrev pub on_world : (World W → Option (World W × ℤ)) → Step W
  on_world f y =
      f (record { state = y.system.state; payloads = y.payloads; memory = y.memory }) >>= λ r.
      some (record y {
        system = record y.system { state = r.0.state };
        payloads = r.0.payloads;
        memory = r.0.memory;
      })

  -- A call of `ffbuffer_create`
  abbrev pub make_buffer : Alloc → (addr : ℕ) (count datatype : ℤ) → Step W
  make_buffer a addr count datatype y =
      Buffer.create a.read a.new_junk a.old_junk a.answer a.block addr (as_u32 count) datatype 0
        y.memory
      >>= λ r. some (record y { memory = r.0 })

  -- The loop that creates the temporary buffers, from `i` on, with `k` rounds left.
  unfoldable pub make_tmpbuffs : (tmp : ℕ → Alloc) (count datatype : ℤ) (i k : ℕ) → Step W
  make_tmpbuffs tmp count datatype i zero y = some y
  make_tmpbuffs tmp count datatype i (suc k) y =
      make_buffer (tmp i) 0 count datatype y >>= λ z. make_tmpbuffs tmp count datatype (i + 1) k z

-- `(int)ceil((log2(n)))`, from the power `p = 2 ^ r` on
unfoldable pub ceil_log2 : (fuel n p r : ℕ) → ℕ
ceil_log2 zero n p r = r
ceil_log2 (suc fuel) n p r = if ltb p n then ceil_log2 fuel n (p * 2) (r + 1) else r

-- The peer of `rank` in the round of `mask`.
abbrev pub partner : ℕ → ℕ → ℕ
partner rank mask = bit_xor rank mask

module _ {W : Type 0} (b : Blocks) (operators : Operators) (csize rank maxr : ℕ) (tag operator : ℤ)
    (rb : ℕ) where
  -- The body of the loop in its `r`-th exchange, with the peer `dst`; `prev` is `comp` before.
  unfoldable pub exchange : (dst r prev : ℕ) → Step W
  exchange dst r prev = in_order (
      on_world (λ y. some (send_b (b.send r) rb (pos dst) tag 0 y))
      ∷ on_state (hb prev (b.send r))
      ∷ on_world (λ y. some (recv_b (b.recv r) (b.tmp r).block (pos dst) tag 0 y))
      ∷ on_world
          (comp_b operators b.old (b.comp r) (b.tmp r).block rb operator ffcomp_dest_atomic rb)
      ∷ on_state (hb (b.send r) (b.comp r))
      ∷ on_state (hb (b.recv r) (b.comp r))
      ∷ on_system (add_op b.sched (b.send r))
      ∷ on_system (add_op b.sched (b.recv r))
      ∷ on_system (add_op b.sched (b.comp r))
      ∷ [])

  -- The loop over the masks. `none`: the fuel is used up, or the assertion on `r` fails.
  unfoldable pub exchanges : (fuel mask r prev : ℕ) → Step W
  exchanges zero mask r prev y = none
  exchanges (suc fuel) mask r prev y =
      let dst = partner rank mask in
      let skip = exchanges fuel (mask * 2) r prev y in
      let go = exchange dst r prev y >>= λ z. exchanges fuel (mask * 2) (r + 1) (b.comp r) z in
      if ltb mask csize
      then if ltb dst csize then (if ltb r maxr then go else none) else skip
      else some y

-- Where the buffers come from: `sndbuff` and `rcvbuff` are addresses of data, or of handles.
abbrev pub in_place : ℕ → Bool
in_place sndbuff = sndbuff == ffinplace

abbrev pub buffers_provided : ℕ → Bool
buffers_provided options = bit_and options ffcoll_buffers == ffcoll_buffers

-- The callback `ffallreduce_post_check` is the number 1, `ffallreduce_free` the number 2.
abbrev pub post_check_callback : ℕ
post_check_callback = 1

abbrev pub free_callback : ℕ
free_callback = 2

module _ {W : Type 0} where
  abbrev pub set_reduction : ℕ → Reduction → Step W
  set_reduction p x y = some (record y { reductions = update y.reductions p x })

  abbrev pub skip : Step W
  skip y = some y

  -- The part of `ffallreduce` that finds or creates the buffers; `handle` reads a handle.
  unfoldable pub find_buffers :
      (b : Blocks) (handle : ℕ → ℕ) (sndbuff rcvbuff : ℕ) (count datatype : ℤ) (options maxr : ℕ)
      → Step W
  find_buffers b handle sndbuff rcvbuff count datatype options maxr =
      let own = not (buffers_provided options) in
      let x : Reduction = record {
        tmpbuffs = λ i. (b.tmp i).block;
        sndbuff = if in_place sndbuff then 0 else if own then b.snd.block else handle sndbuff;
        rcvbuff = if own then b.rcv.block else handle rcvbuff;
        count = count;
        datatype = datatype;
        tmpbuffs_count = maxr;
        free_sr_buff = own;
      } in
      in_order (
        (if own
          then in_order (
              (if in_place sndbuff then skip else make_buffer b.snd sndbuff count datatype)
              ∷ make_buffer b.rcv rcvbuff count datatype
              ∷ [])
          else on_system (λ y. some (set_post_callback b.sched (some post_check_callback) y)))
        ∷ set_reduction b.state x
        ∷ [])

  -- `ffallreduce` on the rank `rank` of `csize`
  unfoldable pub allreduce :
      (b : Blocks) (operators : Operators) (handle : ℕ → ℕ) (csize rank fuel : ℕ)
      (sndbuff rcvbuff : ℕ) (count tag operator datatype : ℤ) (options : ℕ)
      → Site W
      → Option (Site W × ℕ × ℤ)
  unfolding make_tmpbuffs find_buffers exchanges ceil_log2
  allreduce b operators handle csize rank fuel sndbuff rcvbuff count tag operator datatype options
        y =
      let maxr = ceil_log2 fuel csize 1 0 in
      let rb = if buffers_provided options then handle rcvbuff else b.rcv.block in
      let sb = if buffers_provided options then handle sndbuff else b.snd.block in
      in_order
        (on_system (λ x. some (schedule_create b.sched b.begin_op b.end_op x))
          ∷ make_tmpbuffs b.tmp count datatype 0 maxr
          ∷ find_buffers b handle sndbuff rcvbuff count datatype options maxr
          ∷ (if in_place sndbuff
              then on_state (λ s. some (nop 0 b.move s, ffsuccess))
              else on_world (comp_b operators b.old b.move sb 0 (pos 4) ffcomp_dest_atomic rb))
          ∷ on_system (λ x. some (set_state b.sched (some b.state) x))
          ∷ on_system (λ x. some (set_delete_callback b.sched (some free_callback) x))
          ∷ exchanges b operators csize rank maxr tag operator rb fuel 1 0 b.move
          ∷ on_system (add_op b.sched b.move)
          ∷ [])
        y
      >>= λ z. some (z, b.sched, ffsuccess)
