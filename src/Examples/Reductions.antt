-- ===== src/Examples/Reductions.antt =====
-- src/colls/ffallreduce.c: the rounds of an allreduce, and one of four ranks run in full.
use fflib.Base.{
  range, count, ℕ, ◌+◌, ◌*◌, ◌≡◌, refl, Option, none, some, List, [], ◌∷◌, arith, ℤ, pos, false,
}
use fflib.Op.{Op, State}
use fflib.Buffer.{Buffer, Memory, ffint32}
use fflib.Gcomp.Operator.{Operator, Operators}
use fflib.Schedule.{System}
use fflib.Calls.{Alloc, Payload}
use fflib.Allreduce.{Blocks, Site, Reduction, exchanges, ceil_log2, allreduce}
use fflib.Allreduce.Values.{Reduce, combine, run_rounds}
use fflib.Allreduce.Values.Total.{run_rounds-combine, run_rounds_short}
use native.Mathlib.Nat.{add_comm, add_assoc, zero-add}
use fflib.Allreduce.Rounds.{count-peers, peers, exchange_all, allreduce_loop}

abbrev pub no_operator : Operator
no_operator = record { type = 0; commutative = pos 1; idx = 0; op_fun = some 1 }

abbrev pub operators : Operators
operators = record {
  operators = λ i. no_operator;
  custom_operators = λ i. no_operator;
  custom_idx = record {
    entries = λ i. record { idx = 0; next = none };
    free_entries = none;
    free_free_entries = none;
    tofree = none;
  };
}

abbrev alloc : ℕ → Alloc
alloc i = record {
  read = λ p. 0;
  new_junk = 0;
  old_junk = 0;
  answer = 1000 + i * 100;
  block = 50 + i;
}

abbrev pub blocks : Blocks
blocks = record {
  sched = 1;
  begin_op = 2;
  end_op = 3;
  state = 4;
  tmp = alloc;
  snd = alloc 8;
  rcv = alloc 9;
  move = 5;
  send = λ r. 10 + r;
  recv = λ r. 20 + r;
  comp = λ r. 30 + r;
  old = no_operator;
}

abbrev no_op : Op
no_op = record {
  type = 0;
  id = 0;
  dependent = λ k. 0;
  out_dep_count = 0;
  in_dep_count = 0;
  options = 0;
  sched_next = none;
  version = 0;
  dep_left = 0;
  next = none;
  completed = 0;
}

abbrev pub site : Site ℕ
site = record {
  system = record {
    state = record { ops = λ i. no_op; opid = 0; log = []; env = 0 };
    schedules = λ i. record {
      oplist = none;
      begin_op = 0;
      end_op = 0;
      id = 0;
      state = none;
      post_callback = none;
      delete_callback = none;
    };
    schedid = 0;
  };
  payloads = λ i. Payload.other;
  memory = record {
    buffers = λ h. record {
      type = 0;
      selfalloc = false;
      word = 0;
      count = 0;
      datatype = pos 0;
      options = 0;
    };
    heap = λ a. none;
  };
  reductions = λ p. record {
    tmpbuffs = λ i. 0;
    sndbuff = 0;
    rcvbuff = 0;
    count = pos 0;
    datatype = pos 0;
    tmpbuffs_count = 0;
    free_sr_buff = false;
  };
}

-- With four ranks, rank 1 meets the ranks 0 and 3.
four : peers 4 1 2 1 ≡ 0 ∷ 3 ∷ []
unfolding peers
four = refl

-- With three ranks, rank 1 meets rank 0 alone, in the round in which rank 0 has its own data only:
-- the data of rank 2 does not reach rank 1.
three : (peers 3 1 2 1 ≡ 0 ∷ []) × (peers 3 0 2 1 ≡ 1 ∷ 2 ∷ []) × (peers 3 2 2 1 ≡ 0 ∷ [])
unfolding peers
three = (refl, refl, refl)

ceil : 2 ≡ ceil_log2 3 4 1 0
unfolding ceil_log2
ceil = refl

-- The whole function on rank 1 of four, with buffers of its own: it succeeds, the last computation
-- waits for its send and its receive, and the end of the schedule for both computations.
abbrev shape : Option (Site ℕ × ℕ × ℤ) → List ℕ
shape none = []
shape (some r) =
    let ops = r.0.system.state.ops in
    (ops 31).in_dep_count
    ∷ (ops 31).dependent 0
    ∷ (ops 30).dependent 0
    ∷ (ops 5).in_dep_count
    ∷ (ops 3).in_dep_count
    ∷ []

allreduce_four :
    shape
      (allreduce blocks operators (λ p. p) 4 1 3 800 900 (pos 10) (pos 7) (pos 0) ffint32 0 site)
    ≡ 2 ∷ 3 ∷ 3 ∷ 1 ∷ 2 ∷ []
unfolding allreduce fflib.Buffer.create fflib.Calls.comp_b fflib.Allreduce.exchange fflib.Op.hb
    fflib.Calls.send_b fflib.Schedule.set_delete_callback fflib.Schedule.set_state
    fflib.Calls.recv_b fflib.Schedule.add_op fflib.Schedule.attach fflib.Schedule.enlist
    fflib.Schedule.schedule_create
allreduce_four = refl

allreduce_loop_example :
    exchanges blocks operators 4 1 2 (pos 7) (pos 0) 59 3 1 0 5 site
    ≡ exchange_all blocks operators 4 1 2 (pos 7) (pos 0) 59 (peers 4 1 2 1) 0 5 site
allreduce_loop_example =
    allreduce_loop blocks operators 4 1 2 (pos 7) (pos 0) 59 2 5 site (omega arith) ceil

-- Sums of natural numbers.
abbrev sums : Reduce ℕ
sums = record {
  op = λ x y. x + y;
  unit = 0;
  comm = add_comm;
  assoc = add_assoc;
  left_unit = zero-add;
}

run_rounds-combine_example :
    run_rounds sums.op 8 (3 + 2) 1 (λ a. a * a) 5 ≡ combine sums (λ a. a * a) (range 0 8)
run_rounds-combine_example = run_rounds-combine sums (λ a. a * a) 3 2 5 (omega arith)

-- With six ranks, rank 2 ends with the values of the first four.
run_rounds_short_example :
    run_rounds sums.op 6 (2 + 3) 1 (λ a. a * a) 2 ≡ combine sums (λ a. a * a) (range 0 4)
run_rounds_short_example =
    run_rounds_short sums (λ a. a * a) 2 2 6 2 (omega arith) (omega arith) (omega arith)
      (omega arith)

count-peers_example : count 3 (peers 6 1 3 1) ≡ count 1 (peers 6 3 3 1)
count-peers_example = count-peers 6 1 3 3 1 (omega arith) (omega arith)
