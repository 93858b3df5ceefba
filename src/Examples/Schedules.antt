-- ===== src/Examples/Schedules.antt =====
-- src/ffschedule.c: a schedule of two computations, a copy before a sum, through the tables of
-- src/bindings/mpi_binding.c.
use fflib.Base.{
  ℕ, ◌+◌, ◌<◌, ◌≡◌, refl, sym, subst, Bool-cases, ==→eq, none, some, Option, List, [], ◌∷◌, arith,
  ℤ, pos, true, false, ffsuccess, fferror, if◌then◌else◌, ◌==◌, has, All, inl, inr,
}
use fflib.Op.{Op, is_opt_set, entries}
use fflib.Op.Sums.{Edges, degree}
use fflib.Op.Round.{IsIdle}
use fflib.Op.Replay.{replay}
use fflib.Schedule.{System, schedule_post, schedule_wait}
use fflib.Schedule.Run.{Inner, add_ops}
use fflib.Schedule.Local.{IsNew, schedule_runs}
use fflib.Buffer.{Buffer}
use fflib.Calls.{comp, other}
use fflib.Gcomp.Post.{Comp, apply}
use fflib.Mpi.Transfer.{Issue}
use fflib.Binding.{
  Impl, Env, impl_post, OpDescriptor, ffop_mpi_send_post, ffop_mpi_recv_post, ffop_gcomp_post,
  ffnop_post,
}
use fflib.Binding.Local.{IsBound, OnlyMemory, IsTask, bound-Immediate}
use fflib.Binding.BuiltIn.{copy-IsTotal, sum-IsTotal}

abbrev op : (type out ins : ℕ) → ℕ → Op
op type out ins d = record {
  type = type;
  id = 0;
  dependent = λ _. d;
  out_dep_count = out;
  in_dep_count = ins;
  options = 0;
  sched_next = none;
  version = 0;
  dep_left = ins;
  next = none;
  completed = 0;
}

abbrev edges : Edges
edges a = if a == 2 then 3 ∷ [] else []

abbrev all : List ℕ
all = 0 ∷ 1 ∷ 2 ∷ 3 ∷ []

abbrev task : (second f : ℕ) → Comp
task second f = record {
  buffer1 = 1;
  buffer2 = second;
  buffer3 = 3;
  operator_type = pos f;
  operator = record { type = f; commutative = pos 1; idx = f; op_fun = some f };
}

abbrev buffer : ℕ → Buffer
buffer a = record {
  type = 32;
  selfalloc = false;
  word = a;
  count = 2;
  datatype = pos 0;
  options = 0;
}

abbrev env : Env ℕ
env = record {
  payloads = λ p. if p == 2 then comp (task 0 4) else if p == 3 then comp (task 2 0) else other;
  buffers = λ b. buffer (b + b);
  values = λ a. a;
  table = record {
    posted_ops = λ _. none;
    requests = λ _. none;
    index_manager = record {
      entries = λ i. record { idx = i; next = none };
      free_entries = none;
      free_free_entries = none;
      tofree = none;
    };
  };
  issued = [];
  fault = false;
}

abbrev descriptor : OpDescriptor
descriptor = record {
  init = none;
  post = none;
  tostring = none;
  finalize = none;
  wait = none;
  test = none;
}

abbrev impl : Impl
impl = record {
  init = none;
  finalize = none;
  get_rank = none;
  get_size = none;
  operator_create = none;
  operator_delete = none;
  ops = λ ty. record descriptor {
    post =
        if ty == 0
        then some ffop_mpi_send_post
        else if ty == 1
        then some ffop_mpi_recv_post
        else if ty == 2
        then some ffop_gcomp_post
        else some ffnop_post;
  };
}

abbrev no_mpi : List Issue → Issue → Option ℕ
no_mpi l i = none

abbrev no_user : ℕ → (a b c size : ℕ) → ℤ → (ℕ → ℕ) → Option ((ℕ → ℕ) × ℤ)
no_user f a b c size type m = some (m, fferror)

abbrev call : ℕ → (a b c size : ℕ) → ℤ → (ℕ → ℕ) → Option ((ℕ → ℕ) × ℤ)
call = apply 0 4 10 (λ type x y. x + y) no_user

abbrev through : ℕ → ℕ → Env ℕ → Env ℕ × ℤ
through = impl_post no_mpi no_mpi call impl

abbrev system : System (Env ℕ)
system = record {
  state = record {
    ops = λ a. if a == 2 then op 2 1 0 3 else if a == 3 then op 2 0 1 0 else op 3 0 0 0;
    opid = 4;
    env = env;
    log = [];
  };
  schedules = λ _. record {
    oplist = none;
    begin_op = 0;
    end_op = 1;
    id = 0;
    state = none;
    post_callback = none;
    delete_callback = none;
  };
  schedid = 1;
}

abbrev types : ℕ → ℕ
types p = (system.state.ops p).type

abbrev depth : ℕ → ℕ
depth a = if a == 0 then 3 else if a == 2 then 2 else if a == 3 then 1 else 0

abbrev no_call : ℕ → ℕ → System (Env ℕ) → System (Env ℕ) × ℤ
no_call _ _ y = (y, ffsuccess)

abbrev Good : Env ℕ → Type 0
Good = OnlyMemory no_mpi no_mpi call impl env

impl-IsBound : IsBound impl
impl-IsBound = record { sends = refl; recvs = refl; comps = refl; nops = refl }

env-OnlyMemory : Good env
env-OnlyMemory = record {
  payloads = refl;
  buffers = refl;
  table = refl;
  issued = refl;
  fault = refl;
}

copies : IsTask no_mpi no_mpi call impl env 2 2
copies = inr (
  task 0 4,
  refl,
  refl,
  copy-IsTotal no_mpi no_mpi 0 4 10 4 (λ type x y. x + y) no_user impl env (task 0 4) refl
      (λ e. omega (arith, e)) refl refl refl refl,
)

sums : IsTask no_mpi no_mpi call impl env 2 3
sums = inr (
  task 2 0,
  refl,
  refl,
  sum-IsTotal no_mpi no_mpi 0 4 10 4 (λ type x y. x + y) no_user impl env (task 2 0) refl
      (λ e. omega (arith, e)) refl refl refl refl (omega arith) (omega arith),
)

tasks : (p : ℕ) → has p all ≡ true → IsTask no_mpi no_mpi call impl env (types p) p
tasks p m = elim (Bool-cases (p == 2)) [
  | inl two ↦
      subst (λ q. IsTask no_mpi no_mpi call impl env (types q) q) (sym (==→eq p 2 two)) copies
  | inr no_two ↦ elim (Bool-cases (p == 3)) [
    | inl three ↦
        subst (λ q. IsTask no_mpi no_mpi call impl env (types q) q) (sym (==→eq p 3 three)) sums
    | inr no_three ↦ inl (ground (arith, no_two, no_three))
  ]
]

system-IsIdle : (b : ℕ) → has b all ≡ true → IsIdle edges all 0 system.state b
unfolding is_opt_set degree entries
system-IsIdle b m = ground arith

edges-IsHeight : (a : ℕ) → has a all ≡ true → All (λ b. depth b < depth a) (edges a)
edges-IsHeight a m = ground arith

inner : All (Inner all depth 0 1) (2 ∷ 3 ∷ [])
inner = ground arith

system-IsNew : IsNew through Good no_call depth 0 1 2 (3 ∷ []) edges 4 7 system
unfolding degree
system-IsNew = record {
  distinct = (refl, (refl, (refl, (refl, tt))));
  ready = record { idle = system-IsIdle; ordered = tt };
  quiet = refl;
  height = edges-IsHeight;
  inner = inner;
  no_begin = refl;
  no_begin_out = refl;
  few_roots = omega arith;
  fits = omega arith;
  deep = omega arith;
  spans = (refl, refl, refl);
  good = env-OnlyMemory;
  immediate = bound-Immediate no_mpi no_mpi call impl env all types impl-IsBound tasks;
}

schedule_runs_example :
    (z : System (Env ℕ)) × (add_ops 7 (2 ∷ 3 ∷ []) system ≡ some z)
    × ((r : System (Env ℕ) × ℤ) × (schedule_post through no_call 4 7 z ≡ some r)
        × ((q : ℕ)
            → has q all ≡ true
            → ((r.0.state.ops q).version ≡ 1) × ((r.0.state.ops q).completed ≡ 1))
        × Good r.0.state.env
        × (r.0.state.env ≡ replay through types env r.0.state.log)
        × (w : System (Env ℕ)) × (schedule_wait 7 [] r.0 ≡ some (w, ffsuccess)))
schedule_runs_example =
    schedule_runs through Good no_call depth 0 1 2 (3 ∷ []) edges 4 7 system system-IsNew
