-- ===== src/Op.antt =====
-- src/ffop.c, ffop.h: operations, their dependencies, and what a completion sets off.
-- An operation is known by its address, a number; `none` is NULL. The union of send, recv, comp
-- and nop is in the part of the state `env` that only the functions of the binding touch.
-- The calls of FFLOG that say what is posted and completed are the list `log`, newest first.
pub mod Run
pub mod Round
pub mod Quiet
pub mod Trigger
pub mod Kept
pub mod Build
pub mod Inside
pub mod Replay
pub mod Live
pub mod Sums
use fflib.Base.{
  ℕ, zero, suc, ◌+◌, ◌-◌, ◌%◌, ◌^◌, Bool, true, false, not, ◌&&◌, ◌||◌, Option, none, some, List,
  [], ◌∷◌, ◌++◌, ℤ, int_eq, ffsuccess, ffcompleted, ffinvalid_arg, u32, ltb, ◌==◌, update,
  if◌then◌else◌, bit_and, ◌>>=◌,
}

abbrev pub max_deps : ℕ
max_deps = 10

abbrev pub ffop_dep_and : ℕ
ffop_dep_and = 2

abbrev pub ffop_dep_or : ℕ
ffop_dep_or = 4

abbrev pub ffop_non_persistent : ℕ
ffop_non_persistent = 8

-- `struct ffop`; the fields from `dep_left` on are those of its `instance`.
pub record Op : Type 0 where
  pub type : ℕ
  pub id : ℕ
  pub dependent : ℕ → ℕ
  pub out_dep_count : ℕ
  pub in_dep_count : ℕ
  pub options : ℕ
  pub sched_next : Option ℕ
  pub version : ℕ
  pub dep_left : ℕ
  pub next : Option ℕ
  pub completed : ℕ

pub data Event : Type 0 where
  posting completing : ℕ → Event

pub record State (W : Type 0) : Type 0 where
  pub ops : ℕ → Op
  pub opid : ℕ
  pub env : W
  pub log : List Event

-- `IS_OPT_SET`
unfoldable pub is_opt_set : Op → ℕ → Bool
is_opt_set op opt = bit_and op.options opt == opt

abbrev pub decrement : ℕ → ℕ
decrement n = (n + u32 - 1) % u32

abbrev pub increment : ℕ → ℕ
increment n = (n + 1) % u32

-- The operations that the array `dependent` holds, in the order of the loop of `ffop_complete`.
unfoldable pub entries : (ℕ → ℕ) → ℕ → List ℕ
entries f zero = []
entries f (suc n) = entries f n ++ f n ∷ []

abbrev pub dependents : Op → List ℕ
dependents op = entries op.dependent op.out_dep_count

-- Whether the completed operation `op` posts a dependent that has `deps` dependencies left.
unfoldable pub trigger : Op → ℕ → Bool
unfolding is_opt_set
trigger op deps =
    (deps == 0 || is_opt_set op ffop_dep_or)
    && (op.version == 0 || not (is_opt_set op ffop_non_persistent))

abbrev pub is_reposted : Op → Bool
is_reposted op = ltb 0 op.version && is_opt_set op ffop_non_persistent

module _ {W : Type 0} where
  abbrev pub set_op : State W → ℕ → Op → State W
  set_op s p op = record s { ops = update s.ops p op }

  -- `ffop_create`, at the address `p` that the pool of operations gives.
  unfoldable pub create : ℕ → State W → State W
  create p s =
      let op = s.ops p in
      record s {
        opid = (s.opid + 1) % 2 ^ 64;
        ops = update s.ops p (record op {
          id = s.opid;
          out_dep_count = 0;
          in_dep_count = 0;
          sched_next = none;
          options = ffop_dep_and;
          version = 0;
          next = none;
          dep_left = 0;
          completed = 0;
        });
      }

  -- The two halves of `ffop_hb`: the dependent of `first`, and the dependency of `second`.
  unfoldable pub add_dependent : ℕ → ℕ → State W → State W
  add_dependent first second s =
      let op = s.ops first in
      set_op s first (record op {
        out_dep_count = increment op.out_dep_count;
        dependent = update op.dependent op.out_dep_count second;
      })

  unfoldable pub add_dependency : ℕ → State W → State W
  add_dependency second s =
      let op = s.ops second in
      let n = increment op.in_dep_count in
      set_op s second (record op { in_dep_count = n; dep_left = n })

  -- `ffop_hb`. `none`: the write behind the end of the array `dependent`.
  unfoldable pub hb : ℕ → ℕ → State W → Option (State W × ℤ)
  unfolding add_dependent add_dependency
  hb first second s =
      if ltb (s.ops first).out_dep_count max_deps
      then some (add_dependency second (add_dependent first second s), ffsuccess)
      else none

  -- What `ffop_complete` does to the completed operation itself.
  unfoldable pub finish : ℕ → State W → State W
  finish p s =
      let op = s.ops p in
      let done = record op {
        version = increment op.version;
        dep_left = op.in_dep_count;
        completed = (op.completed + 1) % 256;
      } in
      record s { ops = update s.ops p done; log = completing p ∷ s.log }

  -- One dependent has one dependency less.
  unfoldable pub satisfy : ℕ → State W → State W
  satisfy d s = set_op s d (record (s.ops d) { dep_left = decrement (s.ops d).dep_left })

  -- The loop of `ffop_complete`; `post` is `ffop_post`, whose return value is ignored.
  unfoldable pub notify :
      (ℕ → State W → Option (State W × ℤ)) → ℕ → List ℕ → State W → Option (State W)
  unfolding trigger satisfy
  notify post p [] s = some s
  notify post p (d ∷ ds) s =
      let s1 = satisfy d s in
      (if trigger (s1.ops p) (s1.ops d).dep_left then post d s1 else some (s1, ffsuccess)) >>= λ r.
      notify post p ds r.0

  unfoldable pub complete_by :
      (ℕ → State W → Option (State W × ℤ)) → ℕ → State W → Option (State W × ℤ)
  unfolding finish notify entries
  complete_by post p s =
      notify post p (dependents (s.ops p)) (finish p s) >>= λ s'. some (s', ffsuccess)

  -- What `ffop_post` does before the call of the binding.
  unfoldable pub start : ℕ → State W → State W
  start p s = record s {
    ops = update s.ops p (record (s.ops p) { completed = 0 });
    log = posting p ∷ s.log;
  }

-- `impl_post type op` is `ff.impl.ops[type].post(op, NULL)`, and acts on the environment alone.
module _ {W : Type 0} (impl_post : ℕ → ℕ → W → W × ℤ) where
  unfoldable pub launch : ℕ → State W → State W × ℤ
  unfolding start
  launch p s =
      let s1 = start p s in
      let (w, res) = impl_post (s.ops p).type p s1.env in (record s1 { env = w }, res)

  -- `ffop_post`. The fuel bounds how deep the calls of `ffop_post` from `ffop_complete` nest;
  -- `none`: it ran out.
  unfoldable pub post : ℕ → ℕ → State W → Option (State W × ℤ)
  unfolding launch complete_by is_opt_set
  post zero p s = none
  post (suc fuel) p s =
      let (s2, res) = launch p s in
      let finished = complete_by (post fuel) p s2 >>= λ r. some (r.0, res) in
      if is_reposted (s.ops p)
      then some (s, ffinvalid_arg)
      else if int_eq res ffcompleted
      then finished
      else some (s2, res)

  -- `ffop_complete`
  unfoldable pub complete : ℕ → ℕ → State W → Option (State W × ℤ)
  unfolding complete_by post
  complete fuel p s = complete_by (post fuel) p s

module _ {W : Type 0} where
  abbrev pub is_completed : ℕ → State W → Bool
  is_completed p s = ltb 0 (s.ops p).completed

  abbrev pub clear : ℕ → State W → State W
  clear p s = set_op s p (record (s.ops p) { completed = 0 })

  -- `ffop_test` with the progress thread: the value of `*flag`, and the code.
  unfoldable pub test : ℕ → State W → State W × ℕ × ℤ
  test p s = ((if is_completed p s then clear p s else s), (s.ops p).completed, ffsuccess)

  -- `ffop_wait` with the progress thread. `others` is what the other threads do between two
  -- polls; giving up the processor after five polls changes no state. `none`: still waiting.
  unfoldable pub wait : ℕ → List (State W → State W) → State W → Option (State W × ℤ)
  wait p [] s = if is_completed p s then some (clear p s, ffsuccess) else none
  wait p (t ∷ ts) s =
      let later = wait p ts (t s) in if is_completed p s then some (clear p s, ffsuccess) else later
