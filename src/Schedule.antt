-- ===== src/Schedule.antt =====
-- src/ffschedule.c, ffschedule.h, and `ffnop` of src/ffnop.c: schedules of operations between a
-- begin and an end.
-- The structs of the schedules are the map `schedules`; pointers are numbers, `none` is NULL. The
-- progress thread is compiled in (FFPROGRESS_THREAD).
pub mod Build
pub mod Run
pub mod Open
pub mod Kept
pub mod Local
use fflib.Base.{
  ℕ, suc, ◌+◌, ◌%◌, ◌^◌, Bool, Option, none, some, List, [], ◌∷◌, ℤ, ffsuccess, ◌==◌, update,
  if◌then◌else◌, ◌>>=◌,
}
use fflib.Op.{Op, State, create, hb, post, wait, test}
use fflib.Op

-- `ffschedule_t`
pub record Schedule : Type 0 where
  pub oplist : Option ℕ
  pub begin_op : ℕ
  pub end_op : ℕ
  pub id : ℕ
  pub state : Option ℕ
  pub post_callback : Option ℕ
  pub delete_callback : Option ℕ

pub record System (W : Type 0) : Type 0 where
  pub state : State W
  pub schedules : ℕ → Schedule
  pub schedid : ℕ

abbrev pub type_nop : ℕ
type_nop = 3

module _ {W : Type 0} where
  -- `ffnop`, at the address `p` that the pool of operations gives.
  unfoldable pub nop : ℕ → ℕ → State W → State W
  unfolding create
  nop options p s =
      let t = create p s in
      record t { ops = update t.ops p (record (t.ops p) { options = options; type = type_nop }) }

  abbrev pub set_schedule : System W → ℕ → Schedule → System W
  set_schedule y h x = record y { schedules = update y.schedules h x }

  -- `ffschedule_create`: `h` is the block that the pool of schedules gives, `b` and `e` are the
  -- two that the pool of operations gives.
  unfoldable pub schedule_create : (h b e : ℕ) → System W → System W × ℤ
  unfolding nop
  schedule_create h b e y = (
    record {
      state = nop 0 e (nop 0 b y.state);
      schedules = update y.schedules h (record {
        oplist = none;
        begin_op = b;
        end_op = e;
        id = y.schedid;
        state = none;
        post_callback = none;
        delete_callback = none;
      });
      schedid = (y.schedid + 1) % 2 ^ 64;
    },
    ffsuccess,
  )

  unfoldable pub set_state : ℕ → Option ℕ → System W → System W × ℤ
  set_state h p y = (set_schedule y h (record (y.schedules h) { state = p }), ffsuccess)

  unfoldable pub get_state : ℕ → System W → Option ℕ × ℤ
  get_state h y = ((y.schedules h).state, ffsuccess)

  unfoldable pub set_post_callback : ℕ → Option ℕ → System W → System W × ℤ
  set_post_callback h f y =
      (set_schedule y h (record (y.schedules h) { post_callback = f }), ffsuccess)

  unfoldable pub set_delete_callback : ℕ → Option ℕ → System W → System W × ℤ
  set_delete_callback h f y =
      (set_schedule y h (record (y.schedules h) { delete_callback = f }), ffsuccess)

  -- The dependencies that `ffschedule_add_op` adds; `none`: an array of dependents is full.
  unfoldable pub attach : (b e p : ℕ) → State W → Option (State W)
  attach b e p s = (if (s.ops p).in_dep_count == 0 then hb b p s else some (s, ffsuccess)) >>= λ r.
      (if (r.0.ops p).out_dep_count == 0 then hb p e r.0 else some (r.0, ffsuccess)) >>= λ q.
      some q.0

  unfoldable pub enlist : ℕ → Option ℕ → State W → State W
  enlist p next s = record s { ops = update s.ops p (record (s.ops p) { sched_next = next }) }

  -- `ffschedule_add_op`
  unfoldable pub add_op : (h p : ℕ) → System W → Option (System W × ℤ)
  add_op h p y =
      let x = y.schedules h in
      attach x.begin_op x.end_op p (enlist p x.oplist y.state) >>= λ s. some (
        record y { state = s; schedules = update y.schedules h (record x { oplist = some p }) },
        ffsuccess,
      )

-- `call f h` is the call of the callback `f` with the handle `h`; the code ignores its result.
module _ {W : Type 0} (impl_post : ℕ → ℕ → W → W × ℤ) (call : ℕ → ℕ → System W → System W × ℤ) where
  abbrev pub notify : Option ℕ → ℕ → System W → System W
  notify none h y = y
  notify (some f) h y = (call f h y).0

  -- `ffschedule_delete`, up to the return of the block to the pool.
  unfoldable pub before_delete : ℕ → System W → System W
  before_delete h y = notify (y.schedules h).delete_callback h y

  -- `ffschedule_post`
  unfoldable pub schedule_post : ℕ → ℕ → System W → Option (System W × ℤ)
  schedule_post fuel h y =
      let z = notify (y.schedules h).post_callback h y in
      post impl_post fuel (z.schedules h).begin_op z.state >>= λ r.
      some (record z { state = r.0 }, r.1)

module _ {W : Type 0} where
  -- `ffschedule_wait` and `ffschedule_test`
  unfoldable pub schedule_wait : ℕ → List (State W → State W) → System W → Option (System W × ℤ)
  unfolding wait
  schedule_wait h others y =
      wait (y.schedules h).end_op others y.state >>= λ r. some (record y { state = r.0 }, r.1)

  unfoldable pub schedule_test : ℕ → System W → System W × ℕ × ℤ
  unfolding test
  schedule_test h y =
      let r = test (y.schedules h).end_op y.state in (record y { state = r.0 }, r.1, r.2)
