-- ===== src/Allreduce/Graph/Begin.antt =====
-- The first operations of the schedule of `ffallreduce` in src/colls/ffallreduce.c: its begin and
-- its end, and the move.
use fflib.Base.{
  ℕ, ◌+◌, ◌*◌, ◌≤◌, ◌≡◌, ◌⊎◌, subst, refl, false, List, [], ◌∷◌, arith, length, has, count, update,
  ◌==◌, ==-refl, ==→eq, inl, inr, ap, sym, ◌∙◌,
}
use fflib.Op.{State, create, is_opt_set}
use fflib.Op.Sums.{Edges, degree}
use fflib.Calls.Fresh.{IsNewAt, new-IsReady}
use fflib.Schedule.{System, nop, schedule_create}
use fflib.Schedule.Open.{IsOpen}
use fflib.Schedule.Open.Add.{Within}
use fflib.Calls.{typed, type_comp}
use fflib.Allreduce.{Blocks, Site, ffcomp_dest_atomic}
use fflib.Allreduce.Graph.{with_new, typed-IsHeight, typed-IsOpen, atomic}
use fflib.Allreduce.Graph.Exchange.{IsGrown, coming}
use fflib.Allreduce.Graph.Built.{IsMove}

abbrev pub no_edges : Edges
no_edges q = []

module _ {W : Type 0} where
  nop-IsNewAt : (p : ℕ) (s : State W) → IsNewAt p s (nop 0 p s)
  unfolding nop create is_opt_set
  nop-IsNewAt p s = record {
    version = rw (==-refl p) refl;
    dep_left = rw (==-refl p) refl;
    in_deps = rw (==-refl p) refl;
    out_deps = rw (==-refl p) refl;
    dep_and = rw (==-refl p) refl;
    persistent = rw (==-refl p) refl;
    others = λ q ne. rw ne refl;
    log = refl;
  }

  -- The graph without operations.
  empty-IsOpen : (s : State W) (h : ℕ → ℕ) → s.log ≡ [] → IsOpen no_edges [] h s
  empty-IsOpen s h quiet = record {
    ready = record { idle = λ q m. cc; ordered = rw quiet tt };
    quiet = quiet;
    height = λ q m. cc;
  }

  pub nop-IsOpen :
      {e : Edges} {all : List ℕ} {h : ℕ → ℕ} {s : State W} (p k : ℕ)
      → has p all ≡ false
      → IsOpen e all h s
      → IsOpen (with_new p e) (p ∷ all) (update h p k) (nop 0 p s)
  nop-IsOpen {e} {all} {h} {s} p k new o =
      let n = nop-IsNewAt p s in
      record {
        ready = new-IsReady p e all s (nop 0 p s) new n o.ready o.quiet;
        quiet = n.log ∙ o.quiet;
        height = typed-IsHeight p k new o;
      }

-- The graph of the three.
abbrev pub three_edges : Blocks → Edges
three_edges b = with_new b.move (with_new b.end_op (with_new b.begin_op no_edges))

abbrev pub three_ops : Blocks → List ℕ
three_ops b = b.move ∷ b.end_op ∷ b.begin_op ∷ []

abbrev pub heights : Blocks → (n : ℕ) → ℕ → ℕ
heights b n = update (update (update (λ _. 0) b.begin_op (2 * n + 2)) b.end_op 0) b.move (2 * n + 1)

no_edge : (b : Blocks) (q : ℕ) → three_edges b q ≡ []
no_edge b q = ground arith

degree-three : (b : Blocks) (xs : List ℕ) (q : ℕ) → degree (three_edges b) xs q ≡ 0
unfolding degree
degree-three b [] q = refl
degree-three b (a ∷ xs) q = rw (no_edge b a) (omega (arith, degree-three b xs q))

out-three : (b : Blocks) (q : ℕ) → length (three_edges b q) ≡ 0
out-three b q = ap (λ (l : List ℕ). length l) (no_edge b q)

-- The blocks of the pool are not given twice, up to the first `n` exchanges.
abbrev pub IsFresh : Blocks → (n : ℕ) → Type 0
IsFresh b n = (a : ℕ) → count a (coming b 0 n) + count a (three_ops b) ≤ 1

-- `ffallreduce` has created the schedule in `x` and the move, a FFNOP or a FFCOMP.
pub record IsBegun {W : Type 0} (b : Blocks) (x : System W) (y : Site W) : Type 0 where
  pub quiet : x.state.log ≡ []
  pub move :
      (y.system.state ≡ nop 0 b.move (schedule_create b.sched b.begin_op b.end_op x).0.state)
      ⊎ (y.system.state
          ≡ typed b.move type_comp ffcomp_dest_atomic
              (schedule_create b.sched b.begin_op b.end_op x).0.state)
  pub within : Within b.begin_op b.end_op b.sched y.system

module _ {W : Type 0} (b : Blocks) (n : ℕ) (fresh : IsFresh b n) (x : System W) (y : Site W)
    (begun : IsBegun b x y) where
  end_begin : (b.end_op == b.begin_op) ≡ false
  end_begin = ground (arith, fresh b.end_op, ==→eq b.end_op b.begin_op, ==-refl b.end_op)

  move_begin : (b.move == b.begin_op) ≡ false
  move_begin = ground (arith, fresh b.move, ==→eq b.move b.begin_op, ==-refl b.move)

  move_end : (b.move == b.end_op) ≡ false
  move_end = ground (arith, fresh b.move, ==→eq b.move b.end_op, ==-refl b.move)

  end_move : (b.end_op == b.move) ≡ false
  end_move = ground (arith, move_end)

  begin_end : (b.begin_op == b.end_op) ≡ false
  begin_end = ground (arith, end_begin)

  begin_move : (b.begin_op == b.move) ≡ false
  begin_move = ground (arith, move_begin)

  new_move : has b.move (b.end_op ∷ b.begin_op ∷ []) ≡ false
  new_move = rw (end_move, begin_move) refl

  new_end : has b.end_op (b.begin_op ∷ []) ≡ false
  new_end = rw begin_end refl

  two-IsOpen :
      IsOpen
        (with_new b.end_op (with_new b.begin_op no_edges))
        (b.end_op ∷ b.begin_op ∷ [])
        (update (update (λ _. 0) b.begin_op (2 * n + 2)) b.end_op 0)
        (schedule_create b.sched b.begin_op b.end_op x).0.state
  unfolding schedule_create
  two-IsOpen =
      nop-IsOpen b.end_op 0 new_end
        (nop-IsOpen b.begin_op (2 * n + 2) refl (empty-IsOpen x.state (λ _. 0) begun.quiet))

  three-IsOpen : IsOpen (three_edges b) (three_ops b) (heights b n) y.system.state
  three-IsOpen = elim begun.move [
    | inl in_place ↦
        subst (IsOpen (three_edges b) (three_ops b) (heights b n)) (sym in_place)
          (nop-IsOpen b.move (2 * n + 1) new_move two-IsOpen)
    | inr moved ↦
        subst (IsOpen (three_edges b) (three_ops b) (heights b n)) (sym moved)
          (typed-IsOpen b.move (2 * n + 1) new_move two-IsOpen type_comp ffcomp_dest_atomic atomic)
  ]

  pub start-IsGrown : IsGrown b b.move 0 n (three_edges b) (three_ops b) (heights b n) y
  start-IsGrown = record {
    opened = three-IsOpen;
    within = begun.within;
    distinct = (new_move, (new_end, (refl, tt)));
    has_begin = ground (arith, ==-refl b.begin_op);
    has_end = ground (arith, ==-refl b.end_op);
    has_prev = ground (arith, ==-refl b.move);
    prev_begin = λ e. ground (arith, e, move_begin);
    prev_end = λ e. ground (arith, e, move_end);
    begin_end = λ e. ground (arith, e, end_begin);
    out_begin = out-three b b.begin_op;
    out_prev = omega (arith, out-three b b.move);
    source = degree-three b (three_ops b) b.begin_op;
    sink = omega (arith, degree-three b (three_ops b) b.end_op);
    rooted = λ q m nb nm ne.
        absurd
          (ground (arith, m, nb, nm, ne, ==→eq b.move q, ==→eq b.end_op q, ==→eq b.begin_op q));
    fresh = fresh;
    low = rw (end_move, ==-refl b.end_op) refl;
    high = rw (==-refl b.move) (omega arith);
    bounded = λ q. ground arith;
    top = rw (begin_move, begin_end, ==-refl b.begin_op) (omega arith);
  }

  pub start-IsMove : IsMove b b.move 0 (three_edges b) (three_ops b) (heights b n)
  start-IsMove = record {
    has_move = ground (arith, ==-refl b.move);
    no_in = degree-three b (three_ops b) b.move;
    move_begin = λ e. ground (arith, e, move_begin);
    move_end = λ e. ground (arith, e, move_end);
    below = rw (==-refl b.move, begin_move, begin_end, ==-refl b.begin_op) (omega arith);
    at_first = λ z. refl;
    has_out = λ lt. absurd (omega (arith, lt));
  }
