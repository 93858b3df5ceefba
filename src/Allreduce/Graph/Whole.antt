-- ===== src/Allreduce/Graph/Whole.antt =====
-- The whole schedule of `ffallreduce` in src/colls/ffallreduce.c, with the move of the data.
use fflib.Base.{
  ℕ, suc, ◌+◌, ◌*◌, ◌^◌, ◌≤◌, ◌<◌, ◌≡◌, ap, ◌∙◌, Option, none, some, [], arith, ℤ, length, ◌>>=◌,
  Distinct, has, true, ==-refl, ==→eq,
}
use fflib.Op.{max_deps, State}
use fflib.Op.Sums.{Edges, degree}
use fflib.Op.Round.{IsReady}
use fflib.Op.Run.Post.{IsHeight}
use fflib.Allreduce.Graph.Begin.{
  three_edges, three_ops, heights, IsFresh, IsBegun, start-IsGrown, start-IsMove,
}
use fflib.Op.Build.{add_edge, degree-add_edge, out_deps}
use fflib.Gcomp.Operator.{Operator, Operators, get}
use fflib.Schedule.{System, add_op}
use fflib.Schedule.Open.Add.{add_source, add_full}
use fflib.Allreduce.{Blocks, Site, exchanges, ceil_log2, on_system}
use fflib.Allreduce.Rounds.{exchange_all, peers, allreduce_loop}
use fflib.Allreduce.Graph.{add_op-Opens}
use fflib.Allreduce.Graph.Exchange.{IsGrown}
use fflib.Allreduce.Graph.Built.{after_exchanges, all_ops, IsMove, exchange_all-IsGrown}

abbrev pub peer_count : (csize rank k : ℕ) → ℕ
peer_count csize rank k = length (peers csize rank k 1)

-- The graph of the schedule with `n` exchanges.
abbrev pub planned : Blocks → (n : ℕ) → Edges
planned b n = add_edge (after_exchanges b n 0 b.move (three_edges b)) b.begin_op b.move

-- The schedule with `n` exchanges in a state before its first round: its graph is that of the plan,
-- without cycles, in which only the begin has no dependencies.
pub record IsPlanned {W : Type 0} (b : Blocks) (n : ℕ) (s : State W) : Type 0 where
  pub quiet : s.log ≡ []
  pub ready : IsReady (planned b n) (all_ops b n 0 (three_ops b)) 0 s
  pub height : ℕ → ℕ
  pub falls : IsHeight (planned b n) (all_ops b n 0 (three_ops b)) height
  pub bounded : (q : ℕ) → height q ≤ 2 * n + 2
  pub distinct : Distinct (all_ops b n 0 (three_ops b))
  pub has_begin : has b.begin_op (all_ops b n 0 (three_ops b)) ≡ true
  pub source : degree (planned b n) (all_ops b n 0 (three_ops b)) b.begin_op ≡ 0
  pub only :
      (q : ℕ)
      → has q (all_ops b n 0 (three_ops b)) ≡ true
      → degree (planned b n) (all_ops b n 0 (three_ops b)) q ≡ 0
      → q ≡ b.begin_op

module _ {W : Type 0} (b : Blocks) (operators : Operators) (csize rank maxr : ℕ) (tag operator : ℤ)
    (rb k : ℕ) where
  -- The loop, and `ffschedule_add_op` of the move behind it.
  abbrev pub whole : Site W → Option (Site W)
  whole y = exchanges b operators csize rank maxr tag operator rb (suc k) 1 0 b.move y >>= λ z.
      on_system (add_op b.sched b.move) z

module _ {W : Type 0} (b : Blocks) (operators : Operators) (csize rank maxr : ℕ) (tag operator : ℤ)
    (rb : ℕ) (known : Option Operator × ℤ) (found : get operator operators ≡ some known) (k : ℕ)
    (fits : csize ≤ 2 ^ k) (rounds : maxr ≡ ceil_log2 (suc k) csize 1 0) where
  unrolled :
      (y z : Site W)
      → exchange_all b operators csize rank maxr tag operator rb (peers csize rank k 1) 0 b.move y
        ≡ some z
      → whole b operators csize rank maxr tag operator rb k y ≡ on_system (add_op b.sched b.move) z
  unrolled y z done =
      ap (λ (o : Option (Site W)). o >>= λ z. on_system (add_op b.sched b.move) z)
        (allreduce_loop b operators csize rank maxr tag operator rb k b.move y fits rounds ∙ done)

  module _ (fresh : IsFresh b (peer_count csize rank k)) (x : System W) (y : Site W)
      (begun : IsBegun b x y) where
    looped :
        peer_count csize rank k ≤ max_deps
        → (z : Site W) × (exchange_all b operators csize rank maxr tag operator rb
              (peers csize rank k 1)
              0
              b.move
              y
            ≡ some z)
          × (last : ℕ) × (h : ℕ → ℕ) × IsGrown b last
              (0 + peer_count csize rank k)
              0
              (after_exchanges b (peer_count csize rank k) 0 b.move (three_edges b))
              (all_ops b (peer_count csize rank k) 0 (three_ops b))
              h
              z
          × IsMove b last
              (0 + peer_count csize rank k)
              (after_exchanges b (peer_count csize rank k) 0 b.move (three_edges b))
              (all_ops b (peer_count csize rank k) 0 (three_ops b))
              h
    looped few =
        exchange_all-IsGrown b operators csize rank maxr tag operator rb known found
          (peers csize rank k 1) b.move 0 (three_edges b) (three_ops b)
          (heights b (peer_count csize rank k)) y
          (start-IsGrown b (peer_count csize rank k) fresh x y begun)
          (start-IsMove b (peer_count csize rank k) fresh x y begun) (omega (arith, few))

    -- On fresh blocks, for at most 2^k ranks of which between one and nine are peers of this rank,
    -- and with an operator that ffop_gcomp_operator_get answers for: the loop of ffallreduce and
    -- the ffschedule_add_op of the move behind it succeed, and the schedule is as planned.
    pub exchanges-IsPlanned :
        0 < peer_count csize rank k
        → peer_count csize rank k < max_deps
        → (z : Site W) × (whole b operators csize rank maxr tag operator rb k y ≡ some z)
          × IsPlanned b (peer_count csize rank k) z.system.state
    exchanges-IsPlanned some_peers few =
        let (z, done, last, h, g, m) = looped (omega (arith, few)) in
        let n = peer_count csize rank k in
        let (u, added, o, w) = add_op-Opens b z g.opened g.within b.move (
          add_source b.begin_op b.end_op b.sched z.system b.move g.distinct g.has_begin g.has_end
            m.has_move g.within g.opened m.no_in (m.has_out (omega (arith, some_peers)))
            m.move_begin (omega (arith, g.out_begin, few)) m.below) in
        let deg = λ (q : ℕ).
          degree-add_edge (after_exchanges b n 0 b.move (three_edges b))
            (all_ops b n 0 (three_ops b)) b.begin_op b.move q g.distinct g.has_begin in
        (
          u,
          unrolled y z done ∙ added,
          record {
            quiet = o.quiet;
            ready = o.ready;
            height = h;
            falls = o.height;
            bounded = λ q. omega (arith, g.bounded q);
            distinct = g.distinct;
            has_begin = g.has_begin;
            source = ground (arith, deg b.begin_op, g.source, m.move_begin);
            only = λ q mq none_in. ground (
              arith,
              deg q,
              none_in,
              mq,
              g.rooted q,
              some_peers,
              ==-refl b.move,
              ==→eq q b.begin_op,
            );
          },
        )

    -- With ten peers, as a rank of 1024 has, the loop of ffallreduce succeeds, the begin has ten
    -- dependents and the move no dependency, and the ffschedule_add_op of the move fails.
    pub exchanges_overflow :
        peer_count csize rank k ≡ max_deps
        → (z : Site W) × (exchanges b operators csize rank maxr tag operator rb (suc k) 1 0 b.move y
            ≡ some z)
          × ((z.system.state.ops b.begin_op).out_dep_count ≡ max_deps)
          × ((z.system.state.ops b.move).in_dep_count ≡ 0)
          × (add_op b.sched b.move z.system ≡ none)
    exchanges_overflow many =
        let (z, done, last, h, g, m) = looped (omega (arith, many)) in
        let first = g.opened.ready.idle b.begin_op g.has_begin in
        (
          z,
          allreduce_loop b operators csize rank maxr tag operator rb k b.move y fits rounds ∙ done,
          omega (arith, out_deps first, g.out_begin, many),
          (g.opened.ready.idle b.move m.has_move).in_deps ∙ m.no_in,
          add_full b.begin_op b.end_op b.sched z.system b.move g.distinct g.has_begin g.has_end
              m.has_move g.within g.opened m.no_in (omega (arith, g.out_begin, many)),
        )
