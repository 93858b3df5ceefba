-- ===== src/Allreduce/Graph/Grows.antt =====
-- One exchange of `ffallreduce` in src/colls/ffallreduce.c keeps the shape of the graph.
use fflib.Base.{
  ℕ, suc, ◌+◌, ◌*◌, ◌<◌, ◌≡◌, ◌≢◌, sym, ap, ◌∙◌, subst, true, Option, some, List, [], ◌∷◌, arith, ℤ,
  pos, has, update, if◌then◌else◌, ◌==◌, ==-refl, ==→eq, length-append, fun_ext,
}
use fflib.Op.{max_deps, hb}
use fflib.Op.Sums.{Edges, degree}
use fflib.Gcomp.Operator.{Operator, Operators, get}
use fflib.Schedule.Open.{IsOpen}
use fflib.Schedule.Open.Add.{Within}
use fflib.Calls.{recv_b, comp_b}
use fflib.Schedule.{add_op}
use fflib.Allreduce.{
  Blocks, Site, Step, exchange, on_state, on_system, on_world, ffcomp_dest_atomic,
}
use fflib.Allreduce.Graph.Exchange.{
  IsGrown, after_exchange, e9, grown-Distinct, all_Apart, edges_lem, differs, new_send, out_recv,
  out_comp,
}
use fflib.Allreduce.Graph.Created.{Edge6, Degrees, has_comp, sent, computed}
use fflib.Allreduce.Graph.Linked.{joined}

module _ {W : Type 0} (b : Blocks) (prev r n : ℕ) (e : Edges) (all : List ℕ) (h : ℕ → ℕ)
    (y : Site W) (g : IsGrown b prev r (suc n) e all h y) (few : r < max_deps) where
  abbrev ops : List ℕ
  ops = b.comp r ∷ b.recv r ∷ b.send r ∷ all

  abbrev pub low : ℕ → ℕ
  low =
      update (update (update h (b.send r) (2 * suc n)) (b.recv r) (2 * suc n)) (b.comp r)
        (suc (2 * n))

  after : e9 b prev r n e all h y g few ≡ after_exchange b prev r e
  after = fun_ext (edges_lem b prev r n e all h y g few)

  module _ (z : Site W) (o : IsOpen (e9 b prev r n e all h y g few) ops low z.system.state)
      (w : Within b.begin_op b.end_op b.sched z.system) (deg : Degrees b prev r n e all h y g few)
      (deg9 : (q : ℕ)
        → degree (e9 b prev r n e all h y g few) ops q
          ≡ (if b.end_op == q then 1 else 0)
            + (if b.recv r == q then 1 else 0)
            + degree (Edge6 b prev r n e all h y g few) ops q) where
    degree-after :
        (q : ℕ)
        → degree (after_exchange b prev r e) ops q
          ≡ (if b.end_op == q then 1 else 0)
            + (if b.recv r == q then 1 else 0)
            + degree (Edge6 b prev r n e all h y g few) ops q
    degree-after q = ap (λ (f : Edges). degree f ops q) (sym after) ∙ deg9 q

    next-IsGrown : IsGrown b (b.comp r) (r + 1) n (after_exchange b prev r e) ops low z
    next-IsGrown =
        let a = all_Apart b prev r n e all h y g few in
        record {
          opened = subst (λ (f : Edges). IsOpen f ops low z.system.state) after o;
          within = w;
          distinct = grown-Distinct b prev r n e all h y g few;
          has_begin = ground (arith, g.has_begin);
          has_end = ground (arith, g.has_end);
          has_prev = has_comp b prev r n e all h y g few;
          prev_begin = λ x. ground (arith, a, x);
          prev_end = λ x. ground (arith, a, x);
          begin_end = g.begin_end;
          out_begin =
              rw (a.begin_comp, a.begin_recv, a.begin_send, a.begin_prev, ==-refl b.begin_op)
                (omega (arith, length-append (e b.begin_op) (b.recv r ∷ []), g.out_begin));
          out_prev = rw (==-refl (b.comp r)) (omega arith);
          source = ground (arith, degree-after b.begin_op, deg b.begin_op, a, g.source);
          sink = ground (arith, degree-after b.end_op, deg b.end_op, a, g.sink, ==-refl b.end_op);
          rooted = λ q m nb nm ne. ground (
            arith,
            degree-after q,
            deg q,
            a,
            m,
            nb,
            nm,
            g.rooted q,
            ==→eq q b.end_op,
            ==-refl (b.send r),
            ==-refl (b.recv r),
            ==-refl (b.comp r),
            ==-refl b.end_op,
          );
          fresh = λ q. ground (arith, g.fresh q);
          low = rw (a.end_comp, a.end_recv, a.end_send) g.low;
          high = rw (==-refl (b.comp r)) (omega arith);
          bounded = λ q. ground (arith, g.bounded q);
          top = rw (a.begin_comp, a.begin_recv, a.begin_send) (omega (arith, g.top));
        }

    -- The others keep their dependencies.
    degree-other :
        (q : ℕ)
        → has q all ≡ true
        → q ≢ b.end_op
        → degree (after_exchange b prev r e) ops q ≡ degree e all q
    degree-other q m ne = ground (
      arith,
      degree-after q,
      deg q,
      ne,
      differs q (b.send r) all m (new_send b prev r n e all h y g few),
      differs q (b.recv r) all m (out_recv b prev r n e all h y g few),
      differs q (b.comp r) all m (out_comp b prev r n e all h y g few),
    )

  module _ (operators : Operators) (csize rank maxr : ℕ) (tag operator : ℤ) (rb dst : ℕ)
      (known : Option Operator × ℤ) (found : get operator operators ≡ some known) where
    abbrev adds : List (Step W)
    adds =
        on_system (add_op b.sched (b.send r))
        ∷ on_system (add_op b.sched (b.recv r))
        ∷ on_system (add_op b.sched (b.comp r))
        ∷ []

    abbrev links : List (Step W)
    links =
        on_world (λ x. some (recv_b (b.recv r) (b.tmp r).block (pos dst) tag 0 x))
        ∷ on_world
            (comp_b operators b.old (b.comp r) (b.tmp r).block rb operator ffcomp_dest_atomic rb)
        ∷ on_state (hb (b.send r) (b.comp r))
        ∷ on_state (hb (b.recv r) (b.comp r))
        ∷ adds

    -- The exchange succeeds.
    pub exchange-IsGrown :
        (z : Site W) × (exchange b operators csize rank maxr tag operator rb dst r prev y ≡ some z)
        × IsGrown b (b.comp r) (r + 1) n (after_exchange b prev r e) ops low z
        × ((q : ℕ)
            → has q all ≡ true
            → q ≢ b.end_op
            → degree (after_exchange b prev r e) ops q ≡ degree e all q)
    unfolding exchange
    exchange-IsGrown =
        let (z1, one, o1, w1) = sent b prev r n e all h y g few rb (pos dst) tag links in
        let (z2, two, o2, w2, deg) =
          computed b prev r n e all h y g few operators b.old (b.tmp r).block rb (pos dst) tag
            operator known found adds z1 o1 w1 in
        let (z3, three', o3, w3, deg9) = joined b prev r n e all h y g few z2 o2 w2 deg in
        (z3, one ∙ two ∙ three', next-IsGrown z3 o3 w3 deg deg9, degree-other z3 o3 w3 deg deg9)
