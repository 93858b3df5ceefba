-- ===== src/Allreduce/Graph/Linked.antt =====
-- One exchange of `ffallreduce` in src/colls/ffallreduce.c: the operations join the schedule.
use fflib.Base.{
  ℕ, suc, ◌+◌, ◌<◌, ◌≡◌, refl, ap, true, false, some, List, [], ◌∷◌, arith, length, has, Distinct,
  if◌then◌else◌, ◌==◌, ==-refl,
}
use fflib.Op.{max_deps}
use fflib.Op.Sums.{Edges, degree}
use fflib.Op.Build.{degree-add_edge}
use fflib.Schedule.{add_op}
use fflib.Schedule.Open.{IsOpen}
use fflib.Schedule.Open.Add.{Within, add_inner, add_source, add_sink}
use fflib.Allreduce.{Blocks, Site, Step, in_order, on_system}
use fflib.Allreduce.Graph.{add_op-Opens, three-in_order}
use fflib.Allreduce.Graph.Exchange.{IsGrown, e8, e9, grown-Distinct, all_Apart, flip}
use fflib.Allreduce.Graph.Created.{Edge6, three, low3, Degrees, has_send, has_recv, has_comp}

module _ {W : Type 0} (b : Blocks) (prev r n : ℕ) (e : Edges) (all : List ℕ) (h : ℕ → ℕ)
    (y : Site W) (g : IsGrown b prev r (suc n) e all h y) (few : r < max_deps) where
  abbrev edges6 : Edges
  edges6 = Edge6 b prev r n e all h y g few

  abbrev edges8 : Edges
  edges8 = e8 b prev r n e all h y g few

  abbrev edges9 : Edges
  edges9 = e9 b prev r n e all h y g few

  abbrev ops : List ℕ
  ops = three b prev r n e all h y g few

  abbrev low : ℕ → ℕ
  low = low3 b prev r n e all h y g few

  distinct : Distinct ops
  distinct = grown-Distinct b prev r n e all h y g few

  has_begin : has b.begin_op ops ≡ true
  has_begin = ground (arith, g.has_begin)

  has_end : has b.end_op ops ≡ true
  has_end = ground (arith, g.has_end)

  abbrev s_in : has (b.send r) ops ≡ true
  s_in = has_send b prev r n e all h y g few

  not_eq : (p q : ℕ) → (p == q) ≡ false → (q == p) ≡ false
  not_eq = flip b prev r n e all h y g few

  at_send : edges6 (b.send r) ≡ b.comp r ∷ []
  at_send =
      let a = all_Apart b prev r n e all h y g few in
      rw (a.send_comp, a.send_recv, not_eq prev (b.send r) a.prev_send, ==-refl (b.send r)) refl

  at_recv : edges6 (b.recv r) ≡ b.comp r ∷ []
  at_recv =
      let a = all_Apart b prev r n e all h y g few in
      rw (not_eq (b.send r) (b.recv r) a.send_recv, a.recv_comp, ==-refl (b.recv r)) refl

  at_comp : edges8 (b.comp r) ≡ []
  at_comp =
      let a = all_Apart b prev r n e all h y g few in
      rw
        (
          not_eq (b.send r) (b.comp r) a.send_comp,
          not_eq (b.recv r) (b.comp r) a.recv_comp,
          not_eq b.begin_op (b.comp r) a.begin_comp,
          ==-refl (b.comp r),
        )
        refl

  at_begin : edges6 b.begin_op ≡ e b.begin_op
  at_begin =
      let a = all_Apart b prev r n e all h y g few in
      rw (a.begin_send, a.begin_recv, a.begin_comp, a.begin_prev) refl

  low_recv : low (b.recv r) < low b.begin_op
  low_recv =
      let a = all_Apart b prev r n e all h y g few in
      rw (a.recv_comp, ==-refl (b.recv r), a.begin_send, a.begin_recv, a.begin_comp) g.top

  low_end : low b.end_op < low (b.comp r)
  low_end =
      let a = all_Apart b prev r n e all h y g few in
      rw (a.end_comp, a.end_recv, a.end_send, ==-refl (b.comp r)) (omega (arith, g.low))

  -- `ffschedule_add_op` on the three, in the order of the code.
  pub joined :
      (z : Site W)
      → IsOpen edges6 ops low z.system.state
      → Within b.begin_op b.end_op b.sched z.system
      → Degrees b prev r n e all h y g few
      → (u : Site W) × (in_order
            (on_system (add_op b.sched (b.send r))
              ∷ on_system (add_op b.sched (b.recv r))
              ∷ on_system (add_op b.sched (b.comp r))
              ∷ [])
            z
          ≡ some u)
        × IsOpen edges9 ops low u.system.state
        × Within b.begin_op b.end_op b.sched u.system
        × ((q : ℕ)
            → degree edges9 ops q
              ≡ (if b.end_op == q then 1 else 0)
                + (if b.recv r == q then 1 else 0)
                + degree edges6 ops q)
  joined z o w deg =
      let a = all_Apart b prev r n e all h y g few in
      let f1 : Step W = on_system (add_op b.sched (b.send r)) in
      let f2 : Step W = on_system (add_op b.sched (b.recv r)) in
      let f3 : Step W = on_system (add_op b.sched (b.comp r)) in
      let (y1, one, o1, w1) = add_op-Opens b z o w (b.send r) (
        add_inner b.begin_op b.end_op b.sched z.system (b.send r) distinct has_begin has_end
          (has_send b prev r n e all h y g few) w o
          (ground (arith, deg (b.send r), a, ==-refl (b.send r)))
          (omega (arith, ap (λ (l : List ℕ). length l) at_send))) in
      let (y2, two, o2, w2) = add_op-Opens b y1 o1 w1 (b.recv r) (
        add_source b.begin_op b.end_op b.sched y1.system (b.recv r) distinct has_begin has_end
          (has_recv b prev r n e all h y g few) w1 o1
          (ground (arith, deg (b.recv r), a, ==-refl (b.recv r)))
          (omega (arith, ap (λ (l : List ℕ). length l) at_recv)) (λ x. ground (arith, a, x))
          (omega (arith, ap (λ (l : List ℕ). length l) at_begin, g.out_begin, few)) low_recv) in
      let d8 = λ (q : ℕ). degree-add_edge edges6 ops b.begin_op (b.recv r) q distinct has_begin in
      let d9 = λ (q : ℕ).
        degree-add_edge edges8 ops (b.comp r) b.end_op q distinct
          (has_comp b prev r n e all h y g few) in
      let (y3, three', o3, w3) = add_op-Opens b y2 o2 w2 (b.comp r) (
        add_sink b.begin_op b.end_op b.sched y2.system (b.comp r) distinct has_begin has_end
          (has_comp b prev r n e all h y g few) w2 o2
          (ground (arith, d8 (b.comp r), deg (b.comp r), ==-refl (b.comp r)))
          (ap (λ (l : List ℕ). length l) at_comp)
          (ground (arith, d8 b.end_op, deg b.end_op, a, g.sink, few)) low_end) in
      (
        y3,
        three-in_order b f1 f2 f3 z y1 y2 y3 one two three',
        o3,
        w3,
        λ q. ground (arith, d9 q, d8 q),
      )
