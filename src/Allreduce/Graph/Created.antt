-- ===== src/Allreduce/Graph/Created.antt =====
-- The operations of one exchange of `ffallreduce` in src/colls/ffallreduce.c, and their
-- dependencies among one another.
use fflib.Base.{
  ℕ, suc, ◌+◌, ◌*◌, ◌<◌, ◌≡◌, refl, ap, ◌∙◌, true, Option, some, List, ◌∷◌, arith, ℤ, length, has,
  Distinct, update, if◌then◌else◌, ◌==◌, ==-refl,
}
use fflib.Op.{max_deps, hb}
use fflib.Op.Sums.{Edges, degree}
use fflib.Op.Build.{add_edge, degree-add_edge}
use fflib.Calls.{send_b, recv_b, comp_b}
use fflib.Gcomp.Operator.{Operator, Operators, get}
use fflib.Schedule.Open.{IsOpen}
use fflib.Schedule.Open.Add.{Within}
use fflib.Allreduce.{Blocks, Site, Step, in_order, on_state, on_world, ffcomp_dest_atomic}
use fflib.Allreduce.Graph.{
  with_new, degree-with_new, send_b-Opens, recv_b-Opens, comp_b-Opens, hb-Opens, step-in_order,
}
use fflib.Allreduce.Graph.Exchange.{
  IsGrown, grown, e2, e4, e6, h2, lowered, new_send, new_recv, new_comp, grown-Distinct, all_Apart,
  flip,
}

module _ {W : Type 0} (b : Blocks) (prev r n : ℕ) (e : Edges) (all : List ℕ) (h : ℕ → ℕ)
    (y : Site W) (g : IsGrown b prev r (suc n) e all h y) (few : r < max_deps) where
  abbrev Edge2 : Edges
  Edge2 = e2 b prev r n e all h y g few

  abbrev Edge4 : Edges
  Edge4 = e4 b prev r n e all h y g few

  abbrev pub Edge6 : Edges
  Edge6 = e6 b prev r n e all h y g few

  abbrev first : List ℕ
  first = b.send r ∷ all

  abbrev pub three : List ℕ
  three = grown b prev r n e all h y g few

  abbrev high2 : ℕ → ℕ
  high2 = h2 b prev r n e all h y g few

  abbrev pub low3 : ℕ → ℕ
  low3 = lowered b prev r n e all h y g few

  first-Distinct : Distinct first
  first-Distinct = (new_send b prev r n e all h y g few, g.distinct)

  has_prev : has prev first ≡ true
  has_prev = ground (arith, g.has_prev)

  degree-first :
      (q : ℕ)
      → degree Edge2 first q
        ≡ (if b.send r == q then 1 else 0) + (if q == b.send r then 0 else degree e all q)
  degree-first q =
      degree-add_edge (with_new (b.send r) e) first prev (b.send r) q first-Distinct has_prev
      ∙ ap (λ d. (if b.send r == q then 1 else 0) + d)
          (degree-with_new (b.send r) q (new_send b prev r n e all h y g few) g.opened)

  -- The send, behind `prev`.
  pub sent :
      (buffer : ℕ) (dest tag : ℤ) (fs : List (Step W))
      → (z : Site W) × (in_order
            (on_world (λ x. some (send_b (b.send r) buffer dest tag 0 x))
              ∷ on_state (hb prev (b.send r))
              ∷ fs)
            y
          ≡ in_order fs z)
        × IsOpen Edge2 first high2 z.system.state
        × Within b.begin_op b.end_op b.sched z.system
  sent buffer dest tag fs =
      let a = all_Apart b prev r n e all h y g few in
      let new = new_send b prev r n e all h y g few in
      let (y1, one, o1, w1) =
        send_b-Opens b y g.opened g.within (b.send r) (2 * suc n) new buffer dest tag in
      let deg = degree-with_new (b.send r) (b.send r) new g.opened in
      let (y2, two, o2, w2) =
        hb-Opens b y1 o1 w1 prev (b.send r) first-Distinct has_prev
          (ground (arith, ==-refl (b.send r))) (ground (arith, a.prev_send, g.out_prev))
          (ground (arith, deg, ==-refl (b.send r)))
          (ground (arith, ==-refl (b.send r), a.prev_send, g.high)) in
      (
        y2,
        step-in_order b (on_world (λ x. some (send_b (b.send r) buffer dest tag 0 x)))
              (on_state (hb prev (b.send r)) ∷ fs) y y1 one
            ∙ step-in_order b (on_state (hb prev (b.send r))) fs y1 y2 two,
        o2,
        w2,
      )

  abbrev second : List ℕ
  second = b.recv r ∷ first

  -- The degrees in the graph of all three, before they are added to the schedule.
  degree-two :
      (z : Site W)
      → IsOpen Edge2 first high2 z.system.state
      → (q : ℕ)
      → degree (with_new (b.recv r) Edge2) second q
        ≡ (if q == b.recv r then 0 else degree Edge2 first q)
  degree-two z o q = degree-with_new (b.recv r) q (new_recv b prev r n e all h y g few) o

  abbrev mid2 : ℕ → ℕ
  mid2 = update high2 (b.recv r) (2 * suc n)

  pub has_send : has (b.send r) three ≡ true
  has_send = ground (arith, ==-refl (b.send r))

  pub has_recv : has (b.recv r) three ≡ true
  has_recv = ground (arith, ==-refl (b.recv r))

  pub has_comp : has (b.comp r) three ≡ true
  has_comp = ground (arith, ==-refl (b.comp r))

  out_send : length (Edge4 (b.send r)) ≡ 0
  out_send =
      let a = all_Apart b prev r n e all h y g few in
      rw
        (
          a.send_comp,
          a.send_recv,
          flip b prev r n e all h y g few prev (b.send r) a.prev_send,
          ==-refl (b.send r),
        )
        refl

  out_recv : length (add_edge Edge4 (b.send r) (b.comp r) (b.recv r)) ≡ 0
  out_recv =
      let a = all_Apart b prev r n e all h y g few in
      rw
        (
          flip b prev r n e all h y g few (b.send r) (b.recv r) a.send_recv,
          a.recv_comp,
          ==-refl (b.recv r),
        )
        refl

  below_send : low3 (b.comp r) < low3 (b.send r)
  below_send =
      let a = all_Apart b prev r n e all h y g few in
      rw (==-refl (b.comp r), a.send_comp, a.send_recv, ==-refl (b.send r)) (omega arith)

  below_recv : low3 (b.comp r) < low3 (b.recv r)
  below_recv =
      let a = all_Apart b prev r n e all h y g few in
      rw (==-refl (b.comp r), a.recv_comp, ==-refl (b.recv r)) (omega arith)

  abbrev pub Degrees : Type 0
  Degrees =
      (q : ℕ)
      → degree Edge6 three q
        ≡ (if b.comp r == q then 2 else 0)
          + (if q == b.comp r
              then 0
              else if q == b.recv r
              then 0
              else (if b.send r == q then 1 else 0) + (if q == b.send r then 0 else degree e all q))

  -- The receive and the computation, behind both.
  pub computed :
      (operators : Operators) (old : Operator) (tmp rb : ℕ) (source tag operator : ℤ)
      (known : Option Operator × ℤ)
      → get operator operators ≡ some known
      → (fs : List (Step W)) (z : Site W) → IsOpen Edge2 first high2 z.system.state
      → Within b.begin_op b.end_op b.sched z.system
      → (u : Site W) × (in_order
            (on_world (λ x. some (recv_b (b.recv r) tmp source tag 0 x))
              ∷ on_world (comp_b operators old (b.comp r) tmp rb operator ffcomp_dest_atomic rb)
              ∷ on_state (hb (b.send r) (b.comp r))
              ∷ on_state (hb (b.recv r) (b.comp r))
              ∷ fs)
            z
          ≡ in_order fs u)
        × IsOpen Edge6 three low3 u.system.state
        × Within b.begin_op b.end_op b.sched u.system
        × Degrees
  computed operators old tmp rb source tag operator known found fs z o w =
      let a = all_Apart b prev r n e all h y g few in
      let distinct = grown-Distinct b prev r n e all h y g few in
      let f1 : Step W = on_world (λ x. some (recv_b (b.recv r) tmp source tag 0 x)) in
      let f2 : Step W =
        on_world (comp_b operators old (b.comp r) tmp rb operator ffcomp_dest_atomic rb) in
      let f3 : Step W = on_state (hb (b.send r) (b.comp r)) in
      let f4 : Step W = on_state (hb (b.recv r) (b.comp r)) in
      let (y1, one, o1, w1) =
        recv_b-Opens b z o w (b.recv r) (2 * suc n) (new_recv b prev r n e all h y g few) tmp source
          tag in
      let (y2, two, o2, w2) =
        comp_b-Opens b y1 o1 w1 (b.comp r) (suc (2 * n)) (new_comp b prev r n e all h y g few)
          operators old tmp rb operator rb known found in
      let d3 = λ (q : ℕ). degree-with_new (b.comp r) q (new_comp b prev r n e all h y g few) o1 in
      let d4 = λ (q : ℕ). degree-add_edge Edge4 three (b.send r) (b.comp r) q distinct has_send in
      let d5 = λ (q : ℕ).
        degree-add_edge (add_edge Edge4 (b.send r) (b.comp r)) three (b.recv r) (b.comp r) q
          distinct has_recv in
      let (y3, three', o3, w3) =
        hb-Opens b y2 o2 w2 (b.send r) (b.comp r) distinct has_send has_comp
          (omega (arith, out_send)) (ground (arith, d3 (b.comp r), ==-refl (b.comp r)))
          below_send in
      let (y4, four, o4, w4) =
        hb-Opens b y3 o3 w3 (b.recv r) (b.comp r) distinct has_recv has_comp
          (omega (arith, out_recv))
          (ground (arith, d4 (b.comp r), d3 (b.comp r), ==-refl (b.comp r))) below_recv in
      (
        y4,
        step-in_order b f1 (f2 ∷ f3 ∷ f4 ∷ fs) z y1 one
            ∙ step-in_order b f2 (f3 ∷ f4 ∷ fs) y1 y2 two
            ∙ step-in_order b f3 (f4 ∷ fs) y2 y3 three'
            ∙ step-in_order b f4 fs y3 y4 four,
        o4,
        w4,
        λ q. ground (arith, d5 q, d4 q, d3 q, degree-two z o q, degree-first q),
      )
