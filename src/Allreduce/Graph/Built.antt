-- ===== src/Allreduce/Graph/Built.antt =====
-- The schedule that the loop of `ffallreduce` in src/colls/ffallreduce.c builds.
use fflib.Base.{
  ℕ, zero, suc, ◌+◌, ◌≤◌, ◌<◌, ◌≡◌, ◌≢◌, refl, ◌∙◌, true, Option, some, List, [], ◌∷◌, arith, ℤ,
  length, has, ==→eq, ==-ne, length-append,
}
use fflib.Op.{max_deps}
use fflib.Op.Sums.{Edges, degree}
use fflib.Gcomp.Operator.{Operator, Operators, get}
use fflib.Allreduce.{Blocks, Site}
use fflib.Allreduce.Rounds.{exchange_all}
use fflib.Allreduce.Graph.Exchange.{IsGrown, after_exchange, differs, new_send, out_recv, out_comp}
use fflib.Allreduce.Graph.Grows.{exchange-IsGrown, low}

-- The graph after `n` exchanges from the `r`-th one on, the first of them behind `prev`.
abbrev pub after_exchanges : Blocks → (n r prev : ℕ) → Edges → Edges
after_exchanges b zero r prev e = e
after_exchanges b (suc n) r prev e =
    after_exchanges b n (r + 1) (b.comp r) (after_exchange b prev r e)

-- Its operations.
abbrev pub all_ops : Blocks → (n r : ℕ) → List ℕ → List ℕ
all_ops b zero r all = all
all_ops b (suc n) r all = all_ops b n (r + 1) (b.comp r ∷ b.recv r ∷ b.send r ∷ all)

-- The operation that moves the data of the user: behind the begin, once it joins.
pub record IsMove (b : Blocks) (prev r : ℕ) (e : Edges) (all : List ℕ) (h : ℕ → ℕ) : Type 0 where
  pub has_move : has b.move all ≡ true
  pub no_in : degree e all b.move ≡ 0
  pub move_begin : b.move ≢ b.begin_op
  pub move_end : b.move ≢ b.end_op
  pub below : h b.move < h b.begin_op
  pub at_first : r ≡ 0 → prev ≡ b.move
  pub has_out : 0 < r → 0 < length (e b.move)

module _ {W : Type 0} (b : Blocks) (prev r n : ℕ) (e : Edges) (all : List ℕ) (h : ℕ → ℕ)
    (y : Site W) (g : IsGrown b prev r (suc n) e all h y) (few : r < max_deps)
    (m : IsMove b prev r e all h) where
  next-IsMove :
      ((q : ℕ)
        → has q all ≡ true
        → q ≢ b.end_op
        → degree (after_exchange b prev r e) (b.comp r ∷ b.recv r ∷ b.send r ∷ all) q
          ≡ degree e all q)
      → IsMove b
          (b.comp r)
          (r + 1)
          (after_exchange b prev r e)
          (b.comp r ∷ b.recv r ∷ b.send r ∷ all)
          (low b prev r n e all h y g few)
  next-IsMove same =
      let ms = differs b.move (b.send r) all m.has_move (new_send b prev r n e all h y g few) in
      let mr = differs b.move (b.recv r) all m.has_move (out_recv b prev r n e all h y g few) in
      let mc = differs b.move (b.comp r) all m.has_move (out_comp b prev r n e all h y g few) in
      let bs =
        differs b.begin_op (b.send r) all g.has_begin (new_send b prev r n e all h y g few) in
      let br =
        differs b.begin_op (b.recv r) all g.has_begin (out_recv b prev r n e all h y g few) in
      let bc =
        differs b.begin_op (b.comp r) all g.has_begin (out_comp b prev r n e all h y g few) in
      record {
        has_move = ground (arith, m.has_move);
        no_in = same b.move m.has_move m.move_end ∙ m.no_in;
        move_begin = m.move_begin;
        move_end = m.move_end;
        below = rw (ms, mr, mc, bs, br, bc) m.below;
        at_first = λ z. absurd (omega (arith, z));
        has_out = λ lt.
            rw (mc, mr, ms, ==-ne b.move b.begin_op m.move_begin)
              (ground (
                arith,
                ==→eq b.move prev,
                length-append (e prev) (b.send r ∷ []),
                m.at_first,
                m.has_out,
              ));
      }

module _ {W : Type 0} (b : Blocks) (operators : Operators) (csize rank maxr : ℕ) (tag operator : ℤ)
    (rb : ℕ) (known : Option Operator × ℤ) (found : get operator operators ≡ some known) where
  abbrev run_all : List ℕ → (r prev : ℕ) → Site W → Option (Site W)
  run_all = exchange_all b operators csize rank maxr tag operator rb

  pub exchange_all-IsGrown :
      (ds : List ℕ) (prev r : ℕ) (e : Edges) (all : List ℕ) (h : ℕ → ℕ) (y : Site W)
      → IsGrown b prev r (length ds) e all h y
      → IsMove b prev r e all h
      → r + length ds ≤ max_deps
      → (z : Site W) × (run_all ds r prev y ≡ some z)
        × (last : ℕ) × (h' : ℕ → ℕ) × IsGrown b last
            (r + length ds)
            0
            (after_exchanges b (length ds) r prev e)
            (all_ops b (length ds) r all)
            h'
            z
        × IsMove b last
            (r + length ds)
            (after_exchanges b (length ds) r prev e)
            (all_ops b (length ds) r all)
            h'
  exchange_all-IsGrown [] prev r e all h y g m fits =
      (y, refl, prev, h, rw (plus_zero r) g, rw (plus_zero r) m)
    where
      plus_zero : (k : ℕ) → k + 0 ≡ k
      plus_zero k = omega arith
  exchange_all-IsGrown (d ∷ ds) prev r e all h y g m fits =
      let few : r < max_deps = omega (arith, fits) in
      let (y1, one, g1, same) =
        exchange-IsGrown b prev r (length ds) e all h y g few operators csize rank maxr tag operator
          rb d known found in
      let m1 = next-IsMove b prev r (length ds) e all h y g few m same in
      let count : r + suc (length ds) ≡ r + 1 + length ds = omega arith in
      let (z, rest, last, h', g', m') =
        exchange_all-IsGrown ds (b.comp r) (r + 1) (after_exchange b prev r e)
          (b.comp r ∷ b.recv r ∷ b.send r ∷ all) (low b prev r (length ds) e all h y g few) y1 g1 m1
          (omega (arith, fits)) in
      (z, rw one rest, last, h', rw count g', rw count m')
