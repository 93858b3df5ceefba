-- ===== src/Allreduce/Graph/Exchange.antt =====
-- One exchange of `ffallreduce` in src/colls/ffallreduce.c, on the graph of its schedule.
use fflib.Base.{
  ℕ, zero, suc, ◌+◌, ◌*◌, ◌≤◌, ◌<◌, ◌≡◌, ◌≢◌, sym, true, false, List, [], ◌∷◌, ◌++◌, arith, length,
  has, count, has-count, Distinct, update, if◌then◌else◌, ◌==◌, ==-refl, ==→eq, ==-ne,
}
use fflib.Op.{max_deps}
use fflib.Op.Sums.{Edges, degree}
use fflib.Op.Build.{add_edge}
use fflib.Schedule.Open.{IsOpen}
use fflib.Schedule.Open.Add.{Within}
use fflib.Allreduce.{Blocks, Site}
use fflib.Allreduce.Graph.{with_new}

-- The operations of the next `n` exchanges, from the `r`-th one on.
abbrev pub coming : Blocks → (r n : ℕ) → List ℕ
coming b r zero = []
coming b r (suc n) = b.send r ∷ b.recv r ∷ b.comp r ∷ coming b (r + 1) n

-- The graph after an exchange behind `prev`: the send after `prev`, the receive after the begin,
-- the computation after both, and the end after the computation.
abbrev pub after_exchange : Blocks → (prev r : ℕ) → Edges → Edges
after_exchange b prev r e q =
    if q == b.comp r
    then b.end_op ∷ []
    else if q == b.recv r
    then b.comp r ∷ []
    else if q == b.send r
    then b.comp r ∷ []
    else if q == prev
    then e prev ++ b.send r ∷ []
    else if q == b.begin_op
    then e b.begin_op ++ b.recv r ∷ []
    else e q

-- Before the `r`-th exchange, with `n` to come: the last computation is `prev`.
pub record IsGrown {W : Type 0} (b : Blocks) (prev r n : ℕ) (e : Edges) (all : List ℕ) (h : ℕ → ℕ)
    (y : Site W) : Type 0 where
  pub opened : IsOpen e all h y.system.state
  pub within : Within b.begin_op b.end_op b.sched y.system
  pub distinct : Distinct all
  pub has_begin : has b.begin_op all ≡ true
  pub has_end : has b.end_op all ≡ true
  pub has_prev : has prev all ≡ true
  pub prev_begin : prev ≢ b.begin_op
  pub prev_end : prev ≢ b.end_op
  pub begin_end : b.begin_op ≢ b.end_op
  pub out_begin : length (e b.begin_op) ≡ r
  pub out_prev : length (e prev) ≤ 1
  pub source : degree e all b.begin_op ≡ 0
  pub sink : degree e all b.end_op ≤ r
  pub rooted :
      (q : ℕ)
      → has q all ≡ true
      → q ≢ b.begin_op
      → q ≢ b.move
      → (q ≡ b.end_op → 0 < r)
      → 0 < degree e all q
  pub fresh : (a : ℕ) → count a (coming b r n) + count a all ≤ 1
  pub low : h b.end_op ≡ 0
  pub high : 2 * n < h prev
  pub top : 2 * n < h b.begin_op
  pub bounded : (q : ℕ) → h q ≤ 2 * (r + n) + 2

-- A member is no new operation.
pub differs : (a p : ℕ) (all : List ℕ) → has a all ≡ true → has p all ≡ false → (a == p) ≡ false
differs a p all m new = ground (arith, ==→eq a p, m, new)

module _ {W : Type 0} (b : Blocks) (prev r n : ℕ) (e : Edges) (all : List ℕ) (h : ℕ → ℕ)
    (y : Site W) (g : IsGrown b prev r (suc n) e all h y) (few : r < max_deps) where
  pub new_send : has (b.send r) all ≡ false
  new_send = ground (arith, g.fresh (b.send r), has-count (b.send r) all, ==-refl (b.send r))

  pub new_recv : has (b.recv r) (b.send r ∷ all) ≡ false
  new_recv = ground (
    arith,
    g.fresh (b.recv r),
    has-count (b.recv r) all,
    ==-refl (b.recv r),
    ==→eq (b.send r) (b.recv r),
  )

  pub new_comp : has (b.comp r) (b.recv r ∷ b.send r ∷ all) ≡ false
  new_comp = ground (
    arith,
    g.fresh (b.comp r),
    has-count (b.comp r) all,
    ==-refl (b.comp r),
    ==→eq (b.send r) (b.comp r),
    ==→eq (b.recv r) (b.comp r),
  )

  abbrev pub grown : List ℕ
  grown = b.comp r ∷ b.recv r ∷ b.send r ∷ all

  abbrev pub e2 : Edges
  e2 = add_edge (with_new (b.send r) e) prev (b.send r)

  abbrev pub e4 : Edges
  e4 = with_new (b.comp r) (with_new (b.recv r) e2)

  abbrev pub e6 : Edges
  e6 = add_edge (add_edge e4 (b.send r) (b.comp r)) (b.recv r) (b.comp r)

  abbrev pub e8 : Edges
  e8 = add_edge e6 b.begin_op (b.recv r)

  abbrev pub e9 : Edges
  e9 = add_edge e8 (b.comp r) b.end_op

  abbrev pub h2 : ℕ → ℕ
  h2 = update h (b.send r) (2 * suc n)

  abbrev pub lowered : ℕ → ℕ
  lowered = update (update h2 (b.recv r) (2 * suc n)) (b.comp r) (suc (2 * n))

  pub grown-Distinct : Distinct grown
  grown-Distinct = (new_comp, (new_recv, (new_send, g.distinct)))

  pub out_recv : has (b.recv r) all ≡ false
  out_recv = ground (arith, new_recv)

  pub out_comp : has (b.comp r) all ≡ false
  out_comp = ground (arith, new_comp)

  -- No two of the operations that matter are the same.
  pub record Apart : Type 0 where
    pub begin_send : (b.begin_op == b.send r) ≡ false
    pub begin_recv : (b.begin_op == b.recv r) ≡ false
    pub begin_comp : (b.begin_op == b.comp r) ≡ false
    pub prev_send : (prev == b.send r) ≡ false
    pub prev_recv : (prev == b.recv r) ≡ false
    pub prev_comp : (prev == b.comp r) ≡ false
    pub end_send : (b.end_op == b.send r) ≡ false
    pub end_recv : (b.end_op == b.recv r) ≡ false
    pub end_comp : (b.end_op == b.comp r) ≡ false
    pub send_recv : (b.send r == b.recv r) ≡ false
    pub send_comp : (b.send r == b.comp r) ≡ false
    pub recv_comp : (b.recv r == b.comp r) ≡ false
    pub begin_prev : (b.begin_op == prev) ≡ false
    pub begin_last : (b.begin_op == b.end_op) ≡ false
    pub end_prev : (b.end_op == prev) ≡ false

  pub all_Apart : Apart
  all_Apart = record {
    begin_send = differs b.begin_op (b.send r) all g.has_begin new_send;
    begin_recv = differs b.begin_op (b.recv r) all g.has_begin out_recv;
    begin_comp = differs b.begin_op (b.comp r) all g.has_begin out_comp;
    prev_send = differs prev (b.send r) all g.has_prev new_send;
    prev_recv = differs prev (b.recv r) all g.has_prev out_recv;
    prev_comp = differs prev (b.comp r) all g.has_prev out_comp;
    end_send = differs b.end_op (b.send r) all g.has_end new_send;
    end_recv = differs b.end_op (b.recv r) all g.has_end out_recv;
    end_comp = differs b.end_op (b.comp r) all g.has_end out_comp;
    send_recv = ground (arith, new_recv);
    send_comp = ground (arith, new_comp);
    recv_comp = ground (arith, new_comp);
    begin_prev = ==-ne b.begin_op prev (λ x. g.prev_begin (sym x));
    begin_last = ==-ne b.begin_op b.end_op g.begin_end;
    end_prev = ==-ne b.end_op prev (λ x. g.prev_end (sym x));
  }

  pub flip : (a c : ℕ) → (a == c) ≡ false → (c == a) ≡ false
  flip a c x = ground arith

  pub edges_lem : (q : ℕ) → e9 q ≡ after_exchange b prev r e q
  edges_lem q =
      let a = all_Apart in
      rw
        (
          flip b.begin_op (b.comp r) a.begin_comp,
          a.begin_recv,
          a.begin_send,
          a.begin_comp,
          a.begin_prev,
          flip (b.send r) (b.recv r) a.send_recv,
          a.send_comp,
          a.send_recv,
          a.recv_comp,
          a.prev_send,
          flip (b.send r) (b.comp r) a.send_comp,
          flip (b.recv r) (b.comp r) a.recv_comp,
          flip prev (b.send r) a.prev_send,
          flip prev (b.recv r) a.prev_recv,
          flip prev (b.comp r) a.prev_comp,
          ==-refl (b.comp r),
          ==-refl (b.recv r),
          ==-refl (b.send r),
        )
        (ground (arith, a))
