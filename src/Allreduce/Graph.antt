-- ===== src/Allreduce/Graph.antt =====
-- The steps of `ffallreduce` in src/colls/ffallreduce.c on the graph of its schedule.
pub mod Exchange
pub mod Created
pub mod Linked
pub mod Grows
pub mod Built
pub mod Whole
pub mod Begin
pub mod Call
pub mod Prepared
pub mod Ready
pub mod Runs
use fflib.Base.{
  ℕ, suc, ◌+◌, ◌≤◌, ◌<◌, ◌≡◌, ◌≢◌, refl, sym, ap, ◌∙◌, true, false, Option, none, some, List, [],
  ◌∷◌, ◌++◌, arith, ℤ, pos, ffsuccess, length, has, u32, Distinct, All, update, ◌>>=◌,
  if◌then◌else◌, ◌==◌, ==-refl, ==→eq, Bool-cases, inl, inr,
}
use fflib.Op.{State, hb, max_deps, create}
use fflib.Op.Sums.{Edges, degree}
use fflib.Op.Run.Post.{IsHeight}
use fflib.Op.Build.{add_edge}
use fflib.Calls.{World, comp, typed, send_b, recv_b, comp_b, type_send, type_recv, type_comp}
use fflib.Calls.Fresh.{IsPlain, typed-IsReady, degree-update, degree_none}
use fflib.Gcomp.Operator.{Operator, Operators, get}
use fflib.Gcomp.Post.{Comp, gcomp_init}
use fflib.Schedule.{System, add_op}
use fflib.Schedule.Open.{IsOpen, hb-IsOpen}
use fflib.Schedule.Open.Add.{Within, Adds}
use fflib.Allreduce.{
  Blocks, Site, Step, on_state, on_system, on_world, in_order, ffcomp_dest_atomic,
}

-- The graph with a new operation.
abbrev pub with_new : ℕ → Edges → Edges
with_new p e = update e p []

pub degree-with_new :
    {W : Type 0} {e : Edges} {all : List ℕ} {h : ℕ → ℕ} {s : State W} (p q : ℕ)
    → has p all ≡ false
    → IsOpen e all h s
    → degree (with_new p e) (p ∷ all) q ≡ (if q == p then 0 else degree e all q)
unfolding degree
degree-with_new {e} {all} p q new o = ground (
  arith,
  ==-refl p,
  degree-update e p q all new,
  degree_none e p all all (λ a m. (o.ready.idle a m).inside) new,
  ==→eq q p,
)

lower :
    (all : List ℕ) (h : ℕ → ℕ) (p k m : ℕ) (l : List ℕ)
    → has p all ≡ false
    → All (λ d. has d all ≡ true) l
    → All (λ d. h d < m) l
    → All (λ d. update h p k d < m) l
lower all h p k m [] new ins less = tt
lower all h p k m (d ∷ l) new ins less =
    (ground (arith, ==→eq d p, ins.0, less.0, new), lower all h p k m l new ins.1 less.1)

module _ {W : Type 0} {e : Edges} {all : List ℕ} {h : ℕ → ℕ} {s : State W} (p k : ℕ)
    (new : has p all ≡ false) (o : IsOpen e all h s) where
  typed-quiet : (type options : ℕ) → (typed p type options s).log ≡ []
  unfolding typed create
  typed-quiet type options = o.quiet

  pub typed-IsHeight : IsHeight (with_new p e) (p ∷ all) (update h p k)
  typed-IsHeight q m = elim (Bool-cases (q == p)) [
    | inl hit ↦ rw hit tt
    | inr miss ↦
        let mq : has q all ≡ true = ground (arith, m, ==→eq p q, miss) in
        rw miss (lower all h p k (h q) (e q) new (o.ready.idle q mq).inside (o.height q mq))
  ]

  pub typed-IsOpen :
      (type options : ℕ)
      → IsPlain options
      → IsOpen (with_new p e) (p ∷ all) (update h p k) (typed p type options s)
  typed-IsOpen type options plain = record {
    ready = typed-IsReady p type options plain e all s new o.ready o.quiet;
    quiet = typed-quiet type options;
    height = typed-IsHeight;
  }

abbrev of_fields : Operator → (buffer1 buffer2 : ℕ) → ℤ → ℕ → Comp
of_fields d buffer1 buffer2 operator buffer3 = record {
  buffer1 = buffer1;
  buffer2 = buffer2;
  buffer3 = buffer3;
  operator_type = operator;
  operator = d;
}

pub comp_b_lem :
    {W : Type 0} (operators : Operators) (old : Operator) (p buffer1 buffer2 : ℕ) (operator : ℤ)
    (buffer3 : ℕ) (r : Option Operator × ℤ)
    → get operator operators ≡ some r
    → (x : World W)
    → (d : Comp) × (comp_b operators old p buffer1 buffer2 operator ffcomp_dest_atomic buffer3 x
        ≡ some (
          record x {
            state = typed p type_comp ffcomp_dest_atomic x.state;
            payloads = update x.payloads p (comp d);
          },
          r.1,
        ))
unfolding comp_b gcomp_init
comp_b_lem operators old p buffer1 buffer2 operator buffer3 (none, code) known x =
    (of_fields old buffer1 buffer2 operator buffer3, rw known refl)
comp_b_lem operators old p buffer1 buffer2 operator buffer3 (some g, code) known x =
    (of_fields g buffer1 buffer2 operator buffer3, rw known refl)

no_option : IsPlain 0
no_option = record { dep_and = refl; persistent = refl }

pub atomic : IsPlain ffcomp_dest_atomic
atomic = record { dep_and = refl; persistent = refl }

module _ {W : Type 0} (b : Blocks) where
  -- A step succeeds, and leaves the graph `e` of the operations `all`.
  abbrev pub Opens : Step W → Edges → List ℕ → (ℕ → ℕ) → Site W → Type 0
  Opens f e all h y =
      (z : Site W) × (f y ≡ some z)
      × IsOpen e all h z.system.state
      × Within b.begin_op b.end_op b.sched z.system

  module _ {e : Edges} {all : List ℕ} {h : ℕ → ℕ} (y : Site W) (o : IsOpen e all h y.system.state)
      (w : Within b.begin_op b.end_op b.sched y.system) where
    module _ (p k : ℕ) (new : has p all ≡ false) where
      pub send_b-Opens :
          (buffer : ℕ) (dest tag : ℤ)
          → Opens
              (on_world (λ x. some (send_b p buffer dest tag 0 x)))
              (with_new p e)
              (p ∷ all)
              (update h p k)
              y
      unfolding send_b
      send_b-Opens buffer dest tag = (_, refl, typed-IsOpen p k new o type_send 0 no_option, w)

      pub recv_b-Opens :
          (buffer : ℕ) (source tag : ℤ)
          → Opens
              (on_world (λ x. some (recv_b p buffer source tag 0 x)))
              (with_new p e)
              (p ∷ all)
              (update h p k)
              y
      unfolding recv_b
      recv_b-Opens buffer source tag = (_, refl, typed-IsOpen p k new o type_recv 0 no_option, w)

      pub comp_b-Opens :
          (operators : Operators) (old : Operator) (buffer1 buffer2 : ℕ) (operator : ℤ)
          (buffer3 : ℕ)
          → (r : Option Operator × ℤ) → get operator operators ≡ some r
          → Opens
              (on_world
                (comp_b operators old p buffer1 buffer2 operator ffcomp_dest_atomic buffer3))
              (with_new p e)
              (p ∷ all)
              (update h p k)
              y
      comp_b-Opens operators old buffer1 buffer2 operator buffer3 r known =
          let (d, done) =
            comp_b_lem operators old p buffer1 buffer2 operator buffer3 r known
              (record { state = y.system.state; payloads = y.payloads; memory = y.memory }) in
          (
            record y {
              system = record y.system {
                state = typed p type_comp ffcomp_dest_atomic y.system.state;
              };
              payloads = update y.payloads p (comp d);
            },
            rw done refl,
            typed-IsOpen p k new o type_comp ffcomp_dest_atomic atomic,
            w,
          )

    pub hb-Opens :
        (a x : ℕ)
        → Distinct all
        → has a all ≡ true
        → has x all ≡ true
        → length (e a) < max_deps
        → suc (degree e all x) < u32
        → h x < h a
        → Opens (on_state (hb a x)) (add_edge e a x) all h y
    hb-Opens a x distinct ma mx room fits lt =
        let (t, done, o') = hb-IsOpen a x distinct ma mx room fits lt o in
        (record y { system = record y.system { state = t } }, rw done refl, o', w)

    pub add_op-Opens :
        {f : Edges} (p : ℕ)
        → Adds b.begin_op b.end_op b.sched y.system p f all h
        → Opens (on_system (add_op b.sched p)) f all h y
    add_op-Opens p (z, done, w', o') = (record y { system = z }, rw done refl, o', w')

  pub step-in_order :
      (f : Step W) (fs : List (Step W)) (y z : Site W)
      → f y ≡ some z
      → in_order (f ∷ fs) y ≡ in_order fs z
  step-in_order f fs y z one = ap (λ (m : Option (Site W)). m >>= in_order fs) one

  pub three-in_order :
      (f1 f2 f3 : Step W) (y y1 y2 y3 : Site W)
      → f1 y ≡ some y1
      → f2 y1 ≡ some y2
      → f3 y2 ≡ some y3
      → in_order (f1 ∷ f2 ∷ f3 ∷ []) y ≡ some y3
  three-in_order f1 f2 f3 y y1 y2 y3 p q r = rw (p, q, r) refl
