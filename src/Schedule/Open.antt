-- ===== src/Schedule/Open.antt =====
-- Graphs that are being built: `ffop_hb` of src/ffop.c and `ffschedule_add_op` of
-- src/ffschedule.c, with the edges that they add.
pub mod Add
use fflib.Base.{
  ℕ, suc, ◌+◌, ◌≤◌, ◌<◌, ◌≡◌, ◌≢◌, refl, sym, ap, ap₂, ◌∙◌, true, false, Option, none, some, List,
  [], ◌∷◌, ◌++◌, arith, ℤ, ffsuccess, length, has, u32, Distinct, update, ◌>>=◌, if◌then◌else◌,
  ◌==◌,
}
use fflib.Op.{State, hb, max_deps}
use fflib.Op.Sums.{Edges, degree}
use fflib.Op.Round.{IsReady}
use fflib.Op.Run.Post.{IsHeight}
use fflib.Op.Build.{add_edge, hb-IsReady, hb_overflow, out_deps}
use fflib.Schedule.{System, attach, enlist, add_op}
use fflib.Schedule.Build.{IsHeight-add_edge}
use fflib.Schedule.Run.{enlist-IsIdle, enlist-log}

-- The graph `e` of the operations `all` is ready, and has never been posted; `h` falls along its
-- edges.
pub record IsOpen {W : Type 0} (e : Edges) (all : List ℕ) (h : ℕ → ℕ) (s : State W) : Type 0 where
  pub ready : IsReady e all 0 s
  pub quiet : s.log ≡ []
  pub height : IsHeight e all h

module _ {W : Type 0} {e : Edges} {all : List ℕ} {h : ℕ → ℕ} {s : State W} where
  pub hb-IsOpen :
      (a x : ℕ)
      → Distinct all
      → has a all ≡ true
      → has x all ≡ true
      → length (e a) < max_deps
      → suc (degree e all x) < u32
      → h x < h a
      → IsOpen e all h s
      → (t : State W) × (hb a x s ≡ some (t, ffsuccess)) × IsOpen (add_edge e a x) all h t
  hb-IsOpen a x distinct ma mx room fits lt o =
      let ia = o.ready.idle a ma in
      let ix = o.ready.idle x mx in
      let (t, done, quiet, ready) =
        hb-IsReady a x s distinct ma mx o.ready o.quiet (omega (arith, room, out_deps ia))
          (omega (arith, fits, ix.in_deps)) in
      (
        t,
        done,
        record { ready = ready; quiet = quiet; height = IsHeight-add_edge e all h a x o.height lt },
      )

  enlist-IsOpen : (p : ℕ) (next : Option ℕ) → IsOpen e all h s → IsOpen e all h (enlist p next s)
  enlist-IsOpen p next o = record {
    ready = record {
      idle = λ q m. enlist-IsIdle e all 0 p q next s (o.ready.idle q m);
      ordered = rw (enlist-log p next s) o.ready.ordered;
    };
    quiet = enlist-log p next s ∙ o.quiet;
    height = o.height;
  }

  module _ (b en p : ℕ) (mp : has p all ≡ true) (o : IsOpen e all h s) where
    attach_inner : 0 < degree e all p → 0 < length (e p) → attach b en p s ≡ some s
    unfolding attach
    attach_inner ins outs =
        let i = o.ready.idle p mp in
        let no_in : ((s.ops p).in_dep_count == 0) ≡ false = ground (arith, i.in_deps, ins) in
        let no_out : ((s.ops p).out_dep_count == 0) ≡ false = ground (arith, out_deps i, outs) in
        rw (no_in, no_out) refl

    attach_first :
        (t : State W)
        → degree e all p ≡ 0
        → hb b p s ≡ some (t, ffsuccess)
        → attach b en p s ≡ (
            (if (t.ops p).out_dep_count == 0 then hb p en t else some (t, ffsuccess))
            >>= λ (q : State W × ℤ). some q.0)
    unfolding attach
    attach_first t ins done =
        let i = o.ready.idle p mp in
        let first : ((s.ops p).in_dep_count == 0) ≡ true = ground (arith, i.in_deps, ins) in
        rw (first, done) refl

    attach_last :
        (t : State W)
        → 0 < degree e all p
        → length (e p) ≡ 0
        → hb p en s ≡ some (t, ffsuccess)
        → attach b en p s ≡ some t
    unfolding attach
    attach_last t ins outs done =
        let i = o.ready.idle p mp in
        let no_in : ((s.ops p).in_dep_count == 0) ≡ false = ground (arith, i.in_deps, ins) in
        let last : ((s.ops p).out_dep_count == 0) ≡ true = ground (arith, out_deps i, outs) in
        rw (no_in, last, done) refl

    attach_full :
        degree e all p ≡ 0 → max_deps ≤ length (e b) → has b all ≡ true → attach b en p s ≡ none
    unfolding attach
    attach_full ins full mb =
        let i = o.ready.idle p mp in
        let first : ((s.ops p).in_dep_count == 0) ≡ true = ground (arith, i.in_deps, ins) in
        let over = hb_overflow b p s (omega (arith, full, out_deps (o.ready.idle b mb))) in
        rw (first, over) refl
