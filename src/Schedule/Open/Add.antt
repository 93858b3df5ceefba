-- ===== src/Schedule/Open/Add.antt =====
-- The edges that `ffschedule_add_op` of src/ffschedule.c adds to a graph that is being built, by
-- what the operation has already.
use fflib.Base.{
  ℕ, suc, ◌≤◌, ◌<◌, ◌≡◌, ◌≢◌, refl, ap, ap₂, ◌∙◌, true, false, Option, none, some, List, arith, ℤ,
  ffsuccess, length, has, u32, Distinct, update, ◌>>=◌, ◌==◌, ==-ne,
}
use fflib.Op.{State, max_deps}
use fflib.Op.Sums.{Edges, degree}
use fflib.Op.Build.{add_edge, degree-add_edge, out_deps}
use fflib.Schedule.{System, attach, enlist, add_op}
use fflib.Schedule.Open.{
  IsOpen, hb-IsOpen, enlist-IsOpen, attach_inner, attach_first, attach_last, attach_full,
}

-- The schedule with the handle `k` runs from `b` to `en`.
abbrev pub Within : {W : Type 0} → ℕ → ℕ → ℕ → System W → Type 0
Within b en k y = ((y.schedules k).begin_op ≡ b) × ((y.schedules k).end_op ≡ en)

module _ {W : Type 0} (b en k : ℕ) (y : System W) where
  abbrev finished : ℕ → State W → Option (System W × ℤ)
  finished p s = some (
    record y {
      state = s;
      schedules = update y.schedules k (record (y.schedules k) { oplist = some p });
    },
    ffsuccess,
  )

  opened :
      (p : ℕ)
      → Within b en k y
      → add_op k p y ≡ (attach b en p (enlist p (y.schedules k).oplist y.state) >>= finished p)
  unfolding add_op
  opened p (begins, ends) =
      ap₂ (λ (i j : ℕ). attach i j p (enlist p (y.schedules k).oplist y.state) >>= finished p)
        begins ends

  -- `ffschedule_add_op` returns, with the graph `f`.
  abbrev pub Adds : ℕ → Edges → List ℕ → (ℕ → ℕ) → Type 0
  Adds p f all h =
      (z : System W) × (add_op k p y ≡ some (z, ffsuccess))
      × Within b en k z
      × IsOpen f all h z.state

  closed :
      {f : Edges} {all : List ℕ} {h : ℕ → ℕ} (p : ℕ) (t : State W)
      → Within b en k y
      → attach b en p (enlist p (y.schedules k).oplist y.state) ≡ some t
      → IsOpen f all h t
      → Adds p f all h
  closed p t w done o = (
    record y {
      state = t;
      schedules = update y.schedules k (record (y.schedules k) { oplist = some p });
    },
    opened p w ∙ ap (λ (m : Option (State W)). m >>= finished p) done,
    (ground (arith, w.0), ground (arith, w.1)),
    o,
  )

  module _ {e : Edges} {all : List ℕ} {h : ℕ → ℕ} (p : ℕ) (distinct : Distinct all)
      (mb : has b all ≡ true) (me : has en all ≡ true) (mp : has p all ≡ true) (w : Within b en k y)
      (o : IsOpen e all h y.state) where
    start : IsOpen e all h (enlist p (y.schedules k).oplist y.state)
    start = enlist-IsOpen p (y.schedules k).oplist o

    -- With a dependency and a dependent, it gets no edge.
    pub add_inner : 0 < degree e all p → 0 < length (e p) → Adds p e all h
    add_inner ins outs =
        closed p (enlist p (y.schedules k).oplist y.state) w (attach_inner b en p mp start ins outs)
          start

    -- With a dependent alone, it gets the begin in front.
    pub add_source :
        degree e all p ≡ 0
        → 0 < length (e p)
        → p ≢ b
        → length (e b) < max_deps
        → h p < h b
        → Adds p (add_edge e b p) all h
    add_source ins outs apart room lt =
        let (t, done, o') = hb-IsOpen b p distinct mb mp room (omega (arith, ins)) lt start in
        let outs' : ((t.ops p).out_dep_count == 0) ≡ false =
          ground (arith, out_deps (o'.ready.idle p mp), ==-ne p b apart, outs) in
        closed p t w (attach_first b en p mp start t ins done ∙ rw outs' refl) o'

    -- With a dependency alone, it gets the end behind it.
    pub add_sink :
        0 < degree e all p
        → length (e p) ≡ 0
        → suc (degree e all en) < u32
        → h en < h p
        → Adds p (add_edge e p en) all h
    add_sink ins outs fits lt =
        let (t, done, o') = hb-IsOpen p en distinct mp me (omega (arith, outs)) fits lt start in
        closed p t w (attach_last b en p mp start t ins outs done) o'

    -- Alone, it gets both.
    pub add_lone :
        degree e all p ≡ 0
        → length (e p) ≡ 0
        → p ≢ b
        → p ≢ en
        → length (e b) < max_deps
        → suc (degree e all en) < u32
        → h p < h b
        → h en < h p
        → Adds p (add_edge (add_edge e b p) p en) all h
    add_lone ins outs apart apart' room fits lt lt' =
        let (t, done, o') = hb-IsOpen b p distinct mb mp room (omega (arith, ins)) lt start in
        let d = degree-add_edge e all b p en distinct mb in
        let len : length (add_edge e b p p) ≡ 0 = ground (arith, ==-ne p b apart, outs) in
        let (u, done', o'') =
          hb-IsOpen p en distinct mp me (omega (arith, len))
            (ground (arith, d, ==-ne p en apart', fits)) lt' o' in
        let outs' : ((t.ops p).out_dep_count == 0) ≡ true =
          ground (arith, out_deps (o'.ready.idle p mp), len) in
        closed p u w (attach_first b en p mp start t ins done ∙ rw (outs', done') refl) o''

    -- The eleventh operation without a dependency is written behind the array of the begin.
    pub add_full : degree e all p ≡ 0 → max_deps ≤ length (e b) → add_op k p y ≡ none
    add_full ins full =
        opened p w
        ∙ ap (λ (m : Option (State W)). m >>= finished p) (attach_full b en p mp start ins full mb)
