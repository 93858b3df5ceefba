-- ===== src/Schedule/Run.antt =====
-- A schedule of src/ffschedule.c from its operations to the return of `ffschedule_wait`.
use fflib.Base.{
  ℕ, zero, suc, ◌<◌, ◌≡◌, ◌∙◌, ◌≢◌, refl, sym, subst, ap, ap₂, true, false, Option, none, some,
  List, [], ◌∷◌, arith, ℤ, ffsuccess, inl, inr, length, has, count, Distinct, All, update, ◌==◌,
  ==→eq, ==-refl, Bool-cases, ◌>>=◌,
}
use fflib.Op.{State, is_opt_set}
use fflib.Op.Sums.{Edges, degree, degree_pos}
use fflib.Op.Round.{IsIdle}
use fflib.Schedule.{System, attach, enlist, add_op}
use fflib.Schedule.Build.{IsPlan, begin-IsPlan, end-IsPlan}

module _ {W : Type 0} where
  -- A client that adds the operations `ps` one after another.
  unfoldable pub add_ops : ℕ → List ℕ → System W → Option (System W)
  add_ops h [] y = some y
  add_ops h (p ∷ ps) y = add_op h p y >>= λ r. add_ops h ps r.0

  pub enlist-IsIdle :
      (e : Edges) (all : List ℕ) (v p b : ℕ) (next : Option ℕ) (s : State W)
      → IsIdle e all v s b
      → IsIdle e all v (enlist p next s) b
  unfolding enlist is_opt_set
  enlist-IsIdle e all v p b next s i = record {
    version = ground arith;
    posted = i.posted;
    completions = i.completions;
    dep_left = ground arith;
    in_deps = ground arith;
    small = ground arith;
    dep_and = ground (arith, i.dep_and);
    persistent = ground (arith, i.persistent);
    edges = ground (arith, i.edges);
    inside = i.inside;
  }

  pub enlist-log : (p : ℕ) (next : Option ℕ) (s : State W) → (enlist p next s).log ≡ s.log
  unfolding enlist
  enlist-log p next s = refl

  enlist-IsPlan :
      {all : List ℕ} {h : ℕ → ℕ} {b en : ℕ} {e : Edges} {ins outs : List ℕ} {s : State W} (p : ℕ)
      (next : Option ℕ)
      → IsPlan all h b en e ins outs s
      → IsPlan all h b en e ins outs (enlist p next s)
  enlist-IsPlan {all} {e} {s} p next w = record {
    ready = record {
      idle = λ q m. enlist-IsIdle e all 0 p q next s (w.ready.idle q m);
      ordered = rw (enlist-log p next s) w.ready.ordered;
    };
    quiet = enlist-log p next s ∙ w.quiet;
    height = w.height;
    room = w.room;
    fits = w.fits;
    source = w.source;
    has_in = w.has_in;
    has_out = w.has_out;
  }

-- What `ffschedule_add_op` returns when the dependencies are there.
abbrev added : {W : Type 0} → ℕ → ℕ → System W → State W → Option (System W × ℤ)
added k p y s = some (
  record y {
    state = s;
    schedules = update y.schedules k (record (y.schedules k) { oplist = some p });
  },
  ffsuccess,
)

-- An operation of the schedule: between the begin and the end.
abbrev pub Inner : List ℕ → (ℕ → ℕ) → ℕ → ℕ → ℕ → Type 0
Inner all h b en p = (has p all ≡ true) × (p ≢ b) × (p ≢ en) × (h p < h b) × (h en < h p)

-- The schedule with the handle `k` runs from `b` to `en`.
abbrev pub Spans : {W : Type 0} → ℕ → ℕ → ℕ → System W → Type 0
Spans b en k y =
    ((y.schedules k).begin_op ≡ b)
    × ((y.schedules k).end_op ≡ en)
    × ((y.schedules k).post_callback ≡ none)

module _ {W : Type 0} (all : List ℕ) (h : ℕ → ℕ) (b en : ℕ) (distinct : Distinct all)
    (mb : has b all ≡ true) (me : has en all ≡ true) (apart : b ≢ en) where
  attach-IsPlan :
      (e : Edges) (p : ℕ) (ps : List ℕ) (s : State W)
      → Inner all h b en p
      → has p ps ≡ false
      → has en ps ≡ false
      → IsPlan all h b en e (p ∷ ps) (p ∷ ps) s
      → (f : Edges) × (t : State W) × (attach b en p s ≡ some t) × IsPlan all h b en f ps ps t
  unfolding attach
  attach-IsPlan e p ps s (mp, nb, ne, below, above) out out_en w =
      let (f, t, first, w1) =
        begin-IsPlan all h b en distinct mb me apart e p ps (p ∷ ps) s mp out out_en nb ne below
          above w in
      let (g, u, second, w2) =
        end-IsPlan all h b en distinct mb me apart f p ps ps t mp out out_en nb ne below above w1 in
      (g, u, rw (first, second), w2)

  add_op_lem :
      (k p : ℕ) (y : System W) (t : State W)
      → Spans b en k y
      → attach b en p (enlist p (y.schedules k).oplist y.state) ≡ some t
      → (z : System W) × (add_op k p y ≡ some (z, ffsuccess)) × Spans b en k z × (z.state ≡ t)
  unfolding add_op
  add_op_lem k p y t (begins, ends, calls) done =
      let x = y.schedules k in
      (
        record y { state = t; schedules = update y.schedules k (record x { oplist = some p }) },
        ap₂ (λ (i j : ℕ). attach i j p (enlist p x.oplist y.state) >>= added k p y) begins ends
            ∙ ap (λ (m : Option (State W)). m >>= added k p y) done,
        (ground arith, ground arith, ground arith),
        refl,
      )

  pub add_ops-IsPlan :
      (k : ℕ) (e : Edges) (ps : List ℕ) (y : System W)
      → Distinct ps
      → has en ps ≡ false
      → All (Inner all h b en) ps
      → Spans b en k y
      → IsPlan all h b en e ps ps y.state
      → (f : Edges) × (z : System W) × (add_ops k ps y ≡ some z)
        × Spans b en k z
        × IsPlan all h b en f [] [] z.state
  unfolding add_ops
  add_ops-IsPlan k e [] y d out_en inner spans w = (e, y, refl, spans, w)
  add_ops-IsPlan k e (p ∷ ps) y d out_en inner spans w =
      let (f, t, done, w1) =
        attach-IsPlan e p ps (enlist p (y.schedules k).oplist y.state) inner.0 d.0 (ground arith)
          (enlist-IsPlan p (y.schedules k).oplist w) in
      let (z, added, spans1, same) = add_op_lem k p y t spans done in
      let (g, u, rest, spans2, w2) =
        add_ops-IsPlan k f ps z d.1 (ground arith) inner.1 spans1
          (subst (IsPlan all h b en f ps ps) (sym same) w1) in
      (g, u, rw added rest, spans2, w2)

  module _ (f : Edges) (s : State W) (w : IsPlan all h b en f [] [] s) where
    -- From each operation the edges lead down to the end.
    reaches_end :
        (k q : ℕ)
        → has q all ≡ true
        → q ≢ b
        → q ≢ en
        → h q < k
        → (ds : List ℕ) → f q ≡ ds
        → 0 < degree f all en
    reaches_end zero q mq nb ne lt ds same = absurd (omega arith)
    reaches_end (suc k) q mq nb ne lt [] same =
        absurd (omega (arith, w.has_out q mq refl nb ne, ap (λ (l : List ℕ). length l) same))
    reaches_end (suc k) q mq nb ne lt (d ∷ ds) same =
        let inside = subst (All (λ x. has x all ≡ true)) same (w.ready.idle q mq).inside in
        let lower = subst (All (λ x. h x < h q)) same (w.height q mq) in
        let edge : 0 < count d (f q) = rw same (ground (arith, ==-refl d)) in
        elim (Bool-cases (d == en)) [
          | inl last ↦
              degree_pos f all en q mq (subst (λ x. 0 < count x (f q)) (==→eq d en last) edge)
          | inr inner ↦
              let nb' : d ≢ b = λ hit. omega (
                arith,
                w.source,
                subst (λ x. 0 < degree f all x) hit (degree_pos f all d q mq edge),
              ) in
              reaches_end k d inside.0 nb' (ground arith) (omega (arith, lower.0)) (f d) refl
        ]

    -- So the begin is the only root.
    pub only_begin :
        (p : ℕ)
        → has p all ≡ true
        → p ≢ b
        → p ≢ en
        → (q : ℕ) → has q all ≡ true
        → degree f all q ≡ 0
        → q ≡ b
    only_begin p mp nb ne q mq z = elim (Bool-cases (q == b)) [
      | inl hit ↦ ==→eq q b hit
      | inr miss ↦ elim (Bool-cases (q == en)) [
        | inl last ↦ absurd (
            omega (
              arith,
              z,
              subst (λ x. 0 < degree f all x) (sym (==→eq q en last))
                  (reaches_end (suc (h p)) p mp nb ne (omega arith) (f p) refl),
            ))
        | inr inner ↦ absurd (omega (arith, z, w.has_in q mq refl (ground arith) (ground arith)))
      ]
    ]
