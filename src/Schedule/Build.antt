-- ===== src/Schedule/Build.antt =====
-- `ffschedule_add_op` of src/ffschedule.c: each operation of a schedule is put between its begin
-- and its end.
use fflib.Base.{
  ℕ, suc, ◌+◌, ◌≤◌, ◌<◌, ◌≡◌, ◌≢◌, refl, true, false, some, List, [], ◌∷◌, ◌++◌, arith, ffsuccess,
  inl, inr, length, length-append, has, u32, Distinct, All, if◌then◌else◌, ◌==◌, ==→eq, Bool-cases,
}
use fflib.Op.{State, hb, max_deps}
use fflib.Op.Sums.{Edges, degree}
use fflib.Op.Round.{IsReady}
use fflib.Op.Run.Post.{IsHeight}
use fflib.Op.Build.{add_edge, degree-add_edge, hb-IsReady, out_deps}

-- How many of the operations `ps` have no dependency.
abbrev pub roots : Edges → List ℕ → List ℕ → ℕ
roots e all [] = 0
roots e all (p ∷ ps) = (if degree e all p == 0 then 1 else 0) + roots e all ps

pub IsHeight-add_edge :
    (e : Edges) (all : List ℕ) (h : ℕ → ℕ) (a x : ℕ)
    → IsHeight e all h
    → h x < h a
    → IsHeight (add_edge e a x) all h
IsHeight-add_edge e all h a x height lt b m = elim (Bool-cases (b == a)) [
  | inl hit ↦ rw (hit, ==→eq b a hit) (append_All (e a) (rw (==→eq b a hit) at (height b m)))
  | inr miss ↦ rw miss (height b m)
]
  where
    append_All : (xs : List ℕ) → All (λ d. h d < h a) xs → All (λ d. h d < h a) (xs ++ x ∷ [])
    append_All [] p = (lt, tt)
    append_All (y ∷ ys) p = (p.0, append_All ys p.1)

-- The graph `e` of the operations `all` between `b` and `en`, when those of `ins` may still lack a
-- predecessor, and those of `outs` a dependent.
pub record IsPlan {W : Type 0} (all : List ℕ) (h : ℕ → ℕ) (b en : ℕ) (e : Edges) (ins outs : List ℕ)
    (s : State W) : Type 0 where
  pub ready : IsReady e all 0 s
  pub quiet : s.log ≡ []
  pub height : IsHeight e all h
  pub room : length (e b) + roots e all ins ≤ max_deps
  pub fits : suc (degree e all en + length outs) < u32
  pub source : degree e all b ≡ 0
  pub has_in : (q : ℕ) → has q all ≡ true → has q ins ≡ false → q ≢ b → q ≢ en → 0 < degree e all q
  pub has_out : (q : ℕ) → has q all ≡ true → has q outs ≡ false → q ≢ b → q ≢ en → 0 < length (e q)

roots-add_edge :
    (e : Edges) (all : List ℕ) (a x : ℕ) (ps : List ℕ)
    → Distinct all
    → has a all ≡ true
    → has x ps ≡ false
    → roots (add_edge e a x) all ps ≡ roots e all ps
roots-add_edge e all a x [] distinct m out = refl
roots-add_edge e all a x (p ∷ ps) distinct m out =
    ground (arith, roots-add_edge e all a x ps distinct m, degree-add_edge e all a x p distinct m)

module _ {W : Type 0} (all : List ℕ) (h : ℕ → ℕ) (b en : ℕ) (distinct : Distinct all)
    (mb : has b all ≡ true) (me : has en all ≡ true) (apart : b ≢ en) where
  module _ (e : Edges) (p : ℕ) (ps outs : List ℕ) (s : State W) (mp : has p all ≡ true)
      (out : has p ps ≡ false) (out_en : has en ps ≡ false) (nb : p ≢ b) (ne : p ≢ en)
      (below : h p < h b) (above : h en < h p) where
    pub begin-IsPlan :
        IsPlan all h b en e (p ∷ ps) outs s
        → (f : Edges) × (t : State W) × ((if (s.ops p).in_dep_count == 0
              then hb b p s
              else some (s, ffsuccess))
            ≡ some (t, ffsuccess))
          × IsPlan all h b en f ps outs t
    begin-IsPlan w = elim (Bool-cases ((s.ops p).in_dep_count == 0)) [
      | inl root ↦
          let i = w.ready.idle p mp in
          let dz : degree e all p ≡ 0 = ground (arith, i) in
          let d = λ (q : ℕ). degree-add_edge e all b p q distinct mb in
          let (t, done, quiet, ready) =
            hb-IsReady b p s distinct mb mp w.ready w.quiet
              (ground (arith, i, w.room, out_deps (w.ready.idle b mb))) (ground arith) in
          (
            add_edge e b p,
            t,
            rw root done,
            record {
              ready = ready;
              quiet = quiet;
              height = IsHeight-add_edge e all h b p w.height below;
              room = ground (
                arith,
                w.room,
                dz,
                length-append (e b) (p ∷ []),
                roots-add_edge e all b p ps distinct mb out,
              );
              fits = ground (arith, w.fits, d en);
              source = ground (arith, w.source, d b);
              has_in = λ q mq o n n'. ground (arith, d q, w.has_in q mq);
              has_out = λ q mq o n n'. ground (arith, w.has_out q mq o n n');
            },
          )
      | inr inner ↦ (
        e,
        s,
        rw inner,
        record {
          ready = w.ready;
          quiet = w.quiet;
          height = w.height;
          room = ground (arith, w.room);
          fits = w.fits;
          source = w.source;
          has_in = λ q mq o n n'. ground (arith, w.has_in q mq, w.ready.idle p mp);
          has_out = w.has_out;
        },
      )
    ]

    pub end-IsPlan :
        IsPlan all h b en e ps (p ∷ outs) s
        → (f : Edges) × (t : State W) × ((if (s.ops p).out_dep_count == 0
              then hb p en s
              else some (s, ffsuccess))
            ≡ some (t, ffsuccess))
          × IsPlan all h b en f ps outs t
    end-IsPlan w = elim (Bool-cases ((s.ops p).out_dep_count == 0)) [
      | inl leaf ↦
          let i = w.ready.idle p mp in
          let d = λ (q : ℕ). degree-add_edge e all p en q distinct mp in
          let (t, done, quiet, ready) =
            hb-IsReady p en s distinct mp me w.ready w.quiet (ground arith)
              (ground (arith, w.fits, w.ready.idle en me)) in
          (
            add_edge e p en,
            t,
            rw leaf done,
            record {
              ready = ready;
              quiet = quiet;
              height = IsHeight-add_edge e all h p en w.height above;
              room = ground (arith, w.room, roots-add_edge e all p en ps distinct mp out_en);
              fits = ground (arith, w.fits, d en);
              source = ground (arith, w.source, d b);
              has_in = λ q mq o n n'. ground (arith, d q, w.has_in q mq o n n');
              has_out =
                  λ q mq o n n'. ground (arith, w.has_out q mq, length-append (e p) (en ∷ []));
            },
          )
      | inr inner ↦ (
        e,
        s,
        rw inner,
        record {
          ready = w.ready;
          quiet = w.quiet;
          height = w.height;
          room = w.room;
          fits = ground (arith, w.fits);
          source = w.source;
          has_in = w.has_in;
          has_out = λ q mq o n n'. ground (arith, w.has_out q mq, out_deps (w.ready.idle p mp));
        },
      )
    ]
