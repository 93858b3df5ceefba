-- ===== src/Schedule/Local.antt =====
-- Schedules of src/ffschedule.c whose operations all complete when they are posted.
use fflib.Base.{
  ℕ, suc, ◌+◌, ◌≤◌, ◌<◌, ◌≡◌, ◌∙◌, ◌≢◌, ap, refl, sym, subst, true, some, List, [], ◌∷◌, arith, ℤ,
  ffsuccess, length, has, u32, Distinct, All, ==→eq, ==-refl,
}
use fflib.Op.{State, max_deps, post, clear}
use fflib.Op.Sums.{Edges, degree}
use fflib.Op.Round.{IsReady}
use fflib.Op.Run.Post.{IsHeight}
use fflib.Op.Live.{post_runs_all}
use fflib.Op.Inside.{forced, Immediate, IsInside, post-Follows}
use fflib.Schedule.Kept.{Agrees, add_ops-Agrees}
use fflib.Op.Replay.{replay, IsReplayed, post-IsReplayed}
use fflib.Schedule.{System, schedule_post, schedule_wait}
use fflib.Schedule.Build.{IsPlan, roots}
use fflib.Schedule.Run.{Inner, Spans, add_ops, add_ops-IsPlan, only_begin}

wait_at_once :
    {W : Type 0} (k en : ℕ) (y : System W)
    → (y.schedules k).end_op ≡ en
    → (y.state.ops en).completed ≡ 1
    → schedule_wait k [] y ≡ some (record y { state = clear en y.state }, ffsuccess)
unfolding schedule_wait
wait_at_once k en y ends up = rw ends (ground arith)

post_begin :
    {W : Type 0} (impl_post : ℕ → ℕ → W → W × ℤ) (call : ℕ → ℕ → System W → System W × ℤ)
    (fuel k b en : ℕ) (y : System W) (r : State W × ℤ)
    → Spans b en k y
    → post impl_post fuel b y.state ≡ some r
    → schedule_post impl_post call fuel k y ≡ some (record y { state = r.0 }, r.1)
unfolding schedule_post
post_begin impl_post call fuel k b en y r (begins, ends, calls) done = rw (calls, begins, done)

module _ {W : Type 0} (impl_post : ℕ → ℕ → W → W × ℤ) (Good : W → Type 0)
    (call : ℕ → ℕ → System W → System W × ℤ) (h : ℕ → ℕ) (b en p : ℕ) (ps : List ℕ) (e : Edges)
    (fuel k : ℕ) (y : System W) where
  abbrev pub all : List ℕ
  all = b ∷ en ∷ p ∷ ps

  abbrev pub types : ℕ → ℕ
  types q = (y.state.ops q).type

  -- A new schedule with the handle `k`, from `b` to `en`, and the operations `p ∷ ps` with their
  -- dependencies `e` among one another, at most ten of them with none. Posting any of them
  -- completes it, and leaves the environment in order.
  pub record IsNew : Type 0 where
    pub distinct : Distinct all
    pub ready : IsReady e all 0 y.state
    pub quiet : y.state.log ≡ []
    pub height : IsHeight e all h
    pub inner : All (Inner all h b en) (p ∷ ps)
    pub no_begin : degree e all b ≡ 0
    pub no_begin_out : e b ≡ []
    pub few_roots : roots e all (p ∷ ps) ≤ max_deps
    pub fits : suc (degree e all en + length (p ∷ ps)) < u32
    pub deep : h b < fuel
    pub spans : Spans b en k y
    pub good : Good y.state.env
    pub immediate : Immediate impl_post all types Good

  IsNew-IsPlan : IsNew → IsPlan all h b en e (p ∷ ps) (p ∷ ps) y.state
  IsNew-IsPlan n = record {
    ready = n.ready;
    quiet = n.quiet;
    height = n.height;
    room = omega (arith, ap (λ (l : List ℕ). length l) n.no_begin_out, n.few_roots);
    fits = n.fits;
    source = n.no_begin;
    has_in = λ q mq o nb ne. ground arith;
    has_out = λ q mq o nb ne. ground arith;
  }

  -- What is left when the schedule was posted and waited for.
  abbrev Ran : System W → Type 0
  Ran z =
      (r : System W × ℤ) × (schedule_post impl_post call fuel k z ≡ some r)
      × ((q : ℕ)
          → has q all ≡ true
          → ((r.0.state.ops q).version ≡ 1) × ((r.0.state.ops q).completed ≡ 1))
      × Good r.0.state.env
      × (r.0.state.env ≡ replay impl_post types y.state.env r.0.state.log)
      × (w : System W) × (schedule_wait k [] r.0 ≡ some (w, ffsuccess))

  Inner-lt : (q : ℕ) (xs : List ℕ) → All (Inner all h b en) xs → has q xs ≡ true → h q < h b
  Inner-lt q [] inner m = cc
  Inner-lt q (x ∷ xs) inner m = ground (arith, ==→eq x q, inner.0, Inner-lt q xs inner.1)

  module _ (n : IsNew) where
    has_begin : has b all ≡ true
    has_begin = ground (arith, ==-refl b)

    has_end : has en all ≡ true
    has_end = ground (arith, ==-refl en)

    apart : b ≢ en
    apart = ground (arith, n.distinct)

    deep : (q : ℕ) → has q all ≡ true → h q < fuel
    deep q m = ground (arith, n.deep, n.inner, ==→eq b q, ==→eq en q, Inner-lt q (p ∷ ps) n.inner)

    built-IsInside :
        (f : Edges) (z : System W)
        → Agrees y.state z.state
        → IsPlan all h b en f [] [] z.state
        → IsInside impl_post all types Good z.state
    built-IsInside f z agrees w = record {
      good = subst Good (sym agrees.env) n.good;
      typed = λ q m. agrees.types q;
      closed = λ q m.
          let i = w.ready.idle q m in subst (All (λ d. has d all ≡ true)) (sym i.edges) i.inside;
    }

    replayed :
        (f : Edges) (z : System W)
        → Agrees y.state z.state
        → IsPlan all h b en f [] [] z.state
        → (r : State W × ℤ) → post impl_post fuel b z.state ≡ some r
        → IsReplayed impl_post types y.state.env r.0
    replayed f z agrees w r done =
        let start : IsReplayed impl_post types y.state.env z.state = record {
          env = rw w.quiet agrees.env;
          typed = agrees.types;
        } in
        post-IsReplayed impl_post types y.state.env fuel b z.state r start done

    run_built :
        (f : Edges) (z : System W)
        → Spans b en k z
        → Agrees y.state z.state
        → IsPlan all h b en f [] [] z.state
        → ((q : ℕ) → has q all ≡ true → degree f all q ≡ 0 → q ≡ b)
        → Ran z
    run_built f z spans agrees w only =
        let idle = w.ready.idle b has_begin in
        let (r, done, ran) =
          post_runs_all (forced impl_post) (λ ty p w. refl) h n.distinct w.height (omega arith) fuel
            deep b z.state w.ready has_begin (idle.in_deps ∙ w.source) only in
        let (real, inside) =
          post-Follows impl_post all types Good n.immediate fuel b z.state r has_begin
            (built-IsInside f z agrees w) done in
        let up = (ran.0 en has_end).1 in
        (
          (record z { state = r.0 }, r.1),
          post_begin impl_post call fuel k b en z r spans real,
          ran.0,
          inside.good,
          (replayed f z agrees w r real).env,
          record z { state = clear en r.0 },
          wait_at_once k en (record z { state = r.0 }) spans.1 up,
        )

    -- A new schedule whose begin, end and further operations are distinct, persistent, have AND
    -- dependencies, and have not been posted yet; whose edges, none of them at the begin, follow a
    -- height that falls along them and from the begin over the others to the end, with fuel above
    -- the height of the begin, and with fewer than 2^32 dependencies left for the end; whose
    -- operations complete when they are posted and leave the environment in order; and of which at
    -- most ten have no dependencies: adding the operations succeeds, ffschedule_post returns with
    -- each operation of the schedule run once and its completion flag up, the environment is in
    -- order and is what the posts of the log, one after another, have made of it, and
    -- ffschedule_wait returns at its first poll.
    pub schedule_runs : (z : System W) × (add_ops k (p ∷ ps) y ≡ some z) × Ran z
    schedule_runs =
        let (f, z, added, spans, w) =
          add_ops-IsPlan all h b en n.distinct has_begin has_end apart k e (p ∷ ps) y n.distinct.1.1
            (ground (arith, n.distinct)) n.inner n.spans (IsNew-IsPlan n) in
        let (mp, nb, ne, below, above) = n.inner.0 in
        (
          z,
          added,
          run_built f z spans (add_ops-Agrees k (p ∷ ps) y z added) w
              (only_begin all h b en n.distinct has_begin has_end apart f z.state w p mp nb ne),
        )
