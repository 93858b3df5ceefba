-- ===== src/Progress/Thread.antt =====
-- The progress thread of src/ffprogress.c in a round of a graph of operations of src/ffop.c.
use fflib.Base.{
  ℕ, suc, ◌≤◌, ◌<◌, ◌≡◌, ◌≢◌, refl, ap, ◌∙◌, true, false, Option, some, List, [], ◌∷◌, arith, ℤ,
  length, has, u32, Distinct, All, Follows, ==-refl, ==-ne,
}
use fflib.Op.{State, complete, finish}
use fflib.Op.Sums.{Edges}
use fflib.Op.Run.{posts}
use fflib.Op.Run.Post.{IsHeight, complete-IsRun}
use fflib.Op.Round.{IsReady, Reach, Move, Reach-IsRun}
use fflib.Op.Kept.{posts-finish, complete-IsKept}
use fflib.Progress.{drain}
use fflib.Progress.Drain.{complete_all, drain-complete_all}

apart : (p q : ℕ) (ps : List ℕ) → has p (q ∷ ps) ≡ false → q ≢ p
apart p q ps out e = ground (arith, out, e)

module _ {W : Type 0} (all : List ℕ) (v : ℕ) where
  -- The operation has been posted in the round, and has not completed in it.
  abbrev pub IsInFlight : State W → ℕ → Type 0
  IsInFlight t p = (has p all ≡ true) × (posts p t.log ≡ suc v) × ((t.ops p).version ≡ v)

  -- The operation has completed in the round.
  abbrev pub IsDone : State W → ℕ → Type 0
  IsDone t p = (has p all ≡ true) × (posts p t.log ≡ suc v) × ((t.ops p).version ≡ suc v)

module _ {W : Type 0} where
  finish_version :
      (p q : ℕ) (t : State W) → q ≢ p → ((finish p t).ops q).version ≡ (t.ops q).version
  unfolding finish
  finish_version p q t ne = rw (==-ne q p ne) refl

  finish_done :
      (p v : ℕ) (t : State W)
      → (t.ops p).version ≡ v
      → suc v < u32
      → ((finish p t).ops p).version ≡ suc v
  unfolding finish
  finish_done p v t e fits = rw (==-refl p, e) (omega (arith, fits))

module _ {W : Type 0} (impl_post : ℕ → ℕ → W → W × ℤ) {e : Edges} {all : List ℕ} {fuel v : ℕ}
    (h : ℕ → ℕ) (distinct : Distinct all) (height : IsHeight e all h)
    (deep : (p : ℕ) → has p all ≡ true → h p < fuel) (fits : suc v < u32) where
  module _ {s : State W} (ready : IsReady e all v s) where
    bound :
        {t : State W}
        → Reach impl_post e all fuel v s t
        → (p : ℕ) → has p all ≡ true
        → posts p t.log ≤ suc v
    bound reach p m = ground (arith, (Reach-IsRun h distinct height deep fits reach ready).item p m)

    complete-Reach :
        (t : State W) (p : ℕ)
        → Reach impl_post e all fuel v s t
        → IsInFlight all v t p
        → (r : State W × ℤ) × (complete impl_post fuel p t ≡ some r)
          × Reach impl_post e all fuel v s r.0
    complete-Reach t p reach (m, once, fresh) =
        let run = Reach-IsRun h distinct height deep fits reach ready in
        let (r, done, _) =
          complete-IsRun impl_post h distinct height fits fuel p t run (omega (arith, deep p m)) m
            (ground (arith, run.item p m)) once in
        (r, done, Reach.next reach (Move.completed p t r m once fresh done))

    -- An operation posted in the round has then the version that the completion noted.
    settled :
        (t : State W) (p q : ℕ) (r : State W × ℤ)
        → complete impl_post fuel p t ≡ some r
        → Reach impl_post e all fuel v s r.0
        → has q all ≡ true
        → posts q t.log ≡ suc v
        → (posts q r.0.log ≡ suc v) × ((r.0.ops q).version ≡ ((finish p t).ops q).version)
    settled t p q r done reach m once =
        let kept = complete-IsKept impl_post fuel p t r done q in
        let top = bound reach q m in
        let before = posts-finish p q t in
        (
          omega (arith, kept.0, top, before, once),
          kept.1 (omega (arith, kept.0, top, before, once)),
        )

    module _ (t : State W) (p : ℕ) (r : State W × ℤ) (done : complete impl_post fuel p t ≡ some r)
        (reach : Reach impl_post e all fuel v s r.0) (now : IsInFlight all v t p) where
      still_IsInFlight :
          (ps : List ℕ)
          → has p ps ≡ false
          → All (IsInFlight all v t) ps
          → All (IsInFlight all v r.0) ps
      still_IsInFlight [] out a = tt
      still_IsInFlight (q ∷ ps) out ((m, once, fresh), a) =
          let (once', kept) = settled t p q r done reach m once in
          (
            (m, once', kept ∙ finish_version p q t (λ e'. apart p q ps out e') ∙ fresh),
            still_IsInFlight ps (ground (arith, out)) a,
          )

      still_IsDone : (q : ℕ) → IsDone all v t q → IsDone all v r.0 q
      still_IsDone q (m, once, over) =
          let (once', kept) = settled t p q r done reach m once in
          (
            m,
            once',
            kept
                ∙ finish_version p q t
                    (λ e'. omega (arith, ap (λ x. (t.ops x).version) e', over, now.2))
                ∙ over,
          )

      now_IsDone : IsDone all v r.0 p
      now_IsDone =
          let (once', kept) = settled t p p r done reach now.0 now.1 in
          (now.0, once', kept ∙ finish_done p v t now.2 fits)

    complete_all-Reach :
        (ps : List ℕ) (t : State W)
        → Reach impl_post e all fuel v s t
        → Distinct ps
        → All (IsInFlight all v t) ps
        → (u : State W) × (complete_all impl_post fuel ps t ≡ some u)
          × Reach impl_post e all fuel v s u
          × All (IsDone all v u) ps
          × ((q : ℕ) → IsDone all v t q → IsDone all v u q)
    complete_all-Reach [] t reach apart a = (t, refl, reach, tt, (λ q d. d))
    complete_all-Reach (p ∷ ps) t reach (out, apart) (now, a) =
        let (r, done, there) = complete-Reach t p reach now in
        let (u, rest, end, overs, keep) =
          complete_all-Reach ps r.0 there apart (still_IsInFlight t p r done there now ps out a) in
        (
          u,
          rw done rest,
          end,
          (keep p (now_IsDone t p r done there now), overs),
          (λ q d. keep q (still_IsDone t p r done there now q d)),
        )

    -- At any point of a round of a graph of persistent operations with AND dependencies, with fuel
    -- for its depth and more rounds than operations on the ready list, which are distinct and in
    -- flight: the loop of the progress thread over the ready list ends without a fault, its steps
    -- are completions of the round, and every operation of the list has then been posted once and
    -- completed in the round.
    pub drain-Reach :
        (rounds : ℕ) (ps : List ℕ) (head : Option ℕ) (t : State W)
        → Reach impl_post e all fuel v s t
        → Distinct ps
        → All (IsInFlight all v t) ps
        → Follows (λ q. (t.ops q).next) head ps
        → length ps < rounds
        → (u : State W) × (drain impl_post rounds fuel head t ≡ some u)
          × Reach impl_post e all fuel v s u
          × All (IsDone all v u) ps
    drain-Reach rounds ps head t reach apart a f lt =
        let (u, done, end, overs, keep) = complete_all-Reach ps t reach apart a in
        (u, drain-complete_all impl_post rounds fuel ps head t f lt ∙ done, end, overs)
