-- ===== src/Op/Quiet.antt =====
-- Rounds of a schedule (src/ffop.c) in which nothing is in flight any more.
use fflib.Base.{
  ℕ, zero, suc, ◌+◌, ◌≤◌, ◌<◌, ◌≡◌, ◌∙◌, subst, true, List, [], ◌∷◌, arith, ℤ, has, count, u32,
  Distinct, All, ◌==◌, ==→eq, Bool-cases, inl, inr,
}
use fflib.Op.{State}
use fflib.Op.Sums.{Edges, waiting_none}
use fflib.Op.Run.{IsRun, posts, completes}
use fflib.Op.Run.Post.{IsHeight}
use fflib.Op.Round.{IsReady, Reach, Reach-IsRun, IsRun-IsReady}

lt_of_All : (h : ℕ → ℕ) (n b : ℕ) (xs : List ℕ) → All (λ x. h x < n) xs → 0 < count b xs → h b < n
lt_of_All h n b [] a c = absurd (omega arith)
lt_of_All h n b (x ∷ xs) a c = elim (Bool-cases (x == b)) [
  | inl hit ↦ subst (λ y. h y < n) (==→eq x b hit) a.0
  | inr miss ↦ lt_of_All h n b xs a.1 (ground arith)
]

module _ {W : Type 0} {e : Edges} {all : List ℕ} {v : ℕ} (h : ℕ → ℕ) (height : IsHeight e all h)
    (fuel : ℕ) (deep : (p : ℕ) → has p all ≡ true → h p < fuel) where
  -- In a state where all that was posted has completed, and the only root was posted, all have
  -- completed: by induction on how far an operation lies below the fuel.
  pub settled-done :
      (t : State W) (run : IsRun e all [] v t)
      → ((b : ℕ) → has b all ≡ true → posts b t.log ≡ completes b t.log)
      → ((b : ℕ) → has b all ≡ true → (t.ops b).in_dep_count ≡ 0 → posts b t.log ≡ suc v)
      → (k b : ℕ) → has b all ≡ true
      → fuel ≤ h b + k
      → run.ver b ≡ suc v
  settled-done t run bal roots zero b m low = absurd (omega (arith, deep b m))
  settled-done t run bal roots (suc k) b m low =
      let i = run.item b m in
      let past = waiting_none e run.ver v all b λ a ma edge.
        let below = lt_of_All h (h a) b (e a) (height a ma) edge in
        let moved = settled-done t run bal roots k a ma (omega arith) in omega arith in
      ground (arith, i, bal b m, roots b m, past)

  -- No deadlock: in a round of a graph without cycles of persistent operations with AND
  -- dependencies, with fuel above its height, when all operations without dependencies have been
  -- posted in the round and all that was posted has completed, then each operation has been posted
  -- in the round, and the graph is ready for the next one.
  pub quiet-IsReady :
      (impl_post : ℕ → ℕ → W → W × ℤ) (s t : State W)
      → Distinct all
      → suc v < u32
      → IsReady e all v s
      → Reach impl_post e all fuel v s t
      → ((b : ℕ) → has b all ≡ true → (t.ops b).in_dep_count ≡ 0 → posts b t.log ≡ suc v)
      → ((b : ℕ) → has b all ≡ true → posts b t.log ≡ completes b t.log)
      → ((b : ℕ) → has b all ≡ true → posts b t.log ≡ suc v) × IsReady e all (suc v) t
  quiet-IsReady impl_post s t distinct fits ready reach roots balanced =
      let run = Reach-IsRun h distinct height deep fits reach ready in
      let moved = λ (b : ℕ) (m : has b all ≡ true).
        settled-done t run balanced roots fuel b m (omega arith) in
      (
        λ b m. ground (arith, run.item b m, moved b m, balanced b m),
        IsRun-IsReady run (λ b m. (run.item b m).version ∙ moved b m),
      )
