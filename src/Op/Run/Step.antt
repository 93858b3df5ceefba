-- ===== src/Op/Run/Step.antt =====
-- The parts of `ffop_post` and `ffop_complete` of src/ffop.c keep the invariant of a round.
use fflib.Base.{
  ℕ, suc, ◌+◌, ◌<◌, ◌≡◌, ◌≢◌, refl, true, List, [], ◌∷◌, ◌++◌, arith, has, count, u32, count-append,
  update, Distinct, inl, inr, ==-refl, ◌%◌, Bool-cases, ==→eq, ◌==◌,
}
use fflib.Op.{
  State, clear, satisfy, start, finish, Op, Event, increment, decrement, is_opt_set, posting,
  completing,
}
use fflib.Op.Sums.{Edges, waiting, waiting-update, waiting_zero, degree_pos}
use fflib.Op.Run.{Item, IsRun, IsDue, posts, completes}

module _ (e : Edges) (all : List ℕ) (v : ℕ) (ver : ℕ → ℕ) where
  module _ (d b : ℕ) (op : Op) (ne : b ≢ d) where
    Item-drop :
        (rest : List ℕ) (log : List Event)
        → Item e all (d ∷ rest) v ver log op b
        → Item e all rest v ver log op b
    Item-drop rest log i = ground arith

    Item-posting :
        (rest : List ℕ) (log : List Event)
        → Item e all rest v ver log op b
        → Item e all rest v ver (posting d ∷ log) op b
    Item-posting rest log i = ground arith

  module _ (d : ℕ) (rest : List ℕ) (log : List Event) (op : Op)
      (i : Item e all (d ∷ rest) v ver log op d) where
    Item-satisfy :
        decrement op.dep_left ≢ 0
        → Item e all rest v ver log (record op { dep_left = decrement op.dep_left }) d
    unfolding is_opt_set
    Item-satisfy ne = ground (arith, ==-refl d)

    Item-fire :
        decrement op.dep_left ≡ 0
        → Item e all rest v ver
            (posting d ∷ log)
            (record op { dep_left = decrement op.dep_left; completed = 0 })
            d
    unfolding is_opt_set
    Item-fire z = ground (arith, ==-refl d)

  Item-clear :
      (b : ℕ) (rest : List ℕ) (log : List Event) (op : Op)
      → Item e all rest v ver log op b
      → Item e all rest v ver log (record op { completed = 0 }) b
  unfolding is_opt_set
  Item-clear b rest log op i = ground arith

  Item-root :
      (p : ℕ) (log : List Event) (op : Op)
      → Item e all [] v ver log op p
      → op.in_dep_count ≡ 0
      → posts p log ≡ v
      → Item e all [] v ver (posting p ∷ log) (record op { completed = 0 }) p
  unfolding is_opt_set
  Item-root p log op i z once = ground (arith, ==-refl p)

  module _ (p b : ℕ) (rest : List ℕ) (log : List Event) (op : Op) (distinct : Distinct all)
      (here : has p all ≡ true) (fresh : ver p ≡ v) (i : Item e all rest v ver log op b) where
    abbrev after : ℕ → ℕ
    after = update ver p (suc v)

    Item-finish_ne : b ≢ p → Item e all (e p ++ rest) v after (completing p ∷ log) op b
    Item-finish_ne ne = ground (
      arith,
      waiting-update e ver v all b p (suc v) distinct here fresh,
      count-append b (e p) rest,
    )

    Item-finish :
        b ≡ p
        → count p rest + waiting e ver v all p ≡ 0
        → posts p log ≡ suc v
        → suc v < u32
        → Item e all
            (e p ++ rest)
            v
            after
            (completing p ∷ log)
            (record op {
              version = increment op.version;
              dep_left = op.in_dep_count;
              completed = (op.completed + 1) % 256;
            })
            b
    unfolding is_opt_set
    Item-finish same none_left posted fits = ground (
      arith,
      waiting-update e ver v all b p (suc v) distinct here fresh,
      count-append b (e p) rest,
    )

module _ {W : Type 0} {e : Edges} {all : List ℕ} {v : ℕ} (s : State W) where
  -- A dependent with other dependencies left is not posted.
  pub satisfy-IsRun :
      (d : ℕ) (rest : List ℕ)
      → IsRun e all (d ∷ rest) v s
      → has d all ≡ true
      → decrement (s.ops d).dep_left ≢ 0
      → IsRun e all rest v (satisfy d s)
  unfolding satisfy
  satisfy-IsRun d rest r m ne = record {
    ver = r.ver;
    ordered = r.ordered;
    item = λ b mb. elim (Bool-cases (b == d)) [
      | inl same ↦
          let q = ==→eq b d same in
          rw (same, q) (Item-satisfy e all v r.ver d rest s.log (s.ops d) (r.item d m) ne)
      | inr other ↦
          rw other (Item-drop e all v r.ver d b (s.ops b) (ground arith) rest s.log (r.item b mb))
    ];
  }

  -- Why the order of the log is kept when the last dependency of `d` is satisfied.
  fire-Ordered :
      (d : ℕ) (rest : List ℕ)
      → IsRun e all (d ∷ rest) v s
      → has d all ≡ true
      → decrement (s.ops d).dep_left ≡ 0
      → (a : ℕ) → has a all ≡ true
      → 0 < count d (e a)
      → completes a s.log ≡ suc (posts d s.log)
  fire-Ordered d rest r m z a ma edge = ground (
    arith,
    ==-refl d,
    r.item a ma,
    r.item d m,
    waiting_zero e r.ver v all d a,
    degree_pos e all d a ma edge,
  )

  fire-IsRun :
      (d : ℕ) (rest : List ℕ)
      → (r : IsRun e all (d ∷ rest) v s) → has d all ≡ true
      → decrement (s.ops d).dep_left ≡ 0
      → (b : ℕ) → has b all ≡ true
      → Item e all rest v r.ver (start d (satisfy d s)).log ((start d (satisfy d s)).ops b) b
  unfolding satisfy start
  fire-IsRun d rest r m z b mb = elim (Bool-cases (b == d)) [
    | inl same ↦
        let q = ==→eq b d same in
        rw (same, q, ==-refl d) (Item-fire e all v r.ver d rest s.log (s.ops d) (r.item d m) z)
    | inr other ↦
        let ne : b ≢ d = ground arith in
        rw other (
          Item-posting e all v r.ver d b (s.ops b) ne rest s.log
            (Item-drop e all v r.ver d b (s.ops b) ne rest s.log (r.item b mb)))
  ]

  -- The last dependency of `d` is satisfied: `d` is due.
  pub fire-IsDue :
      (d : ℕ) (rest : List ℕ)
      → IsRun e all (d ∷ rest) v s
      → has d all ≡ true
      → decrement (s.ops d).dep_left ≡ 0
      → IsDue e all rest v (satisfy d s) d
  unfolding satisfy start
  fire-IsDue d rest r m z =
      let i = r.item d m in
      record {
        run = record {
          ver = r.ver;
          ordered = (fire-Ordered d rest r m z, r.ordered);
          item = fire-IsRun d rest r m z;
        };
        member = m;
        fresh = ground (arith, ==-refl d);
        none_left = ground (arith, ==-refl d);
        once = ground (arith, ==-refl d);
      }

  -- The completion of a posted operation: its dependents become pending.
  pub finish-IsRun :
      (p : ℕ) (rest : List ℕ) (r : IsRun e all rest v s)
      → Distinct all
      → has p all ≡ true
      → r.ver p ≡ v
      → count p rest + waiting e r.ver v all p ≡ 0
      → posts p s.log ≡ suc v
      → suc v < u32
      → IsRun e all (e p ++ rest) v (finish p s)
  unfolding finish
  finish-IsRun p rest r distinct m fresh none_left posted fits = record {
    ver = update r.ver p (suc v);
    ordered = r.ordered;
    item = λ b mb. elim (Bool-cases (b == p)) [
      | inl same ↦
          let q = ==→eq b p same in
          rw (same, q)
            (Item-finish e all v r.ver p p rest s.log (s.ops p) distinct m fresh (r.item p m) refl
              none_left posted fits)
      | inr other ↦ rw other (
          Item-finish_ne e all v r.ver p b rest s.log (s.ops b) distinct m fresh (r.item b mb)
            (ground arith))
    ];
  }

  -- A root that has not been posted in this round is due.
  pub root-IsDue :
      (p : ℕ)
      → IsRun e all [] v s
      → has p all ≡ true
      → (s.ops p).in_dep_count ≡ 0
      → posts p s.log ≡ v
      → IsDue e all [] v s p
  unfolding start
  root-IsDue p r m z once =
      let i = r.item p m in
      record {
        run = record {
          ver = r.ver;
          ordered = (λ a ma edge. ground (arith, degree_pos e all p a ma edge, i), r.ordered);
          item = λ b mb. elim (Bool-cases (b == p)) [
            | inl same ↦
                rw (same, ==→eq b p same) (Item-root e all v r.ver p s.log (s.ops p) i z once)
            | inr other ↦
                rw other
                  (Item-posting e all v r.ver p b (s.ops b) (ground arith) [] s.log (r.item b mb))
          ];
        };
        member = m;
        fresh = ground (arith, i);
        none_left = ground (arith, i);
        once = ground (arith, ==-refl p);
      }

  -- Waiting for an operation takes no part in the round.
  pub clear-IsRun : (p : ℕ) (rest : List ℕ) → IsRun e all rest v s → IsRun e all rest v (clear p s)
  clear-IsRun p rest r = record {
    ver = r.ver;
    ordered = r.ordered;
    item = λ b mb. elim (Bool-cases (b == p)) [
      | inl same ↦
          rw (same, ← (==→eq b p same))
            (Item-clear e all v r.ver b rest s.log (s.ops b) (r.item b mb))
      | inr other ↦ rw other (r.item b mb)
    ];
  }
