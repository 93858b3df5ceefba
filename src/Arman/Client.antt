-- ===== src/Arman/Client.antt =====
-- Histories of calls of src/utils/ffarman.c by clients that give back what they were given.
use fflib.Base.{
  erase, count-erase, length-erase, ℕ, ◌+◌, ◌≤◌, ◌<◌, ◌≡◌, refl, inl, inr, false, Option, some,
  List, [], ◌∷◌, arith, length, has, count, count-range, range, ltb, ◌==◌, if◌then◌else◌,
  Bool-cases, ◌>>=◌,
}
use fflib.Arman.{Entry, Arman, create, no_index, get, put}
use fflib.Arman.Stack.{Holds, get-cons, get-nil, put-cons, create-Holds}

-- A manager, and the indices that its clients hold.
pub record World : Type 0 where
  pub manager : Arman
  pub live : List ℕ

pub data Call : Type 0 where
  take : Call
  give : ℕ → Call

-- A client gives back only what it holds. `none`: an assertion fails.
pub step : World → Call → Option World
step w take =
    let (i, a) = get w.manager in
    some (record { manager = a; live = if i == no_index then w.live else i ∷ w.live })
step w (give i) =
    if has i w.live
    then put w.manager i >>= (λ a. some (record { manager = a; live = erase i w.live }))
    else some w

pub run : World → List Call → Option World
run w [] = some w
run w (c ∷ cs) = step w c >>= λ w'. run w' cs

-- Each index below `n` is in one place, once: on the free stack or with a client; no other is.
pub record IsSound (n : ℕ) (w : World) : Type 0 where
  pub stack : List ℕ
  pub held : Holds w.manager stack (length w.live)
  pub once : (a : ℕ) → count a stack + count a w.live ≡ (if ltb a n then 1 else 0)

module _ {n : ℕ} (small : n ≤ no_index) where
  abbrev SoundAfter : Option World → Type 0
  SoundAfter r = (w : World) × (r ≡ some w) × IsSound n w

  take-IsSound :
      (w : World) (stack : List ℕ)
      → Holds w.manager stack (length w.live)
      → ((j : ℕ) → count j stack + count j w.live ≡ (if ltb j n then 1 else 0))
      → SoundAfter (step w take)
  unfolding step
  take-IsSound w [] h once = (w, simp (get-nil h), record { stack = []; held = h; once = once })
  take-IsSound w (i ∷ stack) h once =
      let (got, held) = get-cons h in
      let fits : (i == no_index) ≡ false = ground (arith, once i) in
      (
        record { manager = (get w.manager).1; live = i ∷ w.live },
        rw (got, fits),
        record { stack = stack; held = held; once = λ j. ground (arith, once j) },
      )

  give-IsSound : (w : World) (i : ℕ) → IsSound n w → SoundAfter (step w (give i))
  unfolding step
  give-IsSound w i s = elim (Bool-cases (has i w.live)) [
    | inr absent ↦ (w, rw absent, s)
    | inl present ↦
        let fit = length-erase i w.live present in
        let (b, done, held) = put-cons i (rw fit at s.held) in
        (
          record { manager = b; live = erase i w.live },
          rw (present, done),
          record {
            stack = i ∷ s.stack;
            held = held;
            once = λ j. ground (arith, s.once j, count-erase j i w.live present);
          },
        )
  ]

  step-IsSound : (w : World) (c : Call) → IsSound n w → SoundAfter (step w c)
  step-IsSound w take s = take-IsSound w s.stack s.held s.once
  step-IsSound w (give i) s = give-IsSound w i s

  -- No history of calls fails an assertion, and each leaves the manager sound.
  pub run-IsSound : (cs : List Call) (w : World) → IsSound n w → SoundAfter (run w cs)
  unfolding run
  run-IsSound [] w s = (w, refl, s)
  run-IsSound (c ∷ cs) w s =
      let (w', done, s') = step-IsSound w c s in rw (done) (run-IsSound cs w' s')

-- A new manager, with no index handed out.
pub new-IsSound :
    (n : ℕ) (a : Arman) → Holds a (range 0 n) 0 → IsSound n (record { manager = a; live = [] })
new-IsSound n a h = record {
  stack = range 0 n;
  held = h;
  once = λ j. ground (arith, count-range j 0 n);
}

-- In a sound manager of n indices ffarman_get answers -1 only when the clients hold each index
-- below n.
pub get-no_index :
    {n : ℕ} {w : World}
    → n ≤ no_index
    → IsSound n w
    → (get w.manager).0 ≡ no_index
    → (a : ℕ) → a < n
    → count a w.live ≡ 1
get-no_index {n} {w} small s e = go s.stack s.held s.once
  where
    go :
        (stack : List ℕ)
        → Holds w.manager stack (length w.live)
        → ((j : ℕ) → count j stack + count j w.live ≡ (if ltb j n then 1 else 0))
        → (a : ℕ) → a < n
        → count a w.live ≡ 1
    go [] h once a lt = ground (arith, once a)
    go (i ∷ stack) h once a lt = ground (arith, once i, (get-cons h).0)

-- From ffarman_create on, no history of ffarman_get and ffarman_put by clients that give back what
-- they hold fails an assertion, and each index below n is at the end either free or with one
-- client, once, and no other number is.
pub create-run :
    (n : ℕ) (m : ℕ → Entry) (old : Arman) (cs : List Call)
    → 0 < n
    → n ≤ no_index
    → (w : World) × ((create n (some m) old >>= λ r. run (record { manager = r.0; live = [] }) cs)
        ≡ some w)
      × IsSound n w
create-run n m old cs lo hi =
    let (a, made, held) = create-Holds n m old lo (omega arith) in
    rw made (run-IsSound hi cs (record { manager = a; live = [] }) (new-IsSound n a held))
