-- ===== src/Op/Build.antt =====
-- Building a graph of operations: `ffop_create` and `ffop_hb` of src/ffop.c.

use fflib.Base.{
  length, length-append, sym, ap, ℕ, zero, suc, ◌+◌, ◌≤◌, ◌<◌, ◌≡◌, ◌∙◌, inl, inr, refl, true,
  false, none, some, List, [], ◌∷◌, ◌++◌, arith, has, count-append, u32, Distinct, All, update,
  if◌then◌else◌, ◌==◌, ==-refl, Bool-cases, ffsuccess,
}
use fflib.Op.{
  State, hb, add_dependent, add_dependency, entries, max_deps, is_opt_set, dependents, increment,
}
use fflib.Op.Sums.{Edges, degree}
use fflib.Op.Round.{IsIdle, IsReady}

-- The graph with one more edge, behind those of `a`.
abbrev pub add_edge : Edges → ℕ → ℕ → Edges
add_edge e a b = update e a (e a ++ b ∷ [])

entries-update : (f : ℕ → ℕ) (i x n : ℕ) → n ≤ i → entries (update f i x) n ≡ entries f n
unfolding entries
entries-update f i x zero h = refl
entries-update f i x (suc n) h = ground (arith, entries-update f i x n)

pub entries-append : (f : ℕ → ℕ) (n x : ℕ) → entries (update f n x) (suc n) ≡ entries f n ++ x ∷ []
unfolding entries
entries-append f n x = rw (entries-update f n x n (omega arith), ==-refl n)

degree-add_edge_ne :
    (e : Edges) (xs : List ℕ) (a x b : ℕ)
    → has a xs ≡ false
    → degree (add_edge e a x) xs b ≡ degree e xs b
unfolding degree
degree-add_edge_ne e [] a x b h = refl
degree-add_edge_ne e (y ∷ ys) a x b h = ground (arith, degree-add_edge_ne e ys a x b)

pub degree-add_edge :
    (e : Edges) (xs : List ℕ) (a x b : ℕ)
    → Distinct xs
    → has a xs ≡ true
    → degree (add_edge e a x) xs b ≡ (if x == b then 1 else 0) + degree e xs b
unfolding degree
degree-add_edge e [] a x b d h = cc
degree-add_edge e (y ∷ ys) a x b d h = ground (
  arith,
  count-append b (e y) (x ∷ []),
  degree-add_edge e ys a x b d.1,
  degree-add_edge_ne e ys a x b,
)

All-append :
    (xs ys : List ℕ) (x : ℕ)
    → All (λ d. has d ys ≡ true) xs
    → has x ys ≡ true
    → All (λ d. has d ys ≡ true) (xs ++ x ∷ [])
All-append [] zs x a p = (p, tt)
All-append (y ∷ ys) zs x a p = (a.0, All-append ys zs x a.1 p)

module _ {W : Type 0} (first second : ℕ) (s : State W) where
  abbrev linked : State W
  linked = add_dependency second (add_dependent first second s)

  -- What `ffop_hb` does to the operation `b`.
  record LinkEffect (b : ℕ) : Type 0 where
    version : (linked.ops b).version ≡ (s.ops b).version
    in_deps :
        (linked.ops b).in_dep_count
        ≡ (if second == b then increment (s.ops b).in_dep_count else (s.ops b).in_dep_count)
    dep_left :
        (linked.ops b).dep_left
        ≡ (if second == b then increment (s.ops b).in_dep_count else (s.ops b).dep_left)
    options : (o : ℕ) → is_opt_set (linked.ops b) o ≡ is_opt_set (s.ops b) o

  linked-LinkEffect : (b : ℕ) → LinkEffect b
  unfolding add_dependency add_dependent is_opt_set
  linked-LinkEffect b = record {
    version = ground arith;
    in_deps = ground arith;
    dep_left = ground arith;
    options = λ o. ground arith;
  }

  log-linked : linked.log ≡ s.log
  unfolding add_dependency add_dependent
  log-linked = refl

  linked-dependents :
      (b : ℕ)
      → (s.ops first).out_dep_count < max_deps
      → dependents (linked.ops b)
        ≡ (if b == first then dependents (s.ops b) ++ second ∷ [] else dependents (s.ops b))
  unfolding add_dependency add_dependent
  linked-dependents b room =
      let n : increment (s.ops first).out_dep_count ≡ suc (s.ops first).out_dep_count =
        omega arith in
      ground (arith, n, entries-append (s.ops first).dependent (s.ops first).out_dep_count second)

module _ {W : Type 0} {e : Edges} {all : List ℕ} (first second : ℕ) (s : State W)
    (distinct : Distinct all) (m1 : has first all ≡ true) (m2 : has second all ≡ true)
    (ready : IsReady e all 0 s) (fresh : s.log ≡ []) (room : (s.ops first).out_dep_count < max_deps)
    (fits : suc (s.ops second).in_dep_count < u32) where
  add_edge-inside :
      (b : ℕ) → has b all ≡ true → All (λ d. has d all ≡ true) (add_edge e first second b)
  add_edge-inside b m = elim (Bool-cases (b == first)) [
    | inl hit ↦ rw hit (All-append (e first) all second (ready.idle first m1).inside m2)
    | inr miss ↦ rw miss (ready.idle b m).inside
  ]

  linked-IsIdle :
      (b : ℕ) → has b all ≡ true → IsIdle (add_edge e first second) all 0 (linked first second s) b
  linked-IsIdle b m =
      let i = ready.idle b m in
      let l = linked-LinkEffect first second s b in
      let d = degree-add_edge e all first second b distinct m1 in
      record {
        version = ground (arith, l, i);
        posted = rw (log-linked first second s) i.posted;
        completions = rw (log-linked first second s) i.completions;
        dep_left = ground (arith, l, i);
        in_deps = ground (arith, l, i, d);
        small = ground (arith, l, i);
        dep_and = l.options _ ∙ i.dep_and;
        persistent = l.options _ ∙ i.persistent;
        edges = ground (arith, linked-dependents first second s b room, i.edges);
        inside = add_edge-inside b m;
      }

  -- ffop_hb between two operations of a graph that is ready and not yet posted, the first with
  -- fewer than ten dependents, adds exactly that edge, behind the older ones, and leaves the graph
  -- ready.
  pub hb-IsReady :
      (t : State W) × (hb first second s ≡ some (t, ffsuccess))
      × (t.log ≡ [])
      × IsReady (add_edge e first second) all 0 t
  unfolding hb
  hb-IsReady = (
    linked first second s,
    ground arith,
    log-linked first second s ∙ fresh,
    record { idle = linked-IsIdle; ordered = rw (log-linked first second s, fresh) tt },
  )

module _ {W : Type 0} where
  -- The eleventh dependent of an operation is written behind the end of its array.
  pub hb_overflow :
      (first second : ℕ) (s : State W)
      → max_deps ≤ (s.ops first).out_dep_count
      → hb first second s ≡ none
  unfolding hb
  hb_overflow first second s h = ground arith

length-entries : (f : ℕ → ℕ) (n : ℕ) → length (entries f n) ≡ n
unfolding entries
length-entries f zero = refl
length-entries f (suc n) = omega (arith, length-append (entries f n) (f n ∷ []), length-entries f n)

-- The out-degree of an operation that is idle.
pub out_deps :
    {W : Type 0} {e : Edges} {all : List ℕ} {v b : ℕ} {s : State W}
    → IsIdle e all v s b
    → (s.ops b).out_dep_count ≡ length (e b)
out_deps {b} {s} i =
    sym (length-entries (s.ops b).dependent (s.ops b).out_dep_count) ∙ ap length i.edges
