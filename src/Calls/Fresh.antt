-- ===== src/Calls/Fresh.antt =====
-- A new operation of src/ffsend.c, src/ffrecv.c or src/ffcomp.c in a graph that is being built.
use fflib.Base.{
  ℕ, ◌≡◌, refl, sym, ap, ◌∙◌, subst, true, false, List, [], ◌∷◌, arith, has, count, All, update,
  ◌==◌, ==→eq, ==-refl, Bool-cases, inl, inr, bit_and, bit_xor,
}
use fflib.Op.{State, create, entries, is_opt_set, ffop_dep_and, ffop_dep_or, ffop_non_persistent}
use fflib.Op.Sums.{Edges, degree}
use fflib.Op.Round.{IsReady, IsIdle}
use fflib.Calls.{typed}

-- The options leave the operation with AND dependencies, and persistent.
pub record IsPlain (options : ℕ) : Type 0 where
  pub dep_and : (bit_and (bit_xor ffop_dep_and options) ffop_dep_or == ffop_dep_or) ≡ false
  pub persistent :
      (bit_and (bit_xor ffop_dep_and options) ffop_non_persistent == ffop_non_persistent) ≡ false

pub degree-update :
    (e : Edges) (p b : ℕ) (xs : List ℕ)
    → has p xs ≡ false
    → degree (update e p []) xs b ≡ degree e xs b
unfolding degree
degree-update e p b [] out = refl
degree-update e p b (x ∷ xs) out = ground (arith, degree-update e p b xs)

count_none :
    (b : ℕ) (all l : List ℕ) → All (λ d. has d all ≡ true) l → has b all ≡ false → count b l ≡ 0
count_none b all [] ins out = refl
count_none b all (x ∷ l) ins out = ground (arith, count_none b all l ins.1 out, ins.0, ==→eq x b)

pub degree_none :
    (e : Edges) (b : ℕ) (all xs : List ℕ)
    → ((a : ℕ) → has a xs ≡ true → All (λ d. has d all ≡ true) (e a))
    → has b all ≡ false
    → degree e xs b ≡ 0
unfolding degree
degree_none e b all [] ins out = refl
degree_none e b all (x ∷ xs) ins out = omega (
  arith,
  count_none b all (e x) (ins x (rw (==-refl x) refl)) out,
  degree_none e b all xs (λ a m. ins a (ground (arith, m))) out,
)

All-more :
    (p : ℕ) (all l : List ℕ) → All (λ d. has d all ≡ true) l → All (λ d. has d (p ∷ all) ≡ true) l
All-more p all [] ins = tt
All-more p all (x ∷ l) ins = (ground (arith, ins.0), All-more p all l ins.1)

-- What a creation leaves at the block `p`; the rest of `s` stays.
pub record IsNewAt {W : Type 0} (p : ℕ) (s t : State W) : Type 0 where
  pub version : (t.ops p).version ≡ 0
  pub dep_left : (t.ops p).dep_left ≡ 0
  pub in_deps : (t.ops p).in_dep_count ≡ 0
  pub out_deps : (t.ops p).out_dep_count ≡ 0
  pub dep_and : is_opt_set (t.ops p) ffop_dep_or ≡ false
  pub persistent : is_opt_set (t.ops p) ffop_non_persistent ≡ false
  pub others : (q : ℕ) → (q == p) ≡ false → t.ops q ≡ s.ops q
  pub log : t.log ≡ s.log

module _ {W : Type 0} (p : ℕ) (e : Edges) (all : List ℕ) (s t : State W) (new : has p all ≡ false)
    (n : IsNewAt p s t) (r : IsReady e all 0 s) (quiet : s.log ≡ []) where
  degree-new : (q : ℕ) → degree (update e p []) (p ∷ all) q ≡ degree e all q
  unfolding degree
  degree-new q = ground (arith, ==-refl p, degree-update e p q all new)

  new-IsIdle : IsIdle (update e p []) (p ∷ all) 0 t p
  unfolding entries
  new-IsIdle = record {
    version = n.version;
    posted = rw (n.log, quiet) refl;
    completions = rw (n.log, quiet) refl;
    dep_left = n.dep_left ∙ sym n.in_deps;
    in_deps =
        n.in_deps ∙ sym (degree-new p ∙ degree_none e p all all (λ a h. (r.idle a h).inside) new);
    small = omega (arith, n.in_deps);
    dep_and = n.dep_and;
    persistent = n.persistent;
    edges = rw (n.out_deps, ==-refl p) refl;
    inside = rw (==-refl p) tt;
  }

  old-IsIdle :
      (b : ℕ) → (b == p) ≡ false → has b all ≡ true → IsIdle (update e p []) (p ∷ all) 0 t b
  old-IsIdle b other m =
      let i = r.idle b m in
      let same = n.others b other in
      record {
        version = ap (λ o. o.version) same ∙ i.version;
        posted = rw n.log i.posted;
        completions = rw n.log i.completions;
        dep_left = rw same i.dep_left;
        in_deps = ap (λ o. o.in_dep_count) same ∙ i.in_deps ∙ sym (degree-new b);
        small = rw same i.small;
        dep_and = rw same i.dep_and;
        persistent = rw same i.persistent;
        edges = rw (same, other) i.edges;
        inside = rw other (All-more p all (e b) i.inside);
      }

  -- It joins the graph as an operation without edges.
  pub new-IsReady : IsReady (update e p []) (p ∷ all) 0 t
  new-IsReady = record {
    idle = λ b m. elim (Bool-cases (b == p)) [
      | inl same ↦ subst (IsIdle (update e p []) (p ∷ all) 0 t) (sym (==→eq b p same)) new-IsIdle
      | inr other ↦ old-IsIdle b other (ground (arith, m, ==→eq p b))
    ];
    ordered = rw (n.log, quiet) tt;
  }

module _ {W : Type 0} (p type options : ℕ) (plain : IsPlain options) (e : Edges) (all : List ℕ)
    (s : State W) (new : has p all ≡ false) where
  typed-IsNewAt : IsNewAt p s (typed p type options s)
  unfolding typed create is_opt_set
  typed-IsNewAt = record {
    version = rw (==-refl p) refl;
    dep_left = rw (==-refl p) refl;
    in_deps = rw (==-refl p) refl;
    out_deps = rw (==-refl p) refl;
    dep_and = rw (==-refl p) plain.dep_and;
    persistent = rw (==-refl p) plain.persistent;
    others = λ q ne. rw (ne) refl;
    log = refl;
  }

  -- An operation that ffsend_b, ffrecv_b or ffcomp_b creates at a new block joins a graph that is
  -- ready and not yet posted as an operation without edges, with AND dependencies and persistent if
  -- its options say nothing else, and the graph stays ready.
  pub typed-IsReady :
      IsReady e all 0 s → s.log ≡ [] → IsReady (update e p []) (p ∷ all) 0 (typed p type options s)
  typed-IsReady r quiet = new-IsReady p e all s (typed p type options s) new typed-IsNewAt r quiet
