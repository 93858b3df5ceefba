-- ===== src/Arman/Stack.antt =====
-- src/utils/ffarman.c against a stack of indices.
use fflib.Base.{
  ℕ, zero, suc, ==-refl, ◌+◌, ◌-◌, ◌%◌, ◌≤◌, ◌<◌, ◌≡◌, refl, false, ap, none, some, List, [], ◌∷◌,
  ◌++◌, arith, ffsuccess, u32, length, has, has-append, Distinct, range, leb, ◌&&◌, has-range_below,
  cons_tail, Option, if◌then◌else◌, ltb, update,
}
use mathlib.Core.List.{append-nil}
use native.Mathlib.Nat.{add-zero}
use fflib.Arman.{Entry, Arman, set_next, link, create, no_index, get, put}
use fflib.Arman.Chain.{Chain, values, Chain-update, values-update, Distinct-move, Distinct-back}

-- The free list carries the indices `stack`, top first, and `spare` entries wait for an index.
pub record Holds (a : Arman) (stack : List ℕ) (spare : ℕ) : Type 0 where
  pub free_nodes : List ℕ
  pub spare_nodes : List ℕ
  pub free : Chain a.entries a.free_entries free_nodes
  pub spares : Chain a.entries a.free_free_entries spare_nodes
  pub carried : values a.entries free_nodes ≡ stack
  pub room : length spare_nodes ≡ spare
  pub distinct : Distinct (free_nodes ++ spare_nodes)

module _ (m : ℕ → Entry) (p q t : Option ℕ) where
  abbrev pub array_of : Arman
  array_of = record { entries = m; free_entries = p; free_free_entries = q; tofree = t }

  get-Chain :
      (x : ℕ) (xs ys : List ℕ)
      → Chain m p (x ∷ xs)
      → Chain m q ys
      → Distinct (x ∷ xs ++ ys)
      → ((get array_of).0 ≡ (m x).idx) × Holds (get array_of).1 (values m xs) (suc (length ys))
  unfolding get
  get-Chain x xs ys c d apart =
      let out : has x xs ≡ false = ground (arith, has-append x xs ys) in
      let out' : has x ys ≡ false = ground (arith, has-append x xs ys) in
      rw c.0 (
        refl,
        record {
          free_nodes = xs;
          spare_nodes = x ∷ ys;
          free = Chain-update m x _ (m x).next xs out c.1;
          spares = (refl, rw (==-refl x) (Chain-update m x _ q ys out' d));
          carried = values-update m x _ xs out;
          room = refl;
          distinct = Distinct-move x xs ys apart;
        },
      )

  put-Chain :
      (i x : ℕ) (xs ys : List ℕ)
      → Chain m p xs
      → Chain m q (x ∷ ys)
      → Distinct (xs ++ x ∷ ys)
      → (b : Arman) × (put array_of i ≡ some b) × Holds b (i ∷ values m xs) (length ys)
  unfolding put
  put-Chain i x xs ys c d apart =
      let moved = Distinct-back x xs ys apart in
      let out : has x xs ≡ false = ground (arith, has-append x xs ys) in
      let out' : has x ys ≡ false = ground (arith, has-append x xs ys) in
      (
        record {
          entries = update m x (record { idx = i; next = p });
          free_entries = some x;
          free_free_entries = (m x).next;
          tofree = t;
        },
        rw d.0,
        record {
          free_nodes = x ∷ xs;
          spare_nodes = ys;
          free = (refl, rw (==-refl x) (Chain-update m x _ p xs out c));
          spares = Chain-update m x _ (m x).next ys out' d.1;
          carried = rw (==-refl x, values-update m x (record { idx = i; next = p }) xs out);
          room = refl;
          distinct = moved;
        },
      )

-- One index comes off the stack, and its entry waits to hold another.
pub get-cons :
    {a : Arman} {i spare : ℕ} {stack : List ℕ}
    → Holds a (i ∷ stack) spare
    → ((get a).0 ≡ i) × Holds (get a).1 stack (suc spare)
get-cons {a} {i} {spare} {stack} h = go h.free_nodes h.free h.carried h.distinct
  where
    go :
        (ns : List ℕ)
        → Chain a.entries a.free_entries ns
        → values a.entries ns ≡ i ∷ stack
        → Distinct (ns ++ h.spare_nodes)
        → ((get a).0 ≡ i) × Holds (get a).1 stack (suc spare)
    go [] c e d = cc
    go (x ∷ xs) c e d =
        let (got, held) =
          get-Chain a.entries a.free_entries a.free_free_entries a.tofree x xs h.spare_nodes c
            h.spares d in
        (cc, rw (← h.room, ← (cons_tail e)) held)

pub get-nil : {a : Arman} {spare : ℕ} → Holds a [] spare → get a ≡ (no_index, a)
unfolding get
get-nil {a} h = go h.free_nodes h.free h.carried
  where
    go :
        (ns : List ℕ)
        → Chain a.entries a.free_entries ns
        → values a.entries ns ≡ []
        → get a ≡ (no_index, a)
    go [] c e = ground arith
    go (x ∷ xs) c e = cc

pub put-cons :
    {a : Arman} {spare : ℕ} {stack : List ℕ} (i : ℕ)
    → Holds a stack (suc spare)
    → (b : Arman) × (put a i ≡ some b) × Holds b (i ∷ stack) spare
put-cons {a} {spare} {stack} i h = go h.spare_nodes h.spares h.room h.distinct
  where
    go :
        (ns : List ℕ)
        → Chain a.entries a.free_free_entries ns
        → length ns ≡ suc spare
        → Distinct (h.free_nodes ++ ns)
        → (b : Arman) × (put a i ≡ some b) × Holds b (i ∷ stack) spare
    go [] c e d = absurd (omega arith)
    go (x ∷ xs) c e d =
        let (b, done, held) =
          put-Chain a.entries a.free_entries a.free_free_entries a.tofree i x h.free_nodes xs h.free
            c d in
        let fit : length xs ≡ spare = omega arith in (b, done, rw (← fit, ← h.carried) held)

pub put-none : {a : Arman} {stack : List ℕ} (i : ℕ) → Holds a stack 0 → put a i ≡ none
unfolding put
put-none {a} i h = go h.spare_nodes h.spares h.room
  where
    go : (ns : List ℕ) → Chain a.entries a.free_free_entries ns → length ns ≡ 0 → put a i ≡ none
    go [] c e = rw (c, put)
    go (x ∷ xs) c e = absurd (omega arith)

-- What the loop of `ffarman_create` leaves at each entry.
link_at :
    (k i j : ℕ) (m : ℕ → Entry)
    → link k i m j
      ≡ (if leb i j && ltb j (i + k) then record { idx = j; next = some (j + 1) } else m j)
unfolding link
link_at zero i j m = ground arith
link_at (suc k) i j m =
    ground (arith, link_at k (i + 1) j (update m i (record { idx = i; next = some (i + 1) })))

Chain-range :
    (m : ℕ → Entry) (k i : ℕ)
    → ((j : ℕ) → i ≤ j → j < i + k → m j ≡ record { idx = j; next = some (j + 1) })
    → m (i + k) ≡ record { idx = i + k; next = none }
    → Chain m (some i) (range i (suc k)) × (values m (range i (suc k)) ≡ range i (suc k))
Chain-range m zero i inner last =
    let e : m i ≡ record { idx = i; next = none } = rw add-zero at last in
    ((refl, ap (λ (x : Entry). x.next) e), ap (λ (x : Entry). x.idx ∷ []) e)
Chain-range m (suc k) i inner last =
    let e : m i ≡ record { idx = i; next = some (i + 1) } = inner i (omega arith) (omega arith) in
    let at : i + suc k ≡ i + 1 + k = omega arith in
    let (c, v) =
      Chain-range m k (i + 1) (λ j h h'. inner j (omega arith) (omega arith)) (rw at at last) in
    ((refl, rw e c), rw (e, v))

Distinct-range : (lo n : ℕ) → Distinct (range lo n ++ [])
Distinct-range lo zero = tt
Distinct-range lo (suc n) =
    rw append-nil
      (has-range_below lo (lo + 1) n (omega arith), rw append-nil at (Distinct-range (lo + 1) n))

create-suc :
    (k : ℕ) (m : ℕ → Entry) (old : Arman)
    → suc k < u32
    → create (suc k) (some m) old
      ≡ some (array_of (set_next (link (suc k) 0 m) k none) (some 0) none (some 0), ffsuccess)
unfolding create
create-suc k m old h =
    let last : (suc k + u32 - 1) % u32 ≡ k = omega arith in rw last (ground arith)

-- A manager for `count` indices starts with all of them on the stack, 0 on top.
pub create-Holds :
    (count : ℕ) (m : ℕ → Entry) (old : Arman)
    → 0 < count
    → count < u32
    → (a : Arman) × (create count (some m) old ≡ some (a, ffsuccess)) × Holds a (range 0 count) 0
create-Holds zero m old lo hi = absurd (omega arith)
create-Holds (suc k) m old lo hi =
    let n = set_next (link (suc k) 0 m) k none in
    let (c, v) =
      Chain-range n k 0 (λ j h h'. ground (arith, link_at (suc k) 0 j m))
        (ground (arith, link_at (suc k) 0 k m)) in
    (
      array_of n (some 0) none (some 0),
      create-suc k m old hi,
      record {
        free_nodes = range 0 (suc k);
        spare_nodes = [];
        free = c;
        spares = refl;
        carried = v;
        room = refl;
        distinct = Distinct-range 0 (suc k);
      },
    )
