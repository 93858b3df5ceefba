-- ===== src/Arman/Chain.antt =====
-- The linked lists of src/utils/ffarman.c as lists of entries.
use fflib.Base.{
  ℕ, ◌≡◌, refl, false, Option, List, [], ◌∷◌, ◌++◌, map, arith, has, update, Distinct, Follows,
  has-append,
}
use fflib.Arman.{Entry}

-- From `p` the entries `xs` follow one another.
abbrev pub Chain : (ℕ → Entry) → Option ℕ → List ℕ → Type 0
Chain m p xs = Follows (λ x. (m x).next) p xs

abbrev pub values : (ℕ → Entry) → List ℕ → List ℕ
values m xs = map (λ x. (m x).idx) xs

pub Chain-update :
    (m : ℕ → Entry) (e : ℕ) (v : Entry) (p : Option ℕ) (xs : List ℕ)
    → has e xs ≡ false
    → Chain m p xs
    → Chain (update m e v) p xs
Chain-update m e v p [] out c = c
Chain-update m e v p (x ∷ xs) out c = (c.0, ground (arith, Chain-update m e v (m x).next xs))

pub values-update :
    (m : ℕ → Entry) (e : ℕ) (v : Entry) (xs : List ℕ)
    → has e xs ≡ false
    → values (update m e v) xs ≡ values m xs
values-update m e v [] out = refl
values-update m e v (x ∷ xs) out = ground (arith, values-update m e v xs)

-- An item moves from the front of one list to the front of the other.
pub Distinct-move : (x : ℕ) (xs ys : List ℕ) → Distinct (x ∷ xs ++ ys) → Distinct (xs ++ x ∷ ys)
Distinct-move x [] ys d = d
Distinct-move x (y ∷ xs) ys d = (
  ground (arith, has-append x xs ys, has-append y xs ys, has-append y xs (x ∷ ys)),
  Distinct-move x xs ys (ground arith),
)

pub Distinct-back : (x : ℕ) (xs ys : List ℕ) → Distinct (xs ++ x ∷ ys) → Distinct (x ∷ xs ++ ys)
Distinct-back x [] ys d = d
Distinct-back x (y ∷ xs) ys d = ground (
  arith,
  Distinct-back x xs ys d.1,
  has-append y xs (x ∷ ys),
  has-append y xs ys,
  has-append x xs ys,
)
