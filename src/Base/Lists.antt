-- ===== src/Base/Lists.antt =====
-- Lists measured and indexed by native numbers, under the library's names.
use Prim.Native.Nat.{ℕ, zero, suc, ◌+◌, ◌<◌}
use mathlib.Core.Path.{◌≡◌, refl, ap, ◌∙◌}
use mathlib.Core.Bool.{Bool, true, false, ◌&&◌, ◌||◌}
use mathlib.Core.Option.{Option, none, some}
use mathlib.Core.List.{List, [], ◌∷◌, ◌++◌}
use native.Mathlib.Omega.{arith}
use fflib.Base.Tests.{◌==◌, ltb, leb, if◌then◌else◌}

module _ {ℓ} {A : Type ℓ} where
  abbrev pub length : List A → ℕ
  length [] = 0
  length (x ∷ xs) = suc (length xs)

  pub length-append : (xs ys : List A) → length (xs ++ ys) ≡ length xs + length ys
  length-append [] ys = omega arith
  length-append (x ∷ xs) ys = omega (arith, length-append xs ys)

abbrev pub count : ℕ → List ℕ → ℕ
count a [] = 0
count a (x ∷ xs) = (if x == a then 1 else 0) + count a xs

pub count-append : (a : ℕ) (xs ys : List ℕ) → count a (xs ++ ys) ≡ count a xs + count a ys
count-append a [] ys = omega arith
count-append a (x ∷ xs) ys = ground (arith, count-append a xs ys)

abbrev pub has : ℕ → List ℕ → Bool
has a [] = false
has a (x ∷ xs) = (x == a) || has a xs

-- A predicate of every item.
abbrev pub All {ℓ κ} : {A : Type ℓ} → (A → Type κ) → List A → Type κ
All P [] = Unit
All P (x ∷ xs) = P x × All P xs

-- The numbers `lo`, `lo + 1`, … : `n` of them.
abbrev pub range : ℕ → ℕ → List ℕ
range lo zero = []
range lo (suc n) = lo ∷ range (lo + 1) n

pub length-range : (lo n : ℕ) → length (range lo n) ≡ n
length-range lo zero = refl
length-range lo (suc n) = ap suc (length-range (lo + 1) n)

pub has-range_below : (a lo n : ℕ) → a < lo → has a (range lo n) ≡ false
has-range_below a lo zero h = refl
has-range_below a lo (suc n) h = ground (arith, has-range_below a (lo + 1) n)

pub count-range :
    (a lo n : ℕ) → count a (range lo n) ≡ (if leb lo a && ltb a (lo + n) then 1 else 0)
count-range a lo zero = ground arith
count-range a lo (suc n) = ground (arith, count-range a (lo + 1) n)

pub cons_tail {ℓ} : {A : Type ℓ} {x y : A} {xs ys : List A} → x ∷ xs ≡ y ∷ ys → xs ≡ ys
cons_tail e = cc

-- No number twice.
abbrev pub Distinct : List ℕ → Type 0
Distinct [] = Unit {0}
Distinct (x ∷ xs) = (has x xs ≡ false) × Distinct xs

pub has-append : (a : ℕ) (xs ys : List ℕ) → has a (xs ++ ys) ≡ (has a xs || has a ys)
has-append a [] ys = refl
has-append a (x ∷ xs) ys = ground (arith, has-append a xs ys)

-- From the pointer `p` on, `next` leads through the places `xs`, and ends there.
abbrev pub Follows : (ℕ → Option ℕ) → Option ℕ → List ℕ → Type 0
Follows next p [] = p ≡ none
Follows next p (x ∷ xs) = (p ≡ some x) × Follows next (next x) xs

pub Follows-same :
    (n m : ℕ → Option ℕ) (p : Option ℕ) (xs : List ℕ)
    → ((x : ℕ) → has x xs ≡ true → m x ≡ n x)
    → Follows n p xs
    → Follows m p xs
Follows-same n m p [] same f = f
Follows-same n m p (x ∷ xs) same f =
    (f.0, rw (same x (ground arith)) (Follows-same n m (n x) xs (λ y h. same y (ground arith)) f.1))

-- The list less one occurrence.
unfoldable pub erase : ℕ → List ℕ → List ℕ
erase a [] = []
erase a (x ∷ xs) = if x == a then xs else x ∷ erase a xs

pub count-erase :
    (a i : ℕ) (xs : List ℕ)
    → has i xs ≡ true
    → count a xs ≡ (if i == a then 1 else 0) + count a (erase i xs)
unfolding erase
count-erase a i [] h = cc
count-erase a i (x ∷ xs) h = ground (arith, count-erase a i xs)

pub length-erase : (i : ℕ) (xs : List ℕ) → has i xs ≡ true → length xs ≡ suc (length (erase i xs))
unfolding erase
length-erase i [] h = cc
length-erase i (x ∷ xs) h = ground (arith, length-erase i xs)

pub has-count : (a : ℕ) (xs : List ℕ) → has a xs ≡ true → 0 < count a xs
has-count a [] h = cc
has-count a (x ∷ xs) h = ground (arith, has-count a xs)

pub count-has : (a : ℕ) (xs : List ℕ) → 0 < count a xs → has a xs ≡ true
count-has a [] h = absurd (omega arith)
count-has a (x ∷ xs) h = ground (arith, count-has a xs)

pub range-append : (lo n m : ℕ) → range lo n ++ range (lo + n) m ≡ range lo (n + m)
range-append lo zero m =
    let e : lo + 0 ≡ lo = omega arith in
    let z : m ≡ 0 + m = omega arith in ap (λ i. range i m) e ∙ ap (range lo) z
range-append lo (suc n) m =
    let e : lo + suc n ≡ lo + 1 + n = omega arith in
    let s : suc (n + m) ≡ suc n + m = omega arith in
    ap (λ i. lo ∷ (range (lo + 1) n ++ range i m)) e
    ∙ ap (λ l. lo ∷ l) (range-append (lo + 1) n m)
    ∙ ap (range lo) s
