-- ===== src/Allreduce/Rounds.antt =====
-- The loop over the masks in `ffallreduce` of src/colls/ffallreduce.c.
use fflib.Base.Bits.{bit_xor_twice}
use fflib.Base.{
  bit_xor, count, ℕ, zero, suc, ◌+◌, ◌*◌, ◌^◌, ◌≤◌, ◌≡◌, refl, ap, ◌∙◌, true, false, none, some,
  List, [], ◌∷◌, arith, ℤ, ltb, if◌then◌else◌, ◌>>=◌, Bool-cases, inl, inr, fun_ext, ◌<◌, sym,
}
use fflib.Gcomp.Operator.{Operators}
use fflib.Allreduce.{Blocks, Site, Step, partner, exchange, exchanges, ceil_log2}

-- The peers of `rank` from `mask` on, `k` masks at most.
unfoldable pub peers : (csize rank k mask : ℕ) → List ℕ
peers csize rank zero mask = []
peers csize rank (suc k) mask =
    if ltb mask csize
    then if ltb (partner rank mask) csize
      then partner rank mask ∷ peers csize rank k (mask * 2)
      else peers csize rank k (mask * 2)
    else []

-- How many masks from `mask` on are below `csize`.
unfoldable pub rounds : (csize k mask : ℕ) → ℕ
rounds csize zero mask = 0
rounds csize (suc k) mask = if ltb mask csize then suc (rounds csize k (mask * 2)) else 0

ceil_log2-rounds : (k csize mask r : ℕ) → ceil_log2 k csize mask r ≡ r + rounds csize k mask
unfolding ceil_log2 rounds
ceil_log2-rounds zero csize mask r = omega arith
ceil_log2-rounds (suc k) csize mask r = ground (arith, ceil_log2-rounds k csize (mask * 2) (r + 1))

above : (mask csize : ℕ) → csize ≤ mask * 2 ^ 0 → ltb mask csize ≡ false
above mask csize fits = ground arith

next_mask : (csize mask k : ℕ) → csize ≤ mask * 2 ^ suc k → csize ≤ mask * 2 * 2 ^ k
next_mask csize mask k fits = grind arith

module _ {W : Type 0} (b : Blocks) (operators : Operators) (csize rank maxr : ℕ) (tag operator : ℤ)
    (rb : ℕ) where
  -- One exchange with each peer of a list, each after the computation of the one before.
  abbrev pub exchange_all : List ℕ → (r prev : ℕ) → Step W
  exchange_all [] r prev y = some y
  exchange_all (d ∷ ds) r prev y =
      exchange b operators csize rank maxr tag operator rb d r prev y >>= λ z.
      exchange_all ds (r + 1) (b.comp r) z

  abbrev loop : (fuel mask r prev : ℕ) → Step W
  loop = exchanges b operators csize rank maxr tag operator rb

  exchanges-suc :
      (fuel mask r prev : ℕ) (y : Site W)
      → loop (suc fuel) mask r prev y ≡ (
          if ltb mask csize
          then if ltb (partner rank mask) csize
            then if ltb r maxr
              then (exchange b operators csize rank maxr tag operator rb
                    (partner rank mask)
                    r
                    prev
                    y
                  >>= λ z. loop fuel (mask * 2) (r + 1) (b.comp r) z)
              else none
            else loop fuel (mask * 2) r prev y
          else some y)
  unfolding exchanges
  exchanges-suc fuel mask r prev y = refl

  exchanges-exchange_all :
      (k mask r prev : ℕ) (y : Site W)
      → csize ≤ mask * 2 ^ k
      → r + rounds csize (suc k) mask ≤ maxr
      → loop (suc k) mask r prev y ≡ exchange_all (peers csize rank k mask) r prev y
  unfolding peers rounds
  exchanges-exchange_all zero mask r prev y fits few =
      exchanges-suc zero mask r prev y ∙ rw (above mask csize fits) refl
  exchanges-exchange_all (suc k) mask r prev y fits few =
      exchanges-suc (suc k) mask r prev y ∙ elim (Bool-cases (ltb mask csize)) [
        | inr over ↦ rw over refl
        | inl more ↦
            let fits' = next_mask csize mask k fits in
            let left : r + suc (rounds csize (suc k) (mask * 2)) ≤ maxr = rw more at few in
            elim (Bool-cases (ltb (partner rank mask) csize)) [
              | inr out ↦
                  rw (more, out)
                    (exchanges-exchange_all k (mask * 2) r prev y fits' (omega (arith, left)))
              | inl peer ↦
                  let room : ltb r maxr ≡ true = ground (arith, left) in
                  rw (more, peer, room)
                    (ap
                      (λ f.
                        exchange b operators csize rank maxr tag operator rb (partner rank mask) r
                          prev y
                        >>= f)
                      (fun_ext (λ z.
                        exchanges-exchange_all k (mask * 2) (r + 1) (b.comp r) z fits'
                          (omega (arith, left)))))
            ]
      ]

  -- For at most 2^k ranks, with maxr = ceil(log2(size)) temporary buffers, the loop of ffallreduce
  -- ends within k + 1 rounds, its assertion r < maxr holds in each of them, and it does one
  -- exchange with each rank `rank ^ mask` below the size, the masks ascending, each linked behind
  -- the computation of the one before.
  pub allreduce_loop :
      (k prev : ℕ) (y : Site W)
      → csize ≤ 2 ^ k
      → maxr ≡ ceil_log2 (suc k) csize 1 0
      → loop (suc k) 1 0 prev y ≡ exchange_all (peers csize rank k 1) 0 prev y
  allreduce_loop k prev y fits e =
      exchanges-exchange_all k 1 0 prev y (omega (arith, fits))
        (omega (arith, e, ceil_log2-rounds (suc k) csize 1 0))

meets : (csize a d mask : ℕ) → partner a mask ≡ d → partner d mask ≡ a
meets csize a d mask e = ap (λ x. bit_xor x mask) (sym e) ∙ bit_xor_twice a mask

-- In the rounds of an allreduce two ranks below the number of ranks are peers of each other equally
-- often, so that each send between them has its receive.
pub count-peers :
    (csize a d k mask : ℕ)
    → a < csize
    → d < csize
    → count d (peers csize a k mask) ≡ count a (peers csize d k mask)
unfolding peers
count-peers csize a d zero mask la ld = refl
count-peers csize a d (suc k) mask la ld =
    let ih = count-peers csize a d k (mask * 2) la ld in
    ground (arith, ih, meets csize a d mask, meets csize d a mask)
