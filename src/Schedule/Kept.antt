-- ===== src/Schedule/Kept.antt =====
-- What ffschedule_add_op of src/ffschedule.c leaves alone: the types of the operations, and the
-- environment.
use fflib.Base.{
  ℕ, ◌≡◌, refl, subst, ◌∙◌, inl, inr, Bool, true, false, Option, some, List, [], ◌∷◌, arith, ℤ,
  ffsuccess, Bool-cases, ◌>>=◌, if◌then◌else◌, ltb, ◌==◌, ==→eq, >>=-eq-some, some_eq, update,
}
use fflib.Op.{State, hb, add_dependent, add_dependency, max_deps}
use fflib.Schedule.{System, attach, enlist, add_op}
use fflib.Schedule.Run.{add_ops}

module _ {W : Type 0} where
  -- The same environment, and the same types.
  pub record Agrees (s t : State W) : Type 0 where
    pub env : t.env ≡ s.env
    pub types : (q : ℕ) → (t.ops q).type ≡ (s.ops q).type

  Agrees-trans : (s t u : State W) → Agrees s t → Agrees t u → Agrees s u
  Agrees-trans s t u x y = record { env = y.env ∙ x.env; types = λ q. y.types q ∙ x.types q }

  Agrees-refl : (s : State W) → Agrees s s
  Agrees-refl s = record { env = refl; types = λ q. refl }

  linked : (a b : ℕ) (s : State W) → Agrees s (add_dependency b (add_dependent a b s))
  unfolding add_dependency add_dependent
  linked a b s = record { env = refl; types = λ q. ground (arith, ==→eq q a, ==→eq q b) }

  hb-Agrees : (a b : ℕ) (s : State W) (r : State W × ℤ) → hb a b s ≡ some r → Agrees s r.0
  unfolding hb
  hb-Agrees a b s r q = elim (Bool-cases (ltb (s.ops a).out_dep_count max_deps)) [
    | inl room ↦ subst (λ (x : State W × ℤ). Agrees s x.0) (some_eq (rw room at q)) (linked a b s)
    | inr full ↦ absurd (ground (arith, rw full at q))
  ]

  branch :
      (c : Bool) (a b : ℕ) (s : State W) (r : State W × ℤ)
      → (if c then hb a b s else some (s, ffsuccess)) ≡ some r
      → Agrees s r.0
  branch true a b s r q = hb-Agrees a b s r q
  branch false a b s r q = subst (λ (x : State W × ℤ). Agrees s x.0) (some_eq q) (Agrees-refl s)

  attach-Agrees : (b e p : ℕ) (s t : State W) → attach b e p s ≡ some t → Agrees s t
  unfolding attach
  attach-Agrees b e p s t q =
      let (r, one, rest) =
        >>=-eq-some (if (s.ops p).in_dep_count == 0 then hb b p s else some (s, ffsuccess))
          (λ (r : State W × ℤ).
            (if (r.0.ops p).out_dep_count == 0 then hb p e r.0 else some (r.0, ffsuccess))
            >>= λ (q : State W × ℤ). some q.0)
          q in
      let (u, two, done) =
        >>=-eq-some (if (r.0.ops p).out_dep_count == 0 then hb p e r.0 else some (r.0, ffsuccess))
          (λ (q : State W × ℤ). some q.0) rest in
      Agrees-trans s r.0 t (branch _ b p s r one)
        (subst (Agrees r.0) (some_eq done) (branch _ p e r.0 u two))

  enlist-Agrees : (p : ℕ) (next : Option ℕ) (s : State W) → Agrees s (enlist p next s)
  unfolding enlist
  enlist-Agrees p next s = record { env = refl; types = λ q. ground (arith, ==→eq q p) }

  add_op-Agrees :
      (h p : ℕ) (y : System W) (r : System W × ℤ) → add_op h p y ≡ some r → Agrees y.state r.0.state
  unfolding add_op
  add_op-Agrees h p y r q =
      let x = y.schedules h in
      let (s, one, done) =
        >>=-eq-some (attach x.begin_op x.end_op p (enlist p x.oplist y.state))
          (λ (s : State W). some (
            record y { state = s; schedules = update y.schedules h (record x { oplist = some p }) },
            ffsuccess,
          ))
          q in
      subst (λ (z : System W × ℤ). Agrees y.state z.0.state) (some_eq done)
        (Agrees-trans y.state (enlist p x.oplist y.state) s (enlist-Agrees p x.oplist y.state)
          (attach-Agrees x.begin_op x.end_op p (enlist p x.oplist y.state) s one))

  pub add_ops-Agrees :
      (h : ℕ) (ps : List ℕ) (y z : System W) → add_ops h ps y ≡ some z → Agrees y.state z.state
  unfolding add_ops
  add_ops-Agrees h [] y z q =
      subst (λ (x : System W). Agrees y.state x.state) (some_eq q) (Agrees-refl y.state)
  add_ops-Agrees h (p ∷ ps) y z q =
      let (r, one, rest) = >>=-eq-some (add_op h p y) (λ (r : System W × ℤ). add_ops h ps r.0) q in
      Agrees-trans y.state r.0.state z.state (add_op-Agrees h p y r one)
        (add_ops-Agrees h ps r.0 z rest)
