-- ===== src/Doer/Random.antt =====
-- `randomGenerator` of doer.go. The draws are given, each with the bounds that it is for:
-- `int((rand.NormFloat64()+1.0)*float64(max-min)/2.0 + float64(min))`. The loop of `genRand` runs on
-- fuel; `gen_loop-returns` says how much is enough.
use ideacrawler.Prelude.{
  ℕ, zero, suc, ◌+◌, ◌<◌, ◌*◌, Bool, true, false, Option, none, some, if◌then◌else◌, ◌≡◌, ◌⊎◌, inl,
  inr, refl, sym, subst, ◌∙◌, arith, Bool-cases, if_true, if_false,
}
use ideacrawler.Prelude.Int.{ℤ, pos, negsuc, ltb_ℤ, ◌≤ℤ◌, ◌<ℤ◌}

-- `ii` and `jj`, and how many numbers were drawn.
pub record Generator : Type 0 where
  pub ii : ℕ
  pub jj : ℤ
  pub drawn : ℕ

abbrev pub new_generator : Generator
new_generator = record { ii = 0; jj = pos 5; drawn = 0 }

abbrev pub triple : ℤ → ℤ
triple (pos n) = pos (n * 3)
triple (negsuc n) = negsuc (n * 3 + 2)

module _ (draw : ℕ → ℤ → ℤ → ℤ) where
  -- `for v < min`
  unfoldable pub gen_loop : ℤ → ℤ → ℤ → ℕ → ℕ → Option (ℤ × ℕ)
  gen_loop min max v n zero = none
  gen_loop min max v n (suc fuel) =
      let rest = gen_loop min max (draw n min max) (suc n) fuel in
      if ltb_ℤ v min then rest else some (v, n)

  -- `genRand`: the number, and how many were drawn by then.
  unfoldable pub gen_rand : ℕ → ℤ → ℤ → ℕ → Option (ℤ × ℕ)
  gen_rand fuel min max n = gen_loop min max (pos 0) n fuel

  infixl 5 ◌>>=◌
  abbrev pub ◌>>=◌ {ℓ κ} : {A : Type ℓ} {B : Type κ} → Option A → (A → Option B) → Option B
  none >>= f = none
  some a >>= f = f a

  -- Whether the next number is one of the long pauses.
  abbrev pub is_long : Generator → Bool
  is_long g = if ltb_ℤ (pos g.ii) g.jj then false else true

  unfoldable pub long_turn : ℕ → ℤ → Generator → Option (ℤ × Generator)
  long_turn fuel max g = gen_rand fuel (pos 5) (pos 20) g.drawn >>= λ (jj, n).
      gen_rand fuel max (triple max) n >>= λ (v, n').
      some (v, record { ii = 1; jj = jj; drawn = n' })

  unfoldable pub regular_turn : ℕ → ℤ → ℤ → Generator → Option (ℤ × Generator)
  regular_turn fuel min max g = gen_rand fuel min max g.drawn >>= λ (v, n).
      some (v, record { ii = suc g.ii; jj = g.jj; drawn = n })

  -- A turn of the outer loop, with the number that goes into the channel. After a long pause
  -- `continue` still increments `ii`.
  unfoldable pub next_random : ℕ → ℤ → ℤ → Generator → Option (ℤ × Generator)
  next_random fuel min max g =
      if is_long g then long_turn fuel max g else regular_turn fuel min max g

  module _ (min max : ℤ) where
    gen_loop_stop : (v : ℤ) (n fuel : ℕ) → min ≤ℤ v → gen_loop min max v n (suc fuel) ≡ some (v, n)
    unfolding gen_loop
    gen_loop_stop v n fuel big = if_false (ltb_ℤ v min) _ _ (ground arith)

    abbrev Returns : ℤ → ℕ → ℕ → Type 0
    Returns v n fuel = (r : ℤ × ℕ) × (gen_loop min max v n fuel ≡ some r)

    gen_loop_go :
        (v : ℤ) (n fuel : ℕ) → Returns (draw n min max) (suc n) fuel → Returns v n (suc fuel)
    unfolding gen_loop
    gen_loop_go v n fuel (r, rest) = elim (Bool-cases (ltb_ℤ v min)) [
      | inl below ↦ (r, if_true (ltb_ℤ v min) _ _ below ∙ rest)
      | inr stops ↦ ((v, n), if_false (ltb_ℤ v min) _ _ stops)
    ]

    -- A draw that is not below `min` ends the loop, at the latest.
    gen_loop-Returns :
        (v : ℤ) (n k fuel : ℕ) → min ≤ℤ draw (n + k) min max → suc k < fuel → Returns v n fuel
    gen_loop-Returns v n k zero big enough = absurd (omega arith)
    gen_loop-Returns v n zero (suc zero) big enough = absurd (omega arith)
    gen_loop-Returns v n zero (suc (suc fuel)) big enough = gen_loop_go v n (suc fuel) (
      (draw n min max, suc n),
      gen_loop_stop (draw n min max) (suc n) fuel
          (subst (λ m. min ≤ℤ draw m min max) (omega arith) big),
    )
    gen_loop-Returns v n (suc k) (suc fuel) big enough = gen_loop_go v n fuel (
        gen_loop-Returns (draw n min max) (suc n) k fuel
          (subst (λ m. min ≤ℤ draw m min max) (omega arith) big) (omega arith))

    -- What the loop gives is what it began with, if that is not below `min`, or a draw that is not.
    abbrev pub Drawn : ℤ → ℤ → Type 0
    Drawn v r =
        ((min ≤ℤ v) × (r ≡ v)) ⊎ ((v <ℤ min) × (min ≤ℤ r) × ((m : ℕ) × (r ≡ draw m min max)))

    later : (v : ℤ) (n : ℕ) (r : ℤ) → v <ℤ min → Drawn (draw n min max) r → Drawn v r
    later v n r below (inl (big, same)) =
        inr (below, subst (λ x. min ≤ℤ x) (sym same) big, (n, same))
    later v n r below (inr (_, big, drawn)) = inr (below, big, drawn)

    first : {v r : ℤ} {n n' : ℕ} → ◌≡◌ {A = Option (ℤ × ℕ)} (some (v, n)) (some (r, n')) → r ≡ v
    first h = cc

    gen_loop-Drawn :
        (v : ℤ) (n fuel : ℕ) {r : ℤ} {n' : ℕ} → gen_loop min max v n fuel ≡ some (r, n') → Drawn v r
    unfolding gen_loop
    gen_loop-Drawn v n zero run = cc
    gen_loop-Drawn v n (suc fuel) {r = r} run = elim (Bool-cases (ltb_ℤ v min)) [
      | inl below ↦ later v n r (ground arith) (
          gen_loop-Drawn (draw n min max) (suc n) fuel
            (sym (if_true (ltb_ℤ v min) _ _ below) ∙ run))
      | inr stops ↦ inl (ground arith, first (sym (if_false (ltb_ℤ v min) _ _ stops) ∙ run))
    ]

  >>=-eq-some {ℓ κ} :
      {A : Type ℓ} {B : Type κ} (o : Option A) (f : A → Option B) {out : B}
      → (o >>= f) ≡ some out
      → (a : A) × (o ≡ some a) × (f a ≡ some out)
  >>=-eq-some none f run = cc
  >>=-eq-some (some a) f run = (a, refl, run)

  -- The bounds that the next number is drawn with.
  abbrev pub lower : ℤ → ℤ → Generator → ℤ
  lower min max g = if is_long g then max else min

  abbrev pub upper : ℤ → ℤ → Generator → ℤ
  upper min max g = if is_long g then triple max else max

  sent :
      {v r : ℤ} {g g' : Generator}
      → ◌≡◌ {A = Option (ℤ × Generator)} (some (r, g)) (some (v, g'))
      → r ≡ v
  sent h = cc

  module _ (fuel : ℕ) (min max : ℤ) (g : Generator) where
    gen_rand-Drawn :
        (min max : ℤ) (n : ℕ) (r : ℤ × ℕ)
        → gen_rand fuel min max n ≡ some r
        → Drawn min max (pos 0) (r.0)
    unfolding gen_rand
    gen_rand-Drawn min max n r run = gen_loop-Drawn min max (pos 0) n fuel run

    long_turn-Drawn :
        {v : ℤ} {g' : Generator}
        → long_turn fuel max g ≡ some (v, g')
        → Drawn max (triple max) (pos 0) v
    unfolding long_turn
    long_turn-Drawn {v = v} run =
        let (jj, _, rest) = >>=-eq-some (gen_rand fuel (pos 5) (pos 20) g.drawn) _ run in
        let (r, drawn, out) = >>=-eq-some (gen_rand fuel max (triple max) jj.1) _ rest in
        subst (Drawn max (triple max) (pos 0)) (sent out)
          (gen_rand-Drawn max (triple max) jj.1 r drawn)

    regular_turn-Drawn :
        {v : ℤ} {g' : Generator}
        → regular_turn fuel min max g ≡ some (v, g')
        → Drawn min max (pos 0) v
    unfolding regular_turn
    regular_turn-Drawn run =
        let (r, drawn, out) = >>=-eq-some (gen_rand fuel min max g.drawn) _ run in
        subst (Drawn min max (pos 0)) (sent out) (gen_rand-Drawn min max g.drawn r drawn)

    either_turn :
        (long : Bool) {v : ℤ} {g' : Generator}
        → (if long then long_turn fuel max g else regular_turn fuel min max g) ≡ some (v, g')
        → Drawn (if long then max else min) (if long then triple max else max) (pos 0) v
    either_turn true run = long_turn-Drawn run
    either_turn false run = regular_turn-Drawn run

    pub next_random-Drawn :
        {v : ℤ} {g' : Generator}
        → next_random fuel min max g ≡ some (v, g')
        → Drawn (lower min max g) (upper min max g) (pos 0) v
    unfolding next_random
    next_random-Drawn run = either_turn (is_long g) run
