-- ===== src/ChromeClient/Scroll.antt =====
-- The loop that scrolls to the end of a page in `doJS` of chromeclient.go.
use ideacrawler.Prelude.{
  String, Option, none, some, ok, ◌≡◌, ◌∙◌, subst, sym, ok-injective, ◌⊎◌, ◌↔◌, inl, inr, refl,
  arith, ℕ, zero, suc, ◌+◌, ◌<◌,
}
use ideacrawler.ChromeClient.{ChromeDoer, Browser}
use ideacrawler.ChromeClient.Script.{
  infinite_scroll, Turn, fails, settles, grows, scroll_turn, scroll_loop,
}

module _ (b : Browser) (cd : ChromeDoer) where
  abbrev pub turn : ℕ → Turn b cd
  turn n = scroll_turn b cd (b.evaluate n (infinite_scroll b cd))

  -- The n-th turn is the last, and the loop ends with `r`.
  abbrev pub Ends : ℕ → Option String → Type 0
  Ends n r = ((turn n ≡ settles) × (r ≡ none)) ⊎ ((e : String) × (turn n ≡ fails e) × (r ≡ some e))

  Turn-cases : (t : Turn b cd) → (t ≡ settles) ⊎ ((e : String) × (t ≡ fails e)) ⊎ (t ≡ grows)
  Turn-cases settles = inl refl
  Turn-cases (fails e) = inr (inl (e, refl))
  Turn-cases grows = inr (inr refl)

  scroll_loop-grows :
      (n fuel : ℕ) → turn n ≡ grows → scroll_loop b cd n (suc fuel) ≡ scroll_loop b cd (suc n) fuel
  unfolding scroll_loop
  scroll_loop-grows n fuel h = rw (scroll_loop, h) refl

  scroll_loop-Ends :
      (n fuel : ℕ) {r : Option String} → Ends n r → scroll_loop b cd n (suc fuel) ≡ ok r
  unfolding scroll_loop
  scroll_loop-Ends n fuel (inl (h, same)) = rw (scroll_loop, h, same) refl
  scroll_loop-Ends n fuel (inr (e, h, same)) = rw (scroll_loop, h, same) refl

  -- From the n-th turn on.
  abbrev Settles : ℕ → ℕ → Option String → Type 0
  Settles n fuel r =
      (k : ℕ) × (k < fuel) × Ends (n + k) r × ((i : ℕ) → i < k → turn (n + i) ≡ grows)

  Settles-zero :
      (n fuel : ℕ) {r r' : Option String}
      → Ends n r'
      → scroll_loop b cd n (suc fuel) ≡ ok r
      → Settles n (suc fuel) r
  Settles-zero n fuel {r = r} {r' = r'} ends run =
      let same = ok-injective (sym (scroll_loop-Ends n fuel ends) ∙ run) in
      (
        0,
        omega arith,
        subst (λ m. Ends m r) (omega arith) (subst (Ends n) same ends),
        λ i less. absurd (omega arith),
      )

  Settles-suc :
      (n fuel : ℕ) {r : Option String}
      → turn n ≡ grows
      → Settles (suc n) fuel r
      → Settles n (suc fuel) r
  Settles-suc n fuel {r = r} h (k, less, ends, before) =
      (suc k, omega arith, subst (λ m. Ends m r) (omega arith) ends, earlier)
    where
      earlier : (i : ℕ) → i < suc k → turn (n + i) ≡ grows
      earlier zero less' = subst (λ m. turn m ≡ grows) (omega arith) h
      earlier (suc i) less' = subst (λ m. turn m ≡ grows) (omega arith) (before i (omega arith))

  scroll_loop-Settles :
      (n fuel : ℕ) {r : Option String} → scroll_loop b cd n fuel ≡ ok r → Settles n fuel r
  unfolding scroll_loop
  scroll_loop-Settles n zero run = cc
  scroll_loop-Settles n (suc fuel) run = elim (Turn-cases (turn n)) [
    | inl h ↦ Settles-zero n fuel (inl (h, refl)) run
    | inr (inl (e, h)) ↦ Settles-zero n fuel (inr (e, h, refl)) run
    | inr (inr h) ↦
        Settles-suc n fuel h
          (scroll_loop-Settles (suc n) fuel (sym (scroll_loop-grows n fuel h) ∙ run))
  ]

  Settles-scroll_loop :
      (n fuel k : ℕ) {r : Option String}
      → k < fuel
      → Ends (n + k) r
      → ((i : ℕ) → i < k → turn (n + i) ≡ grows)
      → scroll_loop b cd n fuel ≡ ok r
  Settles-scroll_loop n zero k less ends before = absurd (omega arith)
  Settles-scroll_loop n (suc fuel) zero {r = r} less ends before =
      scroll_loop-Ends n fuel (subst (λ m. Ends m r) (omega arith) ends)
  Settles-scroll_loop n (suc fuel) (suc k) {r = r} less ends before =
      scroll_loop-grows n fuel (subst (λ m. turn m ≡ grows) (omega arith) (before 0 (omega arith)))
      ∙ Settles-scroll_loop (suc n) fuel k (omega arith) (subst (λ m. Ends m r) (omega arith) ends)
          (λ i less'. subst (λ m. turn m ≡ grows) (omega arith) (before (suc i) (omega arith)))

  -- The loop that scrolls to the end of a page returns `r` exactly if there is a turn that ends it
  -- with `r`, the heights before and after being equal or there being an error, while the page has
  -- grown at each turn before; it is enough to allow one turn more than there are before that one.
  pub scroll_loop-returns_iff :
      (fuel : ℕ) (r : Option String)
      → (scroll_loop b cd 0 fuel ≡ ok r)
        ↔ ((k : ℕ) × (k < fuel) × Ends k r × ((i : ℕ) → i < k → turn i ≡ grows))
  scroll_loop-returns_iff fuel r = (
    λ run. from (scroll_loop-Settles 0 fuel run),
    λ (k, less, ends, before).
        Settles-scroll_loop 0 fuel k less (subst (λ m. Ends m r) (omega arith) ends)
          (λ i less'. subst (λ m. turn m ≡ grows) (omega arith) (before i less')),
  )
    where
      from : Settles 0 fuel r → (k : ℕ) × (k < fuel) × Ends k r × ((i : ℕ) → i < k → turn i ≡ grows)
      from (k, less, ends, before) = (
        k,
        less,
        subst (λ m. Ends m r) (omega arith) ends,
        λ i less'. subst (λ m. turn m ≡ grows) (omega arith) (before i less'),
      )
