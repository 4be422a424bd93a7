-- ===== src/PrefetchUrl/Links.antt =====
-- Which links of prefetchurl/prefetchurl.go are prefetched.
use ideacrawler.Prelude.{
  String, true, false, List, [], ◌∷◌, ◌++◌, Result, val, err, ◌≡◌, ◌≢◌, ◌⊎◌, inl, inr, refl, sym,
  ap, ◌∙◌, arith, subst, has_prefix, has_suffix, str_eq, str_eq_iff, Bool-cases, Result-cases,
}
use ideacrawler.Job.{Url}
use ideacrawler.Web.{Web}
use ideacrawler.PrefetchUrl.{is_valid_link, validate_link, absolute_links, add_link}

module _ (w : Web) (page_url : Url) where
  -- A link that can be prefetched: its last part has an extension, other than at the end `.xml`.
  abbrev pub Fetchable : String → Type 0
  Fetchable link = (is_valid_link link ≡ true) × (has_suffix link ".xml" ≡ false)

  -- The URL that a link stands for on the page.
  abbrev pub Target : String → String → Type 0
  Target link target =
      ((has_prefix link "http" ≡ true) × (target ≡ link))
      ⊎ ((has_prefix link "http" ≡ false)
          × ((u : Url) × (w.resolve page_url link ≡ val u) × (target ≡ w.url_string u)))

  -- The links `ls` of a page give the prefetched URLs `out`.
  pub data Prefetches : List String → List String → Type 0 where
    none_left : Prefetches [] []
    passed :
        {link : String} {ls out : List String}
        → ¬ Fetchable link
        → Prefetches ls out
        → Prefetches (link ∷ ls) out
    empty :
        {link : String} {ls out : List String}
        → Fetchable link
        → Target link ""
        → Prefetches ls out
        → Prefetches (link ∷ ls) out
    fetched :
        {link target : String} {ls out : List String}
        → Fetchable link
        → Target link target
        → target ≢ ""
        → Prefetches ls out
        → Prefetches (link ∷ ls) (target ∷ out)

  validate_link-cases :
      (link : String) (r : Result String)
      → validate_link w page_url link ≡ r
      → (¬ Fetchable link × (r ≡ val ""))
        ⊎ (Fetchable link × ((t : String) × (r ≡ val t) × Target link t))
        ⊎ (Fetchable link × ((e : String) × (r ≡ err e) × (w.resolve page_url link ≡ err e)))
  unfolding validate_link
  validate_link-cases link r h = elim (Bool-cases (is_valid_link link)) [
    | inr bad ↦ inl ((λ f. ground (arith, bad, f.0)), sym h ∙ rw bad refl)
    | inl good ↦ elim (Bool-cases (has_suffix link ".xml")) [
      | inl xml ↦ inl ((λ f. ground (arith, xml, f.1)), sym h ∙ rw (good, xml) refl)
      | inr other ↦ elim (Bool-cases (has_prefix link "http")) [
        | inl absolute ↦ inr (
            inl (
              (good, other),
              (link, sym h ∙ rw (good, other, absolute) refl, inl (absolute, refl)),
            ))
        | inr relative ↦ elim (Result-cases (w.resolve page_url link)) [
          | inl (e, fails) ↦
              inr (inr ((good, other), (e, sym h ∙ rw (good, other, relative, fails) refl, fails)))
          | inr (u, found) ↦ inr (
              inl (
                (good, other),
                (
                  w.url_string u,
                  sym h ∙ rw (good, other, relative, found) refl,
                  inr (relative, (u, found, refl)),
                ),
              ))
        ]
      ]
    ]
  ]

  -- What the loop over the links comes to.
  abbrev pub Gives : List String → Result (List String) → Type 0
  Gives ls r =
      ((out : List String) × (r ≡ val out) × Prefetches ls out)
      ⊎ ((before : List String) × (link : String) × (after : List String) × (e : String) × (ls
            ≡ before ++ link ∷ after)
          × Fetchable link
          × (w.resolve page_url link ≡ err e)
          × (r ≡ err e))

  abbrev all_links : List String → Result (List String)
  all_links ls = absolute_links w page_url ls

  add_valid :
      (link : String) (ls : List String) {t : String}
      → validate_link w page_url link ≡ val t
      → all_links (link ∷ ls) ≡ add_link w t (all_links ls)
  unfolding absolute_links
  add_valid link ls e = rw (absolute_links, e) refl

  -- A link that is left out, or that stands for `t`, in front of the others.
  in_front :
      (link : String) (ls : List String) (t : String) (new : List String)
      → validate_link w page_url link ≡ val t
      → ((out : List String) → add_link w t (val out) ≡ val (new ++ out))
      → ((out : List String) → Prefetches ls out → Prefetches (link ∷ ls) (new ++ out))
      → Gives ls (all_links ls)
      → Gives (link ∷ ls) (all_links (link ∷ ls))
  in_front link ls t new e adds more (inl (out, r, p)) =
      inl (new ++ out, add_valid link ls e ∙ ap (add_link w t) r ∙ adds out, more out p)
  in_front link ls t new e adds more (inr (before, l, after, m, split, f, fails, r)) = inr (
    link ∷ before,
    l,
    after,
    m,
    ap (◌∷◌ link) split,
    f,
    fails,
    add_valid link ls e ∙ ap (add_link w t) r,
  )

  -- The links of a page are prefetched in their order: those that have an extension other than `.xml`
  -- at their end, as they are if they begin with `http` and resolved against the page if not. If one
  -- of these does not resolve, that is the error, and none is prefetched.
  pub absolute_links-Gives : (ls : List String) → Gives ls (all_links ls)
  unfolding absolute_links
  absolute_links-Gives [] = inl ([], refl, none_left)
  absolute_links-Gives (link ∷ ls) =
      let rest = absolute_links-Gives ls in
      elim (validate_link-cases link (validate_link w page_url link) refl) [
        | inl (skip, e) ↦ in_front link ls "" [] e (λ out. refl) (λ out. passed skip) rest
        | inr (inl (f, (t, e, target))) ↦ elim (Bool-cases (str_eq t "")) [
          | inl nothing ↦
              in_front link ls t [] e (λ out. rw nothing refl)
                (λ out. empty f (subst (Target link) ((str_eq_iff t "").0 nothing) target)) rest
          | inr something ↦
              in_front link ls t (t ∷ []) e (λ out. rw something refl)
                (λ out. fetched f target (λ h. ground (arith, str_eq_iff t "", something, h))) rest
        ]
        | inr (inr (f, (m, e, fails))) ↦
            inr ([], link, ls, m, refl, f, fails, rw (absolute_links, e) refl)
      ]
