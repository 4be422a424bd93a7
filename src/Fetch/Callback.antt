-- ===== src/Fetch/Callback.antt =====
-- Which pages `fetchHTTPGetHandler` of job.go sends to the client.
use ideacrawler.Prelude.{
  String, Bool, true, false, ◌&&◌, ◌||◌, List, [], ◌∷◌, some, ok, ◌≡◌, ◌≢◌, ◌↔◌, ◌⊎◌, inl, inr,
  refl, arith, All, str_eq, str_eq_iff, Bool-cases, ap, ◌∙◌, is_nil, is_nil→eq, ||-cases, &&-cases,
}
use ideacrawler.Prelude.Int.{pos, eqb_ℤ}
use ideacrawler.Proto.{Kvp}
use ideacrawler.Job.{Job, CrawlCommand}
use ideacrawler.Web.{Web}
use ideacrawler.Fetch.{str_empty, hits, xpaths_match, xpath_filter, callback_page}

module _ (w : Web) (body : String) where
  -- The page has the expected value at the xpath.
  abbrev pub Found : Kvp → Type 0
  Found xm = w.xpath_value body xm.key ≡ some xm.value

  -- The xpath evaluates, to some value.
  abbrev pub Evaluates : Kvp → Type 0
  Evaluates xm = (v : String) × (w.xpath_value body xm.key ≡ some v)

  xpaths_match-total :
      (xms : List Kvp)
      → All Evaluates xms
      → (b : Bool) × (xpaths_match w body xms ≡ ok b) × ((b ≡ true) ↔ All Found xms)
  unfolding xpaths_match
  xpaths_match-total [] a = (true, refl, (λ _. tt, λ _. refl))
  xpaths_match-total (xm ∷ xms) ((v, e), a) =
      let (b, r, iff) = xpaths_match-total xms a in
      elim (Bool-cases (str_eq v xm.value)) [
        | inl same ↦ (
          b,
          ground (arith, r, e),
          (λ q. (e ∙ ap some ((str_eq_iff _ _).0 same), iff.0 q), λ h. iff.1 h.1),
        )
        | inr other ↦ (
          false,
          ground (arith, r, e),
          (λ q. cc, λ h. ground (arith, str_eq_iff v xm.value, h.0)),
        )
      ]

  xpath_filter-total :
      (xms : List Kvp) (before : Bool)
      → All Evaluates xms
      → (b : Bool) × (xpath_filter w body xms before ≡ ok b)
        × ((b ≡ true) ↔ ((before ≡ true) ⊎ ((xms ≢ []) × All Found xms)))
  unfolding xpath_filter
  xpath_filter-total [] true a = (true, refl, (λ _. inl refl, λ _. refl))
  xpath_filter-total [] false a =
      (false, refl, (λ q. cc, elim [ inl q ↦ q | inr h ↦ absurd (h.0 refl) ]))
  xpath_filter-total (xm ∷ xms) true a = (true, refl, (λ _. inl refl, λ _. refl))
  xpath_filter-total (xm ∷ xms) false a =
      let (b, r, iff) = xpaths_match-total (xm ∷ xms) a in
      (b, r, (λ q. inr (λ e. cc, iff.0 q), elim [ inl q ↦ cc | inr h ↦ iff.1 h.1 ]))

  -- The reasons for which a page is sent to the client.
  pub data Wanted (j : Job) (cmd : CrawlCommand) : Type 0 where
    seed : j.opts.callback_seed_url ≡ true → eqb_ℤ cmd.url_depth (pos 0) ≡ true → Wanted j cmd
    unfiltered :
        str_empty j.opts.callback_url_regexp ≡ true
        → j.opts.callback_xpath_match ≡ []
        → j.opts.callback_xpath_regexp ≡ []
        → Wanted j cmd
    url : hits j.callback_url_regexp (w.url_string cmd.url) ≡ true → Wanted j cmd
    anchor : hits j.callback_anchor_text_regexp cmd.anchor_text ≡ true → Wanted j cmd
    xpaths : j.opts.callback_xpath_match ≢ [] → All Found j.opts.callback_xpath_match → Wanted j cmd
    xpath_regexps :
        j.opts.callback_xpath_regexp ≢ [] → All Found j.opts.callback_xpath_regexp → Wanted j cmd

  module _ (j : Job) (cmd : CrawlCommand) where
    abbrev by_text : Bool
    by_text =
        j.opts.callback_seed_url && eqb_ℤ cmd.url_depth (pos 0)
        || (str_empty j.opts.callback_url_regexp
              && (is_nil j.opts.callback_xpath_match && is_nil j.opts.callback_xpath_regexp)
            || (hits j.callback_url_regexp (w.url_string cmd.url)
                || hits j.callback_anchor_text_regexp cmd.anchor_text))

    by_text-Wanted : by_text ≡ true → Wanted j cmd
    by_text-Wanted h = elim (||-cases _ _ h) [
      | inl s ↦ let (a, b) = &&-cases _ _ s in seed a b
      | inr k ↦ elim (||-cases _ _ k) [
        | inl u ↦
            let (a, b) = &&-cases _ _ u in
            let (c, d) = &&-cases _ _ b in unfiltered a (is_nil→eq _ c) (is_nil→eq _ d)
        | inr r ↦ elim (||-cases _ _ r) [ inl a ↦ url a | inr a ↦ anchor a ]
      ]
    ]

    Wanted-cases :
        Wanted j cmd
        → (by_text ≡ true)
          ⊎ ((j.opts.callback_xpath_match ≢ []) × All Found j.opts.callback_xpath_match)
          ⊎ ((j.opts.callback_xpath_regexp ≢ []) × All Found j.opts.callback_xpath_regexp)
    Wanted-cases (seed a b) = inl (ground arith)
    Wanted-cases (unfiltered a b c) = inl (ground arith)
    Wanted-cases (url a) = inl (ground arith)
    Wanted-cases (anchor a) = inl (ground arith)
    Wanted-cases (xpaths a b) = inr (inl (a, b))
    Wanted-cases (xpath_regexps a b) = inr (inr (a, b))

    -- Where the xpaths of both filters evaluate on the page, the checks come to an answer, and it is
    -- yes exactly if the page is wanted for one of the six reasons. The regexp filter on xpaths asks
    -- for equal values, as the plain one does.
    pub callback_page-Wanted :
        All Evaluates j.opts.callback_xpath_match
        → All Evaluates j.opts.callback_xpath_regexp
        → (b : Bool) × (callback_page w j cmd body ≡ ok b) × ((b ≡ true) ↔ Wanted j cmd)
    unfolding callback_page
    callback_page-Wanted m r =
        let (b, e, iff) = xpath_filter-total j.opts.callback_xpath_match by_text m in
        let (c, f, iff') = xpath_filter-total j.opts.callback_xpath_regexp b r in
        (c, rw e f, (λ h. to (iff'.0 h) iff.0, λ k. iff'.1 (from (Wanted-cases k) iff.1)))
      where
        to :
            {b : Bool}
            → (b ≡ true)
              ⊎ ((j.opts.callback_xpath_regexp ≢ []) × All Found j.opts.callback_xpath_regexp)
            → (b ≡ true
                → (by_text ≡ true)
                  ⊎ ((j.opts.callback_xpath_match ≢ []) × All Found j.opts.callback_xpath_match))
            → Wanted j cmd
        to (inr (a, h)) k = xpath_regexps a h
        to (inl h) k = elim (k h) [ inl t ↦ by_text-Wanted t | inr (a, x) ↦ xpaths a x ]

        from :
            {b : Bool}
            → (by_text ≡ true)
              ⊎ ((j.opts.callback_xpath_match ≢ []) × All Found j.opts.callback_xpath_match)
              ⊎ ((j.opts.callback_xpath_regexp ≢ []) × All Found j.opts.callback_xpath_regexp)
            → ((by_text ≡ true)
                  ⊎ ((j.opts.callback_xpath_match ≢ []) × All Found j.opts.callback_xpath_match)
                → b ≡ true)
            → (b ≡ true)
              ⊎ ((j.opts.callback_xpath_regexp ≢ []) × All Found j.opts.callback_xpath_regexp)
        from (inl t) k = inl (k (inl t))
        from (inr (inl x)) k = inl (k (inr x))
        from (inr (inr x)) k = inr x
