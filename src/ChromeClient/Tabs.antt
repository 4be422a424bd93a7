-- ===== src/ChromeClient/Tabs.antt =====
-- The tabs that `Do` of chromeclient.go opens and closes.
use ideacrawler.Prelude.{
  String, Bool, true, false, [], ◌∷◌, ◌++◌, Option, none, some, Outcome, ok, ◌>>=◌, Result, val,
  err, ◌≡◌, ◌⊎◌, ◌∙◌, inl, inr, refl, ap, ℕ, has_prefix, Ensures, Ensures-ok, Ensures-bind,
  Ensures-bind_any, ensured, if_elim, if◌then◌else◌,
}
use ideacrawler.Prelude.Int.{eqb_ℤ, pos}
use mathlib.Core.List.{append_assoc}
use ideacrawler.Job.{Url}
use ideacrawler.Web.{Web}
use ideacrawler.ChromeClient.{
  ChromeClient, ChromeDoer, Browser, ChromeResponse, close_page, create_target, close_target,
  new_page,
}
use ideacrawler.ChromeClient.Navigate.{do_navigate, visit_in, visit, with_tab}
use ideacrawler.ChromeClient.Script.{
  do_request, do_js, in_page, script_at, response_only, script_page, at_target, with_command,
}
use ideacrawler.ChromeClient.Opening.{Failed, Unready, Opened, new_page-Opened}

module _ (b : Browser) where
  -- What a call leaves behind: no tab was opened and it failed, the tab that it opened is closed
  -- again, or it stays open, since the page is kept, or the call failed and the browser cannot make
  -- a tab ready.
  abbrev pub Leaves {ℓ} : {A : Type ℓ} → Bool → ChromeClient → ChromeClient × Result A → Type ℓ
  Leaves keep_alive before (after, r) =
      (Failed r × (after.tabs ≡ before.tabs))
      ⊎ ((id : String) × (b.create_target ≡ val id)
          × (((keep_alive ≡ false)
                × (after.tabs ≡ before.tabs ++ create_target id ∷ close_target id ∷ []))
              ⊎ ((after.tabs ≡ before.tabs ++ create_target id ∷ [])
                  × ((keep_alive ≡ true) ⊎ (Failed r × Unready b)))))

  module _ (w : Web) where
    -- The tab that is ready is the one that was made.
    ready-created :
        (before after : ChromeClient) {id : String}
        → Opened b before (after, val id)
        → (b.create_target ≡ val id) × (after.tabs ≡ before.tabs ++ create_target id ∷ [])
    ready-created before after (inl ((e, fails), same)) = cc
    ready-created before after (inr (id, created, asked, inl ((e, fails), why))) = cc
    ready-created before after (inr (id, created, asked, inr same)) = (cc, cc)

    visited-Leaves :
        (keep_alive : Bool) (before after : ChromeClient) (id : String)
        (r : Result (ChromeResponse × String))
        → Opened b before (after, val id)
        → Leaves keep_alive before (if keep_alive then after else close_page id after, r)
    visited-Leaves true before after id r h =
        let (created, asked) = ready-created before after h in
        inr (id, created, inr (asked, inl refl))
    visited-Leaves false before after id r h =
        let (created, asked) = ready-created before after h in
        inr (
          id,
          created,
          inl (
            refl,
            ap (λ tabs. tabs ++ close_target id ∷ []) asked
                ∙ append_assoc before.tabs (create_target id ∷ []) (close_target id ∷ []),
          ),
        )

    failed-Leaves {ℓ} :
        {A : Type ℓ} (keep_alive : Bool) (before after : ChromeClient) {e : String}
        → Opened b before (after, err e)
        → Leaves {A = A} keep_alive before (after, err e)
    failed-Leaves keep_alive before after (inl (_, same)) = inl ((_, refl), same)
    failed-Leaves keep_alive before after (inr (id, created, asked, inl (_, why))) =
        inr (id, created, inr (asked, inr ((_, refl), why)))
    failed-Leaves keep_alive before after (inr (id, created, asked, inr ready)) = cc

    visit_in-Leaves :
        (keep_alive : Bool) (url : Url) (before : ChromeClient)
        (opened : ChromeClient × Result String)
        → Opened b before opened
        → Ensures (Leaves keep_alive before) (visit_in b w keep_alive url opened.0 opened.1)
    unfolding visit_in
    visit_in-Leaves keep_alive url before (after, err e) h =
        Ensures-ok (Leaves keep_alive before) (after, err e)
          (failed-Leaves keep_alive before after h)
    visit_in-Leaves keep_alive url before (after, val id) h =
        Ensures-bind_any (Leaves keep_alive before) (visit b w url) _ (λ r.
          Ensures-ok (Leaves keep_alive before) _
            (visited-Leaves keep_alive before after id (with_tab b w id r) h))

    do_navigate-Leaves :
        (keep_alive : Bool) (url : Url) (chrome : ChromeClient)
        → Ensures (Leaves keep_alive chrome) (do_navigate b w keep_alive url chrome)
    unfolding do_navigate
    do_navigate-Leaves keep_alive url chrome =
        Ensures-bind (Opened b chrome) (Leaves keep_alive chrome) (new_page b chrome) _
          (new_page-Opened b chrome) (visit_in-Leaves keep_alive url chrome)

    -- The result of a later step in place of the page.
    then-Leaves {ℓ κ} :
        {A : Type ℓ} {B : Type κ} (keep_alive : Bool) (before after : ChromeClient) {a : A}
        (r : Result B)
        → Leaves keep_alive before (after, val a)
        → Leaves keep_alive before (after, r)
    then-Leaves keep_alive before after r (inl ((e, fails), _)) = cc
    then-Leaves keep_alive before after r (inr (id, created, inl closed)) =
        inr (id, created, inl closed)
    then-Leaves keep_alive before after r (inr (id, created, inr (asked, inl kept))) =
        inr (id, created, inr (asked, inl kept))
    then-Leaves keep_alive before after r (inr (id, created, inr (asked, inr ((e, fails), why)))) =
        cc

    error-Leaves {ℓ κ} :
        {A : Type ℓ} {B : Type κ} (keep_alive : Bool) (before after : ChromeClient) {e : String}
        → Leaves {A = A} keep_alive before (after, err e)
        → Leaves {A = B} keep_alive before (after, err e)
    error-Leaves keep_alive before after (inl (_, same)) = inl ((_, refl), same)
    error-Leaves keep_alive before after (inr (id, created, inl closed)) =
        inr (id, created, inl closed)
    error-Leaves keep_alive before after (inr (id, created, inr (asked, inl kept))) =
        inr (id, created, inr (asked, inl kept))
    error-Leaves keep_alive before after (inr (id, created, inr (asked, inr (_, why)))) =
        inr (id, created, inr (asked, inr ((_, refl), why)))

    module _ (cd : ChromeDoer) (fuel : ℕ) (chrome : ChromeClient) where
      abbrev Left : Bool → Outcome (ChromeClient × Result (Option ChromeResponse)) → Type 0
      Left keep_alive = Ensures (Leaves keep_alive chrome)

      in_page-Leaves :
          (scheme jscommand : String) (p : ChromeClient × Result (ChromeResponse × String))
          → Leaves true chrome p
          → Left true (in_page b cd w fuel scheme jscommand p)
      unfolding in_page
      in_page-Leaves scheme jscommand (after, err e) h =
          Ensures-ok (Leaves true chrome) (after, err e) (error-Leaves true chrome after h)
      in_page-Leaves scheme jscommand (after, val (rsp, id)) h =
          if_elim (Left true) (eqb_ℤ rsp.status_code (pos 200)) _ _
            (Ensures-bind_any (Leaves true chrome) (script_page b cd w fuel scheme jscommand) _
              (λ r. Ensures-ok (Leaves true chrome) _ (then-Leaves true chrome after r h)))
            (Ensures-ok (Leaves true chrome) _ (then-Leaves true chrome after (val none) h))

      at_target-Leaves :
          (scheme jscommand : String) (r : Result Url)
          → Left true (at_target b cd w fuel scheme jscommand chrome r)
      unfolding at_target script_at
      at_target-Leaves scheme jscommand (err e) =
          Ensures-ok (Leaves true chrome) (chrome, err e) (inl ((e, refl), refl))
      at_target-Leaves scheme jscommand (val target) =
          Ensures-bind (Leaves true chrome) (Leaves true chrome)
            (do_navigate b w true target chrome) _ (do_navigate-Leaves true target chrome)
            (in_page-Leaves scheme jscommand)

      with_command-Leaves :
          (url : Url) (r : Result String) → Left true (with_command b cd w fuel url chrome r)
      unfolding with_command
      with_command-Leaves url (err e) =
          Ensures-ok (Leaves true chrome) (chrome, err e) (inl ((e, refl), refl))
      with_command-Leaves url (val jscommand) = at_target-Leaves url.scheme jscommand _

      response_only-Leaves :
          (p : ChromeClient × Result (ChromeResponse × String))
          → Leaves false chrome p
          → Leaves false chrome (p.0, response_only b cd w p.1)
      unfolding response_only
      response_only-Leaves (after, err e) h = error-Leaves false chrome after h
      response_only-Leaves (after, val (rsp, id)) h =
          then-Leaves false chrome after (val (some rsp)) h

      dispatch :
          (script : Bool) (x y : Outcome (ChromeClient × Result (Option ChromeResponse)))
          → Left true x
          → Left false y
          → Left script (if script then x else y)
      dispatch true x y h k = h
      dispatch false x y h k = k

      -- A request whose scheme is not one of the crawljs schemes leaves no tab open that it has made
      -- ready: the browser is asked to close the tab on every return, the failures included. The
      -- only other ends of such a call are failures, without a tab or with one that could not be
      -- made ready, and that stays open. A crawljs request never closes the tab that it opens.
      pub do_request-Leaves :
          (url : Url) {after : ChromeClient} {r : Result (Option ChromeResponse)}
          → do_request b cd w fuel url chrome ≡ ok (after, r)
          → Leaves (has_prefix url.scheme "crawljs") chrome (after, r)
      unfolding do_request do_js
      do_request-Leaves url run =
          ensured _ _
            (dispatch (has_prefix url.scheme "crawljs") (do_js b cd w fuel url chrome)
              (do_navigate b w false url chrome >>= λ (chrome', r).
                ok (chrome', response_only b cd w r))
              (with_command-Leaves url (b.path_unescape url.path))
              (Ensures-bind (Leaves false chrome) (Leaves false chrome)
                (do_navigate b w false url chrome) _ (do_navigate-Leaves false url chrome)
                (λ p h.
                  Ensures-ok (Leaves false chrome) (p.0, response_only b cd w p.1)
                    (response_only-Leaves p h))))
            run
