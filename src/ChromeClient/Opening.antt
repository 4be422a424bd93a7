-- ===== src/ChromeClient/Opening.antt =====
-- What `newPage` of chromeclient.go comes to.
use ideacrawler.Prelude.{
  on_error_cases, some, String, [], ◌∷◌, ◌++◌, none, panics, Result, val, err, ◌≡◌, ◌⊎◌, inl, inr,
  refl, ap, arith, Ensures, Ensures-ok, if_elim, Ensures-panics,
}
use ideacrawler.ChromeClient.{
  ChromeClient, Browser, run_batch, ask_tab, create_target, start, check_chrome_process,
  create_page, dial_page, in_target, listen_to_page, new_page, connect, enable_client,
}

abbrev pub Failed {ℓ} : {A : Type ℓ} → Result A → Type ℓ
Failed r = (e : String) × (r ≡ err e)

module _ (b : Browser) where
  start-tabs : (chrome : ChromeClient) → (start b chrome).0.tabs ≡ chrome.tabs
  unfolding start connect enable_client
  start-tabs chrome = ground arith

  check_chrome_process-tabs :
      (chrome : ChromeClient) → (check_chrome_process b chrome).0.tabs ≡ chrome.tabs
  unfolding check_chrome_process
  check_chrome_process-tabs chrome =
      if_elim (λ p. p.0.tabs ≡ chrome.tabs) chrome.up (chrome, none) (start b chrome) refl
        (start-tabs chrome)

  -- The browser cannot make a tab ready that it has made.
  abbrev pub Unready : Type 0
  Unready =
      ((e : String) × (b.dial_target ≡ some e))
      ⊎ (((e : String) × (run_batch b.page_enabled ≡ some e))
          ⊎ ((e : String) × (b.response_received ≡ some e)))

  -- What `newPage` comes to: no tab, or the one that the browser made, ready or not.
  abbrev pub Opened : ChromeClient → ChromeClient × Result String → Type 0
  Opened before (after, r) =
      (Failed r × (after.tabs ≡ before.tabs))
      ⊎ ((id : String) × (b.create_target ≡ val id)
          × (after.tabs ≡ before.tabs ++ create_target id ∷ [])
          × ((Failed r × Unready) ⊎ (r ≡ val id)))

  module _ (before chrome : ChromeClient) where
    module _ (id : String) (created : b.create_target ≡ val id)
        (asked : chrome.tabs ≡ before.tabs ++ create_target id ∷ []) where
      unready : (e : String) → Unready → Opened before (chrome, err e)
      unready e why = inr (id, created, asked, inl ((e, refl), why))

      listen_to_page-Opened : Opened before (listen_to_page b id chrome)
      unfolding listen_to_page
      listen_to_page-Opened =
          on_error_cases (Opened before) (run_batch b.page_enabled) _ _
            (λ e fails. unready e (inr (inl (e, fails))))
            (λ _.
              on_error_cases (Opened before) b.response_received _ _
                (λ e fails. unready e (inr (inr (e, fails))))
                (λ _. inr (id, created, asked, inr refl)))

      dial_page-Opened : Ensures (Opened before) (dial_page b id chrome)
      unfolding dial_page
      dial_page-Opened =
          if_elim (Ensures (Opened before)) chrome.mgr _ panics
            (on_error_cases (Ensures (Opened before)) b.dial_target _ _
              (λ e fails. Ensures-ok (Opened before) (chrome, err e) (unready e (inl (e, fails))))
              (λ _. Ensures-ok (Opened before) (listen_to_page b id chrome) listen_to_page-Opened))
            (Ensures-panics (Opened before))

  module _ (before chrome : ChromeClient) (same : chrome.tabs ≡ before.tabs) where
    in_target-Opened :
        (r : Result String) → b.create_target ≡ r → Ensures (Opened before) (in_target b chrome r)
    unfolding in_target
    in_target-Opened (err e) fails =
        Ensures-ok (Opened before) (chrome, err e) (inl ((e, refl), same))
    in_target-Opened (val id) created =
        dial_page-Opened before (ask_tab (create_target id) chrome) id created
          (ap (λ tabs. tabs ++ create_target id ∷ []) same)

    create_page-Opened : Ensures (Opened before) (create_page b chrome)
    unfolding create_page
    create_page-Opened =
        if_elim (Ensures (Opened before)) chrome.c (in_target b chrome b.create_target) panics
          (in_target-Opened b.create_target refl) (Ensures-panics (Opened before))

  pub new_page-Opened : (chrome : ChromeClient) → Ensures (Opened chrome) (new_page b chrome)
  unfolding new_page
  new_page-Opened chrome =
      create_page-Opened chrome (check_chrome_process b chrome).0 (check_chrome_process-tabs chrome)
