-- ===== src/ChromeClient/Startup.antt =====
-- The start of the browser in chromeclient.go, and the pages opened after it.
use ideacrawler.Prelude.{
  String, true, false, Option, none, some, Outcome, ok, panics, on_error, on_error_elim,
  on_error-none, ap, Result, val, err, ◌≡◌, ◌≢◌, ◌↔◌, ◌⊎◌, ◌∙◌, sym, subst, inl, inr, refl,
  Bool-cases, if_true, if_false,
}
use ideacrawler.ChromeClient.{
  ChromeClient, Browser, create_target, ask_tab, new_chrome_client, start, connect, enable_client,
  run_batch, check_chrome_process, create_page, in_target, dial_page, listen_to_page, new_page,
}

-- What `Start` comes to once the process runs: the client is complete, or there is an error and
-- the session manager is missing.
abbrev Running : ChromeClient × Option String → Type 0
Running (chrome, failed) =
    (chrome.up ≡ true)
    × (((failed ≡ none) × (chrome.c ≡ true) × (chrome.mgr ≡ true))
        ⊎ (((e : String) × (failed ≡ some e)) × (chrome.mgr ≡ false)))

module _ (b : Browser) where
  enable_client-Running :
      (chrome : ChromeClient)
      → chrome.up ≡ true
      → chrome.c ≡ true
      → chrome.mgr ≡ false
      → Running (enable_client b chrome)
  unfolding enable_client
  enable_client-Running chrome up c mgr =
      on_error_elim Running (run_batch b.enabled) _ _ (λ e. (up, inr ((e, refl), mgr)))
        (on_error_elim Running b.new_manager _ _ (λ e. (up, inr ((e, refl), refl)))
          (up, inl (refl, c, refl)))

  connect-Running :
      (chrome : ChromeClient) → chrome.up ≡ true → chrome.mgr ≡ false → Running (connect b chrome)
  unfolding connect
  connect-Running chrome up mgr =
      on_error_elim Running b.devtool_get _ _ (λ e. (up, inr ((e, refl), mgr)))
        (on_error_elim Running b.dial _ _ (λ e. (up, inr ((e, refl), mgr)))
          (enable_client-Running (record chrome { conn = true; c = true }) up refl mgr))

  start-connect :
      (chrome : ChromeClient)
      → b.free_port ≡ none
      → b.start_process ≡ none
      → start b chrome ≡ connect b (record chrome { up = b.stays_up })
  unfolding start
  start-connect chrome port process =
      on_error-none b.free_port _ _ port ∙ on_error-none b.start_process _ _ process

  start-Running :
      (path : String)
      → b.free_port ≡ none
      → b.start_process ≡ none
      → b.stays_up ≡ true
      → Running (start b (new_chrome_client path))
  start-Running path port process up =
      let started = record (new_chrome_client path) { up = b.stays_up } in
      subst Running (sym (start-connect (new_chrome_client path) port process))
        (connect-Running started up refl)

  module _ (chrome : ChromeClient) where
    dial_page-panics_iff : (id : String) → (dial_page b id chrome ≡ panics) ↔ (chrome.mgr ≡ false)
    unfolding dial_page
    dial_page-panics_iff id = (from, λ missing. if_false chrome.mgr dials panics missing)
      where
        dials : Outcome (ChromeClient × Result String)
        dials = on_error b.dial_target (λ e. ok (chrome, err e)) (ok (listen_to_page b id chrome))

        returns : dials ≢ panics
        returns = on_error_elim (λ m. m ≢ panics) b.dial_target _ _ (λ e run. cc) (λ run. cc)

        from : dial_page b id chrome ≡ panics → chrome.mgr ≡ false
        from run = elim (Bool-cases chrome.mgr) [
          | inr missing ↦ missing
          | inl there ↦ absurd (returns (sym (if_true chrome.mgr dials panics there) ∙ run))
        ]

  module _ (chrome : ChromeClient) where
    -- What `newPage` dereferences is missing.
    abbrev pub Lost : Type 0
    Lost =
        (chrome.c ≡ false) ⊎ ((chrome.mgr ≡ false) × ((id : String) × (b.create_target ≡ val id)))

    in_target-panics :
        (r : Result String)
        → b.create_target ≡ r
        → in_target b chrome r ≡ panics
        → (chrome.mgr ≡ false) × ((id : String) × (b.create_target ≡ val id))
    unfolding in_target
    in_target-panics (err e) made run = cc
    in_target-panics (val id) made run =
        ((dial_page-panics_iff (ask_tab (create_target id) chrome) id).0 run, (id, made))

    pub create_page-panics_iff : (create_page b chrome ≡ panics) ↔ Lost
    unfolding create_page in_target
    create_page-panics_iff = (from, to)
      where
        from : create_page b chrome ≡ panics → Lost
        from run = elim (Bool-cases chrome.c) [
          | inr missing ↦ inl missing
          | inl there ↦
              inr (
                in_target-panics b.create_target refl (sym (if_true chrome.c _ panics there) ∙ run))
        ]

        to : Lost → create_page b chrome ≡ panics
        to (inl missing) = if_false chrome.c _ panics missing
        to (inr (missing, (id, made))) = elim (Bool-cases chrome.c) [
          | inr gone ↦ if_false chrome.c _ panics gone
          | inl there ↦
              if_true chrome.c _ panics there
              ∙ ap (in_target b chrome) made
              ∙ (dial_page-panics_iff (ask_tab (create_target id) chrome) id).1 missing
        ]

    pub new_page-panics_iff : chrome.up ≡ true → (new_page b chrome ≡ panics) ↔ Lost
    unfolding new_page check_chrome_process
    new_page-panics_iff up =
        let same =
          ap (λ p. create_page b p.0) (if_true chrome.up (chrome, none) (start b chrome) up) in
        (
          λ run. create_page-panics_iff.0 (sym same ∙ run),
          λ lost. same ∙ create_page-panics_iff.1 lost,
        )

true≢false : true ≢ false
true≢false h = cc

none≢some : {e : String} → none ≢ some e
none≢some h = cc

-- A start failed, and what there is of the client does not do for a page.
abbrev pub Broken : Browser → ChromeClient × Option String → Type 0
Broken b (chrome, failed) =
    ((e : String) × (failed ≡ some e))
    × ((chrome.c ≡ false) ⊎ ((id : String) × (b.create_target ≡ val id)))

Lost-Broken : (b : Browser) (p : ChromeClient × Option String) → Running p → Lost b p.0 → Broken b p
Lost-Broken b p (up, inl (fine, c, mgr)) (inl gone) = absurd (true≢false (sym c ∙ gone))
Lost-Broken b p (up, inl (fine, c, mgr)) (inr (missing, made)) =
    absurd (true≢false (sym mgr ∙ missing))
Lost-Broken b p (up, inr (failed, mgr)) (inl gone) = (failed, inl gone)
Lost-Broken b p (up, inr (failed, mgr)) (inr (missing, made)) = (failed, inr made)

Broken-Lost : (b : Browser) (p : ChromeClient × Option String) → Running p → Broken b p → Lost b p.0
Broken-Lost b p (up, inl (fine, c, mgr)) ((e, failed), lost) =
    absurd (none≢some (sym fine ∙ failed))
Broken-Lost b p (up, inr (failed, mgr)) (_, inl gone) = inl gone
Broken-Lost b p (up, inr (failed, mgr)) (_, inr made) = inr (mgr, made)

-- After the first start of a browser whose process runs on, `newPage` dereferences a nil pointer
-- exactly if that start failed, and there is no connection to the browser or the browser makes the
-- tab. That a start failed is not seen by the calls that come after it.
pub new_page-after_start :
    (b : Browser) (path : String)
    → b.free_port ≡ none
    → b.start_process ≡ none
    → b.stays_up ≡ true
    → (b' : Browser)
    → (new_page b' (start b (new_chrome_client path)).0 ≡ panics)
      ↔ Broken b' (start b (new_chrome_client path))
new_page-after_start b path port process up b' =
    let first = start b (new_chrome_client path) in
    let running = start-Running b path port process up in
    let lost = new_page-panics_iff b' first.0 running.0 in
    (
      λ run. Lost-Broken b' first running (lost.0 run),
      λ broken. lost.1 (Broken-Lost b' first running broken),
    )
