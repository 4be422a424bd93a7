-- ===== src/ChromeClient/Outcomes.antt =====
-- What a script request to chrome comes to, in chromeclient.go.
use ideacrawler.Prelude.{
  String, Option, none, some, Outcome, ok, panics, ◌>>=◌, Result, val, err, ◌≡◌, ◌≢◌, ◌⊎◌, ℕ,
  Follows,
}
use ideacrawler.Prelude.Int.{pos}
use ideacrawler.Job.{Url}
use ideacrawler.Web.{Web}
use ideacrawler.ChromeClient.{ChromeClient, ChromeDoer, Browser, ChromeResponse, History}
use ideacrawler.ChromeClient.Navigate.{current_url, get_html}
use ideacrawler.ChromeClient.Script.{run_script}

module _ (b : Browser) (cd : ChromeDoer) (w : Web) where
  abbrev pub Answer : Type 0
  Answer = Outcome (Result (Option ChromeResponse))

  -- A response of status 900 with the HTML, for the URL.
  abbrev pub Shows : String → Url → Answer → Type 0
  Shows html url m =
      (rsp : ChromeResponse) × (m ≡ ok (val (some rsp)))
      × (rsp.status_code ≡ pos 900)
      × (rsp.body ≡ html)
      × (rsp.request_url ≡ url)
      × (rsp.content_type ≡ some "text/html")

  -- The page after the script, as the tab then shows it.
  abbrev pub Reads : String → Answer → Type 0
  Reads html m =
      (((e : String) × (b.scripted.history ≡ err e)) × (m ≡ panics))
      ⊎ ((h : History) × (b.scripted.history ≡ val h)
          × (((current_url h ≡ none) × (m ≡ panics))
              ⊎ ((current : String) × (current_url h ≡ some current)
                  × (((e : String) × (w.parse_url current ≡ err e) × (m ≡ ok (err e)))
                      ⊎ ((url : Url) × (w.parse_url current ≡ val url) × Shows html url m)))))

  -- What follows the script: its error, that of the HTML, or the page.
  abbrev pub Runs : Option String → Answer → Type 0
  Runs failed m =
      ((e : String) × (failed ≡ some e) × (m ≡ ok (err e)))
      ⊎ ((failed ≡ none)
          × (((e : String) × (get_html b.scripted ≡ err e) × (m ≡ ok (err e)))
              ⊎ ((html : String) × (get_html b.scripted ≡ val html) × Reads html m)))

  module _ (fuel : ℕ) (scheme jscommand : String) where
    abbrev pub Visit : Type 0
    Visit = Outcome (ChromeClient × Result (Option ChromeResponse))

    -- What follows the navigation: its error, a dropped response, or the script.
    abbrev pub Scripts : ChromeClient × Result (ChromeResponse × String) → Visit → Type 0
    Scripts (chrome, page) r =
        ((e : String) × (page ≡ err e) × (r ≡ ok (chrome, err e)))
        ⊎ ((rsp : ChromeResponse) × (id : String) × (page ≡ val (rsp, id))
            × (((rsp.status_code ≢ pos 200) × (r ≡ ok (chrome, val none)))
                ⊎ ((rsp.status_code ≡ pos 200)
                    × ((m : Answer) × Follows Runs (run_script b cd fuel scheme jscommand) m
                        × (r ≡ (m >>= λ answer. ok (chrome, answer)))))))
