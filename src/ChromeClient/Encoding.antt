-- ===== src/ChromeClient/Encoding.antt =====
-- The URL that `RunJob` makes of a request for a script, as `doJS` reads it.
use ideacrawler.Prelude.{String, ◌<>◌, true, ◌≡◌, val, refl, ℕ, has_prefix}
use ideacrawler.Proto.{PageRequest}
use ideacrawler.Job.{Url}
use ideacrawler.RunJob.{js_command}
use ideacrawler.Web.{Web}
use ideacrawler.ChromeClient.{ChromeClient, ChromeDoer, Browser}
use ideacrawler.ChromeClient.Script.{
  do_request, do_js, script_at, with_command, at_target, query_text,
}

-- What fetchbot makes of a URL with a host and a path that has no slash before it: `http.NewRequest` of
-- its `String`.
abbrev pub Resent : Url → Url → Type 0
Resent url sent =
    (sent.scheme ≡ url.scheme) × (sent.path ≡ "/" <> url.path) × (sent.raw_query ≡ url.raw_query)

module _ (b : Browser) (w : Web) where
  -- The URL that `RunJob` makes of a request for a script comes to `Do` as the fetcher writes and
  -- parses it again, which puts a slash before its path. If the unescapes undo the escapes, that of a
  -- path behind a slash too, the scheme is one of the crawljs schemes and the URL of the page parses,
  -- `Do` navigates to the page asked for and runs there, by the scheme, the script of the request
  -- with a slash before it.
  pub do_request-js_command :
      (path_escape query_escape : String → String)
      → ((s : String) → b.path_unescape ("/" <> path_escape s) ≡ val ("/" <> s))
      → ((s : String) → w.query_unescape (query_escape s) ≡ val s)
      → (cd : ChromeDoer) (fuel : ℕ) (scheme : String) (pr : PageRequest) (target sent : Url)
        (chrome : ChromeClient)
      → has_prefix scheme "crawljs" ≡ true
      → w.parse_url pr.url ≡ val target
      → Resent (js_command w path_escape query_escape scheme pr target).url sent
      → do_request b cd w fuel sent chrome
        ≡ script_at b cd w fuel scheme ("/" <> pr.js) target chrome
  unfolding do_request do_js with_command at_target query_text
  do_request-js_command path_escape query_escape undone undone' cd fuel scheme pr target sent chrome
        script parsed (same_scheme, same_path, same_query) =
      rw (same_scheme, script, same_path, undone pr.js, same_query, undone' pr.url, parsed) refl
