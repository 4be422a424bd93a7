-- ===== src/Web.antt =====
-- What job.go calls and this repository does not define: net/url, the purell, xpath and goquery
-- libraries, and the queue of fetchbot. The functions are parameters, gathered in one record.
use ideacrawler.Prelude.{String, Bool, Option, List, Result}
use ideacrawler.Prelude.Int.{ℤ}
use ideacrawler.Job.{Url, CrawlCommand}

-- An `a[href]` element: its attribute and its text.
pub record Link : Type 0 where
  pub href : String
  pub text : String

pub record Web : Type 0 where
  -- `url.Parse`, `u.String()`, `u.Hostname()`, `u.Parse(ref)`, `url.QueryUnescape`
  pub parse_url : String → Result Url
  pub url_string : Url → String
  pub hostname : Url → String
  pub resolve : Url → String → Result Url
  pub query_unescape : String → Result String
  -- `strings.ToLower`, `strings.TrimSpace`
  pub to_lower : String → String
  pub trim_space : String → String
  -- `purell.NormalizeURL(u, flags)`, which rewrites `u` in place and returns its text; the flag
  -- says whether the two unsafe normalizations are on.
  pub normalize_url : Bool → Url → Url × String
  -- `htmlquery.Parse`, `xpath.Compile`, `Evaluate`, `MoveNext`, `Current().Value()`, on a body and
  -- an expression. `none`: the expression does not compile to a node set, which panics here.
  pub xpath_value : String → String → Option String
  -- `goquery.NewDocumentFromReader` and `Find("a[href]")`
  pub find_links : String → Result (List Link)
  -- `Queue.Send(cmd)` on a queue that has taken the commands so far: its error, if any.
  pub queue_send : List CrawlCommand → CrawlCommand → Option String

-- An `http.Response` with the URL of its request; `body` is what `ioutil.ReadAll` gives.
pub record Response : Type 0 where
  pub request_url : Url
  pub status_code : ℤ
  pub status : String
  pub body : Result String
