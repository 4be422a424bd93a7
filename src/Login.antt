-- ===== src/Login.antt =====
-- `makeHTTPClientLoginDirect` of job.go: the login of a job that does not use chrome. The HTTP client
-- and its cookies are not modelled, nor the pause and the copies of the pages on disk.
pub mod Direct
pub mod Parsing
pub mod Chrome
mod Tests
use ideacrawler.Prelude.{
  String, Bool, true, false, List, [], ◌∷◌, ◌<>◌, Option, none, some, Outcome, ok, panics, ◌>>=◌,
  Result, val, err, str_eq, if◌then◌else◌,
}
use ideacrawler.Prelude.Int.{ℤ, pos}
use ideacrawler.Prelude.Dict.{Dict, insert}
use ideacrawler.StatusCodes.{login_success, login_failed}
use ideacrawler.Proto.{DomainOpt, Kvp, PageHtml}
use ideacrawler.Job.{Job, send_page_html}
use ideacrawler.Web.{Web}

pub record Site : Type 0 where
  -- The body of the login page, or the error of the request, the call or the read.
  pub login_page : Result String
  -- `xpath.Compile`: its error.
  pub compile_error : String → Option String
  -- `httpClient.PostForm(loginUrl, payload)`, with what is read of the body; an error of the read is
  -- not looked at.
  pub post_form : Dict String → Result String

-- The client that `RunJob` gets, which may be nil.
pub data Client : Type 0 where
  doer nil : Client

abbrev login_page_of : Bool → String → ℤ → PageHtml
login_page_of success error code = record {
  success = success;
  error = error;
  job_id = none;
  url = "";
  httpstatuscode = code;
  content = "";
  meta_str = "";
  url_depth = pos 0;
  anchor_text = "";
}

abbrev pub success_page : PageHtml
success_page = login_page_of true "" login_success

abbrev login_failed_message : Kvp → String → String
login_failed_message check got =
    "Login failed: In xpath '" <> check.key <> "', expected '" <> check.value <> "', but got '"
    <> got <> "'. Not proceeding."

abbrev pub failed_page : Kvp → String → PageHtml
failed_page check got = login_page_of false (login_failed_message check got) login_failed

abbrev pub Fields : Type 0
Fields = Dict String

-- `for _, kvp := range kvps { payload.Set(kvp.Key, kvp.Value) }`
unfoldable pub set_all : List Kvp → Fields → Fields
set_all [] fields = fields
set_all (kvp ∷ kvps) fields = set_all kvps (insert kvp.key kvp.value fields)

module _ (w : Web) (site : Site) where
  abbrev set_value : Kvp → Option String → Fields → Outcome Fields
  set_value kvp none fields = panics
  set_value kvp (some v) fields = ok (insert kvp.key v fields)

  -- The fields that are read off the login page, by their xpaths.
  unfoldable pub parse_fields : String → List Kvp → Fields → Outcome (Result Fields)
  parse_fields body [] fields = ok (val fields)
  parse_fields body (kvp ∷ kvps) fields = elim (site.compile_error kvp.value) [
    | some e ↦ ok (err e)
    | none ↦ set_value kvp (w.xpath_value body kvp.value) fields >>= parse_fields body kvps
  ]

  page_fields : List Kvp → Result String → Outcome (Result Fields)
  page_fields kvps (err e) = ok (err e)
  page_fields kvps (val body) = parse_fields body kvps []

  unfoldable pub login_fields : DomainOpt → Outcome (Result Fields)
  unfolding page_fields
  login_fields opts =
      if opts.login_parse_fields
      then page_fields opts.login_parse_xpath site.login_page
      else ok (val [])

  module _ (prefer_stop : Bool) where
    send : PageHtml → Client → Job → Outcome (Job × Result Client)
    send page client j = send_page_html prefer_stop false page j >>= λ j'. ok (j', val client)

    compared : Kvp → Option String → Job → Outcome (Job × Result Client)
    compared check none j = panics
    compared check (some got) j =
        if str_eq (w.to_lower got) (w.to_lower check.value)
        then send success_page doer j
        else send (failed_page check got) nil j

    -- `j.opts.LoginSuccessCheck`, on the body that comes after the login. A failed check returns the
    -- error of the compilation, which is nil there.
    check_success : Option Kvp → String → Job → Outcome (Job × Result Client)
    check_success none body j = ok (j, val doer)
    check_success (some check) body j = elim (site.compile_error check.key) [
      | some e ↦ ok (j, err e)
      | none ↦ compared check (w.xpath_value body check.key) j
    ]

    posted : Result String → Job → Outcome (Job × Result Client)
    posted (err e) j = ok (j, err e)
    posted (val body) j = check_success j.opts.login_success_check body j

    with_fields : Job → Result Fields → Outcome (Job × Result Client)
    with_fields j (err e) = ok (j, err e)
    with_fields j (val fields) = posted (site.post_form (set_all j.opts.login_payload fields)) j

    unfoldable pub login_direct : Job → Outcome (Job × Result Client)
    unfolding with_fields posted check_success compared send
    login_direct j = login_fields j.opts >>= with_fields j
