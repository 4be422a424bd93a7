-- ===== src/GoClient/Spec.antt =====
-- goclient/options.go, and `JobSpec` and `NewJobSpec` of goclient/ideacrawlerclient.go.
--
-- An option changes the spec in place: here it is the function from the old spec to the new one. A
-- Go map that an option ranges over is the list of its pairs in the order of the iteration.
use ideacrawler.Prelude.{
  String, Bool, true, false, not, List, [], ◌∷◌, ◌++◌, Option, none, some, Outcome, if◌then◌else◌,
  is_nil,
}
use ideacrawler.Prelude.Int.{ℤ, pos, negsuc}
use ideacrawler.Prelude.Chan.{Chan}
use ideacrawler.Proto.{DomainOpt, Kvp, PageHtml, UrlList, zero_opt}

-- `clean_up_func` is what a call of the function comes to.
pub record JobSpec : Type 0 where
  pub dopt : DomainOpt
  pub impl_page_chan : Option (Chan PageHtml)
  pub use_analyzed_url_chan : Bool
  pub impl_analyzed_url_chan : Option (Chan UrlList)
  pub callback_seed_url : Bool
  pub clean_up_func : Option (Outcome (Unit {0}))

abbrev pub JobOption : Type 0
JobOption = JobSpec → JobSpec

abbrev on_opts : (DomainOpt → DomainOpt) → JobOption
on_opts f args = record args { dopt = f args.dopt }

unfoldable pub seed_url : String → JobOption
seed_url vv = on_opts (λ d. record d { seed_url = vv })

unfoldable pub min_delay : ℤ → JobOption
min_delay vv = on_opts (λ d. record d { min_delay = vv })

unfoldable pub max_delay : ℤ → JobOption
max_delay vv = on_opts (λ d. record d { max_delay = vv })

unfoldable pub max_idle_time : ℤ → JobOption
max_idle_time vv = on_opts (λ d. record d { max_idle_time = vv })

unfoldable pub threads_per_site : ℤ → JobOption
threads_per_site vv = on_opts (λ d. record d { threads_per_site = vv })

unfoldable pub no_follow : JobOption
no_follow = on_opts (λ d. record d { no_follow = true })

unfoldable pub callback_url_regexp : String → JobOption
callback_url_regexp vv = on_opts (λ d. record d { callback_url_regexp = vv })

unfoldable pub follow_url_regexp : String → JobOption
follow_url_regexp vv = on_opts (λ d. record d { follow_url_regexp = vv })

unfoldable pub max_concurrent_requests : ℤ → JobOption
max_concurrent_requests vv = on_opts (λ d. record d { max_concurrent_requests = vv })

unfoldable pub useragent : String → JobOption
useragent vv = on_opts (λ d. record d { useragent = vv })

unfoldable pub impolite : JobOption
impolite = on_opts (λ d. record d { impolite = true })

unfoldable pub depth : ℤ → JobOption
depth vv = on_opts (λ d. record d { depth = vv })

unfoldable pub unsafe_normalize_url : JobOption
unsafe_normalize_url = on_opts (λ d. record d { unsafe_normalize_url = true })

unfoldable pub check_login_after_each_page : JobOption
check_login_after_each_page = on_opts (λ d. record d { check_login_after_each_page = true })

unfoldable pub chrome : Bool → String → JobOption
chrome uu vv = on_opts (λ d. record d { chrome = uu; chrome_binary = vv })

unfoldable pub dom_load_time : ℤ → JobOption
dom_load_time vv = on_opts (λ d. record d { dom_load_time = vv })

unfoldable pub network_iface : String → JobOption
network_iface vv = on_opts (λ d. record d { network_iface = vv })

unfoldable pub cancel_on_disconnect : JobOption
cancel_on_disconnect = on_opts (λ d. record d { cancel_on_disconnect = true })

unfoldable pub check_content : JobOption
check_content = on_opts (λ d. record d { check_content = true })

unfoldable pub prefetch : JobOption
prefetch = on_opts (λ d. record d { prefetch = true })

unfoldable pub callback_anchor_text_regexp : String → JobOption
callback_anchor_text_regexp vv = on_opts (λ d. record d { callback_anchor_text_regexp = vv })

unfoldable pub clean_up_func : Option (Outcome (Unit {0})) → JobOption
clean_up_func vv args = record args { clean_up_func = vv }

unfoldable pub page_chan : Option (Chan PageHtml) → JobOption
page_chan vv args = record args { impl_page_chan = vv }

unfoldable pub analyzed_url : JobOption
analyzed_url args = record args { use_analyzed_url_chan = true }

unfoldable pub analyzed_url_chan : Option (Chan UrlList) → JobOption
analyzed_url_chan vv args = record args {
  use_analyzed_url_chan = true;
  impl_analyzed_url_chan = vv;
}

unfoldable pub callback_seed_url : JobOption
callback_seed_url = on_opts (λ d. record d { callback_seed_url = true })

unfoldable pub mime_type : String → JobOption
mime_type mime = on_opts (λ d. record d { mimetype = mime })

unfoldable pub no_mime_type : JobOption
no_mime_type = on_opts (λ d. record d { mimetype = "" })

-- `for k, v := range m { x = &pb.KVP{Key: k, Value: v} }`: the last pair of the iteration stays.
abbrev last_or : Option Kvp → List Kvp → Option Kvp
last_or old [] = old
last_or old (kv ∷ kvs) = last_or (some kv) kvs

unfoldable pub login : String → List Kvp → List Kvp → List Kvp → JobOption
login login_url payload parse_xpath success_check = on_opts (λ d. record d {
  login = true;
  login_url = login_url;
  login_payload = d.login_payload ++ payload;
  login_parse_fields = if not (is_nil parse_xpath) then true else d.login_parse_fields;
  login_parse_xpath = d.login_parse_xpath ++ parse_xpath;
  login_success_check = last_or d.login_success_check success_check;
})

unfoldable pub login_chrome : String → String → List Kvp → JobOption
login_chrome login_url login_js success_check = on_opts (λ d. record d {
  login = true;
  login_url = login_url;
  login_js = login_js;
  login_success_check = last_or d.login_success_check success_check;
})

unfoldable pub callback_xpath_match : List Kvp → JobOption
callback_xpath_match mdata =
    on_opts (λ d. record d { callback_xpath_match = d.callback_xpath_match ++ mdata })

unfoldable pub callback_xpath_regexp : List Kvp → JobOption
callback_xpath_regexp mdata =
    on_opts (λ d. record d { callback_xpath_regexp = d.callback_xpath_regexp ++ mdata })

-- The options of `NewJobSpec` before any is applied.
abbrev pub default_opts : DomainOpt
default_opts = record zero_opt {
  min_delay = pos 5;
  depth = negsuc 0;
  dom_load_time = pos 5;
  useragent = "Fetchbot";
  max_concurrent_requests = pos 5;
  mimetype = "text/html";
}

abbrev pub default_spec : JobSpec
default_spec = record {
  dopt = default_opts;
  impl_page_chan = none;
  use_analyzed_url_chan = false;
  impl_analyzed_url_chan = none;
  callback_seed_url = false;
  clean_up_func = none;
}

abbrev apply_options : JobSpec → List JobOption → JobSpec
apply_options spec [] = spec
apply_options spec (opt ∷ opts) = apply_options (opt spec) opts

unfoldable pub new_job_spec : List JobOption → JobSpec
new_job_spec opts = apply_options default_spec opts
