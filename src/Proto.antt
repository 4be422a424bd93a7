-- ===== src/Proto.antt =====
-- protofiles/ideacrawler.pb.go: the messages between client and server, with the fields the program
-- reads. Repeated fields are lists; a pointer that may be nil is an `Option`. `int32` and `int64`
-- fields are integers; where the program computes with one, the wrap-around is written there.
use ideacrawler.Prelude.{String, Bool, false, List, [], Option, none, ℕ}
use ideacrawler.Prelude.Int.{ℤ, pos}

pub record JobId : Type 0 where
  pub id : String

pub record WorkerId : Type 0 where
  pub id : String

pub record Status : Type 0 where
  pub success : Bool
  pub error : String

pub record Kvp : Type 0 where
  pub key : String
  pub value : String

pub data PageReqType : Type 0 where
  get head builtinjs jscript : PageReqType
  -- A number that the enumeration does not name: proto3 lets it through.
  other : ℕ → PageReqType

pub record DomainOpt : Type 0 where
  pub seed_url : String
  pub min_delay : ℤ
  pub max_delay : ℤ
  pub no_follow : Bool
  pub callback_url_regexp : String
  pub follow_url_regexp : String
  pub max_concurrent_requests : ℤ
  pub useragent : String
  pub impolite : Bool
  pub depth : ℤ
  pub threads_per_site : ℤ
  pub callback_xpath_match : List Kvp
  pub callback_xpath_regexp : List Kvp
  pub max_idle_time : ℤ
  pub follow_other_domains : Bool
  pub keep_domains : List String
  pub drop_domains : List String
  pub domain_drop_priority : Bool
  pub unsafe_normalize_url : Bool
  pub login : Bool
  pub login_using_selenium : Bool
  pub login_url : String
  pub login_payload : List Kvp
  pub login_parse_fields : Bool
  pub login_parse_xpath : List Kvp
  pub login_success_check : Option Kvp
  pub check_login_after_each_page : Bool
  pub login_js : String
  pub chrome : Bool
  pub chrome_binary : String
  pub dom_load_time : ℤ
  pub network_iface : String
  pub cancel_on_disconnect : Bool
  pub check_content : Bool
  pub prefetch : Bool
  pub callback_anchor_text_regexp : String
  pub callback_seed_url : Bool
  pub mimetype : String

-- The message with every field left out: `&pb.DomainOpt{}`.
abbrev pub zero_opt : DomainOpt
zero_opt = record {
  seed_url = "";
  min_delay = pos 0;
  max_delay = pos 0;
  no_follow = false;
  callback_url_regexp = "";
  follow_url_regexp = "";
  max_concurrent_requests = pos 0;
  useragent = "";
  impolite = false;
  depth = pos 0;
  threads_per_site = pos 0;
  callback_xpath_match = [];
  callback_xpath_regexp = [];
  max_idle_time = pos 0;
  follow_other_domains = false;
  keep_domains = [];
  drop_domains = [];
  domain_drop_priority = false;
  unsafe_normalize_url = false;
  login = false;
  login_using_selenium = false;
  login_url = "";
  login_payload = [];
  login_parse_fields = false;
  login_parse_xpath = [];
  login_success_check = none;
  check_login_after_each_page = false;
  login_js = "";
  chrome = false;
  chrome_binary = "";
  dom_load_time = pos 0;
  network_iface = "";
  cancel_on_disconnect = false;
  check_content = false;
  prefetch = false;
  callback_anchor_text_regexp = "";
  callback_seed_url = false;
  mimetype = "";
}

pub record PageRequest : Type 0 where
  pub job_id : Option JobId
  pub reqtype : PageReqType
  pub url : String
  pub js : String
  pub no_callback : Bool
  pub meta_str : String

-- `content` is a text: the bytes are passed on and never looked into here.
pub record PageHtml : Type 0 where
  pub success : Bool
  pub error : String
  pub job_id : Option JobId
  pub url : String
  pub httpstatuscode : ℤ
  pub content : String
  pub meta_str : String
  pub url_depth : ℤ
  pub anchor_text : String

pub record UrlList : Type 0 where
  pub url : List String
  pub meta_str : String
  pub url_depth : ℤ
