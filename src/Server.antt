-- ===== src/Server.antt =====
-- worker.go: the server's job registry, `addNewJob`, `jobManager`, and the lookups behind the RPCs.
--
-- A `*job` is shared by the registry, the RPC handlers and the goroutines of `RunJob`, and outlives
-- its entry in the registry. So the jobs lie in a store under their ids, `jobs` holds the ids that are
-- registered, and a pointer is an id. `newJobChan` and `newSubChan` have no buffer: a request and its
-- answer are one call. The goroutines that `addNewJob` starts are in RunJob.antt.
pub mod Registry
pub mod Rounds
pub mod Refinement
pub mod Rpc
mod Tests
use ideacrawler.Prelude.{
  String, Bool, true, false, Option, none, some, [], ◌∷◌, ok, Result, val, err, ◌<>◌, if◌then◌else◌,
  str_eq, ◌&&◌,
}
use ideacrawler.Prelude.Int.{pos}
use ideacrawler.Prelude.Dict.{Dict, lookup, insert}
use ideacrawler.Prelude.Chan.{make}
use ideacrawler.Proto.{JobId, DomainOpt}
use ideacrawler.Job.{Job, Url, Regexp, Subscriber, unstarted, done}
use ideacrawler.Web.{Web}

-- main.go: `modeStandalone`, `modeWorker`, `modeServer`
pub data Mode : Type 0 where
  standalone worker server : Mode

pub record Server : Type 0 where
  pub worker_id : String
  pub mode : Mode
  -- The keys are the ids of the registered jobs.
  pub jobs : Dict (Unit {0})
  pub store : Dict Job

-- `newServer`: the id is a fresh uuid.
abbrev pub new_server : String → Mode → Server
new_server id mode = record { worker_id = id; mode = mode; jobs = []; store = [] }

pub record NewJob : Type 0 where
  pub opts : DomainOpt
  pub subscribe : Bool

-- `newJobStatus`: the job's id, or the error.
abbrev pub NewJobStatus : Type 0
NewJobStatus = Result JobId

-- `&subscriber{}`
abbrev pub no_subscriber : Subscriber
no_subscriber = record {
  done_seqnum = pos 0;
  req_chan = none;
  send_chan = none;
  stop_chan = none;
  analyzed_url_chan = none;
  stop_analyzed_url_chan = none;
  analyzed_url_connected = false;
  connected = false;
}

abbrev pub new_subscriber : Bool → Subscriber
new_subscriber subscribe =
    if subscribe
    then record no_subscriber {
      req_chan = some (make 1000);
      send_chan = some (make 1000);
      stop_chan = some (make 3);
      connected = true;
    }
    else no_subscriber

infixl 5 ◌>>=◌
abbrev ◌>>=◌ {ℓ κ} : {A : Type ℓ} {B : Type κ} → Result A → (A → Result B) → Result B
val a >>= f = f a
err e >>= f = err e

abbrev pub map_err {ℓ} : {A : Type ℓ} → (String → String) → Result A → Result A
map_err f (val a) = val a
map_err f (err e) = err (f e)

-- The errors of `addNewJob`, with the compiler's own.
abbrev pub callback_url_message : DomainOpt → String → String
callback_url_message opts e =
    "CallbackUrlRegexp doesn't compile - " <> opts.callback_url_regexp <> " - " <> e <> "'"

abbrev pub follow_url_message : DomainOpt → String → String
follow_url_message opts e =
    "FollowURLRegexp doesn't compile - " <> opts.follow_url_regexp <> " - " <> e

abbrev pub anchor_text_message : DomainOpt → String → String
anchor_text_message opts e =
    "AnchorTextRegexp doesn't compile - " <> opts.callback_anchor_text_regexp <> " - " <> e

-- `compile` is `regexp.Compile`.
module _ (w : Web) (compile : String → Result Regexp) where
  abbrev hostname_of : Result Url → Result String
  hostname_of (val u) = val (w.hostname u)
  hostname_of (err e) = err e

  unfoldable pub domain_name_from_url : String → Result String
  domain_name_from_url url = hostname_of (w.parse_url url)

  compiled : Result Regexp → Result (Option Regexp)
  compiled (val re) = val (some re)
  compiled (err e) = err e

  -- `if len(text) > 0 { re, err = regexp.Compile(text) }`, with the message of its failure.
  unfoldable pub compile_option : (String → String) → String → Result (Option Regexp)
  unfolding compiled
  compile_option message text =
      if str_eq text "" then val none else map_err message (compiled (compile text))

  abbrev pub new_job :
      String → NewJob → String → Option Regexp → Option Regexp → Option Regexp → Job
  new_job id nj domainname callback follow anchor = record {
    domainname = domainname;
    opts = nj.opts;
    id = record { id = id };
    seqnum = pos 0;
    callback_url_regexp = callback;
    follow_url_regexp = follow;
    callback_anchor_text_regexp = anchor;
    subscriber = new_subscriber nj.subscribe;
    duplicates = [];
    canceller = unstarted;
    done_closed = false;
    queue = [];
  }

  -- The validation, up to the job that is started. `id` is a fresh uuid.
  unfoldable pub validate : String → NewJob → Result Job
  validate id nj = do
    domainname ← domain_name_from_url nj.opts.seed_url
    callback ← compile_option (callback_url_message nj.opts) nj.opts.callback_url_regexp
    follow ← compile_option (follow_url_message nj.opts) nj.opts.follow_url_regexp
    anchor ← compile_option (anchor_text_message nj.opts) nj.opts.callback_anchor_text_regexp
    val (new_job id nj domainname callback follow anchor)

  abbrev pub register : String → Job → Server → Server
  register id j s = record s { jobs = insert id tt s.jobs; store = insert id j s.store }

  unfoldable pub add_validated : String → Result Job → Server → Server × NewJobStatus
  add_validated id (err e) s = (s, err e)
  add_validated id (val j) s = (register id j s, val (j.id))

  -- The server afterwards, and the one message on `nj.retChan`.
  unfoldable pub add_new_job : String → NewJob → Server → Server × NewJobStatus
  add_new_job id nj s = add_validated id (validate id nj) s

-- `s.jobs[ID]`, a nil pointer for an id that is not registered.
abbrev pub registered : Server → String → Option (Unit {0})
registered s id = lookup id s.jobs

abbrev found : String → Option (Unit {0}) → NewJobStatus
found id none = err ("Unable to find subcode - " <> id)
found id (some _) = val (record { id = id })

-- The answer to a `newSub`.
unfoldable pub find_job : JobId → Server → NewJobStatus
find_job sub s = found sub.id (registered s sub.id)

-- A job of the store has closed its `doneChan`; an id without a job never occurs.
abbrev is_done : Option Job → Bool
is_done none = false
is_done (some j) = done j

unfoldable pub job_done : Server → String → Bool
job_done s id = is_done (lookup id s.store)

-- The loop at the end of `jobManager`'s body: done jobs leave the registry.
unfoldable pub sweep_ids : (String → Bool) → Dict (Unit {0}) → Dict (Unit {0})
sweep_ids gone [] = []
sweep_ids gone ((id, x) ∷ m) =
    let rest = sweep_ids gone m in if gone id then rest else (id, x) ∷ rest

unfoldable pub sweep : Server → Server
unfolding sweep_ids
sweep s = record s { jobs = sweep_ids (job_done s) s.jobs }

-- What the select of `jobManager` takes: a job with the uuid that it will get, a lookup, or nothing.
pub data Event : Type 0 where
  new_job_event : String → NewJob → Event
  new_sub_event : JobId → Event
  default : Event

module _ (w : Web) (compile : String → Result Regexp) where
  unfoldable pub answer : Event → Server → Server × Option NewJobStatus
  answer (new_job_event id nj) s = let (s', r) = add_new_job w compile id nj s in (s', some r)
  answer (new_sub_event sub) s = (s, some (find_job sub s))
  answer default s = (s, none)

  -- One round of `jobManager`. After a failed lookup it goes on with the next round at once.
  unfoldable pub after_answer : Event → Option NewJobStatus → Server → Server
  after_answer (new_sub_event sub) (some (err e)) s = s
  after_answer (new_sub_event sub) (some (val id)) s = sweep s
  after_answer (new_sub_event sub) none s = sweep s
  after_answer (new_job_event id nj) r s = sweep s
  after_answer default r s = sweep s

  unfoldable pub manage : Event → Server → Server × Option NewJobStatus
  manage event s = let (s', r) = answer event s in (after_answer event r s', r)
