-- ===== src/Server/Rpc/Streams.antt =====
-- worker.go: the two handlers that stream to a client, `AddDomainAndListen` and `GetAnalyzedURLs`.
--
-- What goes through a channel until it is closed is a list. `client` answers `ostream.Send`: from
-- the messages so far, the last one included, its error if there is one.
pub mod Listen
pub mod Analyzed
use ideacrawler.Prelude.{
  String, Bool, true, false, not, Option, none, some, List, [], ◌∷◌, ◌++◌, Outcome, ok, blocks,
  ◌>>=◌, val, err, Result, if◌then◌else◌,
}
use ideacrawler.Prelude.Int.{pos}
use ideacrawler.Prelude.Dict.{lookup}
use ideacrawler.Prelude.Chan.{Chan, make, send}
use ideacrawler.Proto.{JobId, DomainOpt, PageHtml, UrlList}
use ideacrawler.StatusCodes.{subscription}
use ideacrawler.Job.{Job, Regexp}
use ideacrawler.Web.{Web}
use ideacrawler.Server.{Server, NewJob, NewJobStatus, add_new_job, find_job}
use ideacrawler.Server.Rpc.{Reply, with_job}

abbrev pub Client {ℓ} : Type ℓ → Type ℓ
Client A = List A → Option String

-- `for message := range channel { err := ostream.Send(&message); if err != nil { ... return err } }`:
-- the messages sent, and the error at which the loop ends.
unfoldable pub stream_out {ℓ} : {A : Type ℓ} → Client A → List A → List A → List A × Reply
stream_out client sent [] = (sent, none)
stream_out client sent (m ∷ ms) = elim (client (sent ++ m ∷ [])) [
  | none ↦ stream_out client (sent ++ m ∷ []) ms
  | some e ↦ (sent ++ m ∷ [], some e)
]

abbrev signal : Option (Chan Bool) → Outcome (Option (Chan Bool))
signal c = send c true

-- `job.subscriber.stopChan <- true`
abbrev pub stop_job : Job → Outcome Job
stop_job j = signal j.subscriber.stop_chan >>= λ c.
    ok (record j { subscriber = record (j.subscriber) { stop_chan = c } })

abbrev pub subscription_page : JobId → PageHtml
subscription_page id = record {
  success = true;
  error = "subscription.object";
  job_id = some id;
  url = "";
  httpstatuscode = subscription;
  content = "";
  meta_str = "";
  url_depth = pos 0;
  anchor_text = "";
}

-- The server afterwards, what the client was sent, and the handler's result.
abbrev pub Listened {ℓ} : Type ℓ → Type ℓ
Listened A = Server × List A × Reply

abbrev stop_on_error {ℓ} : {A : Type ℓ} → String → List A × Reply → Server → Outcome (Listened A)
stop_on_error id (sent, none) s = ok (s, sent, none)
stop_on_error id (sent, some e) s = with_job id stop_job s >>= λ s'. ok (s', sent, some e)

-- `job.subscriber.connected`, of a job that was just made.
abbrev connected_job : Option Job → Bool
connected_job none = false
connected_job (some j) = j.subscriber.connected

module _ (w : Web) (compile : String → Result Regexp) where
  -- `pages` is what the job puts into its send channel until it closes it, `meanwhile` what becomes
  -- of the server while they are sent.
  listen_to :
      (Server → Server)
      → Client PageHtml
      → List PageHtml
      → Server × NewJobStatus
      → Outcome (Listened PageHtml)
  listen_to meanwhile client pages (s, err e) = ok (s, [], some e)
  listen_to meanwhile client pages (s, val id) =
      if not (connected_job (lookup id.id s.store))
      then ok (s, [], some "Subscriber object not created")
      else stop_on_error id.id (stream_out client [] (subscription_page id ∷ pages)) (meanwhile s)

  -- `id` is the fresh uuid.
  unfoldable pub add_domain_and_listen :
      (Server → Server)
      → Client PageHtml
      → List PageHtml
      → String
      → DomainOpt
      → Server
      → Outcome (Listened PageHtml)
  unfolding listen_to
  add_domain_and_listen meanwhile client pages id opts s =
      listen_to meanwhile client pages
        (add_new_job w compile id (record { opts = opts; subscribe = true }) s)

abbrev nil_analyzed_message : String
nil_analyzed_message =
    "Received nil subscription in GetAnalyzedURLs.  Not requesting analyzed urls."

-- The subscriber with the two channels that the handler makes.
abbrev pub connect_analyzed : Job → Outcome Job
connect_analyzed j = ok (record j {
  subscriber = record (j.subscriber) {
    analyzed_url_connected = true;
    analyzed_url_chan = some (make 100);
    stop_analyzed_url_chan = some (make 3);
  };
})

-- `job.subscriber.stopAnalyzedURLChan <- true`
abbrev pub stop_analyzed : Job → Outcome Job
stop_analyzed j = signal j.subscriber.stop_analyzed_url_chan >>= λ c.
    ok (record j { subscriber = record (j.subscriber) { stop_analyzed_url_chan = c } })

abbrev closed_lists : Option (Chan UrlList) → Bool
closed_lists none = false
closed_lists (some c) = c.closed

-- Whether a `range` over the channel of the job comes to an end.
abbrev pub lists_end : Option Job → Bool
lists_end none = false
lists_end (some j) = closed_lists j.subscriber.analyzed_url_chan

-- After the lists that come the loop ends if the channel is closed, and waits for more if not.
abbrev forward_lists :
    (Server → Server) → String → List UrlList × Reply → Server → Outcome (Listened UrlList)
forward_lists meanwhile id (sent, none) s =
    let t = meanwhile s in if lists_end (lookup id t.store) then ok (t, sent, none) else blocks
forward_lists meanwhile id (sent, some e) s =
    with_job id stop_analyzed (meanwhile s) >>= λ s'. ok (s', sent, some e)

analyzed_found :
    (Server → Server)
    → Client UrlList
    → List UrlList
    → NewJobStatus
    → Server
    → Outcome (Listened UrlList)
analyzed_found meanwhile client lists (err e) s = ok (s, [], some e)
analyzed_found meanwhile client lists (val id) s =
    with_job id.id connect_analyzed s >>= forward_lists meanwhile id.id (stream_out client [] lists)

unfoldable pub get_analyzed_urls :
    (Server → Server)
    → Client UrlList
    → List UrlList
    → Option JobId
    → Server
    → Outcome (Listened UrlList)
unfolding analyzed_found
get_analyzed_urls meanwhile client lists none s = ok (s, [], some nil_analyzed_message)
get_analyzed_urls meanwhile client lists (some sub) s =
    analyzed_found meanwhile client lists (find_job sub s) s
