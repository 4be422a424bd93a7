-- ===== src/Job.antt =====
-- The job of job.go and the subscriber of worker.go: their state, `sendPageHTML`, `done`, and the
-- send on `cancelChan`.
--
-- A `select` with two ready cases takes either: `prefer_stop` is the choice. `doneChan` is only ever
-- closed, so it is a flag. `cancelChan` has no buffer: a send meets the goroutine that `RunJob`
-- starts to wait for it, and waits for ever when that has gone. The queue of fetchbot is the list of
-- the commands that it has taken. The logger and the mutex have no counterpart: `enqueueLinks` holds
-- the mutex throughout, so it runs as one step.
pub mod Sending
mod Tests
use ideacrawler.Prelude.{
  String, Bool, false, not, ◌&&◌, ◌||◌, Option, List, ◌∷◌, ◌++◌, Outcome, ok, blocks, ◌>>=◌,
  if◌then◌else◌,
}
use ideacrawler.Prelude.Int.{ℤ}
use ideacrawler.Prelude.Dict.{Dict}
use ideacrawler.Prelude.Chan.{Chan, can_recv, can_send, recv_rest, send}
use ideacrawler.Proto.{JobId, DomainOpt, PageHtml, PageRequest, UrlList}

-- The parts of a `url.URL` that the program reads or sets.
pub record Url : Type 0 where
  pub scheme : String
  pub host : String
  pub path : String
  pub raw_query : String
  pub fragment : String

pub record CrawlCommand : Type 0 where
  pub method : String
  pub url : Url
  pub no_callback : Bool
  pub meta_str : String
  pub url_depth : ℤ
  pub anchor_text : String

-- A compiled regexp is its `MatchString`.
abbrev pub Regexp : Type 0
Regexp = String → Bool

pub record Subscriber : Type 0 where
  pub done_seqnum : ℤ
  pub req_chan : Option (Chan PageRequest)
  pub send_chan : Option (Chan PageHtml)
  pub stop_chan : Option (Chan Bool)
  pub analyzed_url_chan : Option (Chan UrlList)
  pub stop_analyzed_url_chan : Option (Chan Bool)
  pub analyzed_url_connected : Bool
  pub connected : Bool

-- The goroutine of `RunJob` that waits for a cancel: not started, waiting, woken by the cancel
-- channel with `close(j.doneChan)` ahead of it, or gone.
pub data Canceller : Type 0 where
  unstarted waiting woken gone : Canceller

pub record Job : Type 0 where
  pub domainname : String
  pub opts : DomainOpt
  pub id : JobId
  pub seqnum : ℤ
  pub callback_url_regexp : Option Regexp
  pub follow_url_regexp : Option Regexp
  pub callback_anchor_text_regexp : Option Regexp
  pub subscriber : Subscriber
  pub duplicates : Dict Bool
  pub canceller : Canceller
  pub done_closed : Bool
  pub queue : List CrawlCommand

abbrev pub done : Job → Bool
done j = j.done_closed

cancel_met : Canceller → Job → Outcome Job
cancel_met waiting j = ok (record j { canceller = woken })
cancel_met unstarted j = blocks
cancel_met woken j = blocks
cancel_met gone j = blocks

-- `j.cancelChan <- struct{}{}`, as things stand: where the goroutine of `RunJob` is not yet there the
-- send waits for it, and where that was woken before or has gone, for ever.
unfoldable pub request_cancel : Job → Outcome Job
unfolding cancel_met
request_cancel j = cancel_met j.canceller j

abbrev pub set_send_chan : Job → Option (Chan PageHtml) → Job
set_send_chan j c = record j { subscriber = record (j.subscriber) { send_chan = c } }

-- The case `<-j.subscriber.stopChan` of the select. `has_ctx` is `ctx != nil`.
unfoldable pub lose_client : Bool → Job → Outcome Job
lose_client has_ctx j =
    let lost : Job = record j {
      subscriber = record (j.subscriber) {
        stop_chan = recv_rest (j.subscriber.stop_chan);
        connected = false;
      };
    } in
    if has_ctx && j.opts.cancel_on_disconnect then request_cancel lost else ok lost

unfoldable pub send_page_html : Bool → Bool → PageHtml → Job → Outcome Job
unfolding lose_client
send_page_html prefer_stop has_ctx phtml j =
    if not j.subscriber.connected
    then ok j
    else if done j
    then ok j
    else if can_recv j.subscriber.stop_chan
        && (prefer_stop || not (can_send j.subscriber.send_chan))
    then lose_client has_ctx j
    else (send j.subscriber.send_chan phtml >>= λ c. ok (set_send_chan j c))
