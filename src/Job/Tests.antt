-- ===== src/Job/Tests.antt =====
-- `sendPageHTML` of job.go at a channel with room for one page.
use ideacrawler.Prelude.{
  Bool, true, false, ◌&&◌, List, [], ◌∷◌, ◌++◌, none, some, Outcome, ok, panics, ◌≡◌, ◌↔◌, refl,
}
use ideacrawler.Prelude.Int.{pos}
use ideacrawler.Prelude.Chan.{make, can_recv}
use ideacrawler.Proto.{PageHtml, zero_opt}
use ideacrawler.Job.{Job, Subscriber, waiting, send_page_html, lose_client, request_cancel}
use ideacrawler.Job.Sending.{pages, send_all, pages_of, send_all-prefix, send_page_html-panics_iff}

abbrev sample : PageHtml
sample = record {
  success = true;
  error = "";
  job_id = none;
  url = "/";
  httpstatuscode = pos 200;
  content = "hi";
  meta_str = "";
  url_depth = pos 0;
  anchor_text = "";
}

-- The client has gone away: a stop signal waits, and the channel is full after one page.
abbrev leaving : Subscriber
leaving = record {
  done_seqnum = pos 0;
  req_chan = none;
  send_chan = some (make 1);
  stop_chan = some (record { cap = 3; items = true ∷ []; closed = false });
  analyzed_url_chan = none;
  stop_analyzed_url_chan = none;
  analyzed_url_connected = false;
  connected = true;
}

abbrev serving : Job
serving = record {
  domainname = "site";
  opts = record zero_opt { cancel_on_disconnect = true };
  id = record { id = "job" };
  seqnum = pos 0;
  callback_url_regexp = none;
  follow_url_regexp = none;
  callback_anchor_text_regexp = none;
  subscriber = leaving;
  duplicates = [];
  canceller = waiting;
  done_closed = false;
  queue = [];
}

abbrev three : List (Bool × PageHtml)
three = (false, sample) ∷ (false, sample) ∷ (false, sample) ∷ []

-- The first page fits; at the second the stop signal is taken and the job cancelled.
after_three : Job
unfolding send_all send_page_html lose_client request_cancel
after_three = ended (send_all true three serving)
  where
    ended : Outcome Job → Job
    ended (ok j) = j
    ended _ = serving

sent_three : send_all true three serving ≡ ok after_three
unfolding send_all send_page_html lose_client request_cancel after_three
sent_three = refl

one_arrives : pages after_three ≡ sample ∷ []
unfolding after_three
one_arrives = refl

send_all-prefix_example :
    (sent : List PageHtml) × (dropped : List PageHtml) × (pages_of three ≡ sent ++ dropped)
    × (pages after_three ≡ pages serving ++ sent)
send_all-prefix_example = send_all-prefix true three serving after_three sent_three

-- `RunJob` has closed the send channel and not yet `doneChan`.
abbrev closing : Job
closing = record serving {
  subscriber = record leaving { send_chan = some (record { cap = 1; items = []; closed = true }) };
}

send_page_html-panics_iff_example : (send_page_html false true sample closing ≡ panics) ↔ (
    (◌≡◌ {A = Bool} true true)
    × (◌≡◌ {A = Bool} false false)
    × (◌≡◌ {A = Bool} true true)
    × ((can_recv leaving.stop_chan && false) ≡ false))
send_page_html-panics_iff_example =
    send_page_html-panics_iff false true sample closing
      (record { cap = 1; items = []; closed = true }) refl
