-- ===== src/Server/Rpc.antt =====
-- worker.go: the RPC handlers of the server.
--
-- A handler that waits for the client or for a channel leaves the server to the other goroutines;
-- `meanwhile` is what they make of it in that time. An error result is `some message`, nil is `none`.
pub mod Pages
pub mod Streams
pub mod Cancel
use ideacrawler.Prelude.{
  String, Bool, true, false, Option, none, some, List, [], ◌∷◌, ◌++◌, Outcome, ok, blocks, panics,
  ◌>>=◌, val, err, if◌then◌else◌, not,
}
use ideacrawler.Prelude.Dict.{lookup, insert}
use ideacrawler.Prelude.Chan.{send}
use ideacrawler.Proto.{JobId, WorkerId, Status, PageRequest}
use ideacrawler.Job.{Job, Canceller, unstarted, waiting, woken, gone, done, request_cancel}
use ideacrawler.Server.{Server, NewJob, NewJobStatus, find_job}

abbrev pub Reply : Type 0
Reply = Option String

-- `stream.Recv()`
pub data Recv : Type 0 where
  request : PageRequest → Recv
  nil_request : Recv
  eof : Recv
  failed : String → Recv

-- What a handler does to the job that it has a pointer to.
abbrev on_job : Option Job → String → (Job → Outcome Job) → Server → Outcome Server
on_job none id f s = panics
on_job (some j) id f s = f j >>= λ j'. ok (record s { store = insert id j' s.store })

abbrev pub with_job : String → (Job → Outcome Job) → Server → Outcome Server
with_job id f s = on_job (lookup id s.store) id f s

-- `reqChan <- *pgreq`
abbrev pub deliver : PageRequest → Job → Outcome Job
deliver r j = send j.subscriber.req_chan r >>= λ c.
    ok (record j { subscriber = record (j.subscriber) { req_chan = c } })

-- `pgreq.JobID.ID` in the log line, a nil dereference without a job id.
abbrev log_job_id : Option JobId → Outcome (Unit {0})
log_job_id none = panics
log_job_id (some sub) = ok tt

abbrev nil_request_message : String
nil_request_message = "Received nil pagereq in AddPages.  Exiting AddPages"

-- With the request printed at its end, which is left out here.
abbrev nil_sub_message : String
nil_sub_message = "Received pagereq with nil sub object. Exiting AddPages.  PageReq - "

-- The server afterwards, the requests that went into `reqChan`, and the handler's result.
abbrev pub Added : Type 0
Added = Server × List PageRequest × Reply

abbrev note : PageRequest → Outcome Added → Outcome Added
note r m = m >>= λ (s, sent, reply). ok (s, r ∷ sent, reply)

module _ (meanwhile : List Recv → Server → Server) where
  job_done_now : String → Server → Bool
  job_done_now id s = is_closed (lookup id s.store)
    where
      is_closed : Option Job → Bool
      is_closed none = false
      is_closed (some j) = done j

  -- The `for` loop of `AddPages`. A stream that has nothing left keeps the handler waiting.
  unfoldable pub add_pages_loop : String → List Recv → Server → Outcome Added
  unfolding job_done_now
  add_pages_loop id [] s = blocks
  add_pages_loop id (eof ∷ rs) s = ok (s, [], none)
  add_pages_loop id (failed e ∷ rs) s = ok (s, [], some e)
  add_pages_loop id (nil_request ∷ rs) s = ok (s, [], some nil_request_message)
  add_pages_loop id (request r ∷ rs) s =
      let s1 = meanwhile rs s in
      if job_done_now id s1
      then ok (s1, [], none)
      else (with_job id (deliver r) s1 >>= λ s2.
          log_job_id r.job_id >>= λ _. note r (add_pages_loop id rs s2))

  add_first : PageRequest → Option JobId → List Recv → Server → Outcome Added
  add_first r none rs s = ok (s, [], some nil_sub_message)
  add_first r (some sub) rs s = look (find_job sub s)
    where
      look : NewJobStatus → Outcome Added
      look (err e) = ok (s, [], some e)
      look (val id) = with_job id.id (deliver r) s >>= λ s1. note r (add_pages_loop id.id rs s1)

  unfoldable pub add_pages : List Recv → Server → Outcome Added
  unfolding add_first
  add_pages [] s = blocks
  add_pages (eof ∷ rs) s = ok (s, [], none)
  add_pages (failed e ∷ rs) s = ok (s, [], some e)
  add_pages (nil_request ∷ rs) s = ok (s, [], some nil_request_message)
  add_pages (request r ∷ rs) s = add_first r r.job_id rs s

abbrev failure : String → Status
failure e = record { success = false; error = e }

abbrev pub nil_cancel_message : String
nil_cancel_message = "Received nil subscription in CancelJob.  Not canceling anything."

-- The job at which the send meets the cancel goroutine: if that has not been started, what `RunJob`
-- has made of the job while the handler waited.
unfoldable pub awaited : (Job → Job) → Job → Job
awaited starts j = at j.canceller
  where
    at : Canceller → Job
    at unstarted = starts j
    at waiting = j
    at woken = j
    at gone = j

cancel_found : (Job → Job) → NewJobStatus → Server → Outcome (Server × Status × Reply)
cancel_found starts (err e) s = ok (s, failure e, some e)
cancel_found starts (val id) s = with_job id.id (λ j. request_cancel (awaited starts j)) s >>= λ s'.
    ok (s', record { success = true; error = "" }, none)

-- `starts` is what `RunJob` makes of the job in its time before the cancel goroutine.
unfoldable pub cancel_job : (Job → Job) → Option JobId → Server → Outcome (Server × Status × Reply)
unfolding cancel_found
cancel_job starts none s = ok (s, failure nil_cancel_message, some nil_cancel_message)
cancel_job starts (some sub) s = cancel_found starts (find_job sub s) s

unfoldable pub get_worker_id : Server → WorkerId × Reply
get_worker_id s = (record { id = s.worker_id }, none)
