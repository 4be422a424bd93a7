-- ===== src/Delivery.antt =====
-- The way of a page request through the program: from `AddPage` and `AddJS` of the Go client over the
-- `AddPages` stream of worker.go into the request channel of the job, and from there into the queue
-- of the crawl by the goroutine of `RunJob`.
pub mod Serving
mod Tests
use ideacrawler.Prelude.{String, List, map, ◌≢◌}
use ideacrawler.Prelude.Dict.{insert}
use ideacrawler.Prelude.Chan.{Chan}
use ideacrawler.Proto.{PageRequest}
use ideacrawler.Job.{Job, CrawlCommand}
use ideacrawler.Web.{Web}
use ideacrawler.Server.{Server}
use ideacrawler.Server.Rpc.Pages.{Went}
use ideacrawler.GoClient.CrawlJob.{CrawlJob, Rpc}
use ideacrawler.GoClient.Requests.{Call, request_of}
use ideacrawler.RunJob.Requests.{commands}

-- The requests of the calls of a client.
abbrev pub asked : CrawlJob → List Call → List PageRequest
asked cj cs = map (request_of cj) cs

-- The calls of a client and the commands that they ask for.
module _ (w : Web) (path_escape query_escape : String → String) (rpc : Rpc) (cj : CrawlJob) where
  abbrev pub asked_commands : List PageRequest → List CrawlCommand
  asked_commands = commands w path_escape query_escape
