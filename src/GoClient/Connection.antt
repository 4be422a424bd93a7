-- ===== src/GoClient/Connection.antt =====
-- `NewWorker` of goclient/ideacrawlerclient.go: the connection to a worker.
use ideacrawler.Prelude.{
  String, Bool, true, false, List, [], ◌∷◌, Option, Result, val, err, on_error,
}
use ideacrawler.GoClient.CrawlJob.{Rpc}

-- `grpc.WithInsecure()`, `grpc.WithDialer` with the connection that is given, and
-- `grpc.WithDisableRetry()`
pub data DialOption : Type 0 where
  with_insecure with_dialer with_disable_retry : DialOption

abbrev pub dial_options : Bool → List DialOption
dial_options true = with_insecure ∷ with_dialer ∷ with_disable_retry ∷ []
dial_options false = with_insecure ∷ []

-- `has_conn` is `tcpconn != nil`. `dial` gives the error of `grpc.Dial`, `stub` is the client on the
-- connection.
unfoldable pub new_worker :
    (String → List DialOption → Option String) → Rpc → String → Bool → Result Rpc
new_worker dial stub socket has_conn = on_error (dial socket (dial_options has_conn)) err (val stub)
