-- ===== src/Main.antt =====
-- main.go, with the listeners and `startCrawlerWorker` of worker.go: which server is started, and
-- where it listens. The flags are parsed by a library, and gRPC serves until the process ends.
mod Modes
use ideacrawler.Prelude.{
  String, Bool, true, false, List, [], ◌∷◌, Option, none, some, Outcome, ok, panics, Result, val,
  err, str_eq, if◌then◌else◌, on_error,
}
use ideacrawler.Prelude.Dict.{Dict, lookup}
use ideacrawler.Web.{Web}
use ideacrawler.Server.{Server, Mode, standalone, worker, server, new_server}

-- `cliParams`, as far as it is read here.
pub record CliParams : Type 0 where
  pub client_listen_address : String
  pub log_path : String
  pub mode : String
  pub servers : String

-- What the system gives: the errors of `os.MkdirAll` and `os.Create` for the log, of `net.Listen` on
-- an address, and of `net.Dial` to one with the session on it, and the uuid of the worker.
pub record System : Type 0 where
  pub make_dir : String → Option String
  pub create_log : String → Option String
  pub listen : String → Option String
  pub dial : String → Option String
  pub session : String → Option String
  pub uuid : String

abbrev pub modes : Dict Mode
modes = ("standalone", standalone) ∷ ("worker", worker) ∷ ("server", server) ∷ []

abbrev pub invalid_mode : String
invalid_mode = "invalid mode."

unfoldable pub mode_found : Option Mode → Result Mode
mode_found none = err invalid_mode
mode_found (some m) = val m

unfoldable pub parse_crawler_mode : Web → String → Result Mode
unfolding mode_found
parse_crawler_mode w mode = mode_found (lookup (w.to_lower (w.trim_space mode)) modes)

-- Where a server listens: for clients, on a session with the cluster's server, or nowhere.
pub data Listener : Type 0 where
  clients cluster : String → Listener
  nil : Listener

pub record Launch : Type 0 where
  pub server : Server
  pub has_manager : Bool
  pub listener : Listener

module _ (sys : System) (params : CliParams) where
  -- A failure ends the process, with its error.
  unfoldable pub new_standalone_listener : Result Listener
  new_standalone_listener =
      on_error (sys.listen params.client_listen_address) err
        (val (clients params.client_listen_address))

  unfoldable pub new_cluster_worker_listener : Result Listener
  new_cluster_worker_listener =
      on_error (sys.dial params.servers) err
        (on_error (sys.session params.servers) err (val (cluster params.servers)))

  unfoldable pub listener_of : Mode → Result Listener
  listener_of standalone = new_standalone_listener
  listener_of worker = new_cluster_worker_listener
  listener_of server = val nil

  unfoldable pub launched : Server → Bool → Result Listener → Result Launch
  launched s has_manager (err e) = err e
  launched s has_manager (val l) =
      val (record { server = s; has_manager = has_manager; listener = l })

  -- `startCrawlerWorker`, up to `Serve`.
  unfoldable pub start_crawler_worker : Mode → Server → Bool → Result Launch
  start_crawler_worker mode s has_manager = launched s has_manager (listener_of mode)

  unfoldable pub launch : Result Mode → Result Launch
  launch (err e) = err e
  launch (val server) = start_crawler_worker standalone (new_server sys.uuid server) true
  launch (val standalone) = start_crawler_worker standalone (new_server sys.uuid standalone) false
  launch (val worker) = start_crawler_worker worker (new_server sys.uuid worker) false

  unfoldable pub start_up : Web → Outcome (Result Launch)
  start_up w = ok (launch (parse_crawler_mode w params.mode))

  -- `main`
  unfoldable pub main : Web → Outcome (Result Launch)
  main w =
      if str_eq params.log_path ""
      then start_up w
      else on_error (sys.make_dir params.log_path) (λ e. panics)
          (on_error (sys.create_log params.log_path) (λ e. panics) (start_up w))
