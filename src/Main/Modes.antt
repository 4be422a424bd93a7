-- ===== src/Main/Modes.antt =====
-- The modes of main.go: how they are named, and what they start.
use ideacrawler.Prelude.{
  String, Bool, true, false, Option, none, some, Result, val, err, ◌≡◌, ◌≢◌, ◌↔◌, refl, str_eq,
  str_eq_iff, Bool-cases, sym, subst, ◌∙◌, ap, if_true, if_false, if◌then◌else◌, val-injective,
  on_error_elim, ok, ◌⊎◌, inl, inr, Ensures, Ensures-ok, Ensures-panics, ensured, if_elim,
}
use ideacrawler.Prelude.Dict.{lookup}
use ideacrawler.Web.{Web}
use ideacrawler.Server.{Mode, standalone, worker, server, new_server}
use ideacrawler.Main.{
  CliParams, System, Launch, Listener, cluster, clients, launched, new_standalone_listener,
  new_cluster_worker_listener, listener_of, start_up, main, modes, parse_crawler_mode, mode_found,
  start_crawler_worker, launch,
}

err≢val {ℓ} : {A : Type ℓ} {e : String} {a : A} → err e ≢ val a
err≢val h = cc

abbrev mode_name : Mode → String
mode_name standalone = "standalone"
mode_name worker = "worker"
mode_name server = "server"

found_step :
    (name : String) (m m' : Mode) (rest : Option Mode)
    → mode_found (if str_eq (mode_name m) name then some m else rest) ≡ val m'
    → (mode_found rest ≡ val m' → name ≡ mode_name m')
    → name ≡ mode_name m'
unfolding mode_found
found_step name m m' rest h later = elim (Bool-cases (str_eq (mode_name m) name)) [
  | inl same ↦
      sym ((str_eq_iff (mode_name m) name).0 same)
      ∙ ap mode_name (val-injective (ap mode_found (sym (if_true _ (some m) rest same)) ∙ h))
  | inr other ↦ later (ap mode_found (sym (if_false _ (some m) rest other)) ∙ h)
]

found-mode_name :
    (name : String) (m : Mode) → mode_found (lookup name modes) ≡ val m → name ≡ mode_name m
unfolding mode_found lookup
found-mode_name name m h =
    found_step name standalone m _ h
      (λ h1. found_step name worker m _ h1 (λ h2. found_step name server m none h2 (λ missing. cc)))

mode_name-found : (m : Mode) → mode_found (lookup (mode_name m) modes) ≡ val m
unfolding mode_found lookup
mode_name-found standalone = refl
mode_name-found worker = refl
mode_name-found server = refl

-- The mode is read off its name exactly, but for case and the space around it; another text is no
-- mode, and `main` ends with that error.
pub parse_crawler_mode-mode_name :
    (w : Web) (text : String) (m : Mode)
    → (parse_crawler_mode w text ≡ val m) ↔ (w.to_lower (w.trim_space text) ≡ mode_name m)
unfolding parse_crawler_mode
parse_crawler_mode-mode_name w text m = (
  found-mode_name (w.to_lower (w.trim_space text)) m,
  λ named. ap (λ name. mode_found (lookup name modes)) named ∙ mode_name-found m,
)

abbrev pub is_server : Mode → Bool
is_server server = true
is_server standalone = false
is_server worker = false

module _ (sys : System) (params : CliParams) where
  abbrev pub listener_for : Mode → Listener
  listener_for worker = cluster params.servers
  listener_for standalone = clients params.client_listen_address
  listener_for server = clients params.client_listen_address

  -- A worker listens on its session with the cluster, the others for clients; a worker manager is
  -- what the cluster's server has.
  abbrev pub Launched : Mode → Launch → Type 0
  Launched m l =
      (l.server ≡ new_server sys.uuid m)
      × (l.has_manager ≡ is_server m)
      × (l.listener ≡ listener_for m)

  abbrev Starts : Mode → Result Launch → Type 0
  Starts m r = ((e : String) × (r ≡ err e)) ⊎ ((l : Launch) × (r ≡ val l) × Launched m l)

  launched-Starts :
      (m : Mode) (o : Result Listener)
      → ((e : String) × (o ≡ err e)) ⊎ (o ≡ val (listener_for m))
      → Starts m (launched sys params (new_server sys.uuid m) (is_server m) o)
  unfolding launched
  launched-Starts m (err e) h = inl (e, refl)
  launched-Starts m (val l) (inl (e, fails)) = cc
  launched-Starts m (val l) (inr same) = inr (_, refl, (refl, refl, val-injective same))

  abbrev Either : Listener → Result Listener → Type 0
  Either l o = ((e : String) × (o ≡ err e)) ⊎ (o ≡ val l)

  for_clients : Either (clients params.client_listen_address) (new_standalone_listener sys params)
  unfolding new_standalone_listener
  for_clients =
      on_error_elim (Either (clients params.client_listen_address))
        (sys.listen params.client_listen_address) _ _ (λ e. inl (e, refl)) (inr refl)

  on_session : Either (cluster params.servers) (new_cluster_worker_listener sys params)
  unfolding new_cluster_worker_listener
  on_session =
      on_error_elim (Either (cluster params.servers)) (sys.dial params.servers) _ _
        (λ e. inl (e, refl))
        (on_error_elim (Either (cluster params.servers)) (sys.session params.servers) _ _
          (λ e. inl (e, refl)) (inr refl))

  launch-Starts : (m : Mode) → Starts m (launch sys params (val m))
  unfolding launch start_crawler_worker listener_of
  launch-Starts standalone = launched-Starts standalone _ for_clients
  launch-Starts worker = launched-Starts worker _ on_session
  launch-Starts server = launched-Starts server _ for_clients

  main-launch :
      (w : Web)
      → Ensures (λ r. launch sys params (parse_crawler_mode w params.mode) ≡ r) (main sys params w)
  unfolding main start_up
  main-launch w =
      let P = λ (r : Result Launch). launch sys params (parse_crawler_mode w params.mode) ≡ r in
      let starts = Ensures-ok P (launch sys params (parse_crawler_mode w params.mode)) refl in
      if_elim (Ensures P) (str_eq params.log_path "") _ _ starts (
        on_error_elim (Ensures P) (sys.make_dir params.log_path) _ _ (λ e. Ensures-panics P)
          (on_error_elim (Ensures P) (sys.create_log params.log_path) _ _ (λ e. Ensures-panics P)
            starts))

  launch-val :
      (r : Result Mode) {l : Launch}
      → launch sys params r ≡ val l
      → (m : Mode) × (r ≡ val m) × Launched m l
  unfolding launch
  launch-val (err e) run = cc
  launch-val (val m) run = (m, refl, launched_as m run)
    where
      launched_as : (m : Mode) {l : Launch} → launch sys params (val m) ≡ val l → Launched m l
      launched_as m run = elim (launch-Starts m) [
        | inl (e, fails) ↦ absurd (err≢val (sym fails ∙ run))
        | inr (l', starts, fits) ↦ subst (Launched m) (val-injective (sym starts ∙ run)) fits
      ]

  -- A server that `main` starts has the mode that was asked for and listens, a worker on its session
  -- with the cluster and the others for clients, and it has a worker manager exactly if it is the
  -- server of a cluster.
  pub main-Launched :
      (w : Web) {l : Launch}
      → main sys params w ≡ ok (val l)
      → (m : Mode) × (parse_crawler_mode w params.mode ≡ val m) × Launched m l
  main-Launched w run =
      launch-val (parse_crawler_mode w params.mode)
        (ensured _ (main sys params w) (main-launch w) run)
