-- ===== src/WorkerManager/Listener.antt =====
-- `startClusterListener` of workermanager.go. The connections are taken up by goroutines of their own,
-- which are run here in the order in which they come.
use ideacrawler.Prelude.{
  String, List, [], ◌∷◌, ◌++◌, Option, none, some, Result, val, err, ◌≡◌, ◌∙◌, ap, refl, on_error,
}
use ideacrawler.Prelude.Chan.{Chan}
use ideacrawler.Proto.{PageHtml}
use ideacrawler.WorkerManager.{Worker, Dial, create_new_client}

abbrev added : Option Worker → List Worker → List Worker
added none ws = ws
added (some worker) ws = worker ∷ ws

module _ (pages : Option (Chan PageHtml)) where
  -- The loop, over what `Accept` gives in turn: an error is passed over.
  unfoldable pub accept_loop : List (Result Dial) → List Worker
  accept_loop [] = []
  accept_loop (err e ∷ accepted) = accept_loop accepted
  accept_loop (val conn ∷ accepted) = added (create_new_client pages conn) (accept_loop accepted)

  -- The workers that are added while it listens; if it cannot, the process ends.
  unfoldable pub start_cluster_listener : Option String → List (Result Dial) → Result (List Worker)
  start_cluster_listener listen_error accepted =
      on_error listen_error err (val (accept_loop accepted))

  accept_loop-append :
      (before after : List (Result Dial))
      → accept_loop (before ++ after) ≡ accept_loop before ++ accept_loop after
  unfolding accept_loop
  accept_loop-append [] after = refl
  accept_loop-append (err e ∷ before) after = accept_loop-append before after
  accept_loop-append (val conn ∷ before) after =
      join (create_new_client pages conn) (accept_loop before) (accept_loop after)
        (accept_loop-append before after)
    where
      join :
          (w : Option Worker) {xs : List Worker} (ys zs : List Worker)
          → xs ≡ ys ++ zs
          → added w xs ≡ added w ys ++ zs
      join none ys zs same = same
      join (some worker) ys zs same = ap (λ ws. worker ∷ ws) same

  -- A connection that works adds its worker in its turn, whatever other connections, and the errors
  -- of `Accept`, come before and after it.
  pub accept_loop-adds :
      (before after : List (Result Dial)) (conn : Dial) {worker : Worker}
      → create_new_client pages conn ≡ some worker
      → accept_loop (before ++ val conn ∷ after) ≡ accept_loop before ++ worker ∷ accept_loop after
  unfolding accept_loop
  accept_loop-adds before after conn made =
      accept_loop-append before (val conn ∷ after)
      ∙ ap (λ w. accept_loop before ++ added w (accept_loop after)) made
