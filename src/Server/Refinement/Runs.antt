-- ===== src/Server/Refinement/Runs.antt =====
-- The registry of worker.go over any sequence of rounds, with the jobs going on in between.
use ideacrawler.Prelude.{
  String, Option, none, some, List, [], ◌∷◌, Result, ◌≡◌, inl, inr, refl, sym, ap, subst, ◌∙◌,
  str_eq, str_eq_iff, if_true, if_false, Bool-cases, if◌then◌else◌,
}
use ideacrawler.Prelude.Dict.{lookup, insert, lookup-insert}
use ideacrawler.Job.{Job, Regexp}
use ideacrawler.Web.{Web}
use ideacrawler.Server.{Server, NewJobStatus, Event, Mode, new_server, registered, manage}
use ideacrawler.Server.Registry.{WellFormed}
use ideacrawler.Server.Rounds.{manage-WellFormed, crawl-WellFormed}
use ideacrawler.Server.Refinement.{
  Registry, seen, Shows, step_job, manage_registry, manage-Simulates,
}

module _ (w : Web) (compile : String → Result Regexp) where
  -- What happens to a server: a round of `jobManager`, or a job goes on, registered or not, and
  -- keeps its id.
  pub data Step : Type 0 where
    round : Event → Step
    crawl : String → (f : Job → Job) → ((j : Job) → (f j).id ≡ j.id) → Step

  store_step : String → (Job → Job) → Option Job → Server → Server
  store_step k f none s = s
  store_step k f (some j) s = record s { store = insert k (f j) s.store }

  -- The server after the steps, and the answers of the rounds.
  unfoldable pub run : List Step → Server → Server × List (Option NewJobStatus)
  unfolding store_step
  run [] s = (s, [])
  run (round event ∷ steps) s =
      let (s', r) = manage w compile event s in let (s'', rs) = run steps s' in (s'', r ∷ rs)
  run (crawl k f same ∷ steps) s = run steps (store_step k f (lookup k s.store) s)

  unfoldable pub replay : List Step → Registry → Registry × List (Option NewJobStatus)
  replay [] f = (f, [])
  replay (round event ∷ steps) f =
      let (f', r) = manage_registry w compile event f in
      let (f'', rs) = replay steps f' in (f'', r ∷ rs)
  replay (crawl k g same ∷ steps) f =
      replay steps (λ i. if str_eq k i then step_job g (f i) else f i)

  abbrev step_registry : String → (Job → Job) → Registry → Registry
  step_registry k g f i = if str_eq k i then step_job g (f i) else f i

  seen-none : (r : Option (Unit {0})) → seen r none ≡ none
  seen-none none = refl
  seen-none (some x) = refl

  seen_step :
      (g : Job → Job) (r : Option (Unit {0})) (j : Job)
      → seen r (some (g j)) ≡ step_job g (seen r (some j))
  seen_step g none j = refl
  seen_step g (some x) j = refl

  module _ (k : String) (g : Job → Job) (s : Server) (f : Registry) (shows : Shows s f) where
    store_step-Shows :
        (o : Option Job) → lookup k s.store ≡ o → Shows (store_step k g o s) (step_registry k g f)
    unfolding store_step
    store_step-Shows none missing i = elim (Bool-cases (str_eq k i)) [
      | inr other ↦ shows i ∙ sym (if_false (str_eq k i) (step_job g (f i)) (f i) other)
      | inl same ↦
          let here = subst (λ l. lookup l s.store ≡ none) ((str_eq_iff k i).0 same) missing in
          let gone = ap (seen (registered s i)) here ∙ seen-none (registered s i) in
          gone
          ∙ ap (step_job g) (sym gone ∙ shows i)
          ∙ sym (if_true (str_eq k i) (step_job g (f i)) (f i) same)
    ]
    store_step-Shows (some j) stored i = elim (Bool-cases (str_eq k i)) [
      | inr other ↦
          ap (seen (registered s i))
            (lookup-insert k i (g j) s.store ∙ if_false (str_eq k i) (some (g j)) _ other)
          ∙ shows i
          ∙ sym (if_false (str_eq k i) (step_job g (f i)) (f i) other)
      | inl same ↦
          let here = subst (λ l. lookup l s.store ≡ some j) ((str_eq_iff k i).0 same) stored in
          ap (seen (registered s i))
            (lookup-insert k i (g j) s.store ∙ if_true (str_eq k i) (some (g j)) _ same)
          ∙ seen_step g (registered s i) j
          ∙ ap (step_job g) (sym (ap (seen (registered s i)) here) ∙ shows i)
          ∙ sym (if_true (str_eq k i) (step_job g (f i)) (f i) same)
    ]

  store_step-WellFormed :
      (k : String) (g : Job → Job) (s : Server) (o : Option Job)
      → ((j : Job) → (g j).id ≡ j.id)
      → WellFormed s
      → lookup k s.store ≡ o
      → WellFormed (store_step k g o s)
  unfolding store_step
  store_step-WellFormed k g s none same wf stored = wf
  store_step-WellFormed k g s (some j) same wf stored =
      crawl-WellFormed w compile s k j (g j) stored (same j) wf

  run-replay :
      (steps : List Step) (s : Server) (f : Registry)
      → WellFormed s
      → Shows s f
      → Shows (run steps s).0 (replay steps f).0 × ((run steps s).1 ≡ (replay steps f).1)
  unfolding run replay
  run-replay [] s f wf shows = (shows, refl)
  run-replay (round event ∷ steps) s f wf shows =
      let (shows', same) = manage-Simulates w compile event s f wf shows in
      let (ends, rest) = run-replay steps _ _ (manage-WellFormed w compile event s wf) shows' in
      (
        ends,
        ap (λ rs. (manage w compile event s).1 ∷ rs) rest
            ∙ ap (λ r. r ∷ (replay steps (manage_registry w compile event f).0).1) same,
      )
  run-replay (crawl k g same ∷ steps) s f wf shows =
      run-replay steps _ _ (store_step-WellFormed k g s (lookup k s.store) same wf refl)
        (store_step-Shows k g s f shows (lookup k s.store) refl)

  -- From `newServer` on, whatever the rounds of `jobManager` and the jobs do, the answers of the
  -- rounds and what there is to see of the server are those of a function from ids to jobs: a valid
  -- new job is entered at its id, a lookup finds what is there, and every round but a lookup that
  -- finds nothing drops the jobs that are done.
  pub run-new_server_refines :
      (steps : List Step) (id : String) (mode : Mode)
      → Shows (run steps (new_server id mode)).0 (replay steps (λ k. none)).0
        × ((run steps (new_server id mode)).1 ≡ (replay steps (λ k. none)).1)
  unfolding lookup
  run-new_server_refines steps id mode =
      run-replay steps (new_server id mode) (λ k. none) (λ k reg. cc) (λ k. refl)
