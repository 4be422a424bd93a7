-- ===== src/Server/Refinement.antt =====
-- The job registry of worker.go as its users see it: a function from ids to the jobs that are
-- registered. `jobs` and the jobs behind its pointers implement it.
pub mod Runs
use ideacrawler.Prelude.{
  String, Bool, true, false, Option, none, some, ◌∷◌, ◌<>◌, Result, val, err, ◌≡◌, ◌≢◌, ◌⊎◌, inl,
  inr, refl, sym, ap, subst, ◌∙◌, str_eq, if_elim, if_true, if_false, Bool-cases, if◌then◌else◌,
}
use ideacrawler.Prelude.Dict.{lookup, insert, lookup-insert}
use ideacrawler.Proto.{JobId}
use ideacrawler.Job.{Job, Regexp, done}
use ideacrawler.Web.{Web}
use ideacrawler.Server.{
  Server, NewJob, NewJobStatus, Event, new_job_event, new_sub_event, default, register, validate,
  add_new_job, registered, find_job, job_done, sweep, answer, after_answer, manage, add_validated,
  is_done,
}
use ideacrawler.Server.Registry.{WellFormed, registered-sweep}

abbrev pub Registry : Type 0
Registry = String → Option Job

abbrev seen : Option (Unit {0}) → Option Job → Option Job
seen none j = none
seen (some _) j = j

-- What there is to see of a server.
abbrev pub view : Server → Registry
view s k = seen (registered s k) (lookup k s.store)

abbrev unless_done : Option Job → Option Job
unless_done none = none
unless_done (some j) = if done j then none else some j

abbrev sweep_registry : Registry → Registry
sweep_registry f k = unless_done (f k)

abbrev update : String → Job → Registry → Registry
update id j f k = if str_eq id k then some j else f k

abbrev add_to : String → Result Job → Registry → Registry × NewJobStatus
add_to id (err e) f = (f, err e)
add_to id (val j) f = (update id j f, val (j.id))

abbrev find_in : String → Option Job → Registry → Registry × Option NewJobStatus
find_in id none f = (f, some (err ("Unable to find subcode - " <> id)))
find_in id (some j) f = (sweep_registry f, some (val (j.id)))

-- A step of a job that goes on, in place.
abbrev step_job : (Job → Job) → Option Job → Option Job
step_job f none = none
step_job f (some j) = some (f j)

module _ (w : Web) (compile : String → Result Regexp) where
  -- A round of `jobManager` on the function.
  abbrev pub manage_registry : Event → Registry → Registry × Option NewJobStatus
  manage_registry (new_job_event id nj) f =
      let (f', r) = add_to id (validate w compile id nj) f in (sweep_registry f', some r)
  manage_registry (new_sub_event sub) f = find_in sub.id (f sub.id) f
  manage_registry default f = (sweep_registry f, none)

abbrev pub Shows : Server → Registry → Type 0
Shows s f = (k : String) → view s k ≡ f k

seen_if :
    (r : Option (Unit {0})) (o : Option Job)
    → seen (if is_done o then none else r) o ≡ unless_done (seen r o)
seen_if none none = refl
seen_if none (some j) = if_elim (λ r. seen r (some j) ≡ none) (done j) none none refl refl
seen_if (some x) none = refl
seen_if (some x) (some j) = elim (Bool-cases (done j)) [
  | inl over ↦
      ap (λ r. seen r (some j)) (if_true (done j) none (some x) over)
      ∙ sym (if_true (done j) none (some j) over)
  | inr live ↦
      ap (λ r. seen r (some j)) (if_false (done j) none (some x) live)
      ∙ sym (if_false (done j) none (some j) live)
]

sweep-Shows : (s : Server) (f : Registry) → Shows s f → Shows (sweep s) (sweep_registry f)
unfolding sweep job_done
sweep-Shows s f shows k =
    ap (λ r. seen r (lookup k s.store)) (registered-sweep s k)
    ∙ seen_if (registered s k) (lookup k s.store)
    ∙ ap unless_done (shows k)

module _ (w : Web) (compile : String → Result Regexp) where
  register-Shows :
      (id : String) (j : Job) (s : Server) (f : Registry)
      → Shows s f
      → Shows (register w compile id j s) (update id j f)
  register-Shows id j s f shows k =
      rw (lookup-insert id k tt s.jobs, lookup-insert id k j s.store)
        (elim (Bool-cases (str_eq id k)) [
          | inl same ↦ rw same refl
          | inr other ↦ rw other (shows k)
        ])

  abbrev Simulates : Server × Option NewJobStatus → Registry × Option NewJobStatus → Type 0
  Simulates (s, r) (f, r') = Shows s f × (r ≡ r')

  add_validated-Shows :
      (id : String) (r : Result Job) (s : Server) (f : Registry)
      → Shows s f
      → Shows (add_validated w compile id r s).0 (add_to id r f).0
        × ((add_validated w compile id r s).1 ≡ (add_to id r f).1)
  unfolding add_validated
  add_validated-Shows id (err e) s f shows = (shows, refl)
  add_validated-Shows id (val j) s f shows = (register-Shows id j s f shows, refl)

  module _ (sub : JobId) (s : Server) where
    manage_missing :
        registered s sub.id ≡ none
        → ◌≡◌ {A = Server × Option NewJobStatus}
            (manage w compile (new_sub_event sub) s)
            (s, some (err ("Unable to find subcode - " <> sub.id)))
    unfolding manage answer after_answer find_job
    manage_missing missing = rw (missing, find_job) refl

    manage_found :
        registered s sub.id ≡ some tt
        → ◌≡◌ {A = Server × Option NewJobStatus}
            (manage w compile (new_sub_event sub) s)
            (sweep s, some (val (record { id = sub.id })))
    unfolding manage answer after_answer find_job
    manage_found there = rw (there, find_job) refl

    module _ (f : Registry) (shows : Shows s f) where
      found-Simulates :
          (j : Job)
          → j.id.id ≡ sub.id
          → Simulates (sweep s, some (val (record { id = sub.id }))) (find_in sub.id (some j) f)
      found-Simulates j named =
          (sweep-Shows s f shows, ap (λ id. some (val (record { id = id }))) (sym named))

      find_job-Simulates :
          (r : Option (Unit {0}))
          → WellFormed s
          → registered s sub.id ≡ r
          → Simulates (manage w compile (new_sub_event sub) s) (find_in sub.id (f sub.id) f)
      find_job-Simulates none wf reg =
          let nothing = sym (shows sub.id) ∙ ap (λ r. seen r (lookup sub.id s.store)) reg in
          subst (λ p. Simulates p (find_in sub.id (f sub.id) f)) (sym (manage_missing reg))
            (subst
              (λ o.
                Simulates (s, some (err ("Unable to find subcode - " <> sub.id)))
                  (find_in sub.id o f))
              (sym nothing) (shows, refl))
      find_job-Simulates (some tt) wf reg =
          let (j, stored, named) = wf sub.id reg in
          let there = sym (shows sub.id) ∙ ap (λ r. seen r (lookup sub.id s.store)) reg ∙ stored in
          subst (λ p. Simulates p (find_in sub.id (f sub.id) f)) (sym (manage_found reg))
            (subst
              (λ o. Simulates (sweep s, some (val (record { id = sub.id }))) (find_in sub.id o f))
              (sym there) (found-Simulates j named))

  manage-Simulates :
      (event : Event) (s : Server) (f : Registry)
      → WellFormed s
      → Shows s f
      → Simulates (manage w compile event s) (manage_registry w compile event f)
  unfolding manage answer after_answer add_new_job
  manage-Simulates (new_job_event id nj) s f wf shows =
      let (shows', same) = add_validated-Shows id (validate w compile id nj) s f shows in
      (sweep-Shows _ _ shows', ap some same)
  manage-Simulates (new_sub_event sub) s f wf shows =
      find_job-Simulates sub s f shows (registered s sub.id) wf refl
  manage-Simulates default s f wf shows = (sweep-Shows s f shows, refl)
