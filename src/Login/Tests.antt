-- ===== src/Login/Tests.antt =====
-- The theorem on the direct login at a site where the login fails.
use ideacrawler.Prelude.{[], ◌∷◌, none, some, true, false, val}
use ideacrawler.Proto.{Kvp}
use ideacrawler.Job.{Job}
use ideacrawler.Samples.{site, start_job}
use ideacrawler.Login.{Site, login_direct}
use ideacrawler.Login.Direct.{Logs, login_direct-Logs}

-- Every value on a page of `Samples` is "Home".
abbrev login_site : Site
login_site = record {
  login_page = val "form";
  compile_error = λ s. none;
  post_form = λ fields. val "again";
}

abbrev user : Kvp
user = record { key = "user"; value = "me" }

abbrev login_job : Job
login_job = record start_job {
  opts = record (start_job.opts) {
    login = true;
    login_payload = user ∷ [];
    login_success_check = some (record { key = "//h1"; value = "Welcome" });
  };
}

login_direct-Logs_example :
    Logs site login_site false login_job (login_direct site login_site false login_job)
login_direct-Logs_example = login_direct-Logs site login_site false login_job
