-- ===== src/Login/Direct.antt =====
-- What the direct login of job.go comes to.
use ideacrawler.Prelude.{
  String, Bool, false, List, [], ◌∷◌, Option, none, some, Outcome, ok, panics, ◌>>=◌, Result, val,
  err, ◌≡◌, ◌≢◌, ◌⊎◌, inl, inr, refl, sym, ap, subst, arith, str_eq, str_eq_iff, Bool-cases,
  Option-cases, Result-cases,
}
use ideacrawler.Prelude.Dict.{insert}
use ideacrawler.Proto.{Kvp}
use ideacrawler.Job.{Job, send_page_html}
use ideacrawler.Web.{Web}
use ideacrawler.Login.Parsing.{Parsed, Overwrites, set_all-overwritten, login_fields-Parsed}
use ideacrawler.Login.{
  Site, Client, doer, nil, Fields, set_all, set_value, parse_fields, page_fields, login_fields,
  success_page, failed_page, send, compared, check_success, posted, with_fields, login_direct,
}

module _ (w : Web) (site : Site) (prefer_stop : Bool) (j : Job) where
  abbrev pub Logged : Type 0
  Logged = Outcome (Job × Result Client)

  -- The job's check of the body after the login.
  abbrev pub Checks : String → Logged → Type 0
  Checks body r =
      ((j.opts.login_success_check ≡ none) × (r ≡ ok (j, val doer)))
      ⊎ ((check : Kvp) × (j.opts.login_success_check ≡ some check)
          × (((e : String) × (site.compile_error check.key ≡ some e) × (r ≡ ok (j, err e)))
              ⊎ ((w.xpath_value body check.key ≡ none) × (r ≡ panics))
              ⊎ ((got : String) × (w.xpath_value body check.key ≡ some got)
                  × (((w.to_lower got ≡ w.to_lower check.value)
                        × (r ≡ (
                            send_page_html prefer_stop false success_page j >>= λ j'.
                            ok (j', val doer))))
                      ⊎ ((w.to_lower got ≢ w.to_lower check.value)
                          × (r ≡ (
                              send_page_html prefer_stop false (failed_page check got) j >>= λ j'.
                              ok (j', val nil))))))))

  abbrev pub Logs : Logged → Type 0
  Logs r =
      ((login_fields w site j.opts ≡ panics) × (r ≡ panics))
      ⊎ ((e : String) × (login_fields w site j.opts ≡ ok (err e)) × (r ≡ ok (j, err e)))
      ⊎ ((fields : Fields) × (login_fields w site j.opts ≡ ok (val fields))
          × Parsed w site j fields
          × ((form : Fields) × Overwrites w site j fields form
              × (((e : String) × (site.post_form form ≡ err e) × (r ≡ ok (j, err e)))
                  ⊎ ((body : String) × (site.post_form form ≡ val body) × Checks body r))))

  checked_value :
      (check : Kvp) (got : String) (body : String)
      → j.opts.login_success_check ≡ some check
      → w.xpath_value body check.key ≡ some got
      → Checks body (compared w site prefer_stop check (some got) j)
  unfolding compared send
  checked_value check got body asked found = inr (
    check,
    asked,
    inr (
        inr (
          got,
          found,
          elim (Bool-cases (str_eq (w.to_lower got) (w.to_lower check.value))) [
            | inl same ↦
                inl ((str_eq_iff (w.to_lower got) (w.to_lower check.value)).0 same, rw same refl)
            | inr differ ↦ inr (
              (λ e.
                  ground (arith, str_eq_iff (w.to_lower got) (w.to_lower check.value), differ, e)),
              rw differ refl,
            )
          ],
        )),
  )

  compiled :
      (check : Kvp) (body : String) {v : Option String}
      → site.compile_error check.key ≡ none
      → w.xpath_value body check.key ≡ v
      → check_success w site prefer_stop (some check) body j ≡ compared w site prefer_stop check v j
  unfolding check_success
  compiled check body compiles found =
      rw (check_success, compiles) (ap (λ v. compared w site prefer_stop check v j) found)

  with_check :
      (check : Kvp) (body : String)
      → j.opts.login_success_check ≡ some check
      → Checks body (check_success w site prefer_stop (some check) body j)
  unfolding check_success compared
  with_check check body asked = elim (Option-cases (site.compile_error check.key)) [
    | inr (e, bad) ↦ inr (check, asked, inl (e, bad, rw (check_success, bad) refl))
    | inl compiles ↦ elim (Option-cases (w.xpath_value body check.key)) [
      | inl missing ↦ inr (check, asked, inr (inl (missing, compiled check body compiles missing)))
      | inr (got, found) ↦
          subst (Checks body) (sym (compiled check body compiles found))
            (checked_value check got body asked found)
    ]
  ]

  checks :
      (body : String)
      → Checks body (check_success w site prefer_stop j.opts.login_success_check body j)
  unfolding check_success
  checks body = elim (Option-cases j.opts.login_success_check) [
    | inl unasked ↦ inl (unasked, ap (λ c. check_success w site prefer_stop c body j) unasked)
    | inr (check, asked) ↦
        subst (λ c. Checks body (check_success w site prefer_stop c body j)) (sym asked)
          (with_check check body asked)
  ]

  -- The fields of the login page are read, or reading them fails or panics: it never waits.
  Reads : Outcome (Result Fields) → Type 0
  Reads r =
      (r ≡ panics)
      ⊎ (((e : String) × (r ≡ ok (err e))) ⊎ ((fields : Fields) × (r ≡ ok (val fields))))

  goes_on :
      (body : String) (kvp : Kvp) (kvps : List Kvp) (fields : Fields) (o : Option String)
      → ((f : Fields) → Reads (parse_fields w site body kvps f))
      → Reads (set_value w site kvp o fields >>= parse_fields w site body kvps)
  unfolding Reads
  goes_on body kvp kvps fields none rest = inl refl
  goes_on body kvp kvps fields (some v) rest = rest (insert kvp.key v fields)

  parse_fields-Reads :
      (body : String) (kvps : List Kvp) (fields : Fields)
      → Reads (parse_fields w site body kvps fields)
  unfolding Reads parse_fields
  parse_fields-Reads body [] fields = inr (inr (fields, refl))
  parse_fields-Reads body (kvp ∷ kvps) fields = elim (Option-cases (site.compile_error kvp.value)) [
    | inr (e, bad) ↦ inr (inl (e, rw (parse_fields, bad) refl))
    | inl compiles ↦
        rw (parse_fields, compiles)
          (goes_on body kvp kvps fields (w.xpath_value body kvp.value)
            (parse_fields-Reads body kvps))
  ]

  page_fields-Reads : (kvps : List Kvp) (r : Result String) → Reads (page_fields w site kvps r)
  unfolding page_fields Reads
  page_fields-Reads kvps (err e) = inr (inl (e, refl))
  page_fields-Reads kvps (val body) = parse_fields-Reads body kvps []

  login_fields-Reads : Reads (login_fields w site j.opts)
  unfolding login_fields Reads
  login_fields-Reads = elim (Bool-cases j.opts.login_parse_fields) [
    | inr plain ↦ inr (inr ([], rw plain refl))
    | inl parsed ↦ rw parsed (page_fields-Reads j.opts.login_parse_xpath site.login_page)
  ]

  posts :
      (fields : Fields)
      → login_fields w site j.opts ≡ ok (val fields)
      → Logs (with_fields w site prefer_stop j (val fields))
  unfolding with_fields posted
  posts fields parsed = inr (
      inr (
        fields,
        parsed,
        login_fields-Parsed w site j fields parsed,
        (
          set_all j.opts.login_payload fields,
          λ key. set_all-overwritten key j.opts.login_payload fields,
          elim (Result-cases (site.post_form (set_all j.opts.login_payload fields))) [
            | inl (e, bad) ↦ inl (e, bad, ap (λ r. posted w site prefer_stop r j) bad)
            | inr (body, came) ↦ inr (
              body,
              came,
              subst (Checks body) (sym (ap (λ r. posted w site prefer_stop r j) came))
                  (checks body),
            )
          ],
        ),
      ))

  -- The direct login posts the fields that the xpaths give on the login page, if the options ask for
  -- them, with those of the payload over them, the last value of a key counting.
  -- Without a check of the result the job goes on with its client. With one, the client is told of the
  -- success if the value on the page agrees but for case; if not, it is told of the failure, and the
  -- job goes on with a nil client and no error. Any error on the way is returned and nothing is sent;
  -- a xpath that gives no value panics.
  pub login_direct-Logs : Logs (login_direct w site prefer_stop j)
  unfolding login_direct with_fields Reads
  login_direct-Logs = elim login_fields-Reads [
    | inl panic ↦ inl (panic, ap (λ r. r >>= with_fields w site prefer_stop j) panic)
    | inr (inl (e, bad)) ↦ inr (inl (e, bad, ap (λ r. r >>= with_fields w site prefer_stop j) bad))
    | inr (inr (fields, parsed)) ↦
        subst Logs (sym (ap (λ r. r >>= with_fields w site prefer_stop j) parsed))
          (posts fields parsed)
  ]
