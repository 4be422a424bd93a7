-- ===== src/Login/Parsing.antt =====
-- The fields that the direct login of job.go posts: those of the login page and the payload.
use ideacrawler.Prelude.{
  String, List, [], ◌∷◌, Option, none, some, ok, ◌>>=◌, Result, val, err, ◌≡◌, ◌⊎◌, inl, inr, refl,
  sym, ap, ◌∙◌, str_eq, Bool-cases, Option-cases, if◌then◌else◌, true, false, ok-injective,
  val-injective, if_true, if_false,
}
use ideacrawler.Prelude.Dict.{insert, lookup, lookup-insert}
use ideacrawler.Proto.{Kvp}
use ideacrawler.Job.{Job}
use ideacrawler.Web.{Web}
use ideacrawler.Login.{Site, Fields, set_all, set_value, parse_fields, page_fields, login_fields}

-- The value of a key after those of a list were set, the last one of the key counting.
abbrev pub overwritten : String → List Kvp → Option String → Option String
overwritten key [] o = o
overwritten key (kvp ∷ kvps) o =
    overwritten key kvps (if str_eq kvp.key key then some kvp.value else o)

pub set_all-overwritten :
    (key : String) (kvps : List Kvp) (fields : Fields)
    → lookup key (set_all kvps fields) ≡ overwritten key kvps (lookup key fields)
unfolding set_all
set_all-overwritten key [] fields = refl
set_all-overwritten key (kvp ∷ kvps) fields =
    set_all-overwritten key kvps (insert kvp.key kvp.value fields)
    ∙ ap (overwritten key kvps) (lookup-insert kvp.key key kvp.value fields)

-- The value of a field that is read off a page by its xpath, the last one of the key counting.
abbrev pub read_off : (String → Option String) → String → List Kvp → Option String → Option String
read_off value key [] o = o
read_off value key (kvp ∷ kvps) o =
    read_off value key kvps (if str_eq kvp.key key then value kvp.value else o)

module _ (w : Web) (site : Site) (j : Job) where
  -- The fields before the payload: none, or those that the xpaths give on the login page.
  abbrev pub Parsed : Fields → Type 0
  Parsed fields =
      ((j.opts.login_parse_fields ≡ false) × (fields ≡ []))
      ⊎ ((j.opts.login_parse_fields ≡ true)
          × ((body : String) × (site.login_page ≡ val body)
              × ((key : String)
                  → lookup key fields
                    ≡ read_off (w.xpath_value body) key j.opts.login_parse_xpath none)))

  abbrev pub Overwrites : Fields → Fields → Type 0
  Overwrites fields form =
      (key : String) → lookup key form ≡ overwritten key j.opts.login_payload (lookup key fields)

  parse_fields-read :
      (body key : String) (kvps : List Kvp) (fields : Fields) {out : Fields}
      → parse_fields w site body kvps fields ≡ ok (val out)
      → lookup key out ≡ read_off (w.xpath_value body) key kvps (lookup key fields)
  unfolding parse_fields
  parse_fields-read body key [] fields run =
      ap (lookup key) (sym (val-injective (ok-injective run)))
  parse_fields-read body key (kvp ∷ kvps) fields {out = out} run =
      elim (Option-cases (site.compile_error kvp.value)) [
        | inr (e, bad) ↦ cc
        | inl compiles ↦
            set (w.xpath_value body kvp.value) refl (rw (parse_fields, compiles) at run)
              (λ v. parse_fields-read body key kvps (insert kvp.key v fields))
      ]
    where
      set :
          (o : Option String)
          → w.xpath_value body kvp.value ≡ o
          → (set_value w site kvp o fields >>= parse_fields w site body kvps) ≡ ok (val out)
          → ((v : String)
              → parse_fields w site body kvps (insert kvp.key v fields) ≡ ok (val out)
              → lookup key out
                ≡ read_off (w.xpath_value body) key kvps (lookup key (insert kvp.key v fields)))
          → lookup key out ≡ read_off (w.xpath_value body) key (kvp ∷ kvps) (lookup key fields)
      set none found run rest = cc
      set (some v) found run rest =
          rest v run
          ∙ ap (read_off (w.xpath_value body) key kvps) (
              lookup-insert kvp.key key v fields
              ∙ ap (λ o. if str_eq kvp.key key then o else lookup key fields) (sym found))

  page_fields-Parsed :
      (r : Result String) (fields : Fields)
      → j.opts.login_parse_fields ≡ true
      → site.login_page ≡ r
      → page_fields w site j.opts.login_parse_xpath r ≡ ok (val fields)
      → Parsed fields
  unfolding page_fields lookup
  page_fields-Parsed (err e) fields asked page run = cc
  page_fields-Parsed (val body) fields asked page run =
      inr (asked, (body, page, λ key. parse_fields-read body key j.opts.login_parse_xpath [] run))

  pub login_fields-Parsed :
      (fields : Fields) → login_fields w site j.opts ≡ ok (val fields) → Parsed fields
  unfolding login_fields
  login_fields-Parsed fields run = elim (Bool-cases j.opts.login_parse_fields) [
    | inl asked ↦
        page_fields-Parsed site.login_page fields asked refl
          (sym (if_true j.opts.login_parse_fields _ _ asked) ∙ run)
    | inr plain ↦ inl (
      plain,
      sym (val-injective (ok-injective (sym (if_false j.opts.login_parse_fields _ _ plain) ∙ run))),
    )
  ]
