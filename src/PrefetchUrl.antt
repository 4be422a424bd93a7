-- ===== src/PrefetchUrl.antt =====
-- prefetchurl/prefetchurl.go: the scripts, styles and images of a page or style sheet that are
-- fetched along with it.
--
-- goquery's view of a document is a record; `parse` makes it. The URL of the page is parsed and
-- resolved against by `Web`. The regexp that finds `url(...)` in a style sheet is a parameter.
pub mod Links
mod Tests
use ideacrawler.Prelude.{
  ℕ, String, Bool, false, not, ◌&&◌, ◌||◌, ◌==◌, leb, List, [], ◌∷◌, ◌++◌, Result, val, err, codes,
  has_prefix, has_suffix, str_eq, if◌then◌else◌,
}
use ideacrawler.Job.{Url}
use ideacrawler.Web.{Web}

-- The attributes that the program reads; a missing one is the empty text.
pub record Script : Type 0 where
  pub src : String
  -- The `href` of its first `link` element.
  pub link_href : String

pub record LinkElement : Type 0 where
  pub rel : String
  pub href : String

pub record Img : Type 0 where
  pub data_img_src : String
  pub src : String

pub record Document : Type 0 where
  pub scripts : List Script
  pub links : List LinkElement
  pub imgs : List Img
  pub text : String

-- The code points after the last slash: `linkSplit[len(linkSplit)-1]`.
abbrev last_part : List ℕ → List ℕ → List ℕ
last_part part [] = part
last_part part (c ∷ s) = if c == 47 then last_part [] s else last_part (part ++ c ∷ []) s

-- `\w` of RE2: ASCII letters, digits and the underscore.
abbrev is_word : ℕ → Bool
is_word c =
    (leb 48 c && leb c 57) || ((leb 65 c && leb c 90) || ((leb 97 c && leb c 122) || c == 95))

abbrev starts_word : List ℕ → Bool
starts_word [] = false
starts_word (c ∷ s) = is_word c

-- A match of `^*\.\w`: a dot before a word character, anywhere.
abbrev has_extension : List ℕ → Bool
has_extension [] = false
has_extension (c ∷ s) = (c == 46 && starts_word s) || has_extension s

unfoldable pub is_valid_link : String → Bool
is_valid_link link = has_extension (last_part [] (codes link))

module _ (w : Web) where
  resolved : Result Url → Result String
  resolved (err e) = err e
  resolved (val u) = val (w.url_string u)

  -- The absolute link, or the empty text for one that is not prefetched.
  unfoldable pub validate_link : Url → String → Result String
  unfolding resolved
  validate_link page_url link =
      if is_valid_link link
      then (if not (has_suffix link ".xml")
          then (if has_prefix link "http" then val link else resolved (w.resolve page_url link))
          else val "")
      else val ""

  -- `if s != "" { findLinks = append(findLinks, s) }`, on the trimmed text.
  abbrev unless_empty : String → List String
  unless_empty s = if str_eq (w.trim_space s) "" then [] else w.trim_space s ∷ []

  abbrev script_links : List Script → List String
  script_links [] = []
  script_links (s ∷ ss) = unless_empty s.src ++ unless_empty s.link_href ++ script_links ss

  abbrev element_links : List LinkElement → List String
  element_links [] = []
  element_links (l ∷ ls) =
      (if not (str_eq (w.trim_space l.rel) "prefetch") then unless_empty l.href else [])
      ++ element_links ls

  abbrev img_links : List Img → List String
  img_links [] = []
  img_links (i ∷ is) = unless_empty i.data_img_src ++ unless_empty i.src ++ img_links is

  unfoldable pub find_links : Document → List String
  find_links doc = script_links doc.scripts ++ element_links doc.links ++ img_links doc.imgs

  abbrev pub add_link : String → Result (List String) → Result (List String)
  add_link link (err e) = err e
  add_link link (val links) = val (if str_eq link "" then links else link ∷ links)

  -- The loop over the links: the first that fails makes the whole fail.
  unfoldable pub absolute_links : Url → List String → Result (List String)
  absolute_links page_url [] = val []
  absolute_links page_url (l ∷ ls) =
      let rest = absolute_links page_url ls in
      elim (validate_link page_url l) [ err e ↦ err e | val link ↦ add_link link rest ]

  unfoldable pub url_from_html : Url → Document → Result (List String)
  url_from_html page_url doc = absolute_links page_url (find_links doc)

  -- `css_urls` gives the first group of each match of the regexp.
  abbrev filled : List String → List String
  filled [] = []
  filled (s ∷ ss) = if str_eq s "" then filled ss else s ∷ filled ss

  unfoldable pub url_from_css : (String → List String) → Url → Document → Result (List String)
  url_from_css css_urls page_url doc =
      if str_eq doc.text "" then val [] else absolute_links page_url (filled (css_urls doc.text))

  links_of : (String → List String) → String → Document → Result Url → Result (List String)
  links_of css_urls page_url_str doc (err e) = err e
  links_of css_urls page_url_str doc (val u) =
      if has_suffix page_url_str ".css" then url_from_css css_urls u doc else url_from_html u doc

  parsed_links : (String → List String) → String → Result Document → Result (List String)
  parsed_links css_urls page_url_str (err e) = err e
  parsed_links css_urls page_url_str (val doc) =
      links_of css_urls page_url_str doc (w.parse_url page_url_str)

  unfoldable pub get_prefetch_urls :
      (String → Result Document) → (String → List String) → String → String → Result (List String)
  unfolding links_of parsed_links
  get_prefetch_urls parse css_urls content page_url_str =
      parsed_links css_urls page_url_str (parse content)
