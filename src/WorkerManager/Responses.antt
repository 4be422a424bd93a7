-- ===== src/WorkerManager/Responses.antt =====
-- `respHandler` of workermanager.go, and the calls of `Do` that wait for it.
--
-- A call of `Do` makes a channel without a buffer, registers it under its fresh id and takes one
-- page from it. A channel goes by a name of its own, and a send on it ends only while its call still
-- waits.
use ideacrawler.Prelude.{
  String, Bool, false, [], ◌∷◌, ◌++◌, List, Option, none, some, Outcome, ok, blocks, ◌>>=◌, ◌≡◌,
  refl, All, All-append, str_eq, str_eq_iff, if◌then◌else◌, >>=-eq-ok, ok-injective, subst, ensured,
  ensures, Ensures, Ensures-if, Ensures-ok, Bool-cases, inl, inr, sym, ◌∙◌, if_true, if_false,
}
use mathlib.Core.List.{Memᴰ}
use ideacrawler.Prelude.Dict.{Dict, lookup, insert, lookup-insert, marked, mark}
use ideacrawler.Proto.{PageHtml}

-- `waiting_list` has the channels of the registered ids. `pending` are the channels of the calls that
-- wait, and `answers` what has been sent, by its channel and in order.
pub record Responses : Type 0 where
  pub waiting_list : Dict String
  pub pending : Dict Bool
  pub answers : List (String × PageHtml)

abbrev pub no_responses : Responses
no_responses = record { waiting_list = []; pending = []; answers = [] }

-- The case `newWait := <-wm.waitRegnChan`: an id and the channel of its call.
unfoldable pub register : String → String → Responses → Responses
register id chan s = record s {
  waiting_list = insert id chan s.waiting_list;
  pending = mark chan s.pending;
}

abbrev give : String → PageHtml → Responses → Responses
give chan resp s = record s {
  pending = insert chan false s.pending;
  answers = s.answers ++ (chan, resp) ∷ [];
}

-- `respChan <- resp`. The channel of an id that is not registered is nil.
unfoldable pub send_response : Option String → PageHtml → Responses → Outcome Responses
send_response none resp s = blocks
send_response (some chan) resp s = if marked chan s.pending then ok (give chan resp s) else blocks

-- The case `resp := <-wm.pageChan`.
unfoldable pub handle_response : Option PageHtml → Responses → Outcome Responses
handle_response none s = ok s
handle_response (some resp) s =
    if str_eq resp.meta_str ""
    then ok s
    else send_response (lookup resp.meta_str s.waiting_list) resp s

pub data Event : Type 0 where
  wait : String → String → Event
  response : Option PageHtml → Event

abbrev pub handle : Event → Responses → Outcome Responses
handle (wait id chan) s = ok (register id chan s)
handle (response resp) s = handle_response resp s

-- The loop of `respHandler` over what its select takes.
unfoldable pub resp_handler : List Event → Responses → Outcome Responses
resp_handler [] s = ok s
resp_handler (e ∷ es) s = handle e s >>= resp_handler es

some_injective : {a b : String} → some a ≡ some b → a ≡ b
some_injective h = cc

module _ (all : List Event) where
  -- An answer is a page with an id under which its channel was registered.
  abbrev pub Own : String × PageHtml → Type 0
  Own (chan, resp) = Memᴰ (wait resp.meta_str chan) all

  -- What is in the waiting list was registered, and so was what the answers went to.
  record Held (s : Responses) : Type 0 where
    pub listed : (id chan : String) → lookup id s.waiting_list ≡ some chan → Memᴰ (wait id chan) all
    pub own : All Own s.answers

  register-Held :
      (id chan : String) (s : Responses)
      → Memᴰ (wait id chan) all
      → Held s
      → Held (register id chan s)
  unfolding register
  register-Held id chan s from h = record { listed = listed; own = h.own }
    where
      listed :
          (k c : String) → lookup k (insert id chan s.waiting_list) ≡ some c → Memᴰ (wait k c) all
      listed k c found = elim (Bool-cases (str_eq id k)) [
        | inl same ↦
            subst (λ x. Memᴰ (wait x c) all) ((str_eq_iff id k).0 same)
              (subst (λ x. Memᴰ (wait id x) all)
                (some_injective (
                  sym (if_true (str_eq id k) (some chan) (lookup k s.waiting_list) same)
                  ∙ sym (lookup-insert id k chan s.waiting_list)
                  ∙ found))
                from)
        | inr other ↦ h.listed k c (
            sym (if_false (str_eq id k) (some chan) (lookup k s.waiting_list) other)
            ∙ sym (lookup-insert id k chan s.waiting_list)
            ∙ found)
      ]

  send_response-Held :
      (o : Option String) (resp : PageHtml) (s : Responses)
      → lookup resp.meta_str s.waiting_list ≡ o
      → Held s
      → Ensures Held (send_response o resp s)
  unfolding send_response
  send_response-Held none resp s missing h = ensures Held blocks (λ a e. cc)
  send_response-Held (some chan) resp s found h =
      Ensures-if Held (marked chan s.pending) _ _
        (λ _. Ensures-ok Held (give chan resp s) (record {
          listed = h.listed;
          own =
              All-append Own s.answers ((chan, resp) ∷ []) h.own
                (h.listed resp.meta_str chan found, tt);
        }))
        (λ _. ensures Held blocks (λ a e. cc))

  handle-Held : (e : Event) (s : Responses) → Memᴰ e all → Held s → Ensures Held (handle e s)
  unfolding handle_response
  handle-Held (wait id chan) s from h =
      Ensures-ok Held (register id chan s) (register-Held id chan s from h)
  handle-Held (response none) s from h = Ensures-ok Held s h
  handle-Held (response (some resp)) s from h =
      Ensures-if Held (str_eq resp.meta_str "") _ _ (λ _. Ensures-ok Held s h)
        (λ _. send_response-Held (lookup resp.meta_str s.waiting_list) resp s refl h)

  resp_handler-Held :
      (es : List Event) (s s' : Responses)
      → ((e : Event) → Memᴰ e es → Memᴰ e all)
      → Held s
      → resp_handler es s ≡ ok s'
      → Held s'
  unfolding resp_handler
  resp_handler-Held [] s s' from h run = subst Held (ok-injective run) h
  resp_handler-Held (e ∷ es) s s' from h run =
      let (s1, e1, rest) = >>=-eq-ok _ _ run in
      resp_handler-Held es s1 s' (λ x m. from x (Memᴰ.tail m))
        (ensured Held (handle e s) (handle-Held e s (from e (Memᴰ.head refl)) h) e1) rest

-- Whatever the order of registrations and pages, a page goes only to a channel that was registered
-- under the id that the page has.
pub resp_handler-Own :
    (es : List Event) (s' : Responses)
    → resp_handler es no_responses ≡ ok s'
    → All (Own es) s'.answers
unfolding lookup
resp_handler-Own es s' run =
    let h =
      resp_handler-Held es es no_responses s' (λ e m. m)
        (record { listed = λ id chan found. cc; own = tt }) run in
    h.own
