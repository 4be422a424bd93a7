-- ===== src/StatusCodes.antt =====
-- statuscodes/statuscodes.go: the codes that the crawler itself puts into a page's status field.
mod Tests
use ideacrawler.Prelude.{String, ◌≡◌, refl, ◌≢◌, ◌<◌, ◌∷◌, Bool, arith}
use ideacrawler.Prelude.{
  Option, some, none, ◌∙◌, sym, ap, Bool-cases, inl, inr, if◌then◌else◌, str_eq,
}
use ideacrawler.Prelude.Int.{ℤ, pos, eqb_ℤ}

abbrev pub login_success : ℤ
login_success = pos 1500

abbrev pub login_failed : ℤ
login_failed = pos 1501

abbrev pub nolonger_logged_in : ℤ
nolonger_logged_in = pos 1502

abbrev pub fetchbot_error : ℤ
fetchbot_error = pos 1520

abbrev pub response_error : ℤ
response_error = pos 1530

abbrev pub subscription : ℤ
subscription = pos 1540

abbrev pub follow_parse_error : ℤ
follow_parse_error = pos 1550

pub to_string : ℤ → String
to_string sc =
    if eqb_ℤ sc login_success
    then "LoginSuccess"
    else if eqb_ℤ sc login_failed
    then "LoginFailed"
    else if eqb_ℤ sc nolonger_logged_in
    then "NolongerLoggedIn"
    else if eqb_ℤ sc fetchbot_error
    then "FetchbotError"
    else if eqb_ℤ sc response_error
    then "ResponseError"
    else if eqb_ℤ sc subscription
    then "Subscription"
    else if eqb_ℤ sc follow_parse_error
    then "FollowParseError"
    else "Unknown"

-- The code with a given name.
of_string : String → Option ℤ
of_string s =
    if str_eq s "LoginSuccess"
    then some login_success
    else if str_eq s "LoginFailed"
    then some login_failed
    else if str_eq s "NolongerLoggedIn"
    then some nolonger_logged_in
    else if str_eq s "FetchbotError"
    then some fetchbot_error
    else if str_eq s "ResponseError"
    then some response_error
    else if str_eq s "Subscription"
    then some subscription
    else if str_eq s "FollowParseError"
    then some follow_parse_error
    else none

of_string_step :
    (a c : ℤ) (n rest : String)
    → of_string n ≡ some c
    → (rest ≢ "Unknown" → of_string rest ≡ some a)
    → (if eqb_ℤ a c then n else rest) ≢ "Unknown"
    → of_string (if eqb_ℤ a c then n else rest) ≡ some a
of_string_step a c n rest e k h = elim (Bool-cases (eqb_ℤ a c)) [
  | inl same ↦ let q : a ≡ c = ground arith in rw same (e ∙ ap some (sym q))
  | inr other ↦ rw other (k (rw other at h))
]

of_string-to_string : (a : ℤ) → to_string a ≢ "Unknown" → of_string (to_string a) ≡ some a
unfolding of_string to_string
of_string-to_string a = of_string_step a login_success "LoginSuccess" _ refl (
    of_string_step a login_failed "LoginFailed" _ refl (
      of_string_step a nolonger_logged_in "NolongerLoggedIn" _ refl (
        of_string_step a fetchbot_error "FetchbotError" _ refl (
          of_string_step a response_error "ResponseError" _ refl (
            of_string_step a subscription "Subscription" _ refl (
              of_string_step a follow_parse_error "FollowParseError" "Unknown" refl
                (λ k. absurd (k refl))))))))

-- A code is known by its name: two codes with the same name are equal, unless it is "Unknown".
pub to_string-injective : (a b : ℤ) → to_string a ≡ to_string b → to_string a ≢ "Unknown" → a ≡ b
to_string-injective a b h k =
    let ea = of_string-to_string a k in let eb = of_string-to_string b (λ e. k (h ∙ e)) in cc
