-- ===== src/StatusCodes/Tests.antt =====
-- The names of statuscodes/statuscodes.go at two codes.
use ideacrawler.Prelude.{◌≡◌, refl}
use ideacrawler.Prelude.Int.{pos}
use ideacrawler.StatusCodes.{login_failed, to_string}

named : to_string login_failed ≡ "LoginFailed"
unfolding to_string
named = refl

unnamed : to_string (pos 200) ≡ "Unknown"
unfolding to_string
unnamed = refl
