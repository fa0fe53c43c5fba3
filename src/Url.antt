-- ===== src/Url.antt =====
-- What `urllib.parse.urlparse` answers, as far as the program reads it. The parser itself is a
-- parameter of the definitions that use it.
use readprism.Prelude.{ℕ, Option}
use readprism.Prelude.Text.{Text}

pub record UrlParts : Type 0 where
  pub scheme : Text
  pub username : Option Text
  pub password : Option Text
  pub hostname : Option Text
  pub port : Option ℕ
  pub netloc : Text
  pub path : Text
