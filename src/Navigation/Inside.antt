-- ===== src/Navigation/Inside.antt =====
-- What the navigation policy of engine.py lets through.
use browserbench.Prelude.{◌≡◌, true, none, some}
use browserbench.Navigation.Origin.{
  canonical_host, text_in, is_web, Parts, UrlLibrary, FixtureOrigin,
}

-- Parts of a web URL without credentials, on the origin `o`.
pub record IsOn (lib : UrlLibrary) (o : FixtureOrigin) (parts : Parts) : Type 0 where
  pub web : is_web lib parts ≡ true
  pub no_user : parts.username ≡ none
  pub no_password : parts.password ≡ none
  pub scheme : o.scheme ≡ lib.to_lower parts.scheme
  pub host : canonical_host lib (text_in parts.hostname) ≡ some (o.host, o.is_ipv6)
