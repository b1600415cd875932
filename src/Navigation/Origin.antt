-- ===== src/Navigation/Origin.antt =====
-- URLs and origins of engine.py. The record stands for `urllib.parse`, `ipaddress`, the codec `idna`
-- and `str.lower`; `none` is a ValueError or UnicodeError of theirs.
use browserbench.Prelude.{
  ℕ, String, Bool, true, false, not, ◌&&◌, ◌||◌, Option, none, some, List, [], ◌∷◌, str_eq, ltb,
  ◌==◌, if◌then◌else◌, length, any,
}
use Prim.Native.String.{◌++◌}
use browserbench.Json.{str, Value, scalar}
use browserbench.Claim.{codes, is_space}
use browserbench.Server.{decimal}

-- A split URL. `port` is `none` where reading it raises, and `some none` where the URL has none.
pub record Parts : Type 0 where
  pub scheme : String
  pub netloc : String
  pub path : String
  pub query : String
  pub fragment : String
  pub hostname : Option String
  pub username : Option String
  pub password : Option String
  pub port : Option (Option ℕ)

pub record UrlLibrary : Type 0 where
  pub urlsplit : String → Option Parts
  pub urlunsplit : (scheme netloc path query fragment : String) → String
  pub urljoin : (base url : String) → String
  -- the compressed address, and whether its version is 6
  pub ip_address : String → Option (String × Bool)
  pub idna : String → Option String
  pub to_lower : String → String

-- _FixtureOrigin
pub record FixtureOrigin : Type 0 where
  pub scheme : String
  pub host : String
  pub port : ℕ
  pub is_ipv6 : Bool

abbrev pub default_port : String → ℕ
default_port scheme = if str_eq scheme "http" then 80 else 443

unfoldable pub authority : FixtureOrigin → String
authority o =
    let host = if o.is_ipv6 then "[" ++ o.host ++ "]" else o.host in
    if o.port == default_port o.scheme then host else host ++ ":" ++ decimal o.port

-- A character that `_strict_urlsplit` refuses.
unfoldable pub is_unsafe : ℕ → Bool
unfolding is_space
is_unsafe c = c == b'\\' || is_space c || ltb c 0x20 || c == 0x7f

unfoldable pub strict_urlsplit : UrlLibrary → Value → Option Parts
unfolding is_unsafe
strict_urlsplit lib (scalar (str s)) =
    if str_eq s "" || any is_unsafe (codes s) then none else lib.urlsplit s
strict_urlsplit lib _ = none

-- any(not part for part in text.split("."))
unfoldable pub has_empty_part : (at_start : Bool) → List ℕ → Bool
has_empty_part at_start [] = at_start
has_empty_part at_start (c ∷ cs) =
    let after_dot = has_empty_part true cs in
    let inside = has_empty_part false cs in if c == b'.' then at_start || after_dot else inside

unfoldable pub checked_host : String → Option (String × Bool)
unfolding has_empty_part
checked_host canonical =
    if str_eq canonical ""
      || ltb 253 (length (codes canonical))
      || has_empty_part true (codes canonical)
    then none
    else some (canonical, false)

unfoldable pub named_host : UrlLibrary → Option String → Option (String × Bool)
unfolding checked_host
named_host lib none = none
named_host lib (some ascii) = checked_host (lib.to_lower ascii)

unfoldable pub host_of : UrlLibrary → String → Option (String × Bool) → Option (String × Bool)
unfolding named_host
host_of lib host none = named_host lib (lib.idna host)
host_of lib host (some (compressed, v6)) = some (lib.to_lower compressed, v6)

unfoldable pub canonical_host : UrlLibrary → String → Option (String × Bool)
unfolding host_of
canonical_host lib host =
    if str_eq host "" || any (λ c. c == b'%') (codes host)
    then none
    else host_of lib host (lib.ip_address host)

abbrev pub is_given : Option String → Bool
is_given none = false
is_given (some s) = true

abbrev pub text_in : Option String → String
text_in none = ""
text_in (some s) = s

abbrev pub origin_at : (scheme : String) → Option ℕ → Option (String × Bool) → Option FixtureOrigin
origin_at scheme explicit none = none
origin_at scheme none (some (host, v6)) =
    some (record { scheme = scheme; host = host; port = default_port scheme; is_ipv6 = v6 })
origin_at scheme (some port) (some (host, v6)) =
    some (record { scheme = scheme; host = host; port = port; is_ipv6 = v6 })

unfoldable pub origin_on : UrlLibrary → Parts → Option (Option ℕ) → Option FixtureOrigin
unfolding canonical_host
origin_on lib parts none = none
origin_on lib parts (some port) =
    origin_at (lib.to_lower parts.scheme) port (canonical_host lib (text_in parts.hostname))

-- The first guards of `_fixture_origin_from_parts`.
abbrev pub is_web : UrlLibrary → Parts → Bool
is_web lib parts =
    (str_eq (lib.to_lower parts.scheme) "http" || str_eq (lib.to_lower parts.scheme) "https")
    && (not (str_eq parts.netloc "") && not (str_eq (text_in parts.hostname) ""))

abbrev pub has_credentials : Parts → Bool
has_credentials parts = is_given parts.username || is_given parts.password

unfoldable pub fixture_origin_from_parts : UrlLibrary → Parts → Option FixtureOrigin
unfolding origin_on
fixture_origin_from_parts lib parts =
    if not (is_web lib parts)
    then none
    else if has_credentials parts
    then none
    else origin_on lib parts parts.port
