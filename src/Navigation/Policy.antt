-- ===== src/Navigation/Policy.antt =====
-- `_FixtureNavigationPolicy` of engine.py.
use browserbench.Prelude.{
  String, Bool, false, not, ◌&&◌, ◌||◌, Option, none, some, str_eq, ◌==◌, if◌then◌else◌,
}
use Prim.Native.Char.{code}
use browserbench.Json.{str, Value, scalar}
use browserbench.Navigation.Origin.{
  authority, strict_urlsplit, fixture_origin_from_parts, Parts, UrlLibrary, FixtureOrigin,
}

pub record NavigationPolicy : Type 0 where
  pub target : String
  pub origin : FixtureOrigin

abbrev or_slash : String → String
or_slash path = if str_eq path "" then "/" else path

abbrev pub policy_on : UrlLibrary → Parts → Option FixtureOrigin → Option NavigationPolicy
policy_on lib parts none = none
policy_on lib parts (some o) = some (record {
  target = lib.urlunsplit o.scheme (authority o) (or_slash parts.path) parts.query "";
  origin = o;
})

unfoldable pub policy_of : UrlLibrary → Option Parts → Option NavigationPolicy
unfolding fixture_origin_from_parts
policy_of lib none = none
policy_of lib (some parts) = policy_on lib parts (fixture_origin_from_parts lib parts)

unfoldable pub from_target : UrlLibrary → (target : String) → Option NavigationPolicy
unfolding strict_urlsplit policy_of
from_target lib target = policy_of lib (strict_urlsplit lib (scalar (str target)))

-- a == b on origins
unfoldable pub origin_same : FixtureOrigin → FixtureOrigin → Bool
origin_same a b =
    str_eq a.scheme b.scheme
    && (str_eq a.host b.host
        && (a.port == b.port && (if a.is_ipv6 then b.is_ipv6 else not b.is_ipv6)))

abbrev pub origin_matches : Option FixtureOrigin → FixtureOrigin → Bool
origin_matches none o = false
origin_matches (some p) o = origin_same p o

abbrev text_of : Value → String
text_of (scalar (str s)) = s
text_of _ = ""

-- requested.startswith("//")
abbrev begins_twice : String → Bool
begins_twice s = elim s [
  | String.[] ↦ false
  | String.◌∷◌ c t ↦ elim t [
    | String.[] ↦ false
    | String.◌∷◌ d u ↦ code c == b'/' && code d == b'/'
  ]
]

-- The parts that are checked against the origin.
unfoldable pub resolved_parts : UrlLibrary → NavigationPolicy → Value → Parts → Option Parts
unfolding strict_urlsplit
resolved_parts lib policy requested parts =
    if not (str_eq parts.scheme "")
    then (if str_eq parts.netloc "" then none else some parts)
    else if not (str_eq parts.netloc "") || begins_twice (text_of requested)
    then none
    else strict_urlsplit lib (scalar (str (lib.urljoin policy.target (text_of requested))))

unfoldable pub url_on : UrlLibrary → FixtureOrigin → Parts → String
unfolding authority
url_on lib o parts = lib.urlunsplit o.scheme (authority o) parts.path parts.query parts.fragment

abbrev pub admit_parts : UrlLibrary → NavigationPolicy → Option Parts → Option String
admit_parts lib policy none = none
admit_parts lib policy (some parts) =
    if origin_matches (fixture_origin_from_parts lib parts) policy.origin
    then some (url_on lib policy.origin parts)
    else none

unfoldable pub resolve_parts : UrlLibrary → NavigationPolicy → Value → Option Parts → Option String
unfolding resolved_parts
resolve_parts lib policy requested none = none
resolve_parts lib policy requested (some parts) =
    admit_parts lib policy (resolved_parts lib policy requested parts)

unfoldable pub resolve : UrlLibrary → NavigationPolicy → (requested : Value) → Option String
unfolding resolve_parts
resolve lib policy requested = resolve_parts lib policy requested (strict_urlsplit lib requested)

abbrev pub accepts_parts : UrlLibrary → NavigationPolicy → Option Parts → Bool
accepts_parts lib policy none = false
accepts_parts lib policy (some parts) =
    not (str_eq parts.scheme "")
    && (not (str_eq parts.netloc "")
        && origin_matches (fixture_origin_from_parts lib parts) policy.origin)

unfoldable pub accepts_observed_url : UrlLibrary → NavigationPolicy → (observed : Value) → Bool
unfolding strict_urlsplit
accepts_observed_url lib policy observed = accepts_parts lib policy (strict_urlsplit lib observed)
