-- ===== src/Tests/Visits.antt =====
-- Runs of the navigation policy of engine.py.
use browserbench.Prelude.{String, false, none, some, str_eq, if◌then◌else◌}
use Prim.Native.String.{◌++◌}
use browserbench.Navigation.{Parts, UrlLibrary, NavigationPolicy}

abbrev page_url : String
page_url = "http://127.0.0.1:7788/inbox"

abbrev page_parts : Parts
page_parts = record {
  scheme = "http";
  netloc = "127.0.0.1:7788";
  path = "/inbox";
  query = "";
  fragment = "";
  hostname = some "127.0.0.1";
  username = none;
  password = none;
  port = some (some 7788);
}

abbrev urls : UrlLibrary
urls = record {
  urlsplit = λ s. if str_eq s page_url then some page_parts else none;
  urlunsplit = λ scheme netloc path query fragment. scheme ++ "://" ++ netloc ++ path;
  urljoin = λ base url. base ++ url;
  ip_address = λ host. some (host, false);
  idna = λ host. some host;
  to_lower = λ s. s;
}

abbrev local : NavigationPolicy
local = record {
  target = "http://127.0.0.1:7788/";
  origin = record { scheme = "http"; host = "127.0.0.1"; port = 7788; is_ipv6 = false };
}
