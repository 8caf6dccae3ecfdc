-- ===== src/Tests/Cache.antt =====
-- A download that falls back to its copy, and two that share a fetch.
use dockerfile_x.Common.{◌≡◌, refl, none, some, [], ◌∷◌, codes, same, if◌then◌else◌}
use dockerfile_x.Errors.{ok, err, system_error, http_error}
use dockerfile_x.Io.{Io, returns, throws, attempt, ◌>>=◌}
use dockerfile_x.Download.Cache.{Copy, Response, Request, Client, request, cache_path}
use dockerfile_x.Download.Settings.{get_http_timeout_ms, get_max_redirects, whole}
use dockerfile_x.Download.Cache.Fresh.{IsServed, request-IsServed}
use dockerfile_x.Download.Inflight.{Fetches, download, idle, called, Steps, stay, further}
use dockerfile_x.Download.Inflight.Shared.{
  IsCoherent, SpecStep, keys, Steps-IsCoherent, Step-SpecStep, Steps-idle,
}
use dockerfile_x.Tests.World.{packages, platform, url_at}

-- A server that cannot be reached, and one that has the page no more.
unfoldable http_get : Request → Io (Unit {0}) Response
unfolding same
http_get r w =
    if same r.url (codes "http://down/")
    then (err (system_error (codes "ETIMEDOUT") []), w)
    else (err (http_error 410 []), w)

abbrev copy : Copy
copy = record { content = codes "FROM debian"; last_modified = none; etag = some (codes "e") }

abbrev client : Client (Unit {0})
client = record {
  cache_dir_variable = some (codes "/c");
  timeout_variable = some (codes "1e4");
  max_bytes_variable = none;
  max_redirects_variable = none;
  allowlist_variable = none;
  homedir = codes "/root";
  platform = platform;
  encode_uri_component = λ s. s;
  parse_copy = λ s. some copy;
  print_copy = λ c. c.content;
  mkdir = λ path recursive w. (ok tt, w);
  read_file = λ path w. (ok [], w);
  write_file = λ path content w. (ok tt, w);
  http_get = http_get;
}

stale_served :
    request packages client
      (codes "http://down/")
      (url_at (codes "down"))
      []
      []
      (cache_path packages client (codes "http://down/"))
      (some copy)
      tt
    ≡ (ok (codes "FROM debian"), tt)
unfolding request http_get returns throws attempt ◌>>=◌
stale_served = refl

gone_thrown :
    request packages client (codes "http://gone/") (url_at (codes "gone")) [] [] [] (some copy) tt
    ≡ (err (http_error 410 []), tt)
unfolding request http_get returns throws attempt ◌>>=◌
gone_thrown = refl

request-IsServed_example :
    IsServed packages client
      (codes "http://down/")
      (url_at (codes "down"))
      []
      []
      (some copy)
      tt
      tt
      (codes "FROM debian")
request-IsServed_example =
    request-IsServed packages client (codes "http://down/") (url_at (codes "down")) [] []
      (some copy) tt tt (codes "FROM debian") stale_served

-- Limits as the environment gives them.
seconds : get_http_timeout_ms (some (codes "1.5e4")) ≡ record { mantissa = 15; ups = 4; downs = 1 }
unfolding get_http_timeout_ms
seconds = refl

hexadecimal : get_http_timeout_ms (some (codes " 0x1F ")) ≡ whole 31
unfolding get_http_timeout_ms
hexadecimal = refl

too_long : get_http_timeout_ms (some (codes "1e309")) ≡ whole 30000
unfolding get_http_timeout_ms
too_long = refl

no_number : get_http_timeout_ms (some (codes "10s")) ≡ whole 30000
unfolding get_http_timeout_ms
no_number = refl

no_redirects : get_max_redirects (some (codes "0")) ≡ whole 0
unfolding get_max_redirects
no_redirects = refl

negative_redirects : get_max_redirects (some (codes "-1")) ≡ whole 5
unfolding get_max_redirects
negative_redirects = refl

-- Two calls of one key, and one of another.
abbrev first : Fetches
unfolding download
first = (download (codes "a") (idle 0)).1

abbrev second : Fetches
unfolding first
second = (download (codes "a") first).1

abbrev third : Fetches
unfolding second
third = (download (codes "b") second).1

abbrev three_calls : Steps (idle 0) third
unfolding third
three_calls =
    further (idle 0) second third
      (further (idle 0) first second
        (further (idle 0) (idle 0) first (stay (idle 0)) (called (codes "a") (idle 0)))
        (called (codes "a") first))
      (called (codes "b") second)

two_fetches : keys third.running ≡ codes "b" ∷ codes "a" ∷ []
unfolding third
two_fetches = refl

Steps-IsCoherent_example : IsCoherent third
Steps-IsCoherent_example = Steps-IsCoherent three_calls

Step-SpecStep_example : SpecStep (keys third.running) (keys (download (codes "a") third).1.running)
Step-SpecStep_example = Step-SpecStep three_calls (called (codes "a") third)

Steps-idle_example : Steps third (idle third.made)
Steps-idle_example = Steps-idle third three_calls
