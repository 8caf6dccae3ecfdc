-- ===== src/Tests/Files.antt =====
-- A local file that is found with its extension, and an address without one.
use dockerfile_x.Common.{◌≡◌, refl, none, some, [], ◌++◌, Text, codes, same, if◌then◌else◌}
use dockerfile_x.Errors.{ok, err, system_error, http_error, remote_file_not_found, plain}
use dockerfile_x.Io.{Io, returns, throws, attempt, ◌>>=◌}
use dockerfile_x.Source.Local.{LocalSource, join_local, read_local, with_path_found}
use dockerfile_x.Source.Local.Found.{IsRead, read_local-IsRead}
use dockerfile_x.Source.Http.{UrlApi, http_source, new_http_source, join_http, read_http}

unfoldable read_file : Text → Io (Unit {0}) Text
unfolding same
read_file path w =
    if same path (codes "/x/b.dockerfile")
    then (ok (codes "FROM debian"), w)
    else (err (system_error (codes "ENOENT") []), w)

abbrev root : LocalSource
root = record {
  abs_path = codes "/x/d/a";
  docker_context = codes "/x";
  default_extension = codes ".dockerfile";
  relative_base = codes "/x/d";
  resolved_abs_path = none;
}

abbrev child : LocalSource
child = record {
  abs_path = codes "/x/b";
  docker_context = codes "/x";
  default_extension = codes ".dockerfile";
  relative_base = codes "/x";
  resolved_abs_path = none;
}

joined : join_local (codes "/w") root (codes "../b") ≡ child
unfolding join_local
joined = refl

child_read : read_local read_file (codes "/w") child tt ≡ (
  ok (codes "FROM debian", with_path_found read_file (codes "/w") (codes "/x/b.dockerfile") child),
  tt,
)
unfolding read_local read_file returns throws attempt ◌>>=◌
child_read = refl

read_local-IsRead_example :
    IsRead read_file
      (codes "/w")
      child
      (with_path_found read_file (codes "/w") (codes "/x/b.dockerfile") child)
      (codes "FROM debian")
      tt
read_local-IsRead_example =
    read_local-IsRead read_file (codes "/w") child
      (with_path_found read_file (codes "/w") (codes "/x/b.dockerfile") child) (codes "FROM debian")
      tt tt child_read

abbrev pub urls : UrlApi
urls = record {
  pathname_of = λ url. some (codes "/a");
  with_pathname = λ url pathname. codes "http://h" ++ pathname;
  resolve_url = λ path base. some (codes "http://h/" ++ path);
}

extension_added :
    new_http_source urls (codes "http://h/a") none
    ≡ ok (http_source (codes "http://h/a.dockerfile") (codes "http://h/a") (codes ".dockerfile"))
unfolding new_http_source
extension_added = refl

scheme_rejected :
    join_http urls (http_source [] [] []) (codes "git+ssh:x")
    ≡ err (plain (codes "HttpSource.joinRelative rejected scheme-bearing path: git+ssh:x"))
unfolding join_http
scheme_rejected = refl

not_found :
    read_http (λ url w. (err (http_error 404 []), w)) (http_source (codes "http://h/a") [] []) tt
    ≡ (err (remote_file_not_found (codes "http://h/a")), tt)
unfolding read_http attempt throws
not_found = refl
