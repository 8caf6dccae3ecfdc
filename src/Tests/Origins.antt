-- ===== src/Tests/Origins.antt =====
-- A relative reference in a git source, and its load.
use Prim.Native.Nat.{◌^◌}
use dockerfile_x.Common.{
  ℕ, zero, suc, ◌*◌, ◌<◌, ◌==◌, arith, if◌then◌else◌, ◌≡◌, refl, false, none, some, [], ◌∷◌, Text,
  codes,
}
use dockerfile_x.Errors.{ok, err, plain, http_error}
use dockerfile_x.Spawn.{ChildProcess}
use dockerfile_x.Io.{Io}
use dockerfile_x.Source.{resolve_source, unsupported}
use dockerfile_x.Source.Scheme.{detect_scheme, local}
use dockerfile_x.Source.Git.{GitSource}
use dockerfile_x.Source.Git.Fetch.{GitHost}
use dockerfile_x.Source.Oci.Fetch.{Host}
use dockerfile_x.Download.Cache.{Client, Request, Response}
use dockerfile_x.Download.Cache.Requests.{IsGuarded}
use dockerfile_x.Sources.Requests.{sending, root_load_dockerfile-guarded}
use dockerfile_x.Sources.Remembered.{AreIdentities, root_load_dockerfile-AreIdentities}
use dockerfile_x.Sources.Remote.{load_dockerfile-reads_no_local_file}
use dockerfile_x.Processors.{Context}
use dockerfile_x.Load.{load_dockerfile, root_load_dockerfile}
use dockerfile_x.Sources.{Memos, Platforms, of_git, join_any, sources}
use dockerfile_x.Sources.Origin.{IsSameOrigin, resolve_source-IsSameOrigin}
use dockerfile_x.Tests.World.{packages, platform}
use dockerfile_x.Tests.Files.{urls}
use dockerfile_x.Tests.Git.{source}

abbrev child_process : ChildProcess (Unit {0})
child_process = record {
  timeout_variable = none;
  exec_file = λ bin args options w. (record { error_message = none; stdout = []; stderr = [] }, w);
}

abbrev git_host : GitHost (Unit {0})
git_host = record {
  cwd = codes "/w";
  homedir = codes "/root";
  cache_dir_variable = none;
  temp_suffix = codes ".tmp";
  packages = packages;
  child_process = child_process;
  read_file = λ path w. (ok [], w);
  real_path = λ path w. (ok path, w);
  mkdir = λ path recursive w. (ok tt, w);
  remove = λ path w. (ok tt, w);
  rename = λ a b w. (ok tt, w);
  access = λ path w. (ok tt, w);
}

abbrev client : Client (Unit {0})
client = record {
  cache_dir_variable = none;
  timeout_variable = some (codes "1e4");
  max_bytes_variable = none;
  max_redirects_variable = none;
  allowlist_variable = none;
  homedir = codes "/root";
  platform = platform;
  encode_uri_component = λ s. s;
  parse_copy = λ s. none;
  print_copy = λ c. c.content;
  mkdir = λ path recursive w. (ok tt, w);
  read_file = λ path w. (ok [], w);
  write_file = λ path content w. (ok tt, w);
  http_get = λ r w. (err (http_error 404 []), w);
}

abbrev oci_host : Host (Unit {0})
oci_host = record {
  cwd = codes "/w";
  tmpdir = codes "/tmp";
  homedir = codes "/root";
  cache_dir_variable = none;
  oras_bin_variable = none;
  plain_http_variable = none;
  docker_config_variable = none;
  home_variable = none;
  temp_suffix = codes ".tmp";
  packages = packages;
  stringify = λ s. s;
  parse_descriptor = λ s. none;
  parse_index = λ s. none;
  child_process = child_process;
  check_access = λ path w. (ok tt, w);
  read_file = λ path w. (ok [], w);
  real_path = λ path w. (ok path, w);
  make_temp_dir = λ path w. (ok path, w);
  copy_file = λ a b w. (ok tt, w);
  mkdir = λ path recursive w. (ok tt, w);
  remove = λ path w. (ok tt, w);
  rename = λ a b w. (ok tt, w);
  access = λ path w. (ok tt, w);
}

abbrev platforms : Platforms (Unit {0})
platforms = record {
  oci_host = oci_host;
  git_host = git_host;
  client = client;
  urls = urls;
  packages = packages;
  cwd = codes "/w";
}

abbrev read_file : Text → Io (Unit {0}) Text
read_file path w = (ok [], w)

abbrev child : GitSource
child = record {
  repo = codes "https://x/y";
  ref = codes "main";
  file_path = codes "c";
  default_extension = codes ".dockerfile";
  oid = none;
}

is_relative : detect_scheme (codes "../c") ≡ local
unfolding detect_scheme
is_relative = refl

resolved :
    resolve_source
      (sources platforms read_file)
      (codes "../c")
      (some (of_git source))
      (codes "/x")
      none
    ≡ ok (of_git child)
unfolding resolve_source join_any
resolved = refl

rejected :
    resolve_source
      (sources platforms read_file)
      (codes "file:///c")
      (some (of_git source))
      (codes "/x")
      none
    ≡ err (plain (unsupported (sources platforms read_file) (codes "file:///c")))
unfolding resolve_source
rejected = refl

resolve_source-IsSameOrigin_example :
    IsSameOrigin urls (codes "../c") (of_git source) (of_git child)
resolve_source-IsSameOrigin_example =
    resolve_source-IsSameOrigin platforms read_file (of_git source) (of_git child) (codes "../c")
      (codes "/x") none is_relative resolved

abbrev no_memos : Memos platforms
no_memos = (
  record { artifacts = []; digests = []; config_dir = none },
  record { clones = []; oids = [] },
  tt,
)

abbrev no_file : Text → Io (Unit {0}) Text
no_file path w = (err (plain []), w)

abbrev nested : Context
nested = record {
  parent_stage_target = none;
  parent_stage_alias = none;
  nesting_level = 1;
  docker_context = codes "/x";
  scope = [];
  include_chain = codes "local:/x/Dockerfile" ∷ [];
  max_include_depth = 3;
  is_root_include = false;
}

load_dockerfile-reads_no_local_file_example :
    load_dockerfile (sources platforms read_file) packages 4 (of_git source) nested no_memos
    ≡ load_dockerfile (sources platforms no_file) packages 4 (of_git source) nested no_memos
load_dockerfile-reads_no_local_file_example =
    load_dockerfile-reads_no_local_file platforms read_file no_file packages 4 (of_git source)
      nested no_memos tt

root_load_dockerfile-AreIdentities_example :
    AreIdentities platforms read_file
      (root_load_dockerfile
        (sources platforms read_file)
        packages
        (codes "git+https://x/y#main:a")
        (codes "/x")
        3
        no_memos).1
root_load_dockerfile-AreIdentities_example =
    root_load_dockerfile-AreIdentities platforms read_file packages (codes "git+https://x/y#main:a")
      (codes "/x") 3 no_memos (record { checked = tt; named = tt })

-- A way to send requests that answers those without a time limit.
abbrev careless : Request → Io (Unit {0}) Response
careless r w =
    if r.timeout.mantissa == 0
    then (
      ok (record {
        status = 200;
        content_of = codes "FROM evil";
        last_modified_of = none;
        etag_of = none;
      }),
      w,
    )
    else (err (http_error 404 []), w)

not_zero : (m x y z : ℕ) → y < m * x * z → (m == 0) ≡ false
not_zero zero x y z h = ground arith
not_zero (suc m) x y z h = ground arith

careless_guarded :
    (r : Request) (w : Unit {0})
    → IsGuarded packages client r
    → (err (http_error 404 []), w) ≡ careless r w
careless_guarded r w h =
    rw
      (not_zero r.timeout.mantissa (10 ^ r.timeout.ups) (10 ^ r.timeout.downs) (2 ^ 1075)
        h.timed.above)
      refl

root_load_dockerfile-guarded_example :
    root_load_dockerfile
      (sources platforms read_file)
      packages
      (codes "http://x/a")
      (codes "/x")
      3
      no_memos
    ≡ root_load_dockerfile
        (sources (sending platforms careless) read_file)
        packages
        (codes "http://x/a")
        (codes "/x")
        3
        no_memos
root_load_dockerfile-guarded_example =
    root_load_dockerfile-guarded platforms read_file careless careless_guarded packages
      (codes "http://x/a") (codes "/x") 3 no_memos
