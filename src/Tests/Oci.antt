-- ===== src/Tests/Oci.antt =====
-- OCI references, digests and a small registry.
use dockerfile_x.Common.{
  ◌≡◌, ◌↔◌, refl, true, false, Option, none, some, List, [], ◌∷◌, Text, codes, same, if◌then◌else◌,
  starts_with,
}
use dockerfile_x.Errors.{ok, err, invalid_digest, command_failed, system_error}
use dockerfile_x.Names.{short_hash}
use dockerfile_x.Spawn.{Run, spawn_cmd}
use dockerfile_x.Tests.World.{packages}
use dockerfile_x.Io.{attempt, check_file_exists, Io, returns, throws, of_result, ◌>>=◌}
use dockerfile_x.Source.Oci.{OciSource, parse_oci_reference, oci_key, oras_ref}
use dockerfile_x.Source.Oci.Digest.{string, assert_valid_digest}
use dockerfile_x.Source.Oci.DigestForm.{HasForm, assert_valid_digest-HasForm}
use dockerfile_x.Source.Oci.RoundTrip.{parse_oci_reference-oci_key}
use dockerfile_x.Source.Oci.Registry.{
  run_oras, should_use_plain_http, http_args, fetch_args, is_local_registry,
}
use dockerfile_x.Source.Oci.PlainHttp.{Reason, run_oras-once}
use dockerfile_x.Source.Oci.Fetch.{Host, Memo, OciState, outside, exists, update_memo, read_memo}
use dockerfile_x.Source.Oci.Read.{resolve_file, resolve_oci}
use dockerfile_x.Source.Oci.Admitted.{real, resolve_file-IsServed}
use dockerfile_x.Source.Contained.Serving.{IsServed}
use dockerfile_x.Source.Oci.Pinned.{Keeps, IsPinned, resolve_oci-IsPinned}

abbrev source : OciSource
source = record {
  registry = codes "localhost:5000";
  repo = codes "a/b";
  tag = some (codes "1.0");
  digest = none;
  file_path = codes "d/x";
  default_extension = codes ".dockerfile";
}

oci_parsed : parse_oci_reference (codes "OCI://localhost:5000/a/b:1.0#/d/x") none ≡ ok source
unfolding parse_oci_reference
oci_parsed = refl

parse_oci_reference-oci_key_example :
    (parse_oci_reference (oci_key source) none ≡ ok source)
    × (starts_with (codes "-") (oras_ref source) ≡ false)
parse_oci_reference-oci_key_example =
    parse_oci_reference-oci_key (codes "OCI://localhost:5000/a/b:1.0#/d/x") none source oci_parsed

assert_valid_digest-HasForm_example :
    (assert_valid_digest (λ s. s) (string (codes "md5:12ab")) [] ≡ ok tt)
    ↔ HasForm (codes "md5:12ab")
assert_valid_digest-HasForm_example =
    assert_valid_digest-HasForm (λ s. s) (codes "md5:12ab") [] refl

-- A short digest is refused, but not behind an `@`: the test is not anchored in front.
short_refused :
    assert_valid_digest (λ s. s) (string (codes "sha256:a")) (codes "r")
    ≡ err (invalid_digest (codes "invalid OCI digest from r: sha256:a"))
unfolding assert_valid_digest
short_refused = refl

short_admitted : assert_valid_digest (λ s. s) (string (codes "x@sha256:a")) (codes "r") ≡ ok tt
unfolding assert_valid_digest
short_admitted = refl

-- The address ::1 is not taken for a local registry.
ipv6_not_local : is_local_registry (codes "[::1]:5000") ≡ false
unfolding is_local_registry
ipv6_not_local = refl

-- A registry that does not talk TLS.
unfoldable spawn : Text → Option Text → List Text → Io (Unit {0}) Text
unfolding starts_with
spawn bin config [] w = (ok [], w)
spawn bin config (arg ∷ args) w = (ok (codes "md5:12ab"), w)

run_oras-once_example :
    (run_oras (spawn [] none) none (codes "localhost:5000") (fetch_args (codes "r")) tt
      ≡ spawn [] none
          (fetch_args (codes "r") (http_args (should_use_plain_http none (codes "localhost:5000"))))
          tt)
    × ((should_use_plain_http none (codes "localhost:5000") ≡ true)
        ↔ Reason none (codes "localhost:5000"))
run_oras-once_example =
    run_oras-once (spawn [] none) none (codes "localhost:5000") (fetch_args (codes "r")) tt

-- The file is there with its extension alone.
unfoldable access : Text → Io (Unit {0}) (Unit {0})
unfolding same
access path w =
    if same path (codes "/c/k/d/x.dockerfile") then (ok tt, w) else (err (command_failed [] []), w)

abbrev answer : Run
answer = record { error_message = none; stdout = codes "md5:12ab"; stderr = [] }

abbrev host : Host (Unit {0})
host = record {
  cwd = codes "/w";
  tmpdir = codes "/tmp";
  homedir = codes "/root";
  cache_dir_variable = some (codes "/c");
  oras_bin_variable = none;
  plain_http_variable = none;
  docker_config_variable = none;
  home_variable = none;
  temp_suffix = codes ".tmp";
  packages = record packages { sha256 = λ s. codes "k" };
  stringify = λ s. s;
  parse_descriptor = λ s. some (string s);
  parse_index = λ s. none;
  child_process = record { timeout_variable = none; exec_file = λ bin args options w. (answer, w) };
  check_access = λ path w. (err (system_error (codes "ENOENT") []), w);
  read_file = λ path w. (ok (codes "FROM debian"), w);
  real_path = λ path w. (ok path, w);
  make_temp_dir = λ path w. (ok path, w);
  copy_file = λ a b w. (ok tt, w);
  mkdir = λ path recursive w. (ok tt, w);
  remove = λ path w. (ok tt, w);
  rename = λ a b w. (ok tt, w);
  access = access;
}

abbrev fresh : OciState host
fresh = (record { artifacts = []; digests = []; config_dir = none }, tt)

abbrev pulled : Memo
pulled = record {
  artifacts = (codes "localhost:5000/a/b:1.0", record { dir = codes "/c/k"; digest = none }) ∷ [];
  digests = [];
  config_dir = some none;
}

file_found :
    resolve_file host source fresh
    ≡ (ok (codes "/c/k", codes "d/x.dockerfile", source), (pulled, tt))
unfolding resolve_file outside exists update_memo read_memo returns throws of_result ◌>>=◌ attempt
    check_file_exists spawn_cmd short_hash access
file_found = refl

resolve_file-IsServed_example :
    IsServed (real host) host.cwd (codes "/c/k") (codes "d/x.dockerfile") (pulled, tt)
resolve_file-IsServed_example =
    resolve_file-IsServed host source source (codes "/c/k") (codes "d/x.dockerfile") fresh
      (pulled, tt) file_found

resolve_oci-IsPinned_example : Keeps host (IsPinned host source) (resolve_oci host source)
resolve_oci-IsPinned_example = resolve_oci-IsPinned host source
