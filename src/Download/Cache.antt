-- ===== src/Download/Cache.antt =====
-- src/lib/downloadWithCache.js: one fetch with the copy that is kept of it. `http_get` is `axios.get` with the
-- options of the request and, in each, the text as it is, and a status that is neither a success nor 304 as an
-- `http_error`.
pub mod Fresh
pub mod Requests
use dockerfile_x.Common.{
  ℕ, Bool, true, false, not, ◌&&◌, ◌||◌, Option, none, some, List, [], ◌∷◌, ◌++◌, Text, codes, ◌==◌,
  leb, length, if◌then◌else◌, same, includes,
}
use dockerfile_x.Errors.{
  Thrown, Result, ok, err, thrown, error_code, http_error, missing_file, remote_file_not_found,
  path_traversal, remote_fetch_failed, invalid_digest, system_error, command_failed, plain,
  type_error,
}
use dockerfile_x.Io.{ensure_dir, Io, returns, throws, of_result, attempt, ◌>>=◌, ◌>>◌}
use dockerfile_x.Names.{short_hash}
use dockerfile_x.Packages.{Packages}
use dockerfile_x.Path.{join_paths}
use dockerfile_x.PostProcess.{truthy}
use dockerfile_x.Download.Redirects.{
  Pattern, Url, Platform, parse_redirect_allowlist, before_redirect,
}
use dockerfile_x.Download.Settings.{
  Amount, get_http_timeout_ms, get_max_http_bytes, get_max_redirects,
}

-- What is kept of an answer: its text and its two validators.
pub record Copy : Type 0 where
  pub content : Text
  pub last_modified : Option Text
  pub etag : Option Text

-- An answer with a status from 200 to 299 or 304.
pub record Response : Type 0 where
  pub status : ℕ
  pub content_of : Text
  pub last_modified_of : Option Text
  pub etag_of : Option Text

-- What `axios.get` is given. `before` is `beforeRedirect`, at the `location` of the answer.
pub record Request : Type 0 where
  pub url : Text
  pub headers : List (Text × Text)
  pub timeout : Amount
  pub max_content_length : Amount
  pub max_body_length : Amount
  pub max_redirects : Amount
  pub before : Option Text → Result (Unit {0})

-- What the code reads of the process, and its calls. `parse_copy` is `JSON.parse`, `none` where it throws, and
-- `print_copy` is `JSON.stringify`.
pub record Client (W : Type 0) : Type 0 where
  pub cache_dir_variable : Option Text
  pub timeout_variable : Option Text
  pub max_bytes_variable : Option Text
  pub max_redirects_variable : Option Text
  pub allowlist_variable : Option Text
  pub homedir : Text
  pub platform : Platform
  pub encode_uri_component : Text → Text
  pub parse_copy : Text → Option Copy
  pub print_copy : Copy → Text
  pub mkdir : Text → Bool → Io W (Unit {0})
  pub read_file : Text → Io W Text
  pub write_file : Text → Text → Io W (Unit {0})
  pub http_get : Request → Io W Response

abbrev pub max_cache_filename_bytes : ℕ
max_cache_filename_bytes = 200

-- `cacheFilename(url)`; what `encodeURIComponent` gives is ASCII.
unfoldable pub cache_filename : Packages → (Text → Text) → Text → Text
cache_filename p encode url =
    let encoded = encode url in
    if leb (length encoded) max_cache_filename_bytes
    then encoded
    else codes "h-" ++ short_hash p url 16

abbrev pub network_error_codes : List Text
network_error_codes =
    codes "ECONNREFUSED"
    ∷ codes "ECONNRESET"
    ∷ codes "ETIMEDOUT"
    ∷ codes "EAI_AGAIN"
    ∷ codes "ENOTFOUND"
    ∷ codes "EHOSTUNREACH"
    ∷ codes "ENETUNREACH"
    ∷ codes "ECONNABORTED"
    ∷ []

abbrev pub is_network_code : Option Text → Bool
unfolding includes same
is_network_code none = false
is_network_code (some code) = includes code network_error_codes || same code (codes "ERR_NETWORK")

-- `isNetworkError(err)`
unfoldable pub is_network_error : Thrown → Bool
unfolding error_code is_network_code
is_network_error (http_error status message) = false
is_network_error e = is_network_code (error_code (thrown e))

abbrev pub header : Text → Option Text → List (Text × Text)
header name none = []
header name (some value) = (name, value) ∷ []

-- The headers that make the request conditional.
unfoldable pub conditional_headers : Option Copy → List (Text × Text)
unfolding truthy
conditional_headers none = []
conditional_headers (some copy) =
    header (codes "If-Modified-Since") (truthy copy.last_modified)
    ++ header (codes "If-None-Match") (truthy copy.etag)

abbrev pub copy_of : Response → Copy
unfolding truthy
copy_of response = record {
  content = response.content_of;
  last_modified = truthy response.last_modified_of;
  etag = truthy response.etag_of;
}

-- `new URL(url)`
abbrev pub parsed_url : Option Url → Result Url
parsed_url none = err type_error
parsed_url (some url) = ok url

abbrev pub unset_or : Option Text → Text
unset_or none = []
unset_or (some s) = s

abbrev pub or_dir : Option Text → Text → Text
or_dir none d = d
or_dir (some s) d = s

module _ {W : Type 0} (p : Packages) (client : Client W) where
  open client use {
    cache_dir_variable, timeout_variable, max_bytes_variable, max_redirects_variable,
    allowlist_variable, homedir, platform, encode_uri_component, parse_copy, print_copy, mkdir,
    read_file, write_file, http_get,
  }

  -- `getCacheDirectory()`
  abbrev pub get_cache_directory : Text
  unfolding join_paths truthy
  get_cache_directory =
      or_dir (truthy cache_dir_variable)
        (join_paths homedir (join_paths (codes ".dockerfile-x") (codes "cache")))

  abbrev pub cache_path : Text → Text
  unfolding join_paths cache_filename
  cache_path url = join_paths get_cache_directory (cache_filename p encode_uri_component url)

  -- `readCache(filepath)`
  unfoldable pub read_cache : Text → Io W (Option Copy)
  unfolding attempt returns ◌>>=◌
  read_cache path =
      attempt (do content ← read_file path; returns (parse_copy content)) (λ e. returns none)

  -- `writeCache(filepath, payload)`
  abbrev pub write_cache : Text → Copy → Io W (Unit {0})
  write_cache path copy = write_file path (print_copy copy)

  abbrev pub store : Text → Response → Io W Text
  unfolding returns ◌>>=◌
  store path response = do write_cache path (copy_of response); returns response.content_of

  -- Behind the answer.
  unfoldable pub accept : Text → Option Copy → Response → Io W Text
  unfolding store returns
  accept path none response = store path response
  accept path (some copy) response =
      if response.status == 304 then returns copy.content else store path response

  -- The `catch`: the copy stands in for a server that cannot be reached.
  unfoldable pub fall_back : Option Copy → Thrown → Io W Text
  unfolding is_network_error returns throws
  fall_back none e = throws e
  fall_back (some copy) e = if is_network_error e then returns copy.content else throws e

  -- `getRedirectAllowlist()`
  abbrev pub get_redirect_allowlist : Result (List Pattern)
  unfolding parse_redirect_allowlist
  get_redirect_allowlist = parse_redirect_allowlist platform (unset_or allowlist_variable)

  -- The options, for a download of `url`, which parses as `from`.
  abbrev pub request_to : Text → Url → List Pattern → List (Text × Text) → Request
  unfolding get_http_timeout_ms get_max_http_bytes get_max_redirects before_redirect
  request_to url from list headers = record {
    url = url;
    headers = headers;
    timeout = get_http_timeout_ms timeout_variable;
    max_content_length = get_max_http_bytes max_bytes_variable;
    max_body_length = get_max_http_bytes max_bytes_variable;
    max_redirects = get_max_redirects max_redirects_variable;
    before = before_redirect platform url from list;
  }

  -- The `try`, with the copy that was read.
  unfoldable pub request :
      Text → Url → List Pattern → List (Text × Text) → Text → Option Copy → Io W Text
  unfolding request_to accept fall_back conditional_headers attempt ◌>>=◌
  request url from list extra_headers path cached =
      attempt
        (do
          response ←
              http_get (request_to url from list (conditional_headers cached ++ extra_headers))
          accept path cached response)
        (fall_back cached)

  -- `fetchOnce(url, extraHeaders)`
  unfoldable pub fetch_once : Text → List (Text × Text) → Io W Text
  unfolding request read_cache cache_path get_redirect_allowlist of_result ◌>>=◌
  fetch_once url extra_headers = do
    ensure_dir mkdir get_cache_directory
    cached ← read_cache (cache_path url)
    list ← of_result get_redirect_allowlist
    from ← of_result (parsed_url (platform.parse_url url))
    request url from list extra_headers (cache_path url) cached
