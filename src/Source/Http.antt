-- ===== src/Source/Http.antt =====
-- src/sources/HttpSource.js: a file behind an address. `UrlApi` is what the code uses of `URL`.
pub mod Joined
use dockerfile_x.Common.{
  ℕ, Bool, true, false, ◌&&◌, ◌||◌, Option, none, some, [], ◌∷◌, ◌++◌, Text, codes, ◌==◌,
  if◌then◌else◌, is_digit, is_lower, is_upper, same,
}
use dockerfile_x.Errors.{
  Thrown, Result, ok, err, plain, type_error, http_error, system_error, remote_file_not_found,
  remote_fetch_failed,
}
use dockerfile_x.Io.{Io, throws, attempt}
use dockerfile_x.Names.{extname}
use dockerfile_x.PostProcess.{truthy}
use dockerfile_x.Source.Git.{or_dockerfile}

-- `new URL(url).pathname`, `toString()` behind an assignment to `pathname`, and `new URL(path, base).toString()`;
-- `none` is a throw.
pub record UrlApi : Type 0 where
  pub pathname_of : Text → Option Text
  pub with_pathname : Text → Text → Text
  pub resolve_url : Text → Text → Option Text

-- The fields of the class.
pub record HttpSource : Type 0 where
  pub address : Text
  pub original_url : Text
  pub default_extension : Text

abbrev pub http_source : Text → Text → Text → HttpSource
http_source address original extension = record {
  address = address;
  original_url = original;
  default_extension = extension;
}

-- The address with the extension, where its path has none.
abbrev pub extended : UrlApi → Text → Text → Text → Text
unfolding extname same
extended api url pathname extension =
    if same (extname pathname) [] then api.with_pathname url (pathname ++ extension) else url

abbrev pub with_pathname_of : UrlApi → Text → Text → Option Text → Result HttpSource
unfolding extended
with_pathname_of api url extension none = err type_error
with_pathname_of api url extension (some pathname) =
    ok (http_source (extended api url pathname extension) url extension)

abbrev pub new_http_with : UrlApi → Text → Text → Result HttpSource
unfolding with_pathname_of
new_http_with api url [] = ok (http_source url url [])
new_http_with api url (c ∷ extension) =
    with_pathname_of api url (c ∷ extension) (api.pathname_of url)

-- `new HttpSource({ url, defaultExtension })`
unfoldable pub new_http_source : UrlApi → Text → Option Text → Result HttpSource
unfolding new_http_with
new_http_source api url extension = new_http_with api url (or_dockerfile extension)

-- `err.message` of what a download throws.
abbrev pub thrown_message : Thrown → Text
thrown_message (http_error status message) = message
thrown_message (system_error code message) = message
thrown_message (plain message) = message
thrown_message _ = []

-- `original && original !== this._url ? ` (from ${original})` : ""`
abbrev pub from_suffix : HttpSource → Option Text → Text
unfolding same
from_suffix s none = []
from_suffix s (some original) =
    if same original s.address then [] else codes " (from " ++ (original ++ codes ")")

abbrev pub wrapped : HttpSource → Thrown → Thrown
unfolding from_suffix truthy
wrapped s e = remote_fetch_failed s.address s.original_url (
    codes "Failed to fetch "
    ++ (s.address
        ++ (from_suffix s (truthy (some s.original_url)) ++ (codes ": " ++ thrown_message e))))

-- What the failure of a download becomes.
unfoldable pub read_error : HttpSource → Thrown → Thrown
unfolding wrapped
read_error s (http_error status message) =
    if status == 404 then remote_file_not_found s.address else wrapped s (http_error status message)
read_error s e = wrapped s e

-- `read()`, for `downloadWithCache`
unfoldable pub read_http : {W : Type 0} → (Text → Io W Text) → HttpSource → Io W Text
unfolding attempt throws read_error
read_http download s = attempt (download s.address) (λ e. throws (read_error s e))

abbrev pub is_scheme_char : ℕ → Bool
is_scheme_char c = is_lower c || is_upper c || is_digit c || c == b'+' || c == b'.' || c == b'-'

abbrev pub scheme_rest : Text → Bool
scheme_rest [] = false
scheme_rest (c ∷ s) =
    let rest = scheme_rest s in if c == b':' then true else is_scheme_char c && rest

-- `/^[a-z][a-z0-9+.-]*:/i.test(relPath)`
unfoldable pub has_scheme : Text → Bool
has_scheme [] = false
has_scheme (c ∷ s) = (is_lower c || is_upper c) && scheme_rest s

abbrev pub join_resolved : UrlApi → HttpSource → Option Text → Result HttpSource
unfolding new_http_source
join_resolved api s none = err type_error
join_resolved api s (some url) = new_http_source api url (some s.default_extension)

-- `joinRelative(relPath)`
unfoldable pub join_http : UrlApi → HttpSource → Text → Result HttpSource
unfolding has_scheme join_resolved
join_http api s path =
    if has_scheme path
    then err (plain (codes "HttpSource.joinRelative rejected scheme-bearing path: " ++ path))
    else join_resolved api s (api.resolve_url path s.address)

-- `key()`, `displayPath()` and `stageAliasBase()`
abbrev pub http_key : HttpSource → Text
http_key s = s.address
