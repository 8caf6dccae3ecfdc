-- ===== src/Source/Http/Joined.antt =====
-- What address a joined source of HttpSource.js was made for.
use dockerfile_x.Common.{◌≡◌, sym, ap, Option, none, some, [], ◌∷◌, Text}
use dockerfile_x.Errors.{ok_inj, passed, ok}
use dockerfile_x.Source.Http.{
  UrlApi, HttpSource, new_http_source, new_http_with, with_pathname_of, join_resolved, join_http,
  has_scheme,
}

with_pathname_of-url :
    (api : UrlApi) (url extension : Text) (pathname : Option Text) (t : HttpSource)
    → with_pathname_of api url extension pathname ≡ ok t
    → t.original_url ≡ url
unfolding with_pathname_of
with_pathname_of-url api url extension none t h = cc
with_pathname_of-url api url extension (some pathname) t h =
    sym (ap (λ s. s.original_url) (ok_inj h))

new_http_with-url :
    (api : UrlApi) (url extension : Text) (t : HttpSource)
    → new_http_with api url extension ≡ ok t
    → t.original_url ≡ url
unfolding new_http_with
new_http_with-url api url [] t h = sym (ap (λ s. s.original_url) (ok_inj h))
new_http_with-url api url (c ∷ extension) t h =
    with_pathname_of-url api url (c ∷ extension) (api.pathname_of url) t h

join_resolved-url :
    (api : UrlApi) (s t : HttpSource) (url : Option Text)
    → join_resolved api s url ≡ ok t
    → url ≡ some t.original_url
unfolding join_resolved new_http_source
join_resolved-url api s t none h = cc
join_resolved-url api s t (some url) h =
    ap some (sym (new_http_with-url api url s.default_extension t h))

pub join_http-url :
    (api : UrlApi) (s t : HttpSource) (path : Text)
    → join_http api s path ≡ ok t
    → api.resolve_url path s.address ≡ some t.original_url
unfolding join_http
join_http-url api s t path h =
    join_resolved-url api s t (api.resolve_url path s.address) (passed (has_scheme path) _ h)
