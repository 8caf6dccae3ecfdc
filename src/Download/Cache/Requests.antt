-- ===== src/Download/Cache/Requests.antt =====
-- Which requests a fetch makes.
use dockerfile_x.Common.{◌≡◌, refl, ap, Option, none, some, List, [], ◌∷◌, ◌++◌, Text}
use dockerfile_x.Errors.{Thrown, Result, ok, err}
use dockerfile_x.Io.{ensure_dir, Io, of_result, attempt, rescue, resume, ◌>>=◌}
use dockerfile_x.Packages.{Packages}
use dockerfile_x.Download.Redirects.{Pattern, Url, Platform, check_redirect, before_redirect}
use dockerfile_x.Download.Redirects.Guarded.{IsPermitted, check_redirect-IsPermitted}
use dockerfile_x.Download.Settings.Checked.{
  IsFinite, IsPositive, get_http_timeout_ms-IsPositive, get_max_http_bytes-IsPositive,
  get_max_redirects-IsFinite,
}
use dockerfile_x.Download.Cache.{
  Copy, Response, Request, Client, conditional_headers, request_to, get_redirect_allowlist,
  get_cache_directory, cache_path, read_cache, accept, fall_back, request, parsed_url, fetch_once,
}

-- What a redirect that is followed satisfies: there is a target, and it is one that the policy permits.
pub data IsFollowed (platform : Platform) (url : Text) (from : Url) (list : List Pattern)
    : Text → Type 0 where
  nowhere : IsFollowed platform url from list []
  target :
      (location : Text) (next : Url)
      → platform.new_url location url ≡ some next
      → IsPermitted platform from next list
      → IsFollowed platform url from list location

-- A request with a time and a size that are finite and more than 0, a finite number of redirects, and a hook
-- that lets only redirects pass that are permitted from the address by the list of the environment.
pub record IsGuarded {W : Type 0} (p : Packages) (client : Client W) (r : Request) : Type 0 where
  pub timed : IsPositive r.timeout
  pub content_capped : IsPositive r.max_content_length
  pub body_capped : IsPositive r.max_body_length
  pub redirects_capped : IsFinite r.max_redirects
  pub from : Url
  pub list : List Pattern
  pub parsed : client.platform.parse_url r.url ≡ some from
  pub listed : get_redirect_allowlist p client ≡ ok list
  pub followed :
      (location : Text)
      → r.before (some location) ≡ ok tt
      → IsFollowed client.platform r.url from list location

module _ (platform : Platform) (url : Text) (from : Url) (list : List Pattern) where
  to_target :
      (o : Option Url) (location : Text) (e : Thrown)
      → platform.new_url location url ≡ o
      → elim o [ none ↦ err e | some next ↦ check_redirect platform url from list next ] ≡ ok tt
      → IsFollowed platform url from list location
  to_target none location e h k = cc
  to_target (some next) location e h k =
      target location next h ((check_redirect-IsPermitted platform url from list next).0.0 k)

  before_redirect-IsFollowed :
      (location : Text)
      → before_redirect platform url from list (some location) ≡ ok tt
      → IsFollowed platform url from list location
  unfolding before_redirect
  before_redirect-IsFollowed [] h = nowhere
  before_redirect-IsFollowed (c ∷ location) h =
      to_target (platform.new_url (c ∷ location) url) (c ∷ location) _ refl h

-- The client, with another way to send requests.
abbrev pub with_get : {W : Type 0} → Client W → (Request → Io W Response) → Client W
with_get client get = record {
  cache_dir_variable = client.cache_dir_variable;
  timeout_variable = client.timeout_variable;
  max_bytes_variable = client.max_bytes_variable;
  max_redirects_variable = client.max_redirects_variable;
  allowlist_variable = client.allowlist_variable;
  homedir = client.homedir;
  platform = client.platform;
  encode_uri_component = client.encode_uri_component;
  parse_copy = client.parse_copy;
  print_copy = client.print_copy;
  mkdir = client.mkdir;
  read_file = client.read_file;
  write_file = client.write_file;
  http_get = get;
}

-- Two continuations that agree on what is returned.
resume_cong :
    {W A B : Type 0} (f g : A → Io W B) (r : Result A × W)
    → ((a : A) (v : W) → r ≡ (ok a, v) → f a v ≡ g a v)
    → resume f r ≡ resume g r
resume_cong f g (ok a, v) h = h a v refl
resume_cong f g (err e, v) h = refl

>>=-cong :
    {W A B : Type 0} (m : Io W A) (f g : A → Io W B) (w : W)
    → ((a : A) (v : W) → m w ≡ (ok a, v) → f a v ≡ g a v)
    → (m >>= f) w ≡ (m >>= g) w
unfolding ◌>>=◌
>>=-cong m f g w h = resume_cong f g (m w) h

of_result-ok :
    {W A : Type 0} (r : Result A) (a : A) (w v : W) → of_result r w ≡ (ok a, v) → r ≡ ok a
unfolding of_result
of_result-ok r a w v h = cc

parsed_url-ok : (o : Option Url) (from : Url) → parsed_url o ≡ ok from → o ≡ some from
parsed_url-ok none from h = cc
parsed_url-ok (some url) from h = cc

module _ {W : Type 0} (p : Packages) (client : Client W) (url : Text) where
  request_to-IsGuarded :
      (from : Url) (list : List Pattern) (headers : List (Text × Text))
      → client.platform.parse_url url ≡ some from
      → get_redirect_allowlist p client ≡ ok list
      → IsGuarded p client (request_to p client url from list headers)
  unfolding request_to
  request_to-IsGuarded from list headers parsed listed = record {
    timed = get_http_timeout_ms-IsPositive client.timeout_variable;
    content_capped = get_max_http_bytes-IsPositive client.max_bytes_variable;
    body_capped = get_max_http_bytes-IsPositive client.max_bytes_variable;
    redirects_capped = get_max_redirects-IsFinite client.max_redirects_variable;
    from = from;
    list = list;
    parsed = parsed;
    listed = listed;
    followed = before_redirect-IsFollowed client.platform url from list;
  }

  module _ (get : Request → Io W Response)
      (agree : (r : Request) (w : W) → IsGuarded p client r → client.http_get r w ≡ get r w) where
    request_eq :
        (from : Url) (list : List Pattern) (headers : List (Text × Text)) (path : Text)
        → client.platform.parse_url url ≡ some from
        → get_redirect_allowlist p client ≡ ok list
        → (o : Option Copy) (w : W)
        → request p client url from list headers path o w
          ≡ request p (with_get client get) url from list headers path o w
    unfolding request request_to attempt ◌>>=◌
    request_eq from list headers path parsed listed o w =
        let sent = request_to p client url from list (conditional_headers o ++ headers) in
        ap (λ r. rescue (fall_back p client o) (resume (accept p client path o) r))
          (agree sent w
            (request_to-IsGuarded from list (conditional_headers o ++ headers) parsed listed))

module _ {W : Type 0} (p : Packages) (client : Client W) (url : Text)
    (headers : List (Text × Text)) where
  -- The rest of a fetch behind each of its steps, where `c` sends the request.
  abbrev behind_url : Client W → Option Copy → List Pattern → Url → Io W Text
  behind_url c cached list from = request p c url from list headers (cache_path p client url) cached

  abbrev behind_list : Client W → Option Copy → List Pattern → Io W Text
  behind_list c cached list =
      of_result (parsed_url (client.platform.parse_url url)) >>= behind_url c cached list

  abbrev behind_copy : Client W → Option Copy → Io W Text
  behind_copy c cached = of_result (get_redirect_allowlist p client) >>= behind_list c cached

  abbrev behind_dir : Client W → Unit {0} → Io W Text
  behind_dir c x = read_cache p client (cache_path p client url) >>= behind_copy c

  -- A fetch sends guarded requests only: with any two ways to send requests that agree on the guarded ones, it
  -- ends alike, in the same world.
  pub fetch_once-guarded :
      (get : Request → Io W Response)
      → ((r : Request) (w : W) → IsGuarded p client r → client.http_get r w ≡ get r w)
      → (w : W)
      → fetch_once p client url headers w ≡ fetch_once p (with_get client get) url headers w
  unfolding fetch_once read_cache cache_path
  fetch_once-guarded get agree w =
      let other = with_get client get in
      >>=-cong (ensure_dir client.mkdir (get_cache_directory p client)) (behind_dir client)
        (behind_dir other) w
        (λ x v0 _.
          >>=-cong (read_cache p client (cache_path p client url)) (behind_copy client)
            (behind_copy other) v0
            (λ cached v1 _.
              >>=-cong (of_result (get_redirect_allowlist p client)) (behind_list client cached)
                (behind_list other cached) v1
                (λ list v2 l.
                  >>=-cong (of_result (parsed_url (client.platform.parse_url url)))
                    (behind_url client cached list) (behind_url other cached list) v2
                    (λ from v3 u.
                      request_eq p client url get agree from list headers (cache_path p client url)
                        (parsed_url-ok _ from
                          (of_result-ok (parsed_url (client.platform.parse_url url)) from v2 v3 u))
                        (of_result-ok (get_redirect_allowlist p client) list v1 v2 l) cached v3))))
