-- ===== src/Download/Cache/Fresh.antt =====
-- When a download is fresh, and when it is the copy.
use dockerfile_x.Common.{
  ◌≡◌, refl, ap, ◌∙◌, true, Option, none, some, List, ◌++◌, Text, codes, ◌==◌, ◌≤◌, length,
  Bool-cases, inl, inr, arith, length-append, length-take, take,
}
use dockerfile_x.Errors.{Thrown, Result, ok, err}
use dockerfile_x.Io.{Io, returns, throws, attempt, rescue, ◌>>=◌, >>=-ok}
use dockerfile_x.Names.{short_hash}
use dockerfile_x.Packages.{Packages}
use dockerfile_x.Download.Redirects.{Pattern, Url}
use dockerfile_x.Download.Cache.{
  Copy, Response, Client, copy_of, is_network_error, conditional_headers, cache_filename,
  cache_path, write_cache, store, accept, fall_back, request_to, request,
}

module _ {W : Type 0} (p : Packages) (client : Client W) (url : Text) (from : Url)
    (list : List Pattern) (headers : List (Text × Text)) (cached : Option Copy) where
  abbrev path : Text
  path = cache_path p client url

  abbrev pub asked : Io W Response
  unfolding request_to
  asked =
      client.http_get (request_to p client url from list (conditional_headers cached ++ headers))

  -- The request and what is done with its answer.
  abbrev answered : Io W Text
  answered = asked >>= accept p client path cached

  -- Where the text of a request comes from.
  pub data IsServed (w w' : W) (text : Text) : Type 0 where
    -- A new answer, which was written to the cache with its validators.
    fresh :
        (response : Response) (v : W)
        → asked w ≡ (ok response, v)
        → client.write_file path (client.print_copy (copy_of response)) v ≡ (ok tt, w')
        → text ≡ response.content_of
        → IsServed w w' text
    -- The copy, which the server said is not modified.
    not_modified :
        (copy : Copy) (response : Response)
        → cached ≡ some copy
        → asked w ≡ (ok response, w')
        → (response.status == 304) ≡ true
        → text ≡ copy.content
        → IsServed w w' text
    -- The copy, where the server cannot be reached.
    stale :
        (copy : Copy) (e : Thrown)
        → cached ≡ some copy
        → answered w ≡ (err e, w')
        → is_network_error e ≡ true
        → text ≡ copy.content
        → IsServed w w' text

  returned :
      (a : Text) (v w' : W) (t : Text) → returns {W = W} a v ≡ (ok t, w') → (t ≡ a) × (v ≡ w')
  unfolding returns
  returned a v w' t h = (cc, cc)

  store-ok :
      (response : Response) (v w' : W) (text : Text)
      → store p client path response v ≡ (ok text, w')
      → (client.write_file path (client.print_copy (copy_of response)) v ≡ (ok tt, w'))
        × (text ≡ response.content_of)
  unfolding store returns
  store-ok response v w' text h =
      let (u, x, h0, k0) = >>=-ok (write_cache p client path (copy_of response)) _ v h in
      (h0 ∙ cc, cc)

  accept-IsServed :
      (o : Option Copy) (response : Response) (w v w' : W) (text : Text)
      → cached ≡ o
      → asked w ≡ (ok response, v)
      → accept p client path o response v ≡ (ok text, w')
      → IsServed w w' text
  unfolding accept returns
  accept-IsServed none response w v w' text e h k =
      let (kept, same_text) = store-ok response v w' text k in fresh response v h kept same_text
  accept-IsServed (some copy) response w v w' text e h k =
      elim (Bool-cases (response.status == 304)) [
        | inl c ↦
            let (t, x) = returned copy.content v w' text (rw c at k) in
            not_modified copy response e (h ∙ ap (λ y. (ok response, y)) x) c t
        | inr c ↦
            let (kept, same_text) = store-ok response v w' text (rw c at k) in
            fresh response v h kept same_text
      ]

  fall_back-IsServed :
      (o : Option Copy) (e : Thrown) (w v w' : W) (text : Text)
      → cached ≡ o
      → answered w ≡ (err e, v)
      → fall_back p client o e v ≡ (ok text, w')
      → IsServed w w' text
  unfolding fall_back returns throws
  fall_back-IsServed none e w v w' text c h k = cc
  fall_back-IsServed (some copy) e w v w' text c h k = elim (Bool-cases (is_network_error e)) [
    | inl n ↦
        let (t, x) = returned copy.content v w' text (rw n at k) in
        stale copy e c (h ∙ ap (λ y. (err e, y)) x) n t
    | inr n ↦ cc (rw n at k)
  ]

  rescued-IsServed :
      (r : Result Text) (w v w' : W) (text : Text)
      → answered w ≡ (r, v)
      → rescue (fall_back p client cached) (r, v) ≡ (ok text, w')
      → IsServed w w' text
  rescued-IsServed (ok t) w v w' text h k =
      let (response, x, h0, k0) = >>=-ok asked (accept p client path cached) w (h ∙ k) in
      accept-IsServed cached response w x w' text refl h0 k0
  rescued-IsServed (err e) w v w' text h k = fall_back-IsServed cached e w v w' text refl h k

  -- Where a request returns, its text is that of a new answer, which is in the cache with its validators; or the
  -- copy, which the server says is not modified; or the copy, where the network failed.
  pub request-IsServed :
      (w w' : W) (text : Text)
      → request p client url from list headers path cached w ≡ (ok text, w')
      → IsServed w w' text
  unfolding request attempt
  request-IsServed w w' text h = rescued-IsServed (answered w).0 w (answered w).1 w' text refl h

-- The name of a file in the cache has at most 200 units, whatever the address.
cache_filename_bound :
    (p : Packages) (encode : Text → Text) (url : Text) → length (cache_filename p encode url) ≤ 200
unfolding cache_filename short_hash
cache_filename_bound p encode url =
    ground
      (arith, length-append (codes "h-") (take 16 (p.sha256 url)), length-take 16 (p.sha256 url))
