-- ===== src/Download/Inflight/Shared.antt =====
-- Concurrent downloads of one key share one fetch.
use dockerfile_x.Common.{
  ℕ, ◌≡◌, refl, sym, ap, subst, ◌∙◌, Bool, true, false, ◌||◌, Option, none, some, List, [], ◌∷◌,
  ◌++◌, Text, includes, same, same_refl, arith,
}
use dockerfile_x.Download.Inflight.{
  Fetches, lookup, delete, start_fetch, join_or_start, download, idle, Step, called, settled, Steps,
  stay, further,
}

-- Whether a key is in a list.
abbrev holds : Text → List (Text × ℕ) → Bool
unfolding same
holds key [] = false
holds key ((k, promise) ∷ l) = same key k || holds key l

-- No key stands twice.
abbrev pub AreDistinct : List (Text × ℕ) → Type 0
unfolding holds
AreDistinct [] = Unit
AreDistinct ((k, promise) ∷ l) = (holds k l ≡ false) × AreDistinct l

-- The map holds the fetches that run, and no two of them have the same key.
pub record IsCoherent (s : Fetches) : Type 0 where
  pub exact : s.inflight ≡ s.running
  pub one_each : AreDistinct s.running

same_sym : (s t : Text) → same s t ≡ same t s
unfolding same
same_sym [] [] = refl
same_sym [] (b ∷ t) = refl
same_sym (a ∷ s) [] = refl
same_sym (a ∷ s) (b ∷ t) = ground (arith, same_sym s t)

delete_other : (key : Text) (l : List (Text × ℕ)) → holds key l ≡ false → delete key l ≡ l
unfolding delete holds
delete_other key [] h = refl
delete_other key ((k, promise) ∷ l) h = rw (delete_other key l (ground arith)) (ground arith)

holds-append :
    (key : Text) (l m : List (Text × ℕ)) → holds key (l ++ m) ≡ (holds key l || holds key m)
unfolding holds
holds-append key [] m = refl
holds-append key ((k, promise) ∷ l) m = ground (arith, holds-append key l m)

-- The delete of the key of one fetch takes that fetch alone.
delete_one :
    (l m : List (Text × ℕ)) (key : Text) (promise : ℕ)
    → AreDistinct (l ++ (key, promise) ∷ m)
    → (delete key (l ++ (key, promise) ∷ m) ≡ l ++ m) × AreDistinct (l ++ m)
unfolding delete AreDistinct holds
delete_one [] m key promise (h, d) = (rw (same_refl key) (delete_other key m h), d)
delete_one ((k, q) ∷ l) m key promise (h, d) =
    let (e, rest) = delete_one l m key promise d in
    let whole : (holds k l || (same k key || holds k m)) ≡ false =
      sym (holds-append k l ((key, promise) ∷ m)) ∙ h in
    let other : same key k ≡ false = same_sym key k ∙ ground arith in
    let front : holds k (l ++ m) ≡ false = holds-append k l m ∙ ground arith in
    (rw (other, e) refl, (front, rest))

lookup-none : (key : Text) (l : List (Text × ℕ)) → lookup key l ≡ none → holds key l ≡ false
unfolding lookup holds
lookup-none key [] h = refl
lookup-none key ((k, promise) ∷ l) h = ground (arith, lookup-none key l)

start_fetch-IsCoherent :
    (key : Text) (s : Fetches)
    → lookup key s.inflight ≡ none
    → IsCoherent s
    → IsCoherent (start_fetch key s)
unfolding AreDistinct
start_fetch-IsCoherent key s h c = record {
  exact = ap (◌∷◌ (key, s.made)) c.exact;
  one_each = (subst (λ l. holds key l ≡ false) c.exact (lookup-none key s.inflight h), c.one_each);
}

join_or_start_fetch-IsCoherent :
    (key : Text) (s : Fetches) (o : Option ℕ)
    → lookup key s.inflight ≡ o
    → IsCoherent s
    → IsCoherent (join_or_start key s o).1
join_or_start_fetch-IsCoherent key s (some promise) h c = c
join_or_start_fetch-IsCoherent key s none h c = start_fetch-IsCoherent key s h c

Step-IsCoherent : {s t : Fetches} → Step s t → IsCoherent s → IsCoherent t
unfolding download
Step-IsCoherent (called key s) c =
    join_or_start_fetch-IsCoherent key s (lookup key s.inflight) refl c
Step-IsCoherent (settled before behind inflight key promise made) c =
    let (e, d) = delete_one before behind key promise c.one_each in
    record { exact = ap (delete key) c.exact ∙ e; one_each = d }

-- From an idle start, after any calls and ends of fetches, the map holds exactly the fetches that run, and no
-- two of them have one key.
pub Steps-IsCoherent : {n : ℕ} {t : Fetches} → Steps (idle n) t → IsCoherent t
unfolding AreDistinct
Steps-IsCoherent (stay s) = record { exact = refl; one_each = tt }
Steps-IsCoherent (further s t u steps step) = Step-IsCoherent step (Steps-IsCoherent steps)

-- The keys that are fetched.
abbrev pub keys : List (Text × ℕ) → List Text
keys [] = []
keys ((k, promise) ∷ l) = k ∷ keys l

-- What callers can count on: a call shares the fetch of its key, or starts one where none runs; an end takes
-- one key away.
pub data SpecStep : List Text → List Text → Type 0 where
  shared : (key : Text) (l : List Text) → includes key l ≡ true → SpecStep l l
  opened : (key : Text) (l : List Text) → includes key l ≡ false → SpecStep l (key ∷ l)
  closed :
      (before behind : List Text) (key : Text)
      → SpecStep (before ++ key ∷ behind) (before ++ behind)

keys-append : (l m : List (Text × ℕ)) → keys (l ++ m) ≡ keys l ++ keys m
keys-append [] m = refl
keys-append ((k, promise) ∷ l) m = ap (◌∷◌ k) (keys-append l m)

includes-keys : (key : Text) (l : List (Text × ℕ)) → includes key (keys l) ≡ holds key l
unfolding includes holds
includes-keys key [] = refl
includes-keys key ((k, promise) ∷ l) = ground (arith, includes-keys key l)

lookup-some :
    (key : Text) (l : List (Text × ℕ)) (promise : ℕ)
    → lookup key l ≡ some promise
    → holds key l ≡ true
unfolding lookup holds
lookup-some key [] promise h = cc
lookup-some key ((k, p) ∷ l) promise h = ground (arith, lookup-some key l promise)

download-SpecStep :
    (key : Text) (s : Fetches) (o : Option ℕ)
    → lookup key s.inflight ≡ o
    → s.inflight ≡ s.running
    → SpecStep (keys s.running) (keys (join_or_start key s o).1.running)
download-SpecStep key s (some promise) h e = shared key _ (
    includes-keys key s.running
    ∙ subst (λ l. holds key l ≡ true) e (lookup-some key s.inflight promise h))
download-SpecStep key s none h e = opened key _ (
    includes-keys key s.running ∙ subst (λ l. holds key l ≡ false) e (lookup-none key s.inflight h))

Step-SpecStep_at :
    {s t : Fetches} → Step s t → IsCoherent s → SpecStep (keys s.running) (keys t.running)
unfolding download
Step-SpecStep_at (called key s) c = download-SpecStep key s (lookup key s.inflight) refl c.exact
Step-SpecStep_at (settled before behind inflight key promise made) c =
    subst (λ l. SpecStep l (keys (before ++ behind)))
      (sym (keys-append before ((key, promise) ∷ behind)))
      (subst (SpecStep (keys before ++ key ∷ keys behind)) (sym (keys-append before behind))
        (closed (keys before) (keys behind) key))

-- From an idle start, each step of the machine is one of the specification on the keys that are fetched.
pub Step-SpecStep :
    {n : ℕ} {s t : Fetches}
    → Steps (idle n) s
    → Step s t
    → SpecStep (keys s.running) (keys t.running)
Step-SpecStep steps step = Step-SpecStep_at step (Steps-IsCoherent steps)

Steps-cons : (s : Fetches) {t u : Fetches} → Step s t → Steps t u → Steps s u
Steps-cons s step (stay t) = further s s t (stay s) step
Steps-cons s step (further t v u steps last) = further s v u (Steps-cons s step steps) last

-- The state in which the map holds exactly the fetches of a list.
abbrev exactly : List (Text × ℕ) → ℕ → Fetches
exactly l n = record { inflight = l; running = l; made = n }

drained : (l : List (Text × ℕ)) (n : ℕ) → AreDistinct l → Steps (exactly l n) (idle n)
unfolding AreDistinct
drained [] n d = stay (idle n)
drained ((k, promise) ∷ l) n d =
    let gone = (delete_one [] l k promise d).0 in
    let step = settled [] l ((k, promise) ∷ l) k promise n in
    Steps-cons (exactly ((k, promise) ∷ l) n)
      (subst
        (λ m. Step (exactly ((k, promise) ∷ l) n) (record { inflight = m; running = l; made = n }))
        gone step)
      (drained l n d.1)

-- From any state that is reached from an idle start, the ends of the fetches that run lead to the state where
-- none runs and the map is empty: no key is left behind.
pub Steps-idle : {n : ℕ} (t : Fetches) → Steps (idle n) t → Steps t (idle t.made)
Steps-idle t steps =
    let c = Steps-IsCoherent steps in
    subst (λ l. Steps (record { inflight = l; running = t.running; made = t.made }) (idle t.made))
      (sym c.exact) (drained t.running t.made c.one_each)
