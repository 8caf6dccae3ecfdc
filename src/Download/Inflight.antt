-- ===== src/Download/Inflight.antt =====
-- src/lib/downloadWithCache.js: the map of running fetches, as a machine whose steps are the calls of
-- `downloadWithCache` and the fetches that settle.
pub mod Shared
use dockerfile_x.Common.{
  ℕ, suc, Bool, true, false, Option, none, some, List, [], ◌∷◌, ◌++◌, Text, if◌then◌else◌, same,
  to_lower,
}

-- `inflightKey(url, headers)`, for the entries of `headers` sorted by name; `stringify` is `JSON.stringify`.
unfoldable pub inflight_key : (List (Text × Text) → Text) → Text → List (Text × Text) → Text
unfolding to_lower
inflight_key stringify url [] = url
inflight_key stringify url (h ∷ headers) = url ++ 10 ∷ stringify (lowered (h ∷ headers))
  where
    lowered : List (Text × Text) → List (Text × Text)
    lowered [] = []
    lowered ((name, value) ∷ l) = (to_lower name, value) ∷ lowered l

-- The map from keys to promises, the fetches that run, each with its key and promise, and the number of
-- promises that were made.
pub record Fetches : Type 0 where
  pub inflight : List (Text × ℕ)
  pub running : List (Text × ℕ)
  pub made : ℕ

-- `inflight.get(key)`
unfoldable pub lookup : Text → List (Text × ℕ) → Option ℕ
unfolding same
lookup key [] = none
lookup key ((k, promise) ∷ l) =
    let later = lookup key l in if same key k then some promise else later

-- `inflight.delete(key)`
unfoldable pub delete : Text → List (Text × ℕ) → List (Text × ℕ)
unfolding same
delete key [] = []
delete key ((k, promise) ∷ l) =
    let rest = delete key l in if same key k then rest else (k, promise) ∷ rest

-- A fetch that is started, and put into the map.
abbrev pub start_fetch : Text → Fetches → Fetches
start_fetch key s = record {
  inflight = (key, s.made) ∷ s.inflight;
  running = (key, s.made) ∷ s.running;
  made = suc s.made;
}

abbrev pub join_or_start : Text → Fetches → Option ℕ → ℕ × Fetches
join_or_start key s (some promise) = (promise, s)
join_or_start key s none = (s.made, start_fetch key s)

-- `downloadWithCache` at a key: the promise that is returned, and the state.
unfoldable pub download : Text → Fetches → ℕ × Fetches
unfolding lookup
download key s = join_or_start key s (lookup key s.inflight)

abbrev pub idle : ℕ → Fetches
idle n = record { inflight = []; running = []; made = n }

-- One step: a call, or the end of a fetch, whose `finally` takes its key out of the map.
pub data Step : Fetches → Fetches → Type 0 where
  called : (key : Text) (s : Fetches) → Step s (download key s).1
  settled :
      (before behind inflight : List (Text × ℕ)) (key : Text) (promise made : ℕ)
      → Step
          (record { inflight = inflight; running = before ++ (key, promise) ∷ behind; made = made })
          (record { inflight = delete key inflight; running = before ++ behind; made = made })

-- Any number of steps.
pub data Steps : Fetches → Fetches → Type 0 where
  stay : (s : Fetches) → Steps s s
  further : (s t u : Fetches) → Steps s t → Step t u → Steps s u
