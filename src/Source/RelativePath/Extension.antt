-- ===== src/Source/RelativePath/Extension.antt =====
-- Which candidates `tryWithExtension` tries.
use dockerfile_x.Common.{
  ◌≡◌, Option, none, some, List, [], ◌∷◌, ◌++◌, append_assoc, Text, arith, if◌then◌else◌, same, ◌∙◌,
  refl, Bool-cases, inl, inr,
}
use dockerfile_x.Errors.{Result, ok, err}
use dockerfile_x.Names.{extname}
use dockerfile_x.Source.RelativePath.{try_with_extension, second_try}

-- The second candidate, where there is one: an extension that is not empty and that the path lacks.
abbrev pub second_candidate : Text → Option Text → Option Text
second_candidate path none = none
second_candidate path (some []) = none
second_candidate path (some (c ∷ ext)) =
    if same (extname path) (c ∷ ext) then none else some (path ++ c ∷ ext)

module _ {A : Type 0} (content : Text → Option A) where
  -- A lookup in a fixed store that logs what it is asked for.
  abbrev pub logged : Text → List Text → Result (Option A) × List Text
  logged candidate log = (ok (content candidate), log ++ candidate ∷ [])

  -- What the candidates give, and the log, in terms of the store.
  abbrev pub expected : Text → Option A → Option Text → List Text → Result (Option A) × List Text
  expected path (some a) candidate log = (ok (some a), log ++ path ∷ [])
  expected path none none log = (ok none, log ++ path ∷ [])
  expected path none (some candidate) log = (ok (content candidate), log ++ path ∷ candidate ∷ [])

  -- The path is tried once; if it is missed, and only then, the second candidate is tried once, if there
  -- is one; nothing else is tried, and the first hit is the result, whatever it holds.
  try_with_extension-expected :
      (path : Text) (extension : Option Text) (log : List Text)
      → try_with_extension logged path extension log
        ≡ expected path (content path) (second_candidate path extension) log
  unfolding try_with_extension
  try_with_extension-expected path none log = ground arith
  try_with_extension-expected path (some []) log = ground arith
  try_with_extension-expected path (some (c ∷ ext)) log =
      ground (arith, append_assoc log (path ∷ []) ((path ++ c ∷ ext) ∷ []))

module _ {W A : Type 0} (try_fn : Text → W → Result (Option A) × W) where
  -- A hit is that of a candidate, and it is the last call.
  abbrev pub Hits : A → W → Type 0
  Hits a w' = (candidate : Text) × (v : W) × (try_fn candidate v ≡ (ok (some a), w'))

  second_try-Hits :
      (path : Text) (extension : Option Text) (w : W) (r : Result (Option A)) (v : W) (a : A)
      (w' : W)
      → try_fn path w ≡ (r, v)
      → second_try try_fn path extension (r, v) ≡ (ok (some a), w')
      → Hits a w'
  second_try-Hits path extension w (err e) v a w' k h = cc
  second_try-Hits path extension w (ok (some b)) v a w' k h = (path, w, k ∙ h)
  second_try-Hits path none w (ok none) v a w' k h = cc
  second_try-Hits path (some []) w (ok none) v a w' k h = cc
  second_try-Hits path (some (c ∷ ext)) w (ok none) v a w' k h =
      elim (Bool-cases (same (extname path) (c ∷ ext))) [
        | inl e ↦ cc (rw e at h)
        | inr e ↦ (path ++ c ∷ ext, v, rw e at h)
      ]

  pub try_with_extension-Hits :
      (path : Text) (extension : Option Text) (w w' : W) (a : A)
      → try_with_extension try_fn path extension w ≡ (ok (some a), w')
      → Hits a w'
  unfolding try_with_extension
  try_with_extension-Hits path extension w w' a h =
      second_try-Hits path extension w (try_fn path w).0 (try_fn path w).1 a w' refl h
