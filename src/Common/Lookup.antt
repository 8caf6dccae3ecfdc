-- ===== src/Common/Lookup.antt =====
-- A map as an association list.
use dockerfile_x.Common.{Option, none, some, List, [], ◌∷◌, Text, if◌then◌else◌, same}

-- `map.get(key)`
unfoldable pub find {ℓ} : {A : Type ℓ} → Text → List (Text × A) → Option A
unfolding same
find k [] = none
find k ((j, a) ∷ l) = let later = find k l in if same k j then some a else later
