-- ===== src/Base/OrderedMap.antt =====
-- std::map: an association list in the order of its keys.
use mtop.Base.{Bool, List, [], ◌∷◌, Option, none, some, if◌then◌else◌}

module _ {K V : Type 0} where
  unfoldable pub find_key : (K → K → Bool) → K → List (K × V) → Option V
  find_key eq k [] = none
  find_key eq k ((j, v) ∷ m) = if eq j k then some v else find_key eq k m

  -- m[k] = v
  unfoldable pub put : (K → K → Bool) → (K → K → Bool) → K → V → List (K × V) → List (K × V)
  put eq lt k v [] = (k, v) ∷ []
  put eq lt k v ((j, w) ∷ m) =
      if eq j k
      then (k, v) ∷ m
      else if lt k j
      then (k, v) ∷ (j, w) ∷ m
      else (j, w) ∷ put eq lt k v m

  -- A change of the value m[k], which starts as `fresh` if the key is new.
  unfoldable pub upsert :
      (K → K → Bool) → (K → K → Bool) → K → V → (V → V) → List (K × V) → List (K × V)
  upsert eq lt k fresh f [] = (k, f fresh) ∷ []
  upsert eq lt k fresh f ((j, w) ∷ m) =
      if eq j k
      then (j, f w) ∷ m
      else if lt k j
      then (k, f fresh) ∷ (j, w) ∷ m
      else (j, w) ∷ upsert eq lt k fresh f m
