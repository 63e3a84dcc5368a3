-- ===== src/Base/MapLaws.antt =====
-- What a lookup finds after a write to a std::map.
use mtop.Base.{Bool, true, ◌≡◌, ◌≢◌, refl, List, [], ◌∷◌, some, arith}
use mtop.Base.OrderedMap.{find_key, put}

-- `eq` decides equality.
pub record Decides {K : Type 0} (eq : K → K → Bool) : Type 0 where
  pub same : (k : K) → eq k k ≡ true
  pub equal : (j k : K) → eq j k ≡ true → j ≡ k

module _ {K V : Type 0} (eq lt : K → K → Bool) ⦃law : Decides eq⦄ where
  pub find_key-put_same :
      (k : K) (v : V) (m : List (K × V)) → find_key eq k (put eq lt k v m) ≡ some v
  unfolding find_key put
  find_key-put_same k v [] = rw (law.same k) refl
  find_key-put_same k v ((j, w) ∷ m) = ground (arith, law.same k, find_key-put_same k v m)

  pub find_key-put_other :
      (k q : K) (v : V) (m : List (K × V))
      → k ≢ q
      → find_key eq q (put eq lt k v m) ≡ find_key eq q m
  unfolding find_key put
  find_key-put_other k q v [] h = ground (arith, law.equal k q)
  find_key-put_other k q v ((j, w) ∷ m) h =
      ground (arith, law.equal k q, law.equal j k, law.equal j q, find_key-put_other k q v m h)
