-- ===== src/Prelude/Dicts.antt =====
-- A JavaScript object used as a dictionary, and a `Map` with text keys: an association list in
-- insertion order, where a write to a present key keeps its place.
use Prim.Native.String.{String}
use mathlib.Core.Path.{◌≡◌, refl, ap}
use mathlib.Core.Logic.{inl, inr}
use mathlib.Core.Bool.{Bool, true, false, ◌||◌}
use mathlib.Core.Option.{Option, none, some}
use mathlib.Core.List.{List, [], ◌∷◌, ◌++◌, map}
use native.Mathlib.Omega.{arith}
use text.Mathlib.Text.{◌==◌}
use text.Mathlib.TextEquality.{eq_iff}
use datasheet_to_tscircuit.Prelude.Tests.{if◌then◌else◌, Bool-cases}

abbrev pub Dict {ℓ} : Type ℓ → Type ℓ
Dict V = List (String × V)

module _ {ℓ} {V : Type ℓ} where
  abbrev pub keys : Dict V → List String
  keys m = map (λ e. e.0) m

  unfoldable pub lookup : String → Dict V → Option V
  lookup k [] = none
  lookup k ((j, v) ∷ m) = if j == k then some v else lookup k m

  unfoldable pub has_key : String → Dict V → Bool
  has_key k [] = false
  has_key k ((j, v) ∷ m) = j == k || has_key k m

  unfoldable pub put : String → V → Dict V → Dict V
  put k v [] = (k, v) ∷ []
  put k v ((j, w) ∷ m) = if j == k then (j, v) ∷ m else (j, w) ∷ put k v m

  -- `map.delete(k)`: a `Map` has one entry for a key.
  unfoldable pub remove : String → Dict V → Dict V
  remove k [] = []
  remove k ((j, w) ∷ m) = let rest = remove k m in if j == k then rest else (j, w) ∷ rest

  pub lookup-put :
      (k j : String) (v : V) (m : Dict V)
      → lookup j (put k v m) ≡ (if k == j then some v else lookup j m)
  unfolding lookup put
  lookup-put k j v [] = refl
  lookup-put k j v ((i, w) ∷ m) =
      ground (arith, eq_iff k j, eq_iff i k, eq_iff i j, lookup-put k j v m)

  pub lookup-remove :
      (k j : String) (m : Dict V) → lookup j (remove k m) ≡ (if k == j then none else lookup j m)
  unfolding lookup remove
  lookup-remove k j [] = ground arith
  lookup-remove k j ((i, w) ∷ m) =
      ground (arith, eq_iff k j, eq_iff i k, eq_iff i j, lookup-remove k j m)

  pub keys-put_present :
      (k : String) (v : V) (m : Dict V) → has_key k m ≡ true → keys (put k v m) ≡ keys m
  unfolding has_key put
  keys-put_present k v [] h = ground arith
  keys-put_present k v ((j, w) ∷ m) h = ground (arith, keys-put_present k v m)

  pub has_key-put :
      (k j : String) (v : V) (m : Dict V) → has_key j m ≡ true → has_key j (put k v m) ≡ true
  unfolding has_key put
  has_key-put k j v [] h = ground arith
  has_key-put k j v ((i, w) ∷ m) h = ground (arith, has_key-put k j v m)

  pub lookup_of_has_key :
      (k : String) (m : Dict V) → has_key k m ≡ true → (v : V) × (lookup k m ≡ some v)
  unfolding has_key lookup
  lookup_of_has_key k [] h = ground arith
  lookup_of_has_key k ((j, w) ∷ m) h = elim (Bool-cases (j == k)) [
    | inl e ↦ (w, rw e)
    | inr e ↦ rw e (lookup_of_has_key k m (rw (e, has_key) at h))
  ]

  -- A later write to a key covers an earlier one.
  pub put-put : (k : String) (v w : V) (m : Dict V) → put k w (put k v m) ≡ put k w m
  unfolding put
  put-put k v w [] = ground (arith, eq_iff k k)
  put-put k v w ((i, u) ∷ m) = ground (arith, put-put k v w m)

  pub lookup-append :
      (k : String) (xs ys : Dict V)
      → lookup k (xs ++ ys) ≡ elim (lookup k xs) [ none ↦ lookup k ys | some v ↦ some v ]
  unfolding lookup
  lookup-append k [] ys = refl
  lookup-append k ((j, w) ∷ xs) ys = ground (arith, lookup-append k xs ys)

  pub has_key-append :
      (k : String) (xs ys : Dict V) → has_key k (xs ++ ys) ≡ (has_key k xs || has_key k ys)
  unfolding has_key
  has_key-append k [] ys = refl
  has_key-append k ((j, w) ∷ xs) ys = ground (arith, has_key-append k xs ys)

  -- A write behind entries of other keys.
  pub put-append :
      (k : String) (v w : V) (xs ys : Dict V)
      → has_key k xs ≡ false
      → put k v (xs ++ (k, w) ∷ ys) ≡ xs ++ (k, v) ∷ ys
  unfolding has_key put
  put-append k v w [] ys h = ground (arith, eq_iff k k)
  put-append k v w ((j, u) ∷ xs) ys h = ground (arith, put-append k v w xs ys)

  pub has_key_of_lookup :
      (k : String) (m : Dict V) (v : V) → lookup k m ≡ some v → has_key k m ≡ true
  unfolding has_key lookup
  has_key_of_lookup k [] v h = cc
  has_key_of_lookup k ((j, w) ∷ m) v h = ground (arith, has_key_of_lookup k m v)

  pub lookup-none : (k : String) (m : Dict V) → has_key k m ≡ false → lookup k m ≡ none
  unfolding has_key lookup
  lookup-none k [] h = refl
  lookup-none k ((j, w) ∷ m) h = ground (arith, lookup-none k m)

  pub put_new :
      (k : String) (v : V) (m : Dict V) → has_key k m ≡ false → put k v m ≡ m ++ (k, v) ∷ []
  unfolding put has_key
  put_new k v [] h = refl
  put_new k v ((j, w) ∷ m) h = ground (arith, put_new k v m)

  pub keys-append : (xs ys : Dict V) → keys (xs ++ ys) ≡ keys xs ++ keys ys
  keys-append [] ys = refl
  keys-append ((j, w) ∷ xs) ys = ap (λ l. j ∷ l) (keys-append xs ys)

  pub has_key-remove :
      (k j : String) (m : Dict V) → has_key j (remove k m) ≡ (if k == j then false else has_key j m)
  unfolding has_key remove
  has_key-remove k j [] = ground arith
  has_key-remove k j ((i, w) ∷ m) =
      ground (arith, eq_iff k j, eq_iff i k, eq_iff i j, has_key-remove k j m)

  pub has_key-put_own : (k : String) (v : V) (m : Dict V) → has_key k (put k v m) ≡ true
  unfolding has_key put
  has_key-put_own k v [] = ground (arith, eq_iff k k)
  has_key-put_own k v ((i, w) ∷ m) = ground (arith, eq_iff i k, has_key-put_own k v m)

  -- `new Map(entries)`
  unfoldable pub put_all : Dict V → Dict V → Dict V
  unfolding put
  put_all [] m = m
  put_all ((j, v) ∷ entries) m = put_all entries (put j v m)
