-- ===== src/Prelude/Sets.antt =====
-- Lists of texts used as sets, as `Set<string>` and `Array.includes` are.
use Prim.Native.String.{String}
use mathlib.Core.Path.{◌≡◌, refl}
use mathlib.Core.Logic.{◌↔◌, ◌⊎◌}
use mathlib.Core.Bool.{Bool, true, false, ◌||◌}
use mathlib.Core.List.{List, [], ◌∷◌, ◌++◌}
use native.Mathlib.Omega.{arith}
use text.Mathlib.Text.{◌==◌}
use text.Mathlib.TextEquality.{eq_iff}
use Prim.Native.Nat.{ℕ, suc}
use datasheet_to_tscircuit.Prelude.Lists.{fold_at}
use datasheet_to_tscircuit.Prelude.Tests.{if◌then◌else◌}

unfoldable pub member : String → List String → Bool
member x [] = false
member x (y ∷ ys) = y == x || member x ys

-- `set.add(x)`
unfoldable pub add : String → List String → List String
unfolding member
add x ys = if member x ys then ys else ys ++ x ∷ []

-- `set.delete(x)`
unfoldable pub discard : String → List String → List String
discard x [] = []
discard x (y ∷ ys) = let rest = discard x ys in if y == x then rest else y ∷ rest

-- Membership as a type that computes.
abbrev pub In : {A : Type 0} → A → List A → Type 0
In x [] = ⊥
In x (y ∷ ys) = (y ≡ x) ⊎ In x ys

module _ {ℓ κ} {A : Type ℓ} (P : A → Type κ) where
  abbrev pub All : List A → Type κ
  All [] = Unit
  All (x ∷ xs) = P x × All xs

-- No text occurs twice.
abbrev pub Distinct : List String → Type 0
Distinct [] = Unit
Distinct (x ∷ xs) = (member x xs ≡ false) × Distinct xs

pub member_iff : (x : String) (ys : List String) → (member x ys ≡ true) ↔ In x ys
unfolding member
member_iff x [] = (λ h. cc, λ h. absurd h)
member_iff x (y ∷ ys) = ground (arith, eq_iff y x, member_iff x ys)

pub member-append :
    (x : String) (ys zs : List String) → member x (ys ++ zs) ≡ (member x ys || member x zs)
unfolding member
member-append x [] zs = refl
member-append x (y ∷ ys) zs = ground (arith, member-append x ys zs)

pub member-add : (x y : String) (ys : List String) → member x (add y ys) ≡ (y == x || member x ys)
unfolding add member
member-add x y ys = ground (arith, member-append x ys (y ∷ []), eq_iff y x, (λ (e : y ≡ x). e))

pub member-discard :
    (x y : String) (ys : List String)
    → member x (discard y ys) ≡ (if y == x then false else member x ys)
unfolding discard member
member-discard x y [] = ground arith
member-discard x y (z ∷ ys) =
    ground (arith, member-discard x y ys, eq_iff z x, eq_iff z y, eq_iff y x)

pub All-map {ℓ κ} :
    {A : Type ℓ} {P Q : A → Type κ} (xs : List A) → ((x : A) → P x → Q x) → All P xs → All Q xs
All-map [] f h = tt
All-map (x ∷ xs) f (p, ps) = (f x p, All-map xs f ps)

-- A loop whose rounds keep an invariant, for members of some kind.
pub fold_at-keeps {ℓ κ ι} :
    {A : Type ℓ} {S : Type κ} (I : S → Type ι) (Q : A → Type ι) (f : ℕ → A → S → S)
    → ((i : ℕ) (a : A) (s : S) → Q a → I s → I (f i a s))
    → (i : ℕ) (xs : List A) (s : S) → All Q xs
    → I s
    → I (fold_at f i xs s)
unfolding fold_at
fold_at-keeps I Q f round i [] s qs h = h
fold_at-keeps I Q f round i (a ∷ xs) s (q, qs) h =
    fold_at-keeps I Q f round (suc i) xs (f i a s) qs (round i a s q h)
