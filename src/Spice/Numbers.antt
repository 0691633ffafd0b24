-- ===== src/Spice/Numbers.antt =====
-- The JavaScript numbers: what the program asks of a number, and `Math`.
use datasheet_to_tscircuit.Prelude.{String, Bool, List, [], ◌∷◌, if◌then◌else◌}

pub record Numbers : Type 1 where
  pub Number : Type 0
  pub zero_number : Number
  pub one_number : Number
  -- `Number.EPSILON * 32`
  pub range_epsilon : Number
  pub less : Number → Number → Bool
  -- `<=`
  pub at_most : Number → Number → Bool
  pub subtract : Number → Number → Number
  pub add_numbers : Number → Number → Number
  pub multiply : Number → Number → Number
  pub absolute : Number → Number
  pub is_finite : Number → Bool
  -- `Object.is(value, -0)`
  pub is_minus_zero : Number → Bool
  -- `String(value)`
  pub number_text : Number → String

module _ (N : Numbers) where
  open N use {Number, less}

  abbrev pub minimum : Number → Number → Number
  minimum a b = if less b a then b else a

  abbrev pub maximum : Number → Number → Number
  maximum a b = if less a b then b else a

  -- `Math.min(first, ...rest)`
  abbrev pub minimum_of : Number → List Number → Number
  minimum_of first [] = first
  minimum_of first (x ∷ rest) = minimum_of (minimum first x) rest

  abbrev pub maximum_of : Number → List Number → Number
  maximum_of first [] = first
  maximum_of first (x ∷ rest) = maximum_of (maximum first x) rest
