-- ===== src/Prelude/Affix.antt =====
-- A prefix that is stripped off a text stood there.
use text.Mathlib.TextEquality.{Char-path}
use text.Mathlib.TextLemmas.{nil-append, cons-append}
use Prim.Native.Char.{code}
use Prim.Native.String.{String}
use mathlib.Core.Path.{◌≡◌, refl, sym, ◌∙◌, ap}
use mathlib.Core.Logic.{inl, inr}
use mathlib.Core.Option.{some, some_inj}
use datasheet_to_tscircuit.Prelude.Tests.{Bool-cases, ◌==◌, ==_iff}
use datasheet_to_tscircuit.Prelude.Text.{◌<>◌, strip_prefix}

pub strip_prefix-eq-some : (prefix s t : String) → strip_prefix prefix s ≡ some t → s ≡ prefix <> t
unfolding strip_prefix
strip_prefix-eq-some String.[] s t h = some_inj.0 h ∙ sym (nil-append t)
strip_prefix-eq-some (String.◌∷◌ c p) String.[] t h = cc
strip_prefix-eq-some (String.◌∷◌ c p) (String.◌∷◌ d s) t h = elim (Bool-cases (code c == code d)) [
  | inr other ↦ cc (rw (other, strip_prefix) at h)
  | inl same ↦
      let e = Char-path d c (sym ((==_iff (code c) (code d)).0 same)) in
      ap (λ x. String.◌∷◌ x s) e
      ∙ ap (λ u. String.◌∷◌ c u) (strip_prefix-eq-some p s t (rw (same, strip_prefix) at h))
      ∙ sym (cons-append c p t)
]

pub strip_prefix-append : (prefix t : String) → strip_prefix prefix (prefix <> t) ≡ some t
unfolding strip_prefix
strip_prefix-append String.[] t = ap some (nil-append t)
strip_prefix-append (String.◌∷◌ c p) t =
    ap (strip_prefix (String.◌∷◌ c p)) (cons-append c p t)
    ∙ rw ((==_iff (code c) (code c)).1 refl) (strip_prefix-append p t)
