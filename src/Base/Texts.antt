-- ===== src/Base/Texts.antt =====
-- Equality of texts, decided.
use Prim.Native.String.{String}
use text.Mathlib.Text.{◌==◌ as str_eq}
use text.Mathlib.TextEquality.{eq_iff}
use enix_backend.Base.Tests.{Bool-cases}
use mathlib.Core.Path.{◌≡◌}
use mathlib.Core.Logic.{◌≢◌, ◌⊎◌, inl, inr}
use mathlib.Core.Bool.{true, false}
use native.Mathlib.Omega.{arith}

pub str_eq-cases :
    (j k : String) → ((str_eq j k ≡ true) × (j ≡ k)) ⊎ ((str_eq j k ≡ false) × (j ≢ k))
str_eq-cases j k = elim (Bool-cases (str_eq j k)) [
  | inl e ↦ inl (e, (eq_iff j k).0 e)
  | inr e ↦ inr (e, λ same. ground (arith, e, (eq_iff j k).1 same))
]

pub str_eq-false : (j k : String) → j ≢ k → str_eq j k ≡ false
str_eq-false j k other = elim (str_eq-cases j k) [
  | inl (e, same) ↦ absurd (other same)
  | inr (e, _) ↦ e
]
