-- ===== src/Prelude/Dict.antt =====
-- A Go map with string keys: a list of entries, one for each key.
use Prim.Native.String.{String}
use mathlib.Core.Path.{◌≡◌, refl}
use mathlib.Core.Bool.{Bool, true, false}
use mathlib.Core.Option.{Option, none, some}
use mathlib.Core.List.{List, [], ◌∷◌}
use native.Mathlib.Omega.{arith}
use text.Mathlib.Text.{◌==◌}
use text.Mathlib.TextEquality.{eq_iff}
use iaa_s_exporter.Prelude.Tests.{if◌then◌else◌}

-- The first value, or else the second.
abbrev pub or_else {ℓ} : {X : Type ℓ} → Option X → Option X → Option X
or_else (some x) o = some x
or_else none o = o

pub or_else_assoc {ℓ} :
    {X : Type ℓ} (a b c : Option X) → or_else (or_else a b) c ≡ or_else a (or_else b c)
or_else_assoc (some x) b c = refl
or_else_assoc none b c = refl

pub or_else-none {ℓ} : {X : Type ℓ} (o : Option X) → or_else o none ≡ o
or_else-none none = refl
or_else-none (some x) = refl

abbrev pub Dict {ℓ} : Type ℓ → Type ℓ
Dict V = List (String × V)

module _ {ℓ} {V : Type ℓ} where
  -- v, ok := m[key]
  unfoldable pub lookup : String → Dict V → Option V
  lookup key [] = none
  lookup key ((at, val) ∷ entries) = if at == key then some val else lookup key entries

  -- m[key] = val: in the key's entry, or in a new one.
  unfoldable pub insert : String → V → Dict V → Dict V
  insert key val [] = (key, val) ∷ []
  insert key val ((at, old) ∷ entries) =
      if at == key then (key, val) ∷ entries else (at, old) ∷ insert key val entries

  pub lookup-nil : (key : String) → lookup key [] ≡ none
  unfolding lookup
  lookup-nil key = refl

  pub lookup-insert :
      (key other : String) (val : V) (entries : Dict V)
      → lookup other (insert key val entries)
        ≡ (if key == other then some val else lookup other entries)
  unfolding lookup insert
  lookup-insert key other val [] = refl
  lookup-insert key other val ((at, old) ∷ entries) =
      ground (
        arith,
        lookup-insert key other val entries,
        eq_iff at other,
        eq_iff at key,
        eq_iff key other,
      )

unfoldable pub is_some {ℓ} : {A : Type ℓ} → Option A → Bool
is_some none = false
is_some (some a) = true

pub ruleset dict_laws = (lookup-nil, lookup-insert)
