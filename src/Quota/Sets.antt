-- ===== src/Quota/Sets.antt =====
-- Sequences of calls of the cache's `Set`, and what is found under a key after them.
use iaa_s_exporter.Prelude.{
  ◌≡◌, refl, sym, String, Option, none, some, List, [], ◌∷◌, ◌++◌, if◌then◌else◌, ◌==◌, Bool-cases,
  Bool, ◌&&◌, map_option, ◌⊎◌, inl, inr, true, false,
}
use iaa_s_exporter.Prelude.Dict.{or_else, or_else_assoc, or_else-none, lookup}
use iaa_s_exporter.Quota.{Cache}

-- One call of `Set`.
abbrev pub Op : Type 0 → Type 0
Op X = String × X

module _ {X : Type 0} where
  -- The last value that is set under a key.
  unfoldable pub last_set : String → List (Op X) → Option X
  last_set j [] = none
  last_set j ((k, x) ∷ ops) = or_else (last_set j ops) (if k == j then some x else none)

  pub last_set-append :
      (j : String) (xs ys : List (Op X))
      → last_set j (xs ++ ys) ≡ or_else (last_set j ys) (last_set j xs)
  unfolding last_set
  last_set-append j [] ys = sym (or_else-none (last_set j ys))
  last_set-append j ((k, x) ∷ xs) ys =
      rw (last_set-append j xs ys) (or_else_assoc (last_set j ys) (last_set j xs) _)

-- The last element that passes a test.
unfoldable pub last_where : {A : Type 0} → (A → Bool) → List A → Option A
last_where test [] = none
last_where test (a ∷ rest) = or_else (last_where test rest) (if test a then some a else none)

-- A loop that sets the entry of each element that passes a test, under its key.
module _ {A X : Type 0} (used : A → Bool) (key : A → String) (entry : A → X) where
  unfoldable pub set_where : List A → List (Op X)
  set_where [] = []
  set_where (a ∷ rest) = if used a then (key a, entry a) ∷ set_where rest else set_where rest

  pub set_where-append : (xs ys : List A) → set_where (xs ++ ys) ≡ set_where xs ++ set_where ys
  unfolding set_where
  set_where-append [] ys = refl
  set_where-append (a ∷ rest) ys = elim (Bool-cases (used a)) [
    | inl p ↦ rw (p, set_where-append rest ys) refl
    | inr p ↦ rw (p, set_where-append rest ys) refl
  ]

  pub last_set-set_where :
      (j : String) (xs : List A)
      → last_set j (set_where xs) ≡ map_option entry (last_where (λ a. used a && (key a == j)) xs)
  unfolding last_set set_where last_where
  last_set-set_where j [] = refl
  last_set-set_where j (a ∷ rest) = elim (Bool-cases (used a)) [
    | inl p ↦
        rw (p, last_set-set_where j rest) (split (last_where _ rest) (Bool-cases (key a == j)))
    | inr p ↦ rw (p, last_set-set_where j rest) (kept (last_where _ rest))
  ]
    where
      split :
          (o : Option A)
          → ((key a == j) ≡ true) ⊎ ((key a == j) ≡ false)
          → or_else (map_option entry o) (if key a == j then some (entry a) else none)
            ≡ map_option entry (or_else o (if key a == j then some a else none))
      split (some y) b = refl
      split none (inl p) = rw p refl
      split none (inr p) = rw p refl

      kept : (o : Option A) → map_option entry o ≡ map_option entry (or_else o none)
      kept none = refl
      kept (some y) = refl

module _ {X : Type 0} (cache : Cache X) where
  unfoldable pub apply : List (Op X) → cache.carrier → cache.carrier
  apply [] c = c
  apply ((k, x) ∷ ops) c = apply ops (cache.set k x c)

  -- After the calls, a key has what was set last under it, or what it had before.
  pub lookup-apply :
      (j : String) (ops : List (Op X)) (c : cache.carrier)
      → lookup j (cache.items (apply ops c)) ≡ or_else (last_set j ops) (lookup j (cache.items c))
  unfolding apply last_set
  lookup-apply j [] c = refl
  lookup-apply j ((k, x) ∷ ops) c =
      rw (lookup-apply j ops (cache.set k x c), cache.items-set k j x c)
        (split (last_set j ops) (Bool-cases (k == j)))
    where
      split :
          (o : Option X)
          → ((k == j) ≡ true) ⊎ ((k == j) ≡ false)
          → or_else o (if k == j then some x else lookup j (cache.items c))
            ≡ or_else (or_else o (if k == j then some x else none)) (lookup j (cache.items c))
      split (some y) b = refl
      split none (inl p) = rw p refl
      split none (inr p) = rw p refl
