-- ===== src/Quota/Interleave.antt =====
-- Goroutines that set results at the same time: the calls of the cache happen in some order that
-- keeps each goroutine's own order.
use iaa_s_exporter.Prelude.Interleave.{Merge, none_left, left, right, Interleaves}
use iaa_s_exporter.Prelude.{
  ◌≡◌, refl, String, Option, none, some, List, [], ◌∷◌, All, if◌then◌else◌, ◌==◌, ap, ◌∙◌, ◌⊎◌, inl,
  inr,
}
use iaa_s_exporter.Quota.Sets.{Op, last_set}
use iaa_s_exporter.Prelude.Dict.{or_else}

module _ {X : Type 0} (j : String) where
  abbrev one : Op X → Option X
  one (k, x) = if k == j then some x else none

  none_parts : (a b : Option X) → or_else a b ≡ none → (a ≡ none) × (b ≡ none)
  none_parts none none h = (refl, refl)
  none_parts none (some x) h = cc
  none_parts (some x) b h = cc

  pub Merge-last_set_right :
      {xs ys zs : List (Op X)}
      → Merge xs ys zs
      → last_set j xs ≡ none
      → last_set j zs ≡ last_set j ys
  unfolding last_set
  Merge-last_set_right none_left h = refl
  Merge-last_set_right (left {x = (k, x)} {xs = xs} m) h =
      let (a, b) = none_parts (last_set j xs) (one (k, x)) h in
      rw (Merge-last_set_right m a, b) (or_none _)
    where
      or_none : (o : Option X) → or_else o none ≡ o
      or_none none = refl
      or_none (some x) = refl
  Merge-last_set_right (right {y = (k, x)} m) h =
      ap (λ o. or_else o (one (k, x))) (Merge-last_set_right m h)

  Merge-symm : {xs ys zs : List (Op X)} → Merge xs ys zs → Merge ys xs zs
  Merge-symm none_left = none_left
  Merge-symm (left m) = right (Merge-symm m)
  Merge-symm (right m) = left (Merge-symm m)

  abbrev pub Spares : List (List (Op X)) → Type 0
  Spares = All (λ xs. last_set j xs ≡ none)

  -- At most one of the goroutines sets the key, and it leaves `o` there.
  abbrev pub SetByOne : Option X → List (List (Op X)) → Type 0
  SetByOne o [] = o ≡ none
  SetByOne o (xs ∷ xss) =
      ((last_set j xs ≡ o) × Spares xss) ⊎ ((last_set j xs ≡ none) × SetByOne o xss)

  Interleaves-Spares :
      (xss : List (List (Op X))) (zs : List (Op X))
      → Interleaves xss zs
      → Spares xss
      → last_set j zs ≡ none
  Interleaves-Spares [] zs i s = rw i (unfold last_set in refl)
  Interleaves-Spares (xs ∷ xss) zs (ys, m, i) s =
      Merge-last_set_right m s.0 ∙ Interleaves-Spares xss ys i s.1

  -- However the goroutines interleave, a key that only one of them sets ends with what that one
  -- sets last.
  pub Interleaves-last_set :
      (o : Option X) (xss : List (List (Op X))) (zs : List (Op X))
      → Interleaves xss zs
      → SetByOne o xss
      → last_set j zs ≡ o
  Interleaves-last_set o [] zs i s = rw (i, s) (unfold last_set in refl)
  Interleaves-last_set o (xs ∷ xss) zs (ys, m, i) (inl (h, s)) =
      Merge-last_set_right (Merge-symm m) (Interleaves-Spares xss ys i s) ∙ h
  Interleaves-last_set o (xs ∷ xss) zs (ys, m, i) (inr (h, s)) =
      Merge-last_set_right m h ∙ Interleaves-last_set o xss ys i s
