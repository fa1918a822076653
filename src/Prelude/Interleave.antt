-- ===== src/Prelude/Interleave.antt =====
-- Interleavings of lists: the orders in which goroutines that run at the same time do things, each
-- in its own order.
use mathlib.Core.Path.{◌≡◌, refl, sym, subst}
use mathlib.Core.Logic.{inl, inr}
use mathlib.Core.List.Memᴰ
use mathlib.Core.List.{Memᴰ, List, [], ◌∷◌, ◌++◌, map}
use iaa_s_exporter.Prelude.Lists.{flatten, All}

-- `zs` takes the elements of `xs` and of `ys` in turns.
pub data Merge {A : Type 0} : List A → List A → List A → Type 0 where
  none_left : Merge [] [] []
  left : {x : A} {xs ys zs : List A} → Merge xs ys zs → Merge (x ∷ xs) ys (x ∷ zs)
  right : {y : A} {xs ys zs : List A} → Merge xs ys zs → Merge xs (y ∷ ys) (y ∷ zs)

-- `zs` interleaves the lists.
abbrev pub Interleaves : {A : Type 0} → List (List A) → List A → Type 0
Interleaves [] zs = zs ≡ []
Interleaves {A} (xs ∷ xss) zs = (ys : List A) × Merge xs ys zs × Interleaves xss ys

-- One after the other is one of the orders.
Merge-append : {A : Type 0} (xs ys : List A) → Merge xs ys (xs ++ ys)
Merge-append [] [] = none_left
Merge-append [] (y ∷ ys) = right (Merge-append [] ys)
Merge-append (x ∷ xs) ys = left (Merge-append xs ys)

pub flatten-Interleaves : {A : Type 0} (xss : List (List A)) → Interleaves xss (flatten xss)
flatten-Interleaves [] = refl
flatten-Interleaves (xs ∷ xss) =
    (flatten xss, Merge-append xs (flatten xss), flatten-Interleaves xss)

module _ {A : Type 0} (P : A → Type 0) where
  All-Merge : {xs ys zs : List A} → Merge xs ys zs → All P xs → All P ys → All P zs
  All-Merge none_left hx hy = tt
  All-Merge (left m) hx hy = (hx.0, All-Merge m hx.1 hy)
  All-Merge (right m) hx hy = (hy.0, All-Merge m hx hy.1)

  pub All-Interleaves :
      (xss : List (List A)) (zs : List A) → Interleaves xss zs → All (All P) xss → All P zs
  All-Interleaves [] zs i h = subst (All P) (sym i) tt
  All-Interleaves (xs ∷ xss) zs (ys, m, i) h = All-Merge m h.0 (All-Interleaves xss ys i h.1)

module _ {B : Type 0} where
  Merge-Memᴰ_left : {xs ys zs : List B} {b : B} → Merge xs ys zs → Memᴰ b xs → Memᴰ b zs
  Merge-Memᴰ_left none_left i = i
  Merge-Memᴰ_left (left m) (Memᴰ.head e) = Memᴰ.head e
  Merge-Memᴰ_left (left m) (Memᴰ.tail i) = Memᴰ.tail (Merge-Memᴰ_left m i)
  Merge-Memᴰ_left (right m) i = Memᴰ.tail (Merge-Memᴰ_left m i)

  Merge-Memᴰ_right : {xs ys zs : List B} {b : B} → Merge xs ys zs → Memᴰ b ys → Memᴰ b zs
  Merge-Memᴰ_right none_left i = i
  Merge-Memᴰ_right (left m) i = Memᴰ.tail (Merge-Memᴰ_right m i)
  Merge-Memᴰ_right (right m) (Memᴰ.head e) = Memᴰ.head e
  Merge-Memᴰ_right (right m) (Memᴰ.tail i) = Memᴰ.tail (Merge-Memᴰ_right m i)

module _ {A B : Type 0} where
  -- What a goroutine puts out for an element of its list is in every interleaving.
  pub Interleaves-Memᴰ :
      (f : List A → List B) (a : A) (b : B) (xss : List (List A)) (zs : List B)
      → Interleaves (map f xss) zs
      → ((xs : List A) → Memᴰ a xs → Memᴰ b (f xs))
      → Memᴰ a (flatten xss)
      → Memᴰ b zs
  Interleaves-Memᴰ f a b [] zs i h k = elim k [ ]
  Interleaves-Memᴰ f a b (xs ∷ xss) zs (ys, m, i) h k = elim (Memᴰ.append_cases xs k) [
    | inl j ↦ Merge-Memᴰ_left m (h xs j)
    | inr j ↦ Merge-Memᴰ_right m (Interleaves-Memᴰ f a b xss ys i h j)
  ]
