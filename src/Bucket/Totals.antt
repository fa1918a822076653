-- ===== src/Bucket/Totals.antt =====
-- An independent description of the figures of a list of objects, and the loops' body against it.
use mathlib.Core.List.{append-nil, append_assoc}
use iaa_s_exporter.Prelude.{
  ℕ, suc, ◌≤◌, ◌<◌, ◌≡◌, refl, ◌⊎◌, inl, inr, List, [], ◌∷◌, ◌++◌, arith, ltb, if◌then◌else◌,
  length, length-append, All, All-append, All-imp, ap, ◌∙◌, sym, Bool-cases,
}
use iaa_s_exporter.Prelude.Int.{ℤ, pos, ◌+ℤ◌, ◌≤ℤ◌, ltb_ℤ, +ℤ_assoc, +ℤ_comm}
use iaa_s_exporter.Prelude.Word.{wrap64, wrap64-add_wrap64}
use iaa_s_exporter.Config.{VaultBackupBucketConfig}
use iaa_s_exporter.Bucket.{Object, Stats, no_objects, Collected, returned, sent_all}

-- The body of the loops over the objects of a page.
unfoldable pub observe : Stats → Object → Stats
observe s item =
    let newer = ltb s.last_modified item.modified in
    record {
      last_modified = if newer then item.modified else s.last_modified;
      number_of_objects = suc s.number_of_objects;
      total_size = wrap64 (s.total_size +ℤ item.size);
      biggest_object_size =
          if ltb_ℤ s.biggest_object_size item.size then item.size else s.biggest_object_size;
      last_object_size = if newer then item.size else s.last_object_size;
    }

unfoldable pub observe_all : Stats → List Object → Stats
observe_all s [] = s
observe_all s (item ∷ items) = observe_all (observe s item) items

pub observe_all-append :
    (s : Stats) (xs ys : List Object) → observe_all s (xs ++ ys) ≡ observe_all (observe_all s xs) ys
unfolding observe_all
observe_all-append s [] ys = refl
observe_all-append s (x ∷ xs) ys = observe_all-append (observe s x) xs ys

abbrev pub sum_sizes : List Object → ℤ
sum_sizes [] = pos 0
sum_sizes (x ∷ xs) = x.size +ℤ sum_sizes xs

-- It is the first of the objects with the latest time: later than those before it, and not before
-- those after it.
pub record IsNewest (o : Object) (objects : List Object) : Type 0 where
  pub before : List Object
  pub after : List Object
  pub split : objects ≡ before ++ o ∷ after
  pub earlier : All (λ x. x.modified < o.modified) before
  pub later : All (λ x. x.modified ≤ o.modified) after

-- Nothing is newer than the zero time.
abbrev pub AllUndated : List Object → Type 0
AllUndated = All (λ x. x.modified ≡ 0)

-- The largest size is zero or that of an object.
abbrev pub Reached : ℤ → List Object → Type 0
Reached size objects =
    (size ≡ pos 0)
    ⊎ ((xs : List Object) × (ys : List Object) × (o : Object) × (objects ≡ xs ++ o ∷ ys)
        × (size ≡ o.size))

-- The date and size are those of the newest object, or zero if no object has a date.
abbrev pub Dated : ℕ → ℤ → List Object → Type 0
Dated time size objects =
    (AllUndated objects × (time ≡ 0) × (size ≡ pos 0))
    ⊎ ((o : Object) × IsNewest o objects × (time ≡ o.modified) × (size ≡ o.size))

-- What the figures of a bucket are to be.
pub record IsSummary (s : Stats) (objects : List Object) : Type 0 where
  pub counted : s.number_of_objects ≡ length objects
  pub summed : s.total_size ≡ wrap64 (sum_sizes objects)
  pub nonneg : pos 0 ≤ℤ s.biggest_object_size
  pub bounded : All (λ x. x.size ≤ℤ s.biggest_object_size) objects
  pub reached : Reached s.biggest_object_size objects
  pub dated : Dated s.last_modified s.last_object_size objects

sum_sizes-snoc : (xs : List Object) (x : Object) → sum_sizes (xs ++ x ∷ []) ≡ sum_sizes xs +ℤ x.size
sum_sizes-snoc [] x = +ℤ_comm x.size (pos 0)
sum_sizes-snoc (y ∷ xs) x = rw (sum_sizes-snoc xs x, +ℤ_assoc)

append_cons :
    (xs ys : List Object) (o x : Object) → (xs ++ o ∷ ys) ++ x ∷ [] ≡ xs ++ o ∷ (ys ++ x ∷ [])
append_cons [] ys o x = refl
append_cons (z ∷ xs) ys o x = ap (λ l. z ∷ l) (append_cons xs ys o x)

Reached-snoc :
    (size : ℤ) (seen : List Object) (x : Object)
    → Reached size seen
    → Reached (if ltb_ℤ size x.size then x.size else size) (seen ++ x ∷ [])
Reached-snoc size seen x h = elim (Bool-cases (ltb_ℤ size x.size)) [
  | inl p ↦ rw p (inr (seen, [], x, refl, refl))
  | inr p ↦ rw p (kept h)
]
  where
    kept : Reached size seen → Reached size (seen ++ x ∷ [])
    kept (inl z) = inl z
    kept (inr (xs, ys, o, q, e)) =
        inr (xs, ys ++ x ∷ [], o, ap (λ l. l ++ x ∷ []) q ∙ append_cons xs ys o x, e)

-- All members of a list are at most as new as its newest.
IsNewest-bounds :
    (o : Object) (objects : List Object)
    → IsNewest o objects
    → All (λ y. y.modified ≤ o.modified) objects
IsNewest-bounds o objects n = rw n.split (
    All-append _ n.before (o ∷ n.after) (All-imp n.before (λ y h. omega arith) n.earlier)
      (omega arith, n.later))

Dated-snoc :
    (time : ℕ) (size : ℤ) (seen : List Object) (x : Object)
    → Dated time size seen
    → Dated
        (if ltb time x.modified then x.modified else time)
        (if ltb time x.modified then x.size else size)
        (seen ++ x ∷ [])
Dated-snoc time size seen x (inl (h, t, z)) = elim (Bool-cases (ltb time x.modified)) [
  | inl p ↦ rw p (
      inr (
        x,
        record {
          before = seen;
          after = [];
          split = refl;
          earlier = All-imp seen (λ y q. ground arith) h;
          later = tt;
        },
        refl,
        refl,
      ))
  | inr p ↦ rw p (inl (All-append _ seen (x ∷ []) h (ground arith, tt), t, z))
]
Dated-snoc time size seen x (inr (o, n, t, z)) = elim (Bool-cases (ltb time x.modified)) [
  | inl p ↦ rw p (
      inr (
        x,
        record {
          before = seen;
          after = [];
          split = refl;
          earlier = All-imp seen (λ y q. ground arith) (IsNewest-bounds o seen n);
          later = tt;
        },
        refl,
        refl,
      ))
  | inr p ↦ rw p (
      inr (
        o,
        record {
          before = n.before;
          after = n.after ++ x ∷ [];
          split = ap (λ l. l ++ x ∷ []) n.split ∙ append_cons n.before n.after o x;
          earlier = n.earlier;
          later = All-append _ n.after (x ∷ []) n.later (ground arith, tt);
        },
        t,
        z,
      ))
]

observe-IsSummary :
    (s : Stats) (seen : List Object) (x : Object)
    → IsSummary s seen
    → IsSummary (observe s x) (seen ++ x ∷ [])
unfolding observe
observe-IsSummary s seen x h = record {
  counted = omega (arith, h.counted, length-append seen (x ∷ []));
  summed =
      ap (λ t. wrap64 (t +ℤ x.size)) h.summed
      ∙ wrap64-add_wrap64 (sum_sizes seen) x.size
      ∙ ap wrap64 (sym (sum_sizes-snoc seen x));
  nonneg = ground arith;
  bounded =
      All-append _ seen (x ∷ []) (All-imp seen (λ y q. ground arith) h.bounded) (ground arith, tt);
  reached = Reached-snoc s.biggest_object_size seen x h.reached;
  dated = Dated-snoc s.last_modified s.last_object_size seen x h.dated;
}

observe_all-IsSummary :
    (s : Stats) (seen rest : List Object)
    → IsSummary s seen
    → IsSummary (observe_all s rest) (seen ++ rest)
unfolding observe_all
observe_all-IsSummary s seen [] h = rw append-nil h
observe_all-IsSummary s seen (x ∷ rest) h =
    rw (← append_assoc seen (x ∷ []) rest)
      (observe_all-IsSummary (observe s x) (seen ++ x ∷ []) rest (observe-IsSummary s seen x h))

no_objects-IsSummary : IsSummary no_objects []
unfolding wrap64
no_objects-IsSummary = record {
  counted = refl;
  summed = refl;
  nonneg = omega arith;
  bounded = tt;
  reached = inl refl;
  dated = inl (tt, refl, refl);
}

-- The loops over the objects, from the variables' zero values, compute the figures: the count, the
-- int64 sum of the sizes, the largest size or zero, and the date and size of the first object with
-- the latest date, or zero if no object has a date.
pub observe_all_lem : (objects : List Object) → IsSummary (observe_all no_objects objects) objects
observe_all_lem objects = observe_all-IsSummary no_objects [] objects no_objects-IsSummary

-- The collection returned after it had sent the figures of these objects, with the date in `date`.
abbrev pub ReportsDated : (Stats → ℕ) → VaultBackupBucketConfig → List Object → Collected → Type 0
ReportsDated date conf objects c =
    (s : Stats) × IsSummary s objects
    × (c ≡ record { sent = sent_all conf.bucket conf.prefix (date s) s; exit = returned })

abbrev pub Reports : VaultBackupBucketConfig → List Object → Collected → Type 0
Reports = ReportsDated (λ s. s.last_modified)
