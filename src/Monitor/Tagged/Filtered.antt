-- ===== src/Monitor/Tagged/Filtered.antt =====
-- What `filterThroughTags` decides.
use mathlib.Core.List.{Memᴰ}
use iaa_s_exporter.Prelude.{
  ℕ, ◌+◌, ◌≤◌, ◌≡◌, ◌≢◌, ◌↔◌, ◌⊎◌, refl, String, Bool, true, Option, some, List, [], ◌∷◌, ◌==◌,
  if◌then◌else◌, nat_eq, length, All, arith, Bool-cases, inl, inr, eq_iff,
}
use iaa_s_exporter.Config.{Tag}
use iaa_s_exporter.Monitor.Tagged.{match_tag, match_filters, tag_matches, filter_through_tags}

-- Each key stands once, as AWS has them.
abbrev pub KeysDiffer : List Tag → Type 0
KeysDiffer [] = Unit
KeysDiffer (t ∷ ts) = All (λ u. u.key ≢ t.key) ts × KeysDiffer ts

module _ (compile : String → Option (String → Bool)) where
  -- The filter's value is a regular expression.
  abbrev pub Compiles : Tag → Type 0
  Compiles f = (matches : String → Bool) × (compile f.value ≡ some matches)

  -- The resource has a tag with the filter's key, whose value its expression matches.
  abbrev pub HasMatch : List Tag → Tag → Type 0
  HasMatch tags f =
      (t : Tag) × Memᴰ t tags
      × (t.key ≡ f.key)
      × (matches : String → Bool) × (compile f.value ≡ some matches)
      × (matches t.value ≡ true)

  -- How many tags match a filter.
  hit : Tag → (f : Tag) → Compiles f → ℕ
  hit t f (matches, e) = if t.key == f.key then (if matches t.value then 1 else 0) else 0

  hits : List Tag → (f : Tag) → Compiles f → ℕ
  unfolding hit
  hits [] f c = 0
  hits (t ∷ ts) f c = hit t f c + hits ts f c

  hits_of_tag : Tag → (fs : List Tag) → All Compiles fs → ℕ
  unfolding hit
  hits_of_tag t [] c = 0
  hits_of_tag t (f ∷ fs) c = hit t f c.0 + hits_of_tag t fs c.1

  total : List Tag → (fs : List Tag) → All Compiles fs → ℕ
  unfolding hits
  total ts [] c = 0
  total ts (f ∷ fs) c = hits ts f c.0 + total ts fs c.1

  match_tag-hit : (t f : Tag) (c : Compiles f) → match_tag compile t f ≡ some (hit t f c)
  unfolding match_tag hit
  match_tag-hit t f (matches, e) = elim (Bool-cases (t.key == f.key)) [
    | inl p ↦ elim (Bool-cases (matches t.value)) [
      | inl q ↦ rw (p, e, q) refl
      | inr q ↦ rw (p, e, q) refl
    ]
    | inr p ↦ rw p refl
  ]

  match_filters_lem :
      (t : Tag) (fs : List Tag) (c : All Compiles fs)
      → match_filters compile t fs ≡ some (hits_of_tag t fs c)
  unfolding match_filters hits_of_tag
  match_filters_lem t [] c = refl
  match_filters_lem t (f ∷ fs) c = rw (match_tag-hit t f c.0, match_filters_lem t fs c.1) refl

  total-cons :
      (t : Tag) (ts fs : List Tag) (c : All Compiles fs)
      → total (t ∷ ts) fs c ≡ hits_of_tag t fs c + total ts fs c
  unfolding total hits_of_tag hits
  total-cons t ts [] c = refl
  total-cons t ts (f ∷ fs) c = omega (arith, total-cons t ts fs c.1)

  total-nil : (fs : List Tag) (c : All Compiles fs) → total [] fs c ≡ 0
  unfolding total hits
  total-nil [] c = refl
  total-nil (f ∷ fs) c = omega (arith, total-nil fs c.1)

  -- The sum over the tags, of the matches of each, is the sum over the filters.
  tag_matches-total :
      (ts fs : List Tag) (c : All Compiles fs) → tag_matches compile ts fs ≡ some (total ts fs c)
  unfolding tag_matches
  tag_matches-total [] fs c = rw (total-nil fs c) refl
  tag_matches-total (t ∷ ts) fs c =
      rw (match_filters_lem t fs c, tag_matches-total ts fs c, total-cons t ts fs c) refl

  hit-cases :
      (t f : Tag) (c : Compiles f)
      → ((hit t f c ≡ 1) × (t.key ≡ f.key) × (c.0 t.value ≡ true)) ⊎ (hit t f c ≡ 0)
  unfolding hit
  hit-cases t f (matches, e) = elim (Bool-cases (t.key == f.key)) [
    | inl p ↦ elim (Bool-cases (matches t.value)) [
      | inl q ↦ inl (rw (p, q) refl, (eq_iff t.key f.key).0 p, q)
      | inr q ↦ inr (rw (p, q) refl)
    ]
    | inr p ↦ inr (rw p refl)
  ]

  hit_one : (t f : Tag) (c : Compiles f) → t.key ≡ f.key → c.0 t.value ≡ true → hit t f c ≡ 1
  unfolding hit
  hit_one t f (matches, e) k q = rw ((eq_iff t.key f.key).1 k, q) refl

  hits_none :
      (ts : List Tag) (f : Tag) (c : Compiles f) → All (λ u. u.key ≢ f.key) ts → hits ts f c ≡ 0
  unfolding hits
  hits_none [] f c d = refl
  hits_none (t ∷ ts) f c (n, d) = elim (hit-cases t f c) [
    | inl (p, k, q) ↦ absurd (n k)
    | inr p ↦ omega (arith, p, hits_none ts f c d)
  ]

  hits-le : (ts : List Tag) (f : Tag) (c : Compiles f) → KeysDiffer ts → hits ts f c ≤ 1
  unfolding hits
  hits-le [] f c d = omega arith
  hits-le (t ∷ ts) f c (n, d) = elim (hit-cases t f c) [
    | inl (p, k, q) ↦ omega (arith, p, hits_none ts f c (rw k at n))
    | inr p ↦ omega (arith, p, hits-le ts f c d)
  ]

  hits-HasMatch : (ts : List Tag) (f : Tag) (c : Compiles f) → hits ts f c ≡ 1 → HasMatch ts f
  unfolding hits
  hits-HasMatch [] f c h = absurd (omega (arith, h))
  hits-HasMatch (t ∷ ts) f c h = elim (hit-cases t f c) [
    | inl (p, k, q) ↦ (t, Memᴰ.head refl, k, c.0, c.1, q)
    | inr p ↦
        let (u, i, k, m, e, q) = hits-HasMatch ts f c (omega (arith, h, p)) in
        (u, Memᴰ.tail i, k, m, e, q)
  ]

  hits_of-Memᴰ :
      (ts : List Tag) (t f : Tag) (c : Compiles f) → Memᴰ t ts → hit t f c ≡ 1 → 1 ≤ hits ts f c
  unfolding hits
  hits_of-Memᴰ [] t f c i h = elim i [ ]
  hits_of-Memᴰ (u ∷ ts) t f c (Memᴰ.head e) h = rw (← e) (omega (arith, h))
  hits_of-Memᴰ (u ∷ ts) t f c (Memᴰ.tail i) h = omega (arith, hits_of-Memᴰ ts t f c i h)

  hits_of-HasMatch : (ts : List Tag) (f : Tag) (c : Compiles f) → HasMatch ts f → 1 ≤ hits ts f c
  hits_of-HasMatch ts f (matches, e) (t, i, k, matches', e', q) =
      let same : matches' ≡ matches = cc in
      hits_of-Memᴰ ts t f (matches, e) i (hit_one t f (matches, e) k (rw same at q))

  total-le : (ts fs : List Tag) (c : All Compiles fs) → KeysDiffer ts → total ts fs c ≤ length fs
  unfolding total
  total-le ts [] c d = omega arith
  total-le ts (f ∷ fs) c d = omega (arith, hits-le ts f c.0 d, total-le ts fs c.1 d)

  total-HasMatch :
      (ts fs : List Tag) (c : All Compiles fs)
      → KeysDiffer ts
      → total ts fs c ≡ length fs
      → All (HasMatch ts) fs
  unfolding total
  total-HasMatch ts [] c d h = tt
  total-HasMatch ts (f ∷ fs) c d h =
      let one = hits-le ts f c.0 d in
      let rest = total-le ts fs c.1 d in
      (
        hits-HasMatch ts f c.0 (omega (arith, h, one, rest)),
        total-HasMatch ts fs c.1 d (omega (arith, h, one, rest)),
      )

  total_of_matches :
      (ts fs : List Tag) (c : All Compiles fs)
      → KeysDiffer ts
      → All (HasMatch ts) fs
      → total ts fs c ≡ length fs
  unfolding total
  total_of_matches ts [] c d m = refl
  total_of_matches ts (f ∷ fs) c d (m, ms) =
      omega
        (arith, hits-le ts f c.0 d, hits_of-HasMatch ts f c.0 m, total_of_matches ts fs c.1 d ms)

  -- If the keys of a resource differ and the filter's values are regular expressions, the count of
  -- matches decides as it should: the resource is kept exactly when each tag of the filter has a tag
  -- of the resource with its key, whose value it matches.
  pub filter_through_tags_lem :
      (tags filter_tags : List Tag)
      → KeysDiffer tags
      → All Compiles filter_tags
      → (kept : Bool) × (filter_through_tags compile tags filter_tags ≡ some kept)
        × ((kept ≡ true) ↔ All (HasMatch tags) filter_tags)
  unfolding filter_through_tags
  filter_through_tags_lem tags filter_tags d c = (
    nat_eq (total tags filter_tags c) (length filter_tags),
    rw (tag_matches-total tags filter_tags c) refl,
    (
      λ h. total-HasMatch tags filter_tags c d (ground (arith, h)),
      λ m. (let h = total_of_matches tags filter_tags c d m in ground (arith, h)),
    ),
  )
