-- ===== src/Quota/Aws/NatGateways/Shortfall.antt =====
-- The NAT gateways that pkg/cloud/aws/quota/aws_quota.go counts, against their number.
use iaa_s_exporter.Prelude.{
  ℕ, zero, suc, ◌+◌, ◌≤◌, ◌<◌, ◌≡◌, refl, String, true, false, Option, none, some, List, [], ◌∷◌,
  ◌++◌, arith, if◌then◌else◌, ◌==◌, eq_iff, eq_refl, Bool-cases, inl, inr, ◌⊎◌, ap, ◌∙◌, All,
}
use iaa_s_exporter.Prelude.Int.{ℤ, pos, ltb_ℤ, ◌≤ℤ◌, eq_of_parts}
use iaa_s_exporter.Prelude.Word.{wrap32-add_pos, two31}
use iaa_s_exporter.Prelude.Dict.{Dict, lookup, insert, lookup-insert, lookup-nil}
use iaa_s_exporter.Quota.Aws.{to_string}
use iaa_s_exporter.Quota.Aws.NatGateways.{
  Subnet, next_count, count_zone, count_subnets, count_gateways, largest, nat_gateway_usage,
}

-- The zones of the gateways, one for each gateway and each of its subnets.
abbrev pub zones_of_one : Option String → List Subnet → List String
zones_of_one ngw [] = []
zones_of_one ngw (s ∷ subnets) =
    if to_string s.subnet_id == to_string ngw
    then to_string s.availability_zone ∷ zones_of_one ngw subnets
    else zones_of_one ngw subnets

abbrev pub zones_of : List (Option String) → List Subnet → List String
zones_of [] subnets = []
zones_of (ngw ∷ ngws) subnets = zones_of_one ngw subnets ++ zones_of ngws subnets

abbrev pub bump : String → String → ℕ
bump y z = if y == z then 1 else 0

-- How many gateways a zone has.
abbrev pub count : String → List String → ℕ
count z [] = 0
count z (y ∷ ys) = bump y z + count z ys

count_all : Dict ℤ → List String → Dict ℤ
unfolding count_zone
count_all counts [] = counts
count_all counts (z ∷ zs) = count_all (count_zone counts z) zs

count_all-append :
    (counts : Dict ℤ) (xs ys : List String)
    → count_all counts (xs ++ ys) ≡ count_all (count_all counts xs) ys
unfolding count_all
count_all-append counts [] ys = refl
count_all-append counts (x ∷ xs) ys = count_all-append (count_zone counts x) xs ys

count_subnets-count_all :
    (counts : Dict ℤ) (ngw : Option String) (subnets : List Subnet)
    → count_subnets counts ngw subnets ≡ count_all counts (zones_of_one ngw subnets)
unfolding count_subnets count_all
count_subnets-count_all counts ngw [] = refl
count_subnets-count_all counts ngw (s ∷ subnets) =
    elim (Bool-cases (to_string s.subnet_id == to_string ngw)) [
      | inl p ↦
          rw p (
            count_subnets-count_all (count_zone counts (to_string s.availability_zone)) ngw subnets)
      | inr p ↦ rw p (count_subnets-count_all counts ngw subnets)
    ]

count_gateways-count_all :
    (counts : Dict ℤ) (ngws : List (Option String)) (subnets : List Subnet)
    → count_gateways counts ngws subnets ≡ count_all counts (zones_of ngws subnets)
unfolding count_gateways count_all
count_gateways-count_all counts [] subnets = refl
count_gateways-count_all counts (ngw ∷ ngws) subnets =
    rw (count_subnets-count_all counts ngw subnets, count_all-append)
      (count_gateways-count_all (count_all counts (zones_of_one ngw subnets)) ngws subnets)

-- What the map holds for a zone with n gateways: nothing, or one less.
abbrev tally : ℕ → Option ℤ
tally zero = none
tally (suc n) = some (pos n)

next_count-value : (n : ℕ) → n < two31 → next_count (tally n) ≡ pos n
next_count-value zero h = refl
next_count-value (suc n) h =
    wrap32-add_pos n 1 (omega arith) ∙ ap pos (let e : n + 1 ≡ suc n = omega arith in e)

next_count-tally : (n : ℕ) → n < two31 → some (next_count (tally n)) ≡ tally (suc n)
next_count-tally n h = ap some (next_count-value n h)

lookup-count_zone :
    (counts : Dict ℤ) (f : String → ℕ) (y z : String)
    → ((z : String) → lookup z counts ≡ tally (f z))
    → f y < two31
    → lookup z (count_zone counts y) ≡ tally (bump y z + f z)
unfolding count_zone
lookup-count_zone counts f y z h b =
    lookup-insert y z (next_count (lookup y counts)) counts ∙ split (Bool-cases (y == z))
  where
    split :
        ((y == z) ≡ true) ⊎ ((y == z) ≡ false)
        → (if y == z then some (next_count (lookup y counts)) else lookup z counts)
          ≡ tally (bump y z + f z)
    split (inl p) =
        let same : y ≡ z = (eq_iff y z).0 p in
        let one_more : 1 + f z ≡ suc (f z) = omega arith in
        rw (p, one_more, h y, next_count-tally (f y) b, same) refl
    split (inr p) = let none_more : 0 + f z ≡ f z = omega arith in rw (p, none_more) (h z)

lookup-count_all :
    (counts : Dict ℤ) (f : String → ℕ) (zs : List String) (z : String)
    → ((z : String) → lookup z counts ≡ tally (f z))
    → ((z : String) → f z + count z zs < suc two31)
    → lookup z (count_all counts zs) ≡ tally (f z + count z zs)
unfolding count_all
lookup-count_all counts f [] z h b = let e : f z + 0 ≡ f z = omega arith in rw e (h z)
lookup-count_all counts f (y ∷ zs) z h b =
    let f' = λ (x : String). bump y x + f x in
    let e : f z + (bump y z + count z zs) ≡ f' z + count z zs = omega arith in
    rw e (
      lookup-count_all (count_zone counts y) f' zs z (λ x. lookup-count_zone counts f y x h below)
        (λ x. omega (arith, b x)))
  where
    below : f y < two31
    below = let r : bump y y ≡ 1 = rw (eq_refl y) refl in omega (arith, b y, r)

-- No value of the map is above the bound.
abbrev AreBelow : ℕ → Dict ℤ → Type 0
AreBelow m = All (λ (e : String × ℤ). e.1 ≤ℤ pos m)

insert-AreBelow :
    (m : ℕ) (k : String) (v : ℤ) (counts : Dict ℤ)
    → v ≤ℤ pos m
    → AreBelow m counts
    → AreBelow m (insert k v counts)
unfolding insert
insert-AreBelow m k v [] h a = (h, tt)
insert-AreBelow m k v ((j, w) ∷ counts) h a = elim (Bool-cases (j == k)) [
  | inl p ↦ rw p (h, a.1)
  | inr p ↦ rw p (a.0, insert-AreBelow m k v counts h a.1)
]

count_all-AreBelow :
    (m : ℕ) (counts : Dict ℤ) (f : String → ℕ) (zs : List String)
    → suc m < two31
    → ((z : String) → lookup z counts ≡ tally (f z))
    → ((z : String) → f z + count z zs ≤ suc m)
    → AreBelow m counts
    → AreBelow m (count_all counts zs)
unfolding count_all
count_all-AreBelow m counts f [] s h b a = a
count_all-AreBelow m counts f (y ∷ zs) s h b a =
    count_all-AreBelow m (count_zone counts y) (λ x. bump y x + f x) zs s
      (λ x. lookup-count_zone counts f y x h (omega arith)) (λ x. omega (arith, b x))
      (unfold count_zone in insert-AreBelow m y _ counts (rw (h y) fits) a)
  where
    more : suc (f y) ≤ suc m
    more = let r : bump y y ≡ 1 = rw (eq_refl y) refl in omega (arith, b y, r)

    fits : next_count (tally (f y)) ≤ℤ pos m
    fits = rw (next_count-value (f y) (omega (arith, more))) (omega (arith, more))

largest-bounds :
    (m : ℕ) (usage : ℤ) (counts : Dict ℤ)
    → usage ≤ℤ pos m
    → AreBelow m counts
    → (usage ≤ℤ largest usage counts) × (largest usage counts ≤ℤ pos m)
unfolding largest
largest-bounds m usage [] h a = (omega arith, h)
largest-bounds m usage ((z, n) ∷ counts) h a = elim (Bool-cases (ltb_ℤ usage n)) [
  | inl p ↦
      let (b, d) = largest-bounds m n counts a.0 a.1 in rw p (omega (arith, b, below usage n p), d)
  | inr p ↦ rw p (largest-bounds m usage counts h a.1)
]
  where
    below : (a b : ℤ) → ltb_ℤ a b ≡ true → a ≤ℤ b
    below a b h = ground arith

le-largest_start : (usage : ℤ) (counts : Dict ℤ) → usage ≤ℤ largest usage counts
unfolding largest
le-largest_start usage [] = omega arith
le-largest_start usage ((z, n) ∷ counts) =
    ground (arith, le-largest_start usage counts, le-largest_start n counts)

le_pick : (usage n : ℤ) → n ≤ℤ (if ltb_ℤ usage n then n else usage)
le_pick usage n = ground arith

-- A value that is found in the map is at most the largest.
le-largest :
    (usage n : ℤ) (counts : Dict ℤ) (z : String)
    → lookup z counts ≡ some n
    → n ≤ℤ largest usage counts
unfolding largest lookup
le-largest usage n [] z h = cc
le-largest usage n ((y, m) ∷ counts) z h = elim (Bool-cases (y == z)) [
  | inl p ↦
      let e : some m ≡ some n = rw p at h in
      let same : m ≡ n = cc in
      rw (← same) (
        omega
          (arith, le_pick usage m, le-largest_start (if ltb_ℤ usage m then m else usage) counts))
  | inr p ↦ le-largest (if ltb_ℤ usage m then m else usage) n counts z (rw p at h)
]

-- If the zone with most NAT gateways has n + 1 of them, fewer than 2 ^ 31, the usage that is
-- reported is n: the first gateway of a zone is counted as none.
pub nat_gateway_usage-short :
    (ngws : List (Option String)) (subnets : List Subnet) (n : ℕ) (zone : String)
    → suc n < two31
    → count zone (zones_of ngws subnets) ≡ suc n
    → ((z : String) → count z (zones_of ngws subnets) ≤ suc n)
    → nat_gateway_usage ngws subnets ≡ pos n
unfolding nat_gateway_usage
nat_gateway_usage-short ngws subnets n zone s most all =
    rw (count_gateways-count_all [] ngws subnets) (
      exact (largest (pos 0) counted) at_least
        (largest-bounds n (pos 0) counted (omega arith) bounded).1)
  where
    zs : List String
    zs = zones_of ngws subnets

    counted : Dict ℤ
    counted = count_all [] zs

    start : (z : String) → lookup z [] ≡ tally 0
    start z = lookup-nil z

    at_least : pos n ≤ℤ largest (pos 0) counted
    at_least = le-largest (pos 0) (pos n) counted zone (
        lookup-count_all [] (λ z. 0) zs zone start (λ z. omega (arith, all z))
        ∙ ap tally (let e : 0 + count zone zs ≡ suc n = omega (arith, most) in e))

    bounded : AreBelow n counted
    bounded = count_all-AreBelow n [] (λ z. 0) zs s start (λ z. omega (arith, all z)) tt

    exact : (a : ℤ) → pos n ≤ℤ a → a ≤ℤ pos n → a ≡ pos n
    exact a h k = eq_of_parts a (pos n) (omega arith)

-- With no NAT gateway in any subnet the usage is 0 too.
pub nat_gateway_usage-none :
    (ngws : List (Option String)) (subnets : List Subnet)
    → zones_of ngws subnets ≡ []
    → nat_gateway_usage ngws subnets ≡ pos 0
unfolding nat_gateway_usage count_all largest
nat_gateway_usage-none ngws subnets h = rw (count_gateways-count_all [] ngws subnets, h) refl
