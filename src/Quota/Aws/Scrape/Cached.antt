-- ===== src/Quota/Aws/Scrape/Cached.antt =====
-- What a scrape of pkg/cloud/aws/quota/aws_quota.go leaves in the cache, and what `Collect` shows.
use iaa_s_exporter.Prelude.{
  ◌≡◌, refl, ap, ◌∙◌, String, Bool, true, false, not, ◌&&◌, ◌||◌, Option, none, some, List, [], ◌∷◌,
  ◌==◌, eq_iff, eq_refl, Bool-cases, Option-cases, inl, inr,
}
use iaa_s_exporter.Prelude.Dict.{lookup}
use iaa_s_exporter.Quota.{Float64, QuotaResult, Cache}
use iaa_s_exporter.Quota.Gauges.{IsShown, set_gauges-IsShown}
use iaa_s_exporter.Quota.Sets.{Op, last_set, apply, lookup-apply}
use iaa_s_exporter.Prelude.Dict.{or_else}
use iaa_s_exporter.Quota.Interleave.{Spares, SetByOne, Interleaves-last_set}
use iaa_s_exporter.Prelude.Interleave.{Interleaves}
use iaa_s_exporter.Quota.Aws.{
  quota_code_list, contains, to_string, ServiceQuota, no_quota, Globals, Directory,
  initial_quota_list,
}
use iaa_s_exporter.Quota.Aws.Setup.{IsIndexed, initial_quota_list-IsIndexed}
use iaa_s_exporter.Quota.Aws.Usage.{Clients, Current, value, unset, crashed, F, current_value}
use iaa_s_exporter.Quota.Aws.Scrape.{
  result_of, set_current, goroutine, both, goroutines, with_sets, after_setup, scrape, labels_of,
  collect,
}

-- No element stands twice.
unfoldable is_unique : List String → Bool
unfolding contains
is_unique [] = true
is_unique (s ∷ ss) = not (contains ss s) && is_unique ss

quota_code_list_unique : is_unique quota_code_list ≡ true
unfolding is_unique contains
quota_code_list_unique = refl

contains-not_empty : (s : String) → contains quota_code_list s ≡ true → ("" == s) ≡ false
unfolding contains
contains-not_empty s h = elim (Bool-cases ("" == s)) [
  | inl p ↦ let e : "" ≡ s = (eq_iff "" s).0 p in absurd (rw (← e) at h)
  | inr p ↦ p
]
  where
    absurd : contains quota_code_list "" ≡ true → ("" == s) ≡ false
    absurd q = cc

both-some :
    {A : Type 0} (o : Option A) (p : Option (List A)) (zs : List A)
    → both o p ≡ some zs
    → (a : A) × (xs : List A) × (o ≡ some a) × (p ≡ some xs) × (zs ≡ a ∷ xs)
both-some none p zs h = cc
both-some (some a) none zs h = cc
both-some (some a) (some xs) zs h = (a, xs, refl, refl, cc)

or-false : (a b : Bool) → (a || b) ≡ false → (a ≡ false) × (b ≡ false)
or-false true b h = cc
or-false false b h = (refl, h)

and-true : (a b : Bool) → (not a && b) ≡ true → (a ≡ false) × (b ≡ true)
and-true true b h = cc
and-true false b h = (refl, h)

module _ (float : Float64) (clients : Clients (F float)) (g : Globals (F float)) where
  abbrev R : Type 0
  R = QuotaResult (F float)

  -- A quota's goroutine sets nothing under another key than its code.
  set_current-other :
      (key : String) (q : ServiceQuota (F float)) (v : Current (F float)) (ops : List (Op R))
      → (to_string q.quota_code == key) ≡ false
      → set_current float q v ≡ some ops
      → last_set key ops ≡ none
  unfolding set_current last_set
  set_current-other key q (value v) ops n h =
      let e : (to_string q.quota_code, result_of float q v) ∷ [] ≡ ops = cc in rw (← e, n) refl
  set_current-other key q unset ops n h = let e : [] ≡ ops = cc in rw (← e) refl
  set_current-other key q crashed ops n h = cc

  goroutine-other :
      (code c : String) (ops : List (Op R))
      → IsIndexed g.service_quota_map
      → contains quota_code_list code ≡ true
      → (c == code) ≡ false
      → goroutine float clients g c ≡ some ops
      → last_set code ops ≡ none
  unfolding goroutine
  goroutine-other code c ops ix k n h = elim (Option-cases (lookup c g.service_quota_map)) [
    | inl p ↦
        set_current-other code no_quota (current_value float clients g.account c no_quota) ops
          (contains-not_empty code k) (rw p at h)
    | inr (q, p) ↦
        set_current-other code q (current_value float clients g.account c q) ops
          (rw ((ix.at c q p).0) n) (rw p at h)
  ]

  goroutine-own :
      (code : String) (q : ServiceQuota (F float)) (v : F float) (ops : List (Op R))
      → IsIndexed g.service_quota_map
      → lookup code g.service_quota_map ≡ some q
      → current_value float clients g.account code q ≡ value v
      → goroutine float clients g code ≡ some ops
      → last_set code ops ≡ some (result_of float q v)
  unfolding goroutine set_current last_set
  goroutine-own code q v ops ix l w h =
      let ran : some ((to_string q.quota_code, result_of float q v) ∷ []) ≡ some ops =
        rw (l, w) at h in
      let e : (to_string q.quota_code, result_of float q v) ∷ [] ≡ ops = cc in
      rw (← e, (ix.at code q l).0, eq_refl code) refl

  goroutines-Spares :
      (code : String) (codes : List String) (sets : List (List (Op R)))
      → IsIndexed g.service_quota_map
      → contains quota_code_list code ≡ true
      → contains codes code ≡ false
      → goroutines float clients g codes ≡ some sets
      → Spares code sets
  unfolding goroutines contains
  goroutines-Spares code [] sets ix k n h = let e : [] ≡ sets = cc in rw (← e) tt
  goroutines-Spares code (c ∷ codes) sets ix k n h =
      let (ops, rest, a, b, e) =
        both-some (goroutine float clients g c) (goroutines float clients g codes) sets h in
      let (n1, n2) = or-false (c == code) (contains codes code) n in
      rw e (goroutine-other code c ops ix k n1 a, goroutines-Spares code codes rest ix k n2 b)

  goroutines-SetByOne :
      (code : String) (q : ServiceQuota (F float)) (v : F float) (codes : List String)
      (sets : List (List (Op R)))
      → IsIndexed g.service_quota_map
      → lookup code g.service_quota_map ≡ some q
      → current_value float clients g.account code q ≡ value v
      → contains codes code ≡ true
      → is_unique codes ≡ true
      → goroutines float clients g codes ≡ some sets
      → SetByOne code (some (result_of float q v)) sets
  unfolding goroutines contains is_unique
  goroutines-SetByOne code q v [] sets ix l w k u h = cc
  goroutines-SetByOne code q v (c ∷ codes) sets ix l w k u h =
      let (ops, rest, a, b, e) =
        both-some (goroutine float clients g c) (goroutines float clients g codes) sets h in
      let (u1, u2) = and-true (contains codes c) (is_unique codes) u in
      rw e (elim (Bool-cases (c == code)) [
        | inl p ↦
            let same : c ≡ code = (eq_iff c code).0 p in
            inl (
              goroutine-own code q v ops ix l w (rw same at a),
              goroutines-Spares code codes rest ix (ix.at code q l).1 (rw same at u1) b,
            )
        | inr p ↦ inr (
          goroutine-other code c ops ix (ix.at code q l).1 p a,
          goroutines-SetByOne code q v codes rest ix l w (rw p at k) u2 b,
        )
      ])

module _ (float : Float64) (dir : Directory (F float)) (clients : Clients (F float)) where
  abbrev Scraped : Type 0
  Scraped = Globals (F float) × List (List (Op (QuotaResult (F float))))

  with_sets-some :
      (f g' : Globals (F float)) (sets : List (List (Op (QuotaResult (F float)))))
      (o : Option (List (List (Op (QuotaResult (F float))))))
      → with_sets float f o ≡ some (g', sets)
      → (f ≡ g') × (o ≡ some sets)
  with_sets-some f g' sets none h = cc
  with_sets-some f g' sets (some ss) h =
      let same : ◌≡◌ {A = Scraped} (f, ss) (g', sets) = cc in
      (ap (λ (z : Scraped). z.0) same, ap (λ (z : Scraped). some z.1) same)

  after_setup-some :
      (o : Option (Globals (F float))) (g' : Globals (F float))
      (sets : List (List (Op (QuotaResult (F float)))))
      → after_setup float clients o ≡ some (g', sets)
      → (o ≡ some g') × (goroutines float clients g' quota_code_list ≡ some sets)
  after_setup-some none g' sets h = cc
  after_setup-some (some f) g' sets h =
      let (f_same, e) = with_sets-some f g' sets (goroutines float clients f quota_code_list) h in
      (ap some f_same, rw (← f_same) e)

  -- After a scrape that did not panic, a quota that the account has and whose case comes to a value
  -- is in the cache under its code with its limit and that value, in whatever order the goroutines
  -- set their results, and `Collect` then sets both of its gauges.
  pub aws_scrape-IsShown :
      (cache : Cache (QuotaResult (F float))) (c : cache.carrier) (region : String)
      (g g' : Globals (F float)) (sets : List (List (Op (QuotaResult (F float)))))
      (zs : List (Op (QuotaResult (F float))))
      → IsIndexed g.service_quota_map
      → scrape float dir clients g ≡ some (g', sets)
      → Interleaves sets zs
      → (code : String) (q : ServiceQuota (F float)) (v : F float)
      → lookup code g'.service_quota_map ≡ some q
      → current_value float clients g'.account code q ≡ value v
      → (lookup code (cache.items (apply cache zs c)) ≡ some (result_of float q v))
        × IsShown
            (labels_of float region g')
            (λ r. r)
            (result_of float q v)
            (collect float region g' (cache.items (apply cache zs c)))
  unfolding scrape collect
  aws_scrape-IsShown cache c region g g' sets zs ix h i code q v l w = (
    cached,
    set_gauges-IsShown (labels_of float region g') (λ r. r) _ code (result_of float q v) cached,
  )
    where
      ran :
          (initial_quota_list dir g ≡ some g')
          × (goroutines float clients g' quota_code_list ≡ some sets)
      ran = after_setup-some (initial_quota_list dir g) g' sets h

      indexed : IsIndexed g'.service_quota_map
      indexed = initial_quota_list-IsIndexed dir g g' ix ran.0

      cached : lookup code (cache.items (apply cache zs c)) ≡ some (result_of float q v)
      cached =
          lookup-apply cache code zs c
          ∙ ap (λ o. or_else o (lookup code (cache.items c)))
              (Interleaves-last_set code (some (result_of float q v)) sets zs i (
                goroutines-SetByOne float clients g' code q v quota_code_list sets indexed l w
                  ((indexed.at code q l).1) quota_code_list_unique ran.1))
