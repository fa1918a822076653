-- ===== src/Quota/Azure/Usages.antt =====
-- Which usages pkg/cloud/azure/azure_quota.go sets in the cache.
use mathlib.Core.List.{append-nil}
use iaa_s_exporter.Prelude.{
  ◌≡◌, refl, Bool, true, false, ◌&&◌, not, none, some, List, [], ◌∷◌, ◌++◌, map, arith,
  if◌then◌else◌, ap, sym, ◌∙◌, Bool-cases, inl, inr,
}
use iaa_s_exporter.Prelude.Int.{pos, leb_ℤ, ltb_ℤ}
use iaa_s_exporter.Quota.{Float64, QuotaResult}
use iaa_s_exporter.Quota.Sets.{Op}
use iaa_s_exporter.Quota.Azure.{
  Usage, UsageName, finished, stopped, to_int, to_string, max_int32, F, G, result_of, visit,
  set_named, traverse, visit_all, collect_compute, collect_network, collect_storage,
}

-- Limited, and in use: compared as integers.
abbrev pub is_reported : Usage → Bool
is_reported i =
    not (leb_ℤ (pos max_int32) (to_int i.limit)) && ltb_ℤ (pos 0) (to_int i.current_value)

-- A usage together with the name that it holds.
abbrev pub Named : Type 0
Named = Usage × UsageName

abbrev pub usage_of : Named → Usage
usage_of (i, n) = record i { name = some n }

abbrev pub no_error : Usage → Bool × Usage
no_error i = (false, i)

module _ (float : Float64) where
  -- The calls of `Set` for the reported usages, in their order.
  abbrev pub reports : List Named → List (Op (QuotaResult (F float)))
  reports [] = []
  reports ((i, n) ∷ us) =
      if is_reported i then (to_string n.value, result_of float i n) ∷ reports us else reports us

  abbrev pub prepend : List (Op (QuotaResult (F float))) → G float → G float
  prepend ops g = record g { ops = ops ++ g.ops }

  choose :
      (unlimited used : Bool) (op : Op (QuotaResult (F float))) (rest : G float)
      → (if unlimited then rest else if used then record rest { ops = op ∷ rest.ops } else rest)
        ≡ prepend (if not unlimited && used then op ∷ [] else []) rest
  choose true used op rest = refl
  choose false true op rest = refl
  choose false false op rest = refl

  visit-named :
      (i : Usage) (n : UsageName) (rest : G float)
      → visit float (usage_of (i, n)) rest ≡ prepend (reports ((i, n) ∷ [])) rest
  unfolding visit set_named
  visit-named i n rest =
      rw
        (
          float.ge-of_int (to_int i.limit) max_int32 (omega arith),
          float.gt-of_int (to_int i.current_value) 0 (omega arith),
        )
        (choose (leb_ℤ (pos max_int32) (to_int i.limit)) (ltb_ℤ (pos 0) (to_int i.current_value)) _
          rest)

  reports-cons :
      (i : Usage) (n : UsageName) (us : List Named) (g : G float)
      → prepend (reports ((i, n) ∷ [])) (prepend (reports us) g) ≡ prepend (reports ((i, n) ∷ us)) g
  reports-cons i n us g = elim (Bool-cases (is_reported i)) [
    | inl p ↦ rw p refl
    | inr p ↦ rw p refl
  ]

  traverse-append :
      (us : List Named) (rest : List (Bool × Usage))
      → traverse float (map (λ u. no_error (usage_of u)) us ++ rest)
        ≡ prepend (reports us) (traverse float rest)
  unfolding traverse
  traverse-append [] rest = refl
  traverse-append ((i, n) ∷ us) rest =
      rw (traverse-append us rest) (visit-named i n _ ∙ reports-cons i n us (traverse float rest))

  visit_all-named :
      (us : List Named)
      → visit_all float (map usage_of us)
        ≡ prepend (reports us) (record { ops = []; ending = finished })
  unfolding visit_all
  visit_all-named [] = refl
  visit_all-named ((i, n) ∷ us) =
      rw (visit_all-named us) (visit-named i n _ ∙ reports-cons i n us _)

  -- Over named usages the compute, the network and the storage goroutine each set exactly the
  -- results of those with a limit below 2147483647 and a current value above 0, under their codes,
  -- in the order of the API, and finish.
  pub collect_reports :
      (us : List Named)
      → let all : G float = record { ops = reports us; ending = finished } in
        (collect_compute float (map (λ u. no_error (usage_of u)) us) ≡ all)
        × (collect_network float (map (λ u. no_error (usage_of u)) us) ≡ all)
        × (collect_storage float (some (some (map usage_of us))) ≡ all)
  unfolding collect_compute collect_network collect_storage
  collect_reports us = (by_iterator, by_iterator, visit_all-named us ∙ whole)
    where
      whole :
          prepend (reports us) (record { ops = []; ending = finished })
          ≡ record { ops = reports us; ending = finished }
      whole = rw append-nil refl

      by_iterator :
          traverse float (map (λ u. no_error (usage_of u)) us)
          ≡ record { ops = reports us; ending = finished }
      by_iterator =
          ap (traverse float) (sym (append-nil (map (λ u. no_error (usage_of u)) us)))
          ∙ traverse-append us []
          ∙ whole

  -- When the compute or the network iterator fails after named usages, what they reported stays set,
  -- and the goroutine stops without looking at the usages that follow; when the storage API fails,
  -- nothing is set.
  pub collect_stops :
      (us : List Named) (i : Usage) (rest : List (Bool × Usage))
      → let failing : List (Bool × Usage) =
          map (λ u. no_error (usage_of u)) us ++ (true, i) ∷ rest in
        let some_set : G float = record { ops = reports us; ending = stopped } in
        (collect_compute float failing ≡ some_set)
        × (collect_network float failing ≡ some_set)
        × (collect_storage float none ≡ record { ops = []; ending = stopped })
  unfolding collect_compute collect_network collect_storage
  collect_stops us i rest = (by_iterator, by_iterator, refl)
    where
      by_iterator :
          traverse float (map (λ u. no_error (usage_of u)) us ++ (true, i) ∷ rest)
          ≡ record { ops = reports us; ending = stopped }
      by_iterator = traverse-append us ((true, i) ∷ rest) ∙ (unfold traverse in rw append-nil refl)
