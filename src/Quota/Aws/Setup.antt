-- ===== src/Quota/Aws/Setup.antt =====
-- What pkg/cloud/aws/quota/aws_quota.go keeps in `serviceQuotaMap`.
use mathlib.Core.Path.{subst}
use iaa_s_exporter.Prelude.{
  ◌≡◌, refl, String, true, false, Option, none, some, List, [], ◌∷◌, if◌then◌else◌, ◌==◌, eq_iff,
  Bool-cases, ◌⊎◌, inl, inr,
}
use iaa_s_exporter.Prelude.Dict.{Dict, lookup, insert, lookup-insert}
use iaa_s_exporter.Quota.Aws.{
  services, quota_code_list, contains, to_string, ServiceQuota, Globals, Directory, keep_quota,
  keep_page, keep_pages, keep_services, with_map, first_or, identified, named, initial_quota_list,
}

module _ {F : Type 0} where
  -- A quota in the map stands under its own code, and the code is one that is looked up.
  pub record IsIndexed (m : Dict (ServiceQuota F)) : Type 0 where
    pub at :
        (k : String) (q : ServiceQuota F)
        → lookup k m ≡ some q
        → (to_string q.quota_code ≡ k) × (contains quota_code_list k ≡ true)

  insert-IsIndexed :
      (m : Dict (ServiceQuota F)) (q : ServiceQuota F)
      → contains quota_code_list (to_string q.quota_code) ≡ true
      → IsIndexed m
      → IsIndexed (insert (to_string q.quota_code) q m)
  insert-IsIndexed m q c h = record {
    at = λ k r l. split k r (Bool-cases (to_string q.quota_code == k)) (rw lookup-insert at l);
  }
    where
      split :
          (k : String) (r : ServiceQuota F)
          → ((to_string q.quota_code == k) ≡ true) ⊎ ((to_string q.quota_code == k) ≡ false)
          → (if to_string q.quota_code == k then some q else lookup k m) ≡ some r
          → (to_string r.quota_code ≡ k) × (contains quota_code_list k ≡ true)
      split k r (inl p) l =
          let code : to_string q.quota_code ≡ k = (eq_iff (to_string q.quota_code) k).0 p in
          let e : some q ≡ some r = rw p at l in
          let same : q ≡ r = cc in (rw (← same) code, rw (← code) c)
      split k r (inr p) l = h.at k r (rw p at l)

  keep_page-IsIndexed :
      (m : Dict (ServiceQuota F)) (qs : List (ServiceQuota F))
      → IsIndexed m
      → IsIndexed (keep_page m qs)
  unfolding keep_page
  keep_page-IsIndexed m [] h = h
  keep_page-IsIndexed m (q ∷ qs) h =
      keep_page-IsIndexed (keep_quota m q) qs
        (split (Bool-cases (contains quota_code_list (to_string q.quota_code))))
    where
      split :
          (contains quota_code_list (to_string q.quota_code) ≡ true)
            ⊎ (contains quota_code_list (to_string q.quota_code) ≡ false)
          → IsIndexed (keep_quota m q)
      split (inl p) = rw p (insert-IsIndexed m q p h)
      split (inr p) = rw p h

  keep_pages-IsIndexed :
      (m m' : Dict (ServiceQuota F)) (pages : List (Option (List (ServiceQuota F))))
      → IsIndexed m
      → keep_pages m pages ≡ some m'
      → IsIndexed m'
  unfolding keep_pages
  keep_pages-IsIndexed m m' [] h e = let same : m ≡ m' = cc in rw (← same) h
  keep_pages-IsIndexed m m' (none ∷ pages) h e = cc
  keep_pages-IsIndexed m m' (some qs ∷ pages) h e =
      keep_pages-IsIndexed (keep_page m qs) m' pages (keep_page-IsIndexed m qs h) e

  keep_services-IsIndexed :
      (dir : Directory F) (o : Option (Dict (ServiceQuota F))) (m' : Dict (ServiceQuota F))
      (names : List String)
      → ((m : Dict (ServiceQuota F)) → o ≡ some m → IsIndexed m)
      → keep_services dir o names ≡ some m'
      → IsIndexed m'
  unfolding keep_services
  keep_services-IsIndexed dir none m' [] h e = cc
  keep_services-IsIndexed dir none m' (name ∷ names) h e = cc
  keep_services-IsIndexed dir (some m) m' [] h e = h m' e
  keep_services-IsIndexed dir (some m) m' (name ∷ names) h e =
      keep_services-IsIndexed dir (keep_pages m (dir.quota_pages name)) m' names
        (λ x q. keep_pages-IsIndexed m x (dir.quota_pages name) (h m refl) q) e

  with_map-IsIndexed :
      (g g' : Globals F) (o : Option (Dict (ServiceQuota F)))
      → ((m : Dict (ServiceQuota F)) → o ≡ some m → IsIndexed m)
      → with_map g o ≡ some g'
      → IsIndexed g'.service_quota_map
  unfolding with_map
  with_map-IsIndexed g g' none h e = cc
  with_map-IsIndexed g g' (some m) h e =
      let same : record g { service_quota_map = m } ≡ g' = cc in
      subst (λ x. IsIndexed x.service_quota_map) same (h m refl)

  identified-IsIndexed :
      (dir : Directory F) (g g' : Globals F) (o : Option (Option String))
      → IsIndexed g.service_quota_map
      → identified dir g o ≡ some g'
      → IsIndexed g'.service_quota_map
  unfolding identified
  identified-IsIndexed dir g g' none h e = cc
  identified-IsIndexed dir g g' (some id) h e =
      with_map-IsIndexed (record g { account_id = to_string id }) g'
        (keep_services dir (some g.service_quota_map) services)
        (λ m.
          keep_services-IsIndexed dir (some g.service_quota_map) m services
            (λ x q. let same : g.service_quota_map ≡ x = cc in rw (← same) h))
        e

  -- Setting up the quotas, if it does not panic, keeps the map's invariant.
  pub initial_quota_list-IsIndexed :
      (dir : Directory F) (g g' : Globals F)
      → IsIndexed g.service_quota_map
      → initial_quota_list dir g ≡ some g'
      → IsIndexed g'.service_quota_map
  unfolding initial_quota_list named
  initial_quota_list-IsIndexed dir g g' h e = by_aliases dir.account_aliases e
    where
      by_aliases :
          (o : Option (List String)) → named dir g o ≡ some g' → IsIndexed g'.service_quota_map
      by_aliases none q = cc
      by_aliases (some aliases) q =
          identified-IsIndexed dir (record g { account = first_or g.account aliases }) g'
            dir.caller_account h q
