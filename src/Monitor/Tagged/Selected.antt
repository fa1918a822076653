-- ===== src/Monitor/Tagged/Selected.antt =====
-- The resources that `getTaggedResource` gathers.
use mathlib.Core.List.{Memᴰ}
use iaa_s_exporter.Prelude.{
  ◌≡◌, refl, String, Bool, true, false, Option, none, some, List, [], ◌∷◌, map, All, All-imp,
  length, nat_eq, if◌then◌else◌,
}
use iaa_s_exporter.Prelude.Interleave.{All-Interleaves}
use iaa_s_exporter.Config.{Job}
use iaa_s_exporter.Monitor.{TaggedResource}
use iaa_s_exporter.Monitor.Services.{ServiceFilter, get_service, supported_services}
use iaa_s_exporter.Monitor.Tagged.{
  ResourceTagMapping, Gathered, fatal, panicked, gathered, GathersAll, ◌>>=◌, filter_through_tags,
  resource_of, keep, keep_tagged, add_page, gather_pages, of_service, get_tagged_resource,
}

module _ (compile : String → Option (String → Bool)) (job : Job) (region : String) where
  -- It has the ARN of a resource of the page whose tags the job's search tags select.
  abbrev pub IsKept : List ResourceTagMapping → TaggedResource → Type 0
  IsKept page r =
      (mapping : ResourceTagMapping) × Memᴰ mapping page
      × (r.arn ≡ mapping.resource_arn)
      × (filter_through_tags compile mapping.tags job.search_tags ≡ some true)

  abbrev AllKept : List ResourceTagMapping → Option (List TaggedResource) → Type 0
  AllKept page none = Unit
  AllKept page (some rs) = All (IsKept page) rs

  later :
      (mapping : ResourceTagMapping) (mappings : List ResourceTagMapping) (rs : List TaggedResource)
      → All (IsKept mappings) rs
      → All (IsKept (mapping ∷ mappings)) rs
  later mapping mappings rs = All-imp rs (λ r (m, i, a, t). (m, Memᴰ.tail i, a, t))

  add_kept :
      (mapping : ResourceTagMapping) (mappings : List ResourceTagMapping) (kept : Option Bool)
      (rest : Option (List TaggedResource))
      → filter_through_tags compile mapping.tags job.search_tags ≡ kept
      → AllKept mappings rest
      → AllKept (mapping ∷ mappings) (
          kept >>= λ k. rest >>= λ rs.
          some (keep compile job region k (resource_of compile job region mapping) rs))
  unfolding keep
  add_kept mapping mappings none rest e h = tt
  add_kept mapping mappings (some k) none e h = tt
  add_kept mapping mappings (some true) (some rs) e h =
      ((mapping, Memᴰ.head refl, refl, e), later mapping mappings rs h)
  add_kept mapping mappings (some false) (some rs) e h = later mapping mappings rs h

  keep_tagged-AllKept :
      (page : List ResourceTagMapping) → AllKept page (keep_tagged compile job region page)
  unfolding keep_tagged
  keep_tagged-AllKept [] = tt
  keep_tagged-AllKept (mapping ∷ mappings) =
      add_kept mapping mappings _ _ refl (keep_tagged-AllKept mappings)

  -- It is kept from one of the pages.
  abbrev pub IsServed : List (Option (List ResourceTagMapping)) → TaggedResource → Type 0
  IsServed pages r = (page : List ResourceTagMapping) × Memᴰ (some page) pages × IsKept page r

  abbrev AllServed : List (Option (List ResourceTagMapping)) → Gathered TaggedResource → Type 0
  AllServed pages fatal = Unit
  AllServed pages panicked = Unit
  AllServed pages (gathered kept) = All (All (IsServed pages)) kept

  add_page-AllServed :
      (page : List ResourceTagMapping) (pages : List (Option (List ResourceTagMapping)))
      (kept : Option (List TaggedResource)) (rest : Gathered TaggedResource)
      → AllKept page kept
      → AllServed pages rest
      → AllServed (some page ∷ pages) (add_page compile job region kept rest)
  add_page-AllServed page pages none rest p h = tt
  add_page-AllServed page pages (some rs) fatal p h = tt
  add_page-AllServed page pages (some rs) panicked p h = tt
  add_page-AllServed page pages (some rs) (gathered kept) p h = (
    All-imp rs (λ r k. (page, Memᴰ.head refl, k)) p,
    All-imp kept (λ x k. All-imp x (λ r (q, i, j). (q, Memᴰ.tail i, j)) k) h,
  )

  gather_pages-AllServed :
      (pages : List (Option (List ResourceTagMapping)))
      → AllServed pages (gather_pages compile job region pages)
  unfolding gather_pages
  gather_pages-AllServed [] = tt
  gather_pages-AllServed (none ∷ pages) = tt
  gather_pages-AllServed (some page ∷ pages) =
      add_page-AllServed page pages _ _ (keep_tagged-AllKept page) (gather_pages-AllServed pages)

  if-AllServed :
      (b : Bool) (pages : List (Option (List ResourceTagMapping))) (g h : Gathered TaggedResource)
      → AllServed pages g
      → AllServed pages h
      → AllServed pages (if b then g else h)
  if-AllServed true pages g h p q = p
  if-AllServed false pages g h p q = q

  all_served :
      (pages : List (Option (List ResourceTagMapping))) (g : Gathered TaggedResource)
      (result : List TaggedResource)
      → AllServed pages g
      → GathersAll g result
      → All (IsServed pages) result
  all_served pages fatal result p h = elim h [ ]
  all_served pages panicked result p h = elim h [ ]
  all_served pages (gathered kept) result p i = All-Interleaves (IsServed pages) kept result i p

  module _
      (get_resources : List String → List String → List (Option (List ResourceTagMapping))) where
    -- What the tagging client answers to the request for a service.
    abbrev pub pages_of : ServiceFilter → List (Option (List ResourceTagMapping))
    pages_of svc = get_resources svc.resource_filters (map (λ tag. tag.key) job.search_tags)

    -- The tagging client has it in a page for the job's service, with tags that the job selects.
    abbrev pub IsSelected : TaggedResource → Type 0
    IsSelected r =
        (svc : ServiceFilter) × (get_service supported_services job.type ≡ some svc)
        × IsServed (pages_of svc) r

    of_service-IsSelected :
        (svc : Option ServiceFilter) (result : List TaggedResource)
        → get_service supported_services job.type ≡ svc
        → GathersAll (of_service compile job region get_resources svc) result
        → All IsSelected result
    unfolding of_service
    of_service-IsSelected none result e h = elim h [ ]
    of_service-IsSelected (some svc) result e h =
        All-imp result (λ r s. (svc, e, s))
          (all_served (pages_of svc) _ result
            (if-AllServed (nat_eq (length svc.resource_filters) 0) (pages_of svc) (gathered []) _ tt
              (gather_pages-AllServed (pages_of svc)))
            h)

    -- In whichever order the pages are appended, each resource of the result is one that the tagging
    -- client has in a page for the job's service, with tags that the job selects.
    pub get_tagged_resource-IsSelected :
        (result : List TaggedResource)
        → GathersAll (get_tagged_resource compile job region get_resources) result
        → All IsSelected result
    unfolding get_tagged_resource
    get_tagged_resource-IsSelected result h = of_service-IsSelected _ result refl h
