-- ===== src/Monitor/Discovery/Origin.antt =====
-- Which resources the data of pkg/cloud/aws/monitor/aws_monitor.go is about.
use mathlib.Core.Path.{subst}
use iaa_s_exporter.Prelude.{
  ℕ, suc, ◌+◌, ◌≡◌, refl, String, Bool, true, false, Option, none, some, List, [], ◌∷◌, All,
  All-append, ◌==◌, if◌then◌else◌, length,
}
use iaa_s_exporter.Prelude.Dict.{Dict, lookup, insert, lookup-nil, lookup-insert, is_some, or_else}
use iaa_s_exporter.Monitor.{CwDimension, CwMetric, TaggedResource, CloudwatchData}
use iaa_s_exporter.Monitor.Discovery.{
  DimValues, Regexp, Request, values_of, add_names, add_groups, add_match, add_resources,
  add_regexps, get_dimensions_filter, find_value, find_resource, data_of_all, with_resource,
  data_from, get_cloudwatch_data_from_metric, join, data_of,
}

module _ (P : TaggedResource → Type 0) where
  -- The resources that a filter of dimensions names all satisfy `P`.
  abbrev pub OnlyP : DimValues → Type 0
  OnlyP vals = All (λ v. P v.1) vals

  abbrev pub FilterOnlyP : Dict DimValues → Type 0
  FilterOnlyP filter = (key : String) → OnlyP (values_of (lookup key filter))

  insert-FilterOnlyP :
      (key : String) (vals : DimValues) (filter : Dict DimValues)
      → OnlyP vals
      → FilterOnlyP filter
      → FilterOnlyP (insert key vals filter)
  insert-FilterOnlyP key vals filter v h other =
      rw (lookup-insert key other vals filter) (by_key (key == other))
    where
      by_key : (same : Bool) → OnlyP (values_of (if same then some vals else lookup other filter))
      by_key true = v
      by_key false = h other

  if-FilterOnlyP :
      (b : Bool) (filter filter' : Dict DimValues)
      → FilterOnlyP filter
      → FilterOnlyP filter'
      → FilterOnlyP (if b then filter else filter')
  if-FilterOnlyP true filter filter' h h' = h
  if-FilterOnlyP false filter filter' h h' = h'

  add_names-FilterOnlyP :
      (names : List String) (filter : Dict DimValues)
      → FilterOnlyP filter
      → FilterOnlyP (add_names names filter)
  unfolding add_names
  add_names-FilterOnlyP [] filter h = h
  add_names-FilterOnlyP (name ∷ names) filter h = add_names-FilterOnlyP names _ (
      if-FilterOnlyP (is_some (lookup name filter)) filter (insert name [] filter) h
        (insert-FilterOnlyP name [] filter tt h))

  add_groups-FilterOnlyP :
      (r : TaggedResource) (names values : List String) (filter : Dict DimValues)
      → P r
      → FilterOnlyP filter
      → FilterOnlyP (add_groups r names values filter)
  unfolding add_groups
  add_groups-FilterOnlyP r [] values filter p h = h
  add_groups-FilterOnlyP r (name ∷ names) [] filter p h = h
  add_groups-FilterOnlyP r (name ∷ names) (value ∷ values) filter p h =
      add_groups-FilterOnlyP r names values _ p (
        insert-FilterOnlyP name _ filter
          (All-append (λ v. P v.1) (values_of (lookup name filter)) ((value, r) ∷ []) (h name)
            (p, tt))
          h)

  add_match-FilterOnlyP :
      (regexp : Regexp) (r : TaggedResource) (m : Option (List String)) (filter : Dict DimValues)
      → P r
      → FilterOnlyP filter
      → FilterOnlyP (add_match regexp r m filter)
  add_match-FilterOnlyP regexp r none filter p h = h
  add_match-FilterOnlyP regexp r (some values) filter p h =
      add_groups-FilterOnlyP r regexp.subexp_names values filter p h

  add_resources-FilterOnlyP :
      (regexp : Regexp) (rs : List TaggedResource) (filter : Dict DimValues)
      → All P rs
      → FilterOnlyP filter
      → FilterOnlyP (add_resources regexp rs filter)
  unfolding add_resources
  add_resources-FilterOnlyP regexp [] filter p h = h
  add_resources-FilterOnlyP regexp (r ∷ rs) filter (p, ps) h =
      add_resources-FilterOnlyP regexp rs _ ps
        (add_match-FilterOnlyP regexp r (regexp.find_submatch r.arn) filter p h)

  add_regexps-FilterOnlyP :
      (regexps : List Regexp) (rs : List TaggedResource) (filter : Dict DimValues)
      → All P rs
      → FilterOnlyP filter
      → FilterOnlyP (add_regexps regexps rs filter)
  unfolding add_regexps
  add_regexps-FilterOnlyP [] rs filter p h = h
  add_regexps-FilterOnlyP (regexp ∷ regexps) rs filter p h =
      add_regexps-FilterOnlyP regexps rs _ p (
        add_resources-FilterOnlyP regexp rs _ p
          (add_names-FilterOnlyP regexp.subexp_names filter h))

  pub get_dimensions_filter-FilterOnlyP :
      (regexps : List Regexp) (rs : List TaggedResource)
      → All P rs
      → FilterOnlyP (get_dimensions_filter regexps rs)
  unfolding get_dimensions_filter
  get_dimensions_filter-FilterOnlyP regexps rs p =
      add_regexps-FilterOnlyP regexps rs [] p (λ key. rw (lookup-nil {V = DimValues} key) tt)

  -- The resource, where there is one.
  abbrev MaybeP : Option TaggedResource → Type 0
  MaybeP none = Unit
  MaybeP (some r) = P r

  if-MaybeP :
      (b : Bool) (r r' : Option TaggedResource)
      → MaybeP r
      → MaybeP r'
      → MaybeP (if b then r else r')
  if-MaybeP true r r' p p' = p
  if-MaybeP false r r' p p' = p'

  module _ (filter : Dict DimValues) where
    find_value-MaybeP :
        (value : String) (vals : DimValues) → OnlyP vals → MaybeP (find_value filter value vals)
    unfolding find_value
    find_value-MaybeP value [] p = tt
    find_value-MaybeP value ((dim_val, res) ∷ vals) (p, ps) =
        if-MaybeP (dim_val == value) (some res) _ p (find_value-MaybeP value vals ps)

    or_else-MaybeP : (a b : Option TaggedResource) → MaybeP a → MaybeP b → MaybeP (or_else a b)
    or_else-MaybeP none b p q = q
    or_else-MaybeP (some r) b p q = p

    find_resource-MaybeP :
        (ds : List CwDimension) → FilterOnlyP filter → MaybeP (find_resource filter ds)
    unfolding find_resource
    find_resource-MaybeP [] h = tt
    find_resource-MaybeP (d ∷ ds) h =
        or_else-MaybeP _ _ (find_value-MaybeP d.value _ (h d.name)) (find_resource-MaybeP ds h)

    module _ (F : Type 0) (req : Request) where
      -- The data is of a resource that satisfies `P`.
      abbrev pub IsOfP : CloudwatchData F → Type 0
      IsOfP d = (r : TaggedResource) × P r × (d.id ≡ r.arn)

      data_of_all-IsOfP :
          (r : TaggedResource) (m : CwMetric) (n : ℕ) (ss : List String)
          → P r
          → All IsOfP (data_of_all {F = F} filter req r m n ss)
      unfolding data_of_all data_of
      data_of_all-IsOfP r m n [] p = tt
      data_of_all-IsOfP r m n (s ∷ ss) p = ((r, p, refl), data_of_all-IsOfP r m (suc n) ss p)

      abbrev AllIn : Option (List (CloudwatchData F)) → Type 0
      AllIn none = Unit
      AllIn (some ds) = All IsOfP ds

      with_resource-AllIn :
          (r : Option TaggedResource) (m : CwMetric) (n : ℕ) (ss : List String)
          → MaybeP r
          → AllIn (with_resource {F = F} filter req r m n ss)
      unfolding with_resource
      with_resource-AllIn none m n [] p = tt
      with_resource-AllIn none m n (s ∷ ss) p = tt
      with_resource-AllIn (some r) m n ss p = data_of_all-IsOfP r m n ss p

      join-AllIn :
          (a b : Option (List (CloudwatchData F))) → AllIn a → AllIn b → AllIn (join filter req a b)
      join-AllIn none b p q = tt
      join-AllIn (some xs) none p q = tt
      join-AllIn (some xs) (some ys) p q = All-append IsOfP xs ys p q

      data_from-AllIn :
          (before : Option TaggedResource) (n : ℕ) (ms : List CwMetric)
          → FilterOnlyP filter
          → MaybeP before
          → AllIn (data_from {F = F} filter req before n ms)
      unfolding data_from
      data_from-AllIn before n [] h p = tt
      data_from-AllIn before n (m ∷ ms) h p =
          let q = or_else-MaybeP _ before (find_resource-MaybeP m.dimensions h) p in
          join-AllIn _ _ (with_resource-AllIn _ m n req.metric.statistics q) (
            data_from-AllIn (or_else (find_resource filter m.dimensions) before)
              (n + length req.metric.statistics) ms h q)

      -- If the resources of the filter satisfy a predicate, all data is of such a resource.
      pub get_cloudwatch_data_from_metric-IsOfP :
          (filtered : List CwMetric) (data' : List (CloudwatchData F))
          → FilterOnlyP filter
          → get_cloudwatch_data_from_metric filter req filtered ≡ some data'
          → All IsOfP data'
      unfolding get_cloudwatch_data_from_metric
      get_cloudwatch_data_from_metric-IsOfP filtered data' h e =
          subst AllIn e (data_from-AllIn none 0 filtered h tt)
