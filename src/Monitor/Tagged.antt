-- ===== src/Monitor/Tagged.antt =====
-- Which resources a job is about: `filterThroughTags` of pkg/cloud/aws/monitor/resource.go, and
-- `getTaggedResource` of aws_monitor.go. regexp.Compile and the tagging client are arguments.
pub mod Filtered
pub mod Selected
use iaa_s_exporter.Prelude.{
  ℕ, ◌+◌, String, Bool, true, false, Option, none, some, List, [], ◌∷◌, map, ◌==◌, if◌then◌else◌,
  nat_eq, length,
}
use iaa_s_exporter.Prelude.Interleave.{Interleaves}
use iaa_s_exporter.Config.{Tag, Job}
use iaa_s_exporter.Monitor.{TaggedResource}
use iaa_s_exporter.Monitor.Services.{ServiceFilter, get_service, supported_services}

-- One resource of a page.
pub record ResourceTagMapping : Type 0 where
  pub resource_arn : String
  pub tags : List Tag

-- An error of a page exits the process; a run-time panic ends it too. Else the goroutines, one for
-- each page, have these resources to append.
pub data Gathered (A : Type 0) : Type 0 where
  fatal panicked : Gathered A
  gathered : List (List A) → Gathered A

-- A step that may panic.
infixl 5 ◌>>=◌
abbrev ◌>>=◌ : {A B : Type 0} → Option A → (A → Option B) → Option B
none >>= f = none
some a >>= f = f a

-- regexp.Compile, by what `MatchString` says of a text; `none` is an error, whose nil expression
-- panics at `MatchString`.
module _ (compile : String → Option (String → Bool)) where
  abbrev match_string : Option (String → Bool) → String → Option ℕ
  match_string none value = none
  match_string (some matches) value = if matches value then some 1 else some 0

  -- One more match, or none.
  unfoldable pub match_tag : Tag → Tag → Option ℕ
  match_tag resource_tag filter_tag =
      if resource_tag.key == filter_tag.key
      then match_string (compile filter_tag.value) resource_tag.value
      else some 0

  -- The loops over the filter's tags, and over those of the resource.
  unfoldable pub match_filters : Tag → List Tag → Option ℕ
  unfolding match_tag
  match_filters resource_tag [] = some 0
  match_filters resource_tag (filter_tag ∷ filter_tags) = do
    n ← match_tag resource_tag filter_tag
    rest ← match_filters resource_tag filter_tags
    some (n + rest)

  unfoldable pub tag_matches : List Tag → List Tag → Option ℕ
  unfolding match_filters
  tag_matches [] filter_tags = some 0
  tag_matches (resource_tag ∷ tags) filter_tags = do
    n ← match_filters resource_tag filter_tags
    rest ← tag_matches tags filter_tags
    some (n + rest)

  unfoldable pub filter_through_tags : List Tag → List Tag → Option Bool
  unfolding tag_matches
  filter_through_tags tags filter_tags = do
    n ← tag_matches tags filter_tags
    some (nat_eq n (length filter_tags))

  module _ (job : Job) (region : String) where
    abbrev pub resource_of : ResourceTagMapping → TaggedResource
    resource_of mapping = record {
      arn = mapping.resource_arn;
      namespace = job.type;
      region = region;
      tags = mapping.tags;
    }

    keep : Bool → TaggedResource → List TaggedResource → List TaggedResource
    keep true resource resources = resource ∷ resources
    keep false resource resources = resources

    -- The goroutine of a page.
    unfoldable pub keep_tagged : List ResourceTagMapping → Option (List TaggedResource)
    unfolding filter_through_tags keep
    keep_tagged [] = some []
    keep_tagged (mapping ∷ mappings) = do
      kept ← filter_through_tags mapping.tags job.search_tags
      rest ← keep_tagged mappings
      some (keep kept (resource_of mapping) rest)

    abbrev add_page :
        Option (List TaggedResource) → Gathered TaggedResource → Gathered TaggedResource
    add_page none rest = panicked
    add_page (some resources) fatal = fatal
    add_page (some resources) panicked = panicked
    add_page (some resources) (gathered pages) = gathered (resources ∷ pages)

    unfoldable pub gather_pages : List (Option (List ResourceTagMapping)) → Gathered TaggedResource
    unfolding keep_tagged
    gather_pages [] = gathered []
    gather_pages (none ∷ pages) = fatal
    gather_pages (some page ∷ pages) = add_page (keep_tagged page) (gather_pages pages)

    -- The tagging client, by its pages for the resource types and the keys of tags.
    module _
        (get_resources : List String → List String → List (Option (List ResourceTagMapping))) where
      unfoldable pub of_service : Option ServiceFilter → Gathered TaggedResource
      unfolding gather_pages
      of_service none = panicked
      of_service (some svc) =
          if nat_eq (length svc.resource_filters) 0
          then gathered []
          else gather_pages
              (get_resources svc.resource_filters (map (λ tag. tag.key) job.search_tags))

      unfoldable pub get_tagged_resource : Gathered TaggedResource
      unfolding of_service get_service
      get_tagged_resource = of_service (get_service supported_services job.type)

-- The goroutines append to one list.
abbrev pub GathersAll : {A : Type 0} → Gathered A → List A → Type 0
GathersAll fatal result = ⊥
GathersAll panicked result = ⊥
GathersAll (gathered pages) result = Interleaves pages result
