-- ===== src/Health/Aws.antt =====
-- pkg/cloud/aws/health/aws_health.go. A pager is the list of the answers to its `NextPage`; a page
-- that fails makes `log.Fatal` exit. A time of the SDK is the text that its `String` gives.
pub mod Counted
use iaa_s_exporter.Prelude.{
  ℕ, suc, String, Bool, true, false, Option, none, some, List, [], ◌∷◌, ◌++◌, map, length, nat_eq,
  if◌then◌else◌, ◌==◌,
}
use iaa_s_exporter.Prelude.Dict.{Dict, lookup, insert}
use iaa_s_exporter.Health.{CounterVec, Counters, reset_all, Collected, sent, unsent, fatal}
use iaa_s_exporter.Quota.Aws.{to_string}

pub record Event : Type 0 where
  pub arn : Option String
  pub service : Option String
  pub region : Option String
  pub start_time : String
  pub status_code : String
  pub last_updated_time : String
  pub event_type_code : Option String
  pub event_type_category : String
  pub event_scope_code : String
  pub availability_zone : Option String

pub record Entity : Type 0 where
  pub event_arn : Option String
  pub aws_account_id : Option String
  pub entity_arn : Option String
  pub status_code : String
  pub entity_value : Option String
  pub entity_url : Option String
  pub last_updated_time : String

-- The pages of the events, and those of the entities that a batch of events affects.
pub record HealthClient : Type 0 where
  pub event_pages : List (Option (List Event))
  pub entity_pages : List String → List (Option (List Entity))

-- All pages, or `none` at one that fails.
unfoldable pub all_pages : {A : Type 0} → List (Option (List A)) → Option (List A)
all_pages [] = some []
all_pages (none ∷ pages) = none
all_pages (some xs ∷ pages) = append_page xs (all_pages pages)
  where
    append_page : {A : Type 0} → List A → Option (List A) → Option (List A)
    append_page xs none = none
    append_page xs (some ys) = some (xs ++ ys)

abbrev pub event_labels : Event → List String
event_labels e =
    to_string e.arn
    ∷ to_string e.service
    ∷ to_string e.region
    ∷ e.start_time
    ∷ e.status_code
    ∷ e.last_updated_time
    ∷ to_string e.event_type_code
    ∷ e.event_type_category
    ∷ e.event_scope_code
    ∷ to_string e.availability_zone
    ∷ []

abbrev pub total_labels : Event → List String
total_labels e = e.event_type_category ∷ to_string e.availability_zone ∷ to_string e.service ∷ []

unfoldable pub region_map : List Event → Dict String → Dict String
region_map [] regions = regions
region_map (e ∷ es) regions = region_map es (insert (to_string e.arn) (to_string e.region) regions)

-- `arnList` and `eventArn`: a list of ten ARNs is put away, and a last one that is not empty.
unfoldable pub group_arns : List String → List String → List (List String)
group_arns [] [] = []
group_arns (arn ∷ arns) [] = (arn ∷ arns) ∷ []
group_arns arn_list (arn ∷ rest) =
    let arn_list' = arn_list ++ arn ∷ [] in
    let full = arn_list' ∷ group_arns [] rest in
    let more = group_arns arn_list' rest in if nat_eq (length arn_list') 10 then full else more

abbrev text_or_empty : Option String → String
text_or_empty none = ""
text_or_empty (some s) = s

unfoldable pub entity_labels : Dict String → Entity → List String
entity_labels regions x =
    to_string x.event_arn
    ∷ to_string x.aws_account_id
    ∷ text_or_empty (lookup (to_string x.event_arn) regions)
    ∷ to_string x.entity_arn
    ∷ x.status_code
    ∷ to_string x.entity_value
    ∷ to_string x.entity_url
    ∷ x.last_updated_time
    ∷ []

module _ (vec : CounterVec) where
  abbrev pub C : Type 0
  C = Counters vec.carrier

  -- By whether the event is closed, and else whether it is open.
  unfoldable pub count_status : Bool → Bool → Event → C → C
  count_status true is_open e c = record c {
    health_closed_total = vec.inc (total_labels e) c.health_closed_total;
  }
  count_status false true e c = record c {
    health_opened_total = vec.inc (total_labels e) c.health_opened_total;
  }
  count_status false false e c = c

  -- The body of the loop over the events, as far as the counters go.
  abbrev pub count_event : Event → C → C
  unfolding count_status
  count_event e c =
      count_status (e.status_code == "closed") (e.status_code == "open") e
        (record c { health_event = vec.inc (event_labels e) c.health_event })

  unfoldable pub count_events : List Event → C → C
  unfolding count_event
  count_events [] c = c
  count_events (e ∷ es) c = count_events es (count_event e c)

  unfoldable pub count_entities : Dict String → List Entity → C → C
  unfolding entity_labels
  count_entities regions [] c = c
  count_entities regions (x ∷ xs) c =
      count_entities regions xs
        (record c { affected_entity = vec.inc (entity_labels regions x) c.affected_entity })

  module _ (client : HealthClient) where
    after_entities :
        Dict String → Option (List Entity) → C → (C → Collected vec.carrier) → Collected vec.carrier
    unfolding count_entities
    after_entities regions none c next = fatal
    after_entities regions (some xs) c next = next (count_entities regions xs c)

    collect_entities : Dict String → List (List String) → C → Collected vec.carrier
    unfolding after_entities all_pages
    collect_entities regions [] c = sent c
    collect_entities regions (arns ∷ event_arn) c =
        after_entities regions (all_pages (client.entity_pages arns)) c
          (collect_entities regions event_arn)

    after_events : Option (List Event) → C → Collected vec.carrier
    unfolding collect_entities count_events region_map group_arns
    after_events none c = fatal
    after_events (some []) c = unsent c
    after_events (some (e ∷ es)) c =
        let events = e ∷ es in
        collect_entities (region_map events []) (group_arns [] (map (λ x. to_string x.arn) events))
          (count_events events c)

    -- The counters are reset first, so those of the collection before do not matter.
    unfoldable pub collect : C → Collected vec.carrier
    unfolding after_events all_pages
    collect before = after_events (all_pages client.event_pages) (reset_all vec before)
