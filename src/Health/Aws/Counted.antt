-- ===== src/Health/Aws/Counted.antt =====
-- What the counters of pkg/cloud/aws/health/aws_health.go come to.
use iaa_s_exporter.Prelude.{
  ℕ, suc, ◌+◌, ◌<◌, ◌≤◌, ◌≡◌, refl, ap, ◌∙◌, String, Bool, true, false, some, List, [], ◌∷◌, ◌++◌,
  map, arith, length, length-append, All, flatten, nat_eq, if◌then◌else◌, ◌==◌, eq_iff, Bool-cases,
  inl, inr,
}
use mathlib.Core.List.{append_assoc}
use iaa_s_exporter.Prelude.Dict.{Dict}
use iaa_s_exporter.Health.{Labels, eq_labels, CounterVec, reset_all, sent}
use iaa_s_exporter.Health.Occurrences.{occurrences}
use iaa_s_exporter.Health.Aws.{
  C, Event, Entity, HealthClient, all_pages, event_labels, total_labels, count_status, count_event,
  count_events, region_map, group_arns, entity_labels, count_entities, collect_entities, collect,
  to_string, after_entities, after_events,
}

abbrev pub IsGroup : List String → Type 0
IsGroup arns = (0 < length arns) × (length arns ≤ 10)

group_arns-IsGroup :
    (arn_list arns : List String)
    → length arn_list < 10
    → (flatten (group_arns arn_list arns) ≡ arn_list ++ arns)
      × All IsGroup (group_arns arn_list arns)
unfolding group_arns
group_arns-IsGroup [] [] h = (refl, tt)
group_arns-IsGroup (a ∷ arn_list) [] h = (refl, ((omega arith, omega arith), tt))
group_arns-IsGroup arn_list (arn ∷ rest) h =
    elim (Bool-cases (nat_eq (length (arn_list ++ arn ∷ [])) 10)) [
      | inl p ↦
          let (joined, all) = group_arns-IsGroup [] rest (omega arith) in
          rw p (
            ap (λ l. (arn_list ++ arn ∷ []) ++ l) joined ∙ append_assoc arn_list (arn ∷ []) rest,
            ((omega (arith, more), omega (arith, more, h)), all),
          )
      | inr p ↦
          let (joined, all) = group_arns-IsGroup (arn_list ++ arn ∷ []) rest (below p) in
          rw p (joined ∙ append_assoc arn_list (arn ∷ []) rest, all)
    ]
  where
    more : length (arn_list ++ arn ∷ []) ≡ suc (length arn_list)
    more =
        length-append arn_list (arn ∷ [])
        ∙ (let e : length arn_list + 1 ≡ suc (length arn_list) = omega arith in e)

    below : nat_eq (length (arn_list ++ arn ∷ [])) 10 ≡ false → length (arn_list ++ arn ∷ []) < 10
    below p = ground (arith, more, h)

-- The ARNs come in groups of one to ten, in their order, and none is lost.
pub group_arns_lem :
    (arns : List String) → (flatten (group_arns [] arns) ≡ arns) × All IsGroup (group_arns [] arns)
group_arns_lem arns = group_arns-IsGroup [] arns (omega arith)

-- The events with a status.
abbrev pub with_status : String → List Event → List Event
with_status status [] = []
with_status status (e ∷ es) =
    if e.status_code == status then e ∷ with_status status es else with_status status es

not_both : (s : String) → (s == "closed") ≡ true → (s == "open") ≡ false
not_both s h = let e : s ≡ "closed" = (eq_iff s "closed").0 h in rw e refl

pub all_pages-served :
    {A : Type 0} (pages : List (List A)) → all_pages (map some pages) ≡ some (flatten pages)
unfolding all_pages
all_pages-served [] = refl
all_pages-served (p ∷ pages) = rw (all_pages-served pages) refl

module _ (vec : CounterVec) where
  -- The counts after the events, against those before.
  abbrev IsCounted : List Event → C vec → C vec → Labels → Type 0
  IsCounted es before after labels =
      (vec.count_of labels after.health_event
        ≡ occurrences labels (map event_labels es) + vec.count_of labels before.health_event)
      × (vec.count_of labels after.health_opened_total
          ≡ occurrences labels (map total_labels (with_status "open" es))
            + vec.count_of labels before.health_opened_total)
      × (vec.count_of labels after.health_closed_total
          ≡ occurrences labels (map total_labels (with_status "closed" es))
            + vec.count_of labels before.health_closed_total)
      × (after.affected_entity ≡ before.affected_entity)

  count_events-IsCounted :
      (es : List Event) (c : C vec) (labels : Labels)
      → IsCounted es c (count_events vec es c) labels
  unfolding count_events count_event count_status
  count_events-IsCounted [] c labels = (omega arith, omega arith, omega arith, refl)
  count_events-IsCounted (e ∷ es) c labels =
      step (e.status_code == "closed") (e.status_code == "open") refl refl (not_both e.status_code)
        (λ now. count_events-IsCounted es now labels)
    where
      seen : C vec
      seen = record c { health_event = vec.inc (event_labels e) c.health_event }

      event :
          vec.count_of labels (vec.inc (event_labels e) c.health_event)
          ≡ (if eq_labels (event_labels e) labels then 1 else 0)
            + vec.count_of labels c.health_event
      event = vec.count_of-inc labels (event_labels e) c.health_event

      step :
          (is_closed is_open : Bool)
          → (e.status_code == "closed") ≡ is_closed
          → (e.status_code == "open") ≡ is_open
          → (is_closed ≡ true → is_open ≡ false)
          → ((now : C vec) → IsCounted es now (count_events vec es now) labels)
          → IsCounted
              (e ∷ es)
              c
              (count_events vec es (count_status vec is_closed is_open e seen))
              labels
      step true true p q n rest = let no = n refl in cc
      step true false p q n rest =
          let (h, o, k, a) = rest (count_status vec true false e seen) in
          let total = vec.count_of-inc labels (total_labels e) c.health_closed_total in
          rw (p, q) (omega (arith, h, event), o, omega (arith, k, total), a)
      step false true p q n rest =
          let (h, o, k, a) = rest (count_status vec false true e seen) in
          let total = vec.count_of-inc labels (total_labels e) c.health_opened_total in
          rw (p, q) (omega (arith, h, event), omega (arith, o, total), k, a)
      step false false p q n rest =
          let (h, o, k, a) = rest (count_status vec false false e seen) in
          rw (p, q) (omega (arith, h, event), o, k, a)

  -- The counters with the affected entities counted too.
  abbrev IsAffected : Dict String → List Entity → C vec → C vec → Labels → Type 0
  IsAffected regions xs before after labels =
      (vec.count_of labels after.affected_entity
        ≡ occurrences labels (map (entity_labels regions) xs)
          + vec.count_of labels before.affected_entity)
      × (after.health_event ≡ before.health_event)
      × (after.health_opened_total ≡ before.health_opened_total)
      × (after.health_closed_total ≡ before.health_closed_total)

  count_entities-IsAffected :
      (regions : Dict String) (xs : List Entity) (c : C vec) (labels : Labels)
      → IsAffected regions xs c (count_entities vec regions xs c) labels
  unfolding count_entities
  count_entities-IsAffected regions [] c labels = (omega arith, refl, refl, refl)
  count_entities-IsAffected regions (x ∷ xs) c labels =
      let now : C vec = record c {
        affected_entity = vec.inc (entity_labels regions x) c.affected_entity;
      } in
      let (a, h, o, k) = count_entities-IsAffected regions xs now labels in
      (
        omega (arith, a, vec.count_of-inc labels (entity_labels regions x) c.affected_entity),
        h,
        o,
        k,
      )

  count_entities-append :
      (regions : Dict String) (xs ys : List Entity) (c : C vec)
      → count_entities vec regions ys (count_entities vec regions xs c)
        ≡ count_entities vec regions (xs ++ ys) c
  unfolding count_entities
  count_entities-append regions [] ys c = refl
  count_entities-append regions (x ∷ xs) ys c =
      count_entities-append regions xs ys
        (record c { affected_entity = vec.inc (entity_labels regions x) c.affected_entity })

  module _ (client : HealthClient) where
    -- The client serves these pages of entities for these groups of ARNs.
    abbrev pub ServesEntities : List (List String) → List (List (List Entity)) → Type 0
    ServesEntities [] [] = Unit
    ServesEntities [] (p ∷ ps) = ⊥
    ServesEntities (g ∷ gs) [] = ⊥
    ServesEntities (g ∷ gs) (p ∷ ps) = (client.entity_pages g ≡ map some p) × ServesEntities gs ps

    abbrev pub entities_of : List (List (List Entity)) → List Entity
    entities_of [] = []
    entities_of (p ∷ ps) = flatten p ++ entities_of ps

    collect_entities-sent :
        (regions : Dict String) (gs : List (List String)) (ps : List (List (List Entity)))
        (c : C vec)
        → ServesEntities gs ps
        → collect_entities vec client regions gs c
          ≡ sent (count_entities vec regions (entities_of ps) c)
    unfolding collect_entities after_entities
    collect_entities-sent regions [] [] c s = unfold count_entities in refl
    collect_entities-sent regions [] (p ∷ ps) c s = elim s [ ]
    collect_entities-sent regions (g ∷ gs) [] c s = elim s [ ]
    collect_entities-sent regions (g ∷ gs) (p ∷ ps) c (e, s) =
        rw (e, all_pages-served p)
          (collect_entities-sent regions gs ps (count_entities vec regions (flatten p) c) s
            ∙ ap sent (count_entities-append regions (flatten p) (entities_of ps) c))

    -- When all pages are served and there are events, the collection ends with its counters sent. A
    -- counter is the number of the events, the open events, the closed events and the affected
    -- entities with its labels, whatever the counters were before; the entities are asked for by
    -- groups of one to ten ARNs, which are the ARNs of all events in their order.
    pub aws_health_collect_lem :
        (before : C vec) (pages : List (List Event)) (e : Event) (es : List Event)
        (ps : List (List (List Entity))) (labels : Labels)
        → client.event_pages ≡ map some pages
        → flatten pages ≡ e ∷ es
        → ServesEntities (group_arns [] (map (λ x. to_string x.arn) (e ∷ es))) ps
        → let regions = region_map (e ∷ es) [] in
          (c : C vec) × (collect vec client before ≡ sent c)
          × (vec.count_of labels c.health_event ≡ occurrences labels (map event_labels (e ∷ es)))
          × (vec.count_of labels c.health_opened_total
              ≡ occurrences labels (map total_labels (with_status "open" (e ∷ es))))
          × (vec.count_of labels c.health_closed_total
              ≡ occurrences labels (map total_labels (with_status "closed" (e ∷ es))))
          × (vec.count_of labels c.affected_entity
              ≡ occurrences labels (map (entity_labels regions) (entities_of ps)))
          × (flatten (group_arns [] (map (λ x. to_string x.arn) (e ∷ es)))
              ≡ map (λ x. to_string x.arn) (e ∷ es))
          × All IsGroup (group_arns [] (map (λ x. to_string x.arn) (e ∷ es)))
    unfolding collect after_events
    aws_health_collect_lem before pages e es ps labels h f s =
        let regions = region_map (e ∷ es) [] in
        let counted = count_events vec (e ∷ es) (reset_all vec before) in
        let (he, ho, hk, ha) = count_events-IsCounted (e ∷ es) (reset_all vec before) labels in
        let (aa, ae, ao, ak) = count_entities-IsAffected regions (entities_of ps) counted labels in
        (
          count_entities vec regions (entities_of ps) counted,
          rw (h, all_pages-served pages, f)
              (collect_entities-sent regions (group_arns [] (map (λ x. to_string x.arn) (e ∷ es)))
                ps counted s),
          rw ae (he ∙ zero_more _ before.health_event),
          rw ao (ho ∙ zero_more _ before.health_opened_total),
          rw ak (hk ∙ zero_more _ before.health_closed_total),
          aa
              ∙ ap
                  (λ v.
                    occurrences labels (map (entity_labels regions) (entities_of ps))
                    + vec.count_of labels v)
                  ha
              ∙ zero_more _ before.affected_entity,
          (group_arns_lem (map (λ x. to_string x.arn) (e ∷ es))).0,
          (group_arns_lem (map (λ x. to_string x.arn) (e ∷ es))).1,
        )
      where
        zero_more : (n : ℕ) (c : vec.carrier) → n + vec.count_of labels (vec.reset c) ≡ n
        zero_more n c = rw (vec.count_of-reset labels c) (omega arith)
