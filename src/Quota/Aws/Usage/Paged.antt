-- ===== src/Quota/Aws/Usage/Paged.antt =====
-- The paged sums of pkg/cloud/aws/quota/aws_quota.go against the sums over all pages together.
use iaa_s_exporter.Prelude.{
  ℕ, ◌+◌, ◌/◌, ◌<◌, ◌≡◌, refl, ap, sym, ◌∙◌, String, true, Option, none, some, List, [], ◌∷◌, ◌++◌,
  map, arith, flatten,
}
use iaa_s_exporter.Prelude.Int.{ℤ, pos, ◌+ℤ◌, quot_ℤ, +ℤ_assoc, +ℤ_comm}
use iaa_s_exporter.Prelude.Word.{wrap32, wrap32-add_wrap32, wrap32_pos, two31}
use iaa_s_exporter.Quota.{Float64}
use iaa_s_exporter.Quota.Aws.Usage.{
  Clients, Current, value, unset, crashed, to_int32, add_volumes, add_volume_pages, add_pages,
  has_part, F, volume_storage, volume_tib, load_balancers, route_tables, vpcs,
}

abbrev pub sum_sizes : List (Option ℤ) → ℤ
sum_sizes [] = pos 0
sum_sizes (size ∷ sizes) = to_int32 size +ℤ sum_sizes sizes

abbrev pub sum : List ℕ → ℕ
sum [] = 0
sum (n ∷ ns) = n + sum ns

+ℤ-zero : (a : ℤ) → a +ℤ pos 0 ≡ a
unfolding ◌+ℤ◌
+ℤ-zero a = ground arith

add_volumes_lem :
    (used : ℤ) (sizes : List (Option ℤ))
    → add_volumes (wrap32 used) sizes ≡ wrap32 (used +ℤ sum_sizes sizes)
unfolding add_volumes
add_volumes_lem used [] = ap wrap32 (sym (+ℤ-zero used))
add_volumes_lem used (size ∷ sizes) = rw wrap32-add_wrap32 (
    add_volumes_lem (used +ℤ to_int32 size) sizes
    ∙ ap wrap32 (+ℤ_assoc used (to_int32 size) (sum_sizes sizes)))

sum_sizes-append : (xs ys : List (Option ℤ)) → sum_sizes (xs ++ ys) ≡ sum_sizes xs +ℤ sum_sizes ys
sum_sizes-append [] ys = sym (+ℤ_comm (pos 0) (sum_sizes ys) ∙ +ℤ-zero (sum_sizes ys))
sum_sizes-append (x ∷ xs) ys =
    rw (sum_sizes-append xs ys) (sym (+ℤ_assoc (to_int32 x) (sum_sizes xs) (sum_sizes ys)))

add_volume_pages_lem :
    (used : ℤ) (pages : List (List (Option ℤ)))
    → add_volume_pages (wrap32 used) (map some pages)
      ≡ some (wrap32 (used +ℤ sum_sizes (flatten pages)))
unfolding add_volume_pages
add_volume_pages_lem used [] = ap (λ z. some (wrap32 z)) (sym (+ℤ-zero used))
add_volume_pages_lem used (p ∷ pages) =
    ap (λ z. add_volume_pages z (map some pages)) (add_volumes_lem used p)
    ∙ add_volume_pages_lem (used +ℤ sum_sizes p) pages
    ∙ ap (λ z. some (wrap32 z))
        (+ℤ_assoc used (sum_sizes p) (sum_sizes (flatten pages))
          ∙ ap (λ z. used +ℤ z) (sym (sum_sizes-append p (flatten pages))))

zero_wraps : wrap32 (pos 0) ≡ pos 0
zero_wraps = wrap32_pos 0 (omega arith)

add_pages_lem : (total : ℕ) (ns : List ℕ) → add_pages total (map some ns) ≡ some (total + sum ns)
unfolding add_pages
add_pages_lem total [] = ap some (let e : total ≡ total + 0 = omega arith in e)
add_pages_lem total (n ∷ ns) =
    add_pages_lem (total + n) ns
    ∙ ap some (let e : total + n + sum ns ≡ total + (n + sum ns) = omega arith in e)

add_pages-fails :
    (total : ℕ) (ns : List ℕ) (rest : List (Option ℕ))
    → add_pages total (map some ns ++ none ∷ rest) ≡ none
unfolding add_pages
add_pages-fails total [] rest = refl
add_pages-fails total (n ∷ ns) rest = add_pages-fails (total + n) ns rest

module _ (float : Float64) where
  -- When all pages of volumes are served, the usage is the int32 sum of all sizes, in whichever
  -- pages they come, divided by 1024 towards zero.
  pub volume_storage_lem :
      (clients : Clients (F float)) (pages : List (List (Option ℤ)))
      → clients.volume_pages ≡ map some pages
      → volume_storage float clients
        ≡ value (float.of_int (quot_ℤ (wrap32 (sum_sizes (flatten pages))) 1024))
  unfolding volume_storage volume_tib
  volume_storage_lem clients pages h =
      ap (λ l. volume_tib float (add_volume_pages (pos 0) l)) h ∙ ap (volume_tib float) total
    where
      total : add_volume_pages (pos 0) (map some pages) ≡ some (wrap32 (sum_sizes (flatten pages)))
      total =
          ap (λ z. add_volume_pages z (map some pages)) (sym zero_wraps)
          ∙ add_volume_pages_lem (pos 0) pages
          ∙ ap (λ z. some (wrap32 z))
              (+ℤ_comm (pos 0) (sum_sizes (flatten pages)) ∙ +ℤ-zero (sum_sizes (flatten pages)))

  -- When all pages of volumes are served, a total of t GiB below 2 ^ 31 counts as t / 1024 TiB,
  -- rounded down.
  pub volume_storage_floor :
      (clients : Clients (F float)) (pages : List (List (Option ℤ))) (t : ℕ)
      → clients.volume_pages ≡ map some pages
      → sum_sizes (flatten pages) ≡ pos t
      → t < two31
      → volume_storage float clients ≡ value (float.of_int (pos (t / 1024)))
  volume_storage_floor clients pages t h s b =
      volume_storage_lem clients pages h ∙ rw (s, wrap32_pos t b) refl

  -- The VPCs, the route tables of an account whose name has the part "hdl", and the load balancers
  -- are counted over all pages; when a page fails, the VPCs and the route tables panic, and the load
  -- balancers set nothing.
  pub counted_pages :
      (clients : Clients (F float)) (account : String) (ns : List ℕ) (rest : List (Option ℕ))
      → has_part account "hdl" ≡ true
      → let good : Clients (F float) = record clients {
        vpc_pages = map some ns;
        route_table_pages = map some ns;
      } in
        let broken : Clients (F float) = record clients {
          vpc_pages = map some ns ++ none ∷ rest;
          route_table_pages = map some ns ++ none ∷ rest;
        } in
        let all : Current (F float) = value (float.of_int (pos (sum ns))) in
        (vpcs float good ≡ all)
        × (route_tables float good account ≡ all)
        × (load_balancers float (some (map some ns)) ≡ all)
        × (vpcs float broken ≡ crashed)
        × (route_tables float broken account ≡ crashed)
        × (load_balancers float (some (map some ns ++ none ∷ rest)) ≡ unset)
  unfolding vpcs route_tables load_balancers
  counted_pages clients account ns rest h =
      let all = add_pages_lem 0 ns in
      let e : 0 + sum ns ≡ sum ns = omega arith in
      let bad = add_pages-fails 0 ns rest in
      (
        rw (all, e) refl,
        rw (h, all, e) refl,
        rw (all, e) refl,
        rw bad refl,
        rw (h, bad) refl,
        rw bad refl,
      )
