-- ===== src/Quota/Tests/Labels.antt =====
-- The label values of the quota collectors, with one result of each provider in the cache.
use iaa_s_exporter.Prelude.{
  ◌≡◌, refl, String, Bool, true, List, [], ◌∷◌, All, arith, nat_eq, length,
}
use iaa_s_exporter.Prelude.Int.{ℤ, pos}
use iaa_s_exporter.Prelude.Dict.{Dict}
use iaa_s_exporter.Quota.{QuotaResult}
use iaa_s_exporter.Quota.Gauges.{GaugeSet}
use iaa_s_exporter.Quota.Aws.{Globals}
use iaa_s_exporter.Quota.Aws.Scrape as AwsQuota
use iaa_s_exporter.Quota.Azure as AzureQuota
use iaa_s_exporter.Quota.Gcp as GcpQuota
use iaa_s_exporter.Quota.AliCloud as AliQuota
use iaa_s_exporter.Quota.Tests.{float}
use iaa_s_exporter.Common.{Opts}
use iaa_s_exporter.Common.Names.{aws_quota_vecs, azure_quota_vecs, gcp_quota_vecs, ali_quota_vecs}
use iaa_s_exporter.Common.Names.Fit.{LabelCalls, AllUtf8, Returns, quota_labels-Returns}

abbrev account : Globals ℤ
account = record { account_id = "1"; account = "hdl"; service_quota_map = [] }

abbrev cores : QuotaResult ℤ
cores = record {
  quota_name = "Cores";
  quota_code = "cores";
  limit_value = pos 10;
  current_value = pos 4;
  unit = "Count";
}

abbrev results : Dict (QuotaResult ℤ)
results = ("cores", cores) ∷ []

abbrev gcp_results : Dict (GcpQuota.Result ℤ)
gcp_results =
    (
      "cores",
      record {
        quota_result = cores;
        region = "europe-west1";
        project = record { id = 7; name = "backup"; quotas = [] };
        regional = true;
      },
    )
    ∷ []

abbrev ali_results : Dict (AliQuota.Result ℤ)
ali_results =
    ("cores", record { quota_result = cores; product_id = "ecs"; quota_description = "" }) ∷ []

count_returns :
    (opts : Opts) (values : List String)
    → length values ≡ length opts.labels
    → All (λ v. ◌≡◌ {A = Bool} true true) values
    → nat_eq (length values) (length opts.labels) ≡ true
count_returns opts values h u = ground (arith, h)

-- Every text is valid UTF-8, and the values are counted.
abbrev label_calls : LabelCalls
label_calls = record {
  is_utf8 = λ v. true;
  returns = λ opts values. nat_eq (length values) (length opts.labels);
  returns-Fits = count_returns;
}

all_true : (values : List String) → All (λ v. ◌≡◌ {A = Bool} true true) values
all_true [] = tt
all_true (v ∷ values) = (refl, all_true values)

all_utf8 : (gauges : List (GaugeSet ℤ)) → AllUtf8 label_calls gauges
all_utf8 [] = tt
all_utf8 (g ∷ gauges) = (all_true g.labels, all_utf8 gauges)

quota_labels-Returns_example :
    Returns label_calls aws_quota_vecs (AwsQuota.collect float "eu-west-1" account results)
    × Returns label_calls azure_quota_vecs
        (AzureQuota.collect float "eu-west-1" "id" "name" results)
    × Returns label_calls gcp_quota_vecs (GcpQuota.collect float gcp_results)
    × Returns label_calls ali_quota_vecs (AliQuota.collect float ali_results)
unfolding AwsQuota.labels_of GcpQuota.labels_of
quota_labels-Returns_example =
    quota_labels-Returns float "eu-west-1" "id" "name" account results gcp_results ali_results
      label_calls (all_utf8 _) (all_utf8 _) (all_utf8 _) (all_utf8 _)
