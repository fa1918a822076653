-- ===== src/Factory.antt =====
-- pkg/cloud/factory/cloud_exporter.go, and the exporters of pkg/cloud/aws/aws.go,
-- pkg/cloud/azure/azure.go, pkg/cloud/gcp/gcp.go and pkg/cloud/alicloud/alicloud.go.
use iaa_s_exporter.Prelude.{String, Option, none, some, List, [], ◌∷◌, if◌then◌else◌, ◌==◌}
use iaa_s_exporter.Constant.{provider_aws, provider_azure, provider_ali_cloud, provider_gcp}

pub data Exporter : Type 0 where
  aws_exporter azure_exporter gcp_exporter ali_exporter : Exporter

-- The collectors that an exporter registers.
pub data Collector : Type 0 where
  aws_quota azure_quota gcp_quota ali_quota ali_health : Collector

-- `NewExporter`; nil is `none`.
unfoldable pub new_exporter : String → Option Exporter
new_exporter provider =
    if provider == provider_aws
    then some aws_exporter
    else if provider == provider_azure
    then some azure_exporter
    else if provider == provider_gcp
    then some gcp_exporter
    else if provider == provider_ali_cloud
    then some ali_exporter
    else none

-- The collectors that each `StartExporter` builds and registers, in that order.
abbrev aws_start_exporter : List Collector
aws_start_exporter = aws_quota ∷ []

abbrev azure_start_exporter : List Collector
azure_start_exporter = azure_quota ∷ []

abbrev gcp_start_exporter : List Collector
gcp_start_exporter = gcp_quota ∷ []

abbrev ali_start_exporter : List Collector
ali_start_exporter = ali_quota ∷ ali_health ∷ []

-- exporter.StartExporter
abbrev pub start_exporter : Exporter → List Collector
start_exporter aws_exporter = aws_start_exporter
start_exporter azure_exporter = azure_start_exporter
start_exporter gcp_exporter = gcp_start_exporter
start_exporter ali_exporter = ali_start_exporter

-- The collector that each `Scrape` has scraped.
abbrev aws_scrape : Collector
aws_scrape = aws_quota

abbrev azure_scrape : Collector
azure_scrape = azure_quota

abbrev gcp_scrape : Collector
gcp_scrape = gcp_quota

abbrev ali_scrape : Collector
ali_scrape = ali_quota

-- exporter.Scrape
abbrev pub scrape : Exporter → Collector
scrape aws_exporter = aws_scrape
scrape azure_exporter = azure_scrape
scrape gcp_exporter = gcp_scrape
scrape ali_exporter = ali_scrape
