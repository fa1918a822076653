-- ===== src/Lib.antt =====
-- IaaS-exporter: a Prometheus exporter of cloud quotas, health events, vault backup buckets and
-- CloudWatch metrics for AWS, Azure, GCP and AliCloud.
--
-- The program's parts, and the files that model them. `main.go` reads the configuration, makes a
-- Vault client, reads the credentials of the configured provider, and starts the provider's exporter;
-- its scrapes fill a cache of quotas, and the collectors turn the cache and the providers' answers
-- into metrics.
--
-- Errorutil (pkg/errorutil/error.go), Errorutil/Retry (pkg/errorutil/retry.go): `check`,
--   `retry_on_err` and `retry_on_err_with_log` are Check, RetryOnErr and RetryOnErrWithLog. The
--   function that is retried is a state transformer; its state is what the Go closure captures. The
--   loop runs on fuel 256, enough for a uint8 counter that starts at 1. The numbers of math/rand are
--   an argument.
-- Constant (pkg/constant/const.go), Config (pkg/config/config.go): the providers' names, the
--   configuration, ReadConf. The parser of YAML and the file system are arguments.
-- Vault (pkg/vault/vault_client.go): readSecretV1, ReadProjectID and CredentialsFromPath over an `Api`
--   of what the Vault client and JSON answer. A read counts the calls of the API. Vault/Login holds
--   NewVaultClient over a `LoginApi`.
-- Factory (pkg/cloud/factory/cloud_exporter.go, and StartExporter and Scrape of pkg/cloud/aws/aws.go,
--   pkg/cloud/azure/azure.go, pkg/cloud/gcp/gcp.go and pkg/cloud/alicloud/alicloud.go), Main (main.go):
--   the run of the process up to a number of ticks, as the list of the steps that show outside it. It
--   calls the models of ReadConf, NewVaultClient and CredentialsFromPath. Main/Planned says what it does for
--   each provider.
-- AzureClient (pkg/cloud/azure/azure.go): the client of Azure's blob storage, with the package's
--   variable AzureEnv as the state.
-- Common (pkg/cloud/common/common.go): the Init functions; Common/Names holds the label names that each
--   collector's constructor passes to them. Whether WithLabelValues of client_golang returns is an
--   argument, with what it promises.
-- Bucket (pkg/cloud/*/vault_backup_bucket.go, pkg/cloud/aws/vault_bucket): the four `Collect`
--   functions, over clients that answer the call numbered n. Their loops run on fuel; the theorems
--   ask that it exceeds the number of pages or objects the client serves. A client that serves pages
--   for ever never returns in the source either.
-- Quota (pkg/cloud/common/common.go): a quota result, the cache as an interface with the law of `Set`
--   and `Items`, float64 as an interface with the laws of conversion from integers. Quota/Sets and
--   Quota/Interleave hold sequences and interleavings of calls of the cache, Quota/Gauges the gauges
--   that a `Collect` sets. Quota/Aws (pkg/cloud/aws/quota/aws_quota.go), Quota/Azure
--   (pkg/cloud/azure/azure_quota.go), Quota/Gcp (pkg/cloud/gcp/gcp_quota.go) and Quota/AliCloud
--   (pkg/cloud/alicloud/alicloud_quota.go) hold each provider's scrape and `Collect`; goroutines are
--   lists of calls that happen in any interleaving.
-- Monitor (pkg/cloud/aws/monitor): Monitor/Services holds the table of service.go, Monitor/Tagged the
--   resources that the search tags of a job select, Monitor/Discovery holds the filter of dimension values and the data
--   of the metrics that match (aws_monitor.go, resource.go), Monitor/Batches the loops with a cut
--   point, on the list's length as fuel, Monitor/Window the window of a request, and Monitor/Labels
--   the metrics' names and labels (prome.go and the end of aws_monitor.go). Monitor/Requests holds the
--   requests for data and what becomes of the results, Monitor/Collect and Monitor/Scrape how
--   collectData and Scrape put these together, as relations over the orders of the goroutines. Regular
--   expressions, random ids and strings.ToLower are arguments; Time.Round is written out.
-- Health: Prometheus's counter vectors as an interface with the laws of `Reset` and `Inc`. Health/Aws
--   (pkg/cloud/aws/health/aws_health.go) holds AWS's `Collect` over pages of events and of affected
--   entities; the pages are given, so that no fuel is needed. Health/Azure
--   (pkg/cloud/azure/azure_health.go), Health/Gcp (pkg/cloud/gcp/gcp_health.go) and Health/AliCloud
--   (pkg/cloud/alicloud/alicloud_health.go) walk over JSON values, whose type and assertions are in
--   Health/Json; Health/Reports counts events one by one.
--
-- An integer of the source keeps its wrap-around, in Prelude/Word. A panic ends the process, and is
-- a result of its own; so is log.Fatal. A missing answer of an SDK is `none`.
--
-- Not modelled: logging with its stack traces, HTTP and its handlers, the parsing of JSON and YAML, the
-- constructors and wrappers that only call an SDK, and the expiry of cache entries, which needs a clock.
-- A map of the source that is ranged over stands in the order of its list; where the order of Go's
-- iteration or of goroutines can show, the theorems hold for each order. The least period of a request's
-- data, which several goroutines would compute without a lock, is taken as the minimum: a request has
-- at most 20 data, so that one goroutine runs.
mod Prelude
pub mod Errorutil
pub mod Constant
pub mod Config
pub mod Vault
pub mod Monitor
pub mod Health
pub mod Bucket
pub mod Quota
pub mod Factory
pub mod Main
pub mod Common
pub mod AzureClient
