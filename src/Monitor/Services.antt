-- ===== src/Monitor/Services.antt =====
-- pkg/cloud/aws/monitor/service.go: the services that are supported.
use iaa_s_exporter.Prelude.{
  String, Bool, true, false, ◌||◌, Option, none, some, List, [], ◌∷◌, ◌==◌, if◌then◌else◌,
}

pub record ServiceFilter : Type 0 where
  pub namespace : String
  pub alias : String
  pub ignore_length : Bool
  pub resource_filters : List String
  pub dimension_regexps : List String

-- `GetService`; the copy of the loop's variable that is returned stands for it.
unfoldable pub get_service : List ServiceFilter → String → Option ServiceFilter
get_service [] service_type = none
get_service (sf ∷ sc) service_type =
    if sf.alias == service_type || sf.namespace == service_type
    then some sf
    else get_service sc service_type

abbrev pub supported_services : List ServiceFilter
supported_services =
    record {
      namespace = "AWS/ApplicationELB";
      alias = "alb";
      ignore_length = false;
      resource_filters =
          "elasticloadbalancing:loadbalancer/app" ∷ "elasticloadbalancing:targetgroup" ∷ [];
      dimension_regexps =
          ":(?P<TargetGroup>targetgroup/.+)" ∷ ":loadbalancer/(?P<LoadBalancer>.+)$" ∷ [];
    }
    ∷ record {
      namespace = "AWS/EBS";
      alias = "ebs";
      ignore_length = false;
      resource_filters = "ec2:volume" ∷ [];
      dimension_regexps = "volume/(?P<VolumeId>[^/]+)" ∷ [];
    }
    ∷ record {
      namespace = "AWS/EC2";
      alias = "ec2";
      ignore_length = false;
      resource_filters = "ec2:instance" ∷ [];
      dimension_regexps = "instance/(?P<InstanceId>[^/]+)" ∷ [];
    }
    ∷ record {
      namespace = "AWS/ELB";
      alias = "elb";
      ignore_length = false;
      resource_filters = "elasticloadbalancing:loadbalancer" ∷ [];
      dimension_regexps = ":loadbalancer/(?P<LoadBalancerName>.+)$" ∷ [];
    }
    ∷ record {
      namespace = "AWS/NATGateway";
      alias = "ngw";
      ignore_length = false;
      resource_filters = "ec2:natgateway" ∷ [];
      dimension_regexps = "natgateway/(?P<NatGatewayId>[^/]+)" ∷ [];
    }
    ∷ record {
      namespace = "AWS/NetworkELB";
      alias = "nlb";
      ignore_length = false;
      resource_filters =
          "elasticloadbalancing:loadbalancer/net" ∷ "elasticloadbalancing:targetgroup" ∷ [];
      dimension_regexps =
          ":(?P<TargetGroup>targetgroup/.+)" ∷ ":loadbalancer/(?P<LoadBalancer>.+)$" ∷ [];
    }
    ∷ record {
      namespace = "AWS/Route53";
      alias = "route53";
      ignore_length = false;
      resource_filters = "route53" ∷ [];
      dimension_regexps = ":healthcheck/(?P<HealthCheckId>[^/]+)" ∷ [];
    }
    ∷ record {
      namespace = "AWS/S3";
      alias = "s3";
      ignore_length = true;
      resource_filters = "s3" ∷ [];
      dimension_regexps = "(?P<BucketName>[^:]+)$" ∷ [];
    }
    ∷ []
