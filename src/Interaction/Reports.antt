-- ===== src/Interaction/Reports.antt =====
-- internal/interaction/read.go, write.go, invoke.go and subscribe.go: what the messages carry.
use matter_cli.Prelude.{ℕ, Bool, Option, List}
use matter_cli.Interaction.Path.{AttributePath, EventPath, CommandPath}
use matter_cli.Interaction.Status.{StatusIb}

pub record AttributeStatus : Type 0 where
  pub path : AttributePath
  pub status : StatusIb

-- `data` holds the bytes of one TLV element with an anonymous tag.
pub record AttributeData : Type 0 where
  pub data_version : ℕ
  pub path : AttributePath
  pub data_ : List ℕ

pub record AttributeReport : Type 0 where
  pub status : Option AttributeStatus
  pub data_ : Option AttributeData

pub record ReadRequest : Type 0 where
  pub attribute_requests : List AttributePath
  pub event_requests : List EventPath
  pub fabric_filtered : Bool

pub record ReportData : Type 0 where
  pub subscription_id : Option ℕ
  pub attribute_reports : List AttributeReport
  pub more_chunked_messages : Option Bool
  pub suppress_response : Option Bool

pub record AttributeWrite : Type 0 where
  pub data_version : Option ℕ
  pub path : AttributePath
  pub data_ : List ℕ

pub record WriteRequest : Type 0 where
  pub suppress_response : Bool
  pub timed_request : Bool
  pub write_requests : List AttributeWrite
  pub more_chunked_messages : Option Bool

pub record WriteResponse : Type 0 where
  pub write_responses : List AttributeStatus

pub record CommandDataIb : Type 0 where
  pub path : CommandPath
  pub fields : List ℕ

pub record CommandStatusIb : Type 0 where
  pub path : CommandPath
  pub status : StatusIb

pub record InvokeRequest : Type 0 where
  pub suppress_response : Bool
  pub timed_request : Bool
  pub invoke_requests : List CommandDataIb

pub record InvokeResponseIb : Type 0 where
  pub command : Option CommandDataIb
  pub status : Option CommandStatusIb

pub record InvokeResponse : Type 0 where
  pub suppress_response : Bool
  pub invoke_responses : List InvokeResponseIb

pub record SubscribeRequest : Type 0 where
  pub keep_subscriptions : Bool
  pub min_interval_floor : ℕ
  pub max_interval_ceiling : ℕ
  pub attribute_requests : List AttributePath
  pub event_requests : List EventPath
  pub fabric_filtered : Bool

pub record SubscribeResponse : Type 0 where
  pub subscription_id : ℕ
  pub max_interval : ℕ
