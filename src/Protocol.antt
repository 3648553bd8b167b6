-- ===== src/Protocol.antt =====
-- crates/solon-core/src/protocol.rs: the messages between the service and the agent. Texts are
-- their bytes, and a machine integer is a natural number.
use solon.Base.{ℕ, Bool, Option, none, some, List}
use solon.Base.Text.{Bytes}

pub data ConnectionOutcome : Type 0 where
  established failed closed : ConnectionOutcome

pub record TracePeer : Type 0 where
  pub ip : Bytes
  pub container_id : Option Bytes
  pub name : Option Bytes
  pub project : Option Bytes
  pub service : Option Bytes

abbrev pub or_else : Option Bytes → Option Bytes → Option Bytes
or_else none o = o
or_else (some s) o = some s

abbrev unwrap_or : Option Bytes → Bytes → Bytes
unwrap_or none d = d
unwrap_or (some s) d = s

unfoldable pub label : TracePeer → Bytes
label p = unwrap_or (or_else p.service p.name) p.ip

pub record TraceConnection : Type 0 where
  pub ts_ms : ℕ
  pub outcome : ConnectionOutcome
  pub src : TracePeer
  pub dst : TracePeer
  pub sport : ℕ
  pub dport : ℕ
  pub comm : Bytes
  pub pid : ℕ
  pub duration_ms : Option ℕ

pub record TraceHeader : Type 0 where
  pub name : Bytes
  pub value : Bytes

pub record TraceBody : Type 0 where
  pub text : Bytes
  pub truncated : Bool

pub record TraceHttp : Type 0 where
  pub ts_ms : ℕ
  pub scheme : Bytes
  pub host : Bytes
  pub method : Bytes
  pub path : Bytes
  pub status : ℕ
  pub duration_ms : ℕ
  pub dst : TracePeer
  pub request_headers : List TraceHeader
  pub response_headers : List TraceHeader
  pub request_bytes : ℕ
  pub response_bytes : ℕ
  pub request_body : Option TraceBody
  pub response_body : Option TraceBody

pub data TraceEvent : Type 0 where
  status : Bool → Bytes → TraceEvent
  connection : TraceConnection → TraceEvent
  http : TraceHttp → TraceEvent

-- `TraceEvent::project`
unfoldable pub project : TraceEvent → Option Bytes
project (status _ _) = none
project (http h) = h.dst.project
project (connection c) = or_else c.src.project c.dst.project

pub record ContainerEndpoint : Type 0 where
  pub id : Bytes
  pub name : Bytes
  pub compose_project : Option Bytes
  pub compose_service : Option Bytes
  pub ip : Bytes
  pub exposed_tcp : List ℕ
  pub published_tcp : List ℕ

pub record PortBinding : Type 0 where
  pub container_id : Bytes
  pub protocol : Bytes
  pub host_ip : Bytes
  pub host_port : ℕ
  pub container_ip : Bytes
  pub container_port : ℕ
  pub container_name : Bytes
  pub compose_project : Option Bytes
  pub compose_service : Option Bytes
