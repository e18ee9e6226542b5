-- ===== src/Domain.antt =====
-- services/api/internal/domain/models.go: the values that every part passes around. A `time.Time` is
-- the number of nanoseconds since the zero `time.Time`, a `time.Duration` a number of
-- nanoseconds; `int` fields hold counts, and are naturals.
pub mod Errors
use parity_lab.Prelude.{ℕ, String, Bool, false, List, [], ◌*◌, ◌==◌, string_eq, if◌then◌else◌}
use parity_lab.Prelude.Table.{Table}

abbrev pub Time : Type 0
Time = ℕ

abbrev pub Duration : Type 0
Duration = ℕ

abbrev pub millisecond : Duration
millisecond = 1000000

abbrev pub second : Duration
second = 1000 * millisecond

abbrev pub minute : Duration
minute = 60 * second

-- `domain.Fault` and `verification.Fault` are strings with the same five constants; any other
-- text that a request carries is `other`.
pub data Fault : Type 0 where
  no_fault duplicate reorder timeout tamper : Fault
  other : String → Fault

abbrev pub fault_text : Fault → String
fault_text no_fault = "none"
fault_text duplicate = "duplicate"
fault_text reorder = "reorder"
fault_text timeout = "timeout"
fault_text tamper = "tamper"
fault_text (other s) = s

abbrev pub fault_of : String → Fault
fault_of s =
    if s == "none"
    then no_fault
    else if s == "duplicate"
    then duplicate
    else if s == "reorder"
    then reorder
    else if s == "timeout"
    then timeout
    else if s == "tamper"
    then tamper
    else other s

pub record Scenario : Type 0 where
  pub id : String
  pub name : String
  pub description : String
  pub category : String
  pub duration_ms : ℕ
  pub supported_faults : List Fault
  pub assertions : List String
  pub difficulty : String
  pub recommended : Bool
  pub estimated_event_count : ℕ

pub data RunStatus : Type 0 where
  no_status running passed failed : RunStatus

abbrev pub run_status_text : RunStatus → String
run_status_text no_status = ""
run_status_text running = "running"
run_status_text passed = "passed"
run_status_text failed = "failed"

pub record Run : Type 0 where
  pub id : String
  pub scenario_id : String
  pub scenario_name : String
  pub fault : Fault
  pub status : RunStatus
  pub score : ℕ
  pub started_at : Time
  pub completed_at : Time
  pub duration_ms : ℕ
  pub event_count : ℕ
  pub finding_count : ℕ
  pub recovered : Bool
  pub environment : String
  pub stripe_object_id : String
  pub merchant_order_id : String

-- `domain.Run{}`
abbrev pub zero_run : Run
zero_run = record {
  id = "";
  scenario_id = "";
  scenario_name = "";
  fault = other "";
  status = no_status;
  score = 0;
  started_at = 0;
  completed_at = 0;
  duration_ms = 0;
  event_count = 0;
  finding_count = 0;
  recovered = false;
  environment = "";
  stripe_object_id = "";
  merchant_order_id = "";
}

pub data EventStatus : Type 0 where
  healthy diverged recovered blocked : EventStatus

-- the values of `map[string]any`
pub data Value : Type 0 where
  text : String → Value
  number : ℕ → Value
  flag : Bool → Value

pub record Event : Type 0 where
  pub id : String
  pub run_id : String
  pub sequence : ℕ
  pub at : Time
  pub source : String
  pub target : String
  pub type : String
  pub title : String
  pub detail : String
  pub status : EventStatus
  pub latency_ms : ℕ
  pub checkpoint : String
  pub trace_id : String
  pub evidence : Table String Value
  pub is_duplicate : Bool

pub record Assertion : Type 0 where
  pub id : String
  pub name : String
  pub passed : Bool
  pub expected : String
  pub observed : String
  pub evidence : String

pub record Finding : Type 0 where
  pub id : String
  pub severity : String
  pub title : String
  pub summary : String
  pub cause : String
  pub remediation : String
  pub checkpoint : String
  pub resolved : Bool

pub record StateSnapshot : Type 0 where
  pub stripe : String
  pub webhook : String
  pub merchant : String
  pub balanced : Bool

pub record Report : Type 0 where
  pub run : Run
  pub summary : String
  pub verdict : String
  pub assertions : List Assertion
  pub findings : List Finding
  pub state : StateSnapshot
  pub generated : Time

-- `domain.Report{}`
abbrev pub zero_report : Report
zero_report = record {
  run = zero_run;
  summary = "";
  verdict = "";
  assertions = [];
  findings = [];
  state = record { stripe = ""; webhook = ""; merchant = ""; balanced = false };
  generated = 0;
}
