-- ===== src/Alert/Fixtures.antt =====
-- A small installation: two recipients, one limit on the processor, one open and one old alert.
use health_beat.Prelude.{ℕ, Bool, true, false, Option, none, some, List, [], ◌∷◌}
use health_beat.Prelude.Int.{pos}
use health_beat.Alert.Types.{warning, Status, Alert, AlertKey, ThresholdConfig, Report}
use health_beat.Alert.Table.{Db}
use health_beat.Alert.World.{World, Act}
use health_beat.Alert.Recipients.{Recipient, Prepared, Dispatcher, HostView, nobody}
use health_beat.Alert.HostState.{HostState, Engine}
use health_beat.Alert.Engine.{apply}
use health_beat.Alert.Operations.{Operation, run_all}

abbrev pub alice : Recipient
alice = record {
  channel = "email";
  address = "alice@example.com";
  name = "Alice";
  channel_off = false;
  no_access = false;
}

abbrev pub bob : Recipient
bob = record alice { channel = "sms"; address = "+90555"; name = "Bob" }

abbrev pub view : HostView
view = record { title = "web"; ip = "10.0.0.1"; hostname = none; organization_id = 7 }

abbrev pub dispatcher : Bool → Dispatcher
dispatcher busy = record {
  notifiers = "email" ∷ [];
  resolve_recipients = λ host org level. alice ∷ [];
  in_window = some (λ host t. busy);
  host_by_id = λ host. some view;
  org_by_id = λ org. some "acme";
  id_text = λ id. "id";
  build_message = λ a mc. ("title", "body");
  has_worker = true;
}

abbrev pub cpu_limit : Option ℕ → ThresholdConfig
cpu_limit duration = record {
  metric_type = "cpu";
  subject = "";
  warning_level = pos 80000;
  critical_level = pos 90000;
  duration_seconds = duration;
}

abbrev pub engine : Bool → Engine
engine busy = record {
  dispatcher = dispatcher busy;
  resolve_host =
      λ host org. ("cpu", record { base = some (cpu_limit none); per_subject = [] }) ∷ [];
  resolve_status_rules = λ host org. [];
  disk_alert_mounts = λ host. (true, []);
  host_services = λ host. [];
  recent_reported_mounts = λ host n. [];
  previous_disks = λ host. [];
}

abbrev pub alert : ℕ → Status → Option ℕ → Alert
alert id status ended = record {
  id = id;
  host_id = 1;
  alert_type = "cpu";
  subject = "";
  level = warning;
  status = status;
  value = some (pos 85000);
  threshold = some (pos 80000);
  created_at = 10;
  acknowledged_at = none;
  acknowledged_by = none;
  resolved_at = ended;
  notify_pending = false;
}

abbrev pub old_alert : Alert
old_alert = alert 1 Status.resolved (some 20)

abbrev pub cpu_alert : Alert
cpu_alert = alert 2 Status.opened none

abbrev pub alert_tables : Db
alert_tables = record {
  alerts = cpu_alert ∷ old_alert ∷ [];
  pending = [];
  outbox = [];
  next_id = 3;
}

-- Another session resolves the alert between two calls, and the fourth call fails.
abbrev pub busy_world : World
busy_world = record {
  db = alert_tables;
  clock = 100;
  turns =
      record { elapsed = 1; acts = [] }
      ∷ record { elapsed = 1; acts = [] }
      ∷ record { elapsed = 5; acts = Act.resolves 2 ∷ [] }
      ∷ [];
  faults = false ∷ false ∷ false ∷ true ∷ [];
  woken = 0;
}

abbrev pub calm_world : World
calm_world = record busy_world { turns = []; faults = [] }

abbrev pub cpu_key : AlertKey
cpu_key = ("cpu", "")

abbrev pub state : Option Alert → HostState
state o = record {
  host_id = 1;
  org_id = 7;
  thresholds = [];
  rules = [];
  active = elim o [ none ↦ [] | some a ↦ (cpu_key, a) ∷ [] ];
  pending = (cpu_key, 50) ∷ [];
  service_list = none;
  services_loaded = false;
}

abbrev pub cpu_report : ℕ → Report
cpu_report cpu = record {
  cpu_pct = pos cpu;
  ram_pct = pos 10000;
  disks = [];
  containers = [];
  state = none;
  oom_increased = false;
  host_info = none;
  disk_io = [];
}

abbrev pub day : List Operation
day =
    Operation.report 1 7 (cpu_report 95000)
    ∷ Operation.offline 1 7
    ∷ Operation.report 1 7 (cpu_report 10000)
    ∷ Operation.flush
    ∷ []

abbrev pub ready : Prepared
ready = record nobody { recipients = alice ∷ alice ∷ [] }

abbrev pub critical_world : World
critical_world =
    (apply (engine false) (state (some cpu_alert)) cpu_key (pos 95000) (cpu_limit none)
      calm_world).1

abbrev pub evening : World
evening = run_all (engine false) day busy_world
