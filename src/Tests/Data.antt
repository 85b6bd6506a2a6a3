-- ===== src/Tests/Data.antt =====
-- The concrete policy, state and observations of the tests.
use polytoken_quota.Prelude.{ℕ, ◌+◌, ◌*◌, Bool, true, false, none, some, [], ◌∷◌, String, ℤ, pos}
use polytoken_quota.Clock.{day, hour}
use polytoken_quota.Quota.{
  QuotaAvailability, SourceStatus, QuotaWindow, QuotaSnapshot, ResetCreditInventory,
  ResetCreditState, ResetCreditAttempt, CreditAttemptStatus,
}
use polytoken_quota.State.{
  Quota, Availability, ProviderState, ProviderPatch, ProviderOwnership, Selector, State,
  zero_provider,
}
use polytoken_quota.Policy.{ModelBaseline, Mapping, QuotaConfig, Desired, Target, PolicyMode}

-- a weekly window with `used` of 300 units
abbrev pub weekly : ℕ → QuotaWindow ℤ
weekly used = record {
  name = "weekly";
  used = some (pos used);
  limit = some (pos 300);
  usage_percent = none;
  reset_at = some (10 * day);
  period = some (pos (7 * day));
}

-- a session window of five hours, with no usage
abbrev pub session : QuotaWindow ℤ
session = record {
  name = "session";
  used = none;
  limit = none;
  usage_percent = none;
  reset_at = some (6 * day);
  period = some (pos (5 * hour));
}

abbrev pub snapshot : ℕ → QuotaSnapshot ℤ
snapshot used = record {
  mapping_id = "codex";
  checked_at = 5 * day;
  windows = weekly used ∷ session ∷ [];
  availability = QuotaAvailability.available;
  status = SourceStatus.fresh;
  error = "";
  condition = "";
  usage_summary = none;
  reset_credits = none;
}

abbrev pub gate : Bool → QuotaConfig ℤ
gate off = record {
  adapter = "codex";
  freshness_ttl = pos 0;
  balance_group = "";
  weight = pos 1;
  monthly_budget_usd = pos 0;
  schedule = none;
  signal_gate = record { disabled = false; threshold = pos 0 };
  gate = record { disabled = off };
}

abbrev pub model : ModelBaseline
model = record { enabled = true; had_enabled_key = true }

-- a mapping of one model, whose quota gate is off where the argument is true
abbrev pub mapping : String → Bool → Mapping ℤ
mapping name off = record {
  models = (name, model) ∷ [];
  keep_enabled = false;
  quota = some (gate off);
}

abbrev pub target : Bool → Target
target groups = record {
  id = "global";
  root = "/home/user";
  global = true;
  definitions = record { path = "agents/a.md"; chain = "codex/gpt(high)" ∷ "zai/glm" ∷ [] } ∷ [];
  full = "zai/glm" ∷ "codex/gpt(high)" ∷ [];
  mini = [];
  nano = "codex/gpt" ∷ [];
  classifier = [];
  uses_model_groups = groups;
}

abbrev pub desired : Desired ℤ
desired = record {
  version = pos 1;
  providers = ("codex", mapping "codex/gpt" false) ∷ ("zai", mapping "zai/glm" true) ∷ [];
  global = target false;
  projects = [];
  mode = PolicyMode.legacy;
  routing = record { enabled = true };
}

-- a provider with the given axes and the snapshot of the given use
abbrev pub provider : Quota → ℕ → ProviderState ℤ
provider q used = record zero_provider {
  quota = q;
  availability = Availability.available;
  quota_at = 3;
  availability_at = 4;
  quota_snapshot = some (snapshot used);
}

-- codex has half of its quota, zai none
abbrev pub state : State ℤ
state = record {
  schema = pos 2;
  revision = 7;
  providers = ("codex", provider Quota.normal 150) ∷ ("zai", provider Quota.low 300) ∷ [];
  targets = [];
  refresh_failed = [];
  recovered = [];
  next_event_sequence = 0;
  next_arrival_sequence = 0;
  on_change_executed_revision = 0;
  provider_ownership = none;
  pending_provider_notice = none;
}

abbrev pub now : ℕ
now = 5 * day + 60

abbrev pub inventory : ResetCreditInventory
inventory = record {
  server_available_count = pos 2;
  usable_count = pos 2;
  available_expiries = some 50 ∷ none ∷ [];
  discrepancy_count = pos 0;
  skipped_count = pos 0;
  observed_at = 9;
}

abbrev pub credits : ResetCreditState ℤ
credits = record { last_success = some inventory; latest_attempt = none; usage_summary = none }

abbrev pub attempt : ResetCreditAttempt
attempt = record {
  status = CreditAttemptStatus.partial;
  at = 12;
  inventory = some inventory;
  error = "secret";
}

abbrev pub patch : ProviderPatch
patch = record { quota = some Quota.exhausted; availability = none }

abbrev pub all_providers : Selector
all_providers = record { provider = ""; all = true }

abbrev pub ownership : ProviderOwnership ℤ
ownership = record {
  baseline_present = true;
  baseline_value = true;
  owned = true;
  conflict = false;
  axis = "quota";
  threshold = pos 0;
  engaged_revision = 3;
}
