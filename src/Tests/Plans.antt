-- ===== src/Tests/Plans.antt =====
-- The theorems on policies, schedules, modes and plans, at a concrete policy and state.
use polytoken_quota.Prelude.{
  ◌/◌, ◌%◌, ◌≡◌, ◌≤◌, ◌↔◌, ◌⊎◌, refl, true, false, Option, none, some, List, [], ◌∷◌, String, ℤ,
  pos, All, Any, lookup, map, is_empty, ok, str_eq, arith, insert_sorted,
}
use mathlib.Core.List.{Perm}
use polytoken_quota.State.{
  Mode, Quota, effective_mode, quota_eq, availability_eq, valid_quota, valid_availability,
  normalize_provider_axes,
}
use polytoken_quota.State.Effective.{IsOff, IsHealthy, IsCorruptQuota, IsCorruptAvailability}
use polytoken_quota.Policy.{Mapping, parse_model_ref, resolve_model, cut, has_code, split_last}
use polytoken_quota.Policy.ModelRef.{HasNoParen, spell, parse_model_ref_sound}
use polytoken_quota.Schedule.{
  DayOfWeek, Location, OffPeakWindow, Schedule, is_off_peak, parse_schedule, valid_day,
  check_windows, check_window, window_minute, two_digits,
}
use polytoken_quota.Schedule.Windows.{
  CoversAt, IsWellFormed, is_off_peak_iff, parse_schedule-IsWellFormed,
}
use polytoken_quota.Reconcile.Modes.{
  mode_rank, mode_of, mapping_mode, quota_gate_exempt, snapshot_quota_unavailable,
  quota_gate_exempt_mode, is_available, no_allowance,
}
use polytoken_quota.Reconcile.Modes.Exempt.{
  mode_of-exempt-le, mapping_mode-exempt, mapping_mode-gated, CrossesBoundary,
}
use polytoken_quota.Reconcile.Survivors.{
  Survivor, RankLookup, resolve_survivors, effective_order, apply_routing_overlay, collect,
  survivor_of, parse_ref, baseline_of, baseline_disabled, arrange, is_reserve, overlay_if,
  ranked_groups, reorder_groups, balance_group_of, reorder, in_slot, refill, rank_of,
}
use polytoken_quota.Reconcile.Overlay.{slot_view, apply_routing_overlay-slots}
use polytoken_quota.Reconcile.Order.{
  FromChain, IsPartitioned, resolve_survivors_lem, effective_order-perm,
}
use polytoken_quota.Reconcile.Plans.{
  build, scalar_fields, build_edits, finish, scalar_loop, scalar_step, scalar_edit, definition_loop,
  definition_step, required, fallback_value,
}
use polytoken_quota.Reconcile.Edits.{HasOrigin, build-HasOrigin}
use polytoken_quota.Tests.Fixed.{fixed}
use polytoken_quota.Quota.{effective_remaining, min_loop, min_step, remaining, clamp01}
use polytoken_quota.Tests.Data.{state, desired, mapping, provider, target}

abbrev entry : String
entry = "codex/gpt(high)"

abbrev base : String
base = "codex/gpt"

abbrev suffix : String
suffix = "high"

parsed : parse_model_ref entry ≡ ok (base, suffix)
unfolding parse_model_ref cut has_code split_last
parsed = refl

parse_model_ref_sound_example :
    ((entry ≡ base) × (suffix ≡ "") × (is_empty base ≡ false) × HasNoParen base)
    ⊎ ((entry ≡ spell base suffix)
        × (is_empty base ≡ false)
        × (has_code b'(' base ≡ false)
        × (is_empty suffix ≡ false)
        × HasNoParen suffix)
parse_model_ref_sound_example = parse_model_ref_sound entry base suffix parsed

-- a wall clock in which each instant is a number of minutes from the start of a Monday
abbrev clock : Location
clock = record {
  weekday = λ t. 1;
  day_before = λ t. 0;
  hour = λ t. t / 60 % 24;
  minute = λ t. t % 60;
  hour_bound = λ t. omega arith;
  minute_bound = λ t. omega arith;
}

abbrev night : OffPeakWindow
night = record { days = DayOfWeek.sunday ∷ []; start = "22:00"; end = "06:30" }

abbrev nights : Schedule
nights = record { timezone = "UTC"; off_peak = night ∷ []; loc = some clock }

abbrev load : String → Option Location
load tz = some clock

is_off_peak_iff_example : (is_off_peak nights 300 ≡ true) ↔ Any (CoversAt clock 300) nights.off_peak
is_off_peak_iff_example = is_off_peak_iff nights clock 300 refl

night_parses : parse_schedule load "UTC" (night ∷ []) ≡ ok nights
unfolding parse_schedule valid_day check_windows check_window window_minute str_eq two_digits
night_parses = refl

parse_schedule-IsWellFormed_example :
    (nights.off_peak ≡ night ∷ []) × (nights.loc ≡ load "UTC") × All IsWellFormed nights.off_peak
parse_schedule-IsWellFormed_example =
    parse_schedule-IsWellFormed load "UTC" (night ∷ []) nights night_parses

abbrev codex : Mapping ℤ
codex = mapping "codex/gpt" false

abbrev zai : Mapping ℤ
zai = mapping "zai/glm" true

exempt : quota_gate_exempt zai ≡ true
unfolding quota_gate_exempt
exempt = refl

gated : quota_gate_exempt codex ≡ false
unfolding quota_gate_exempt
gated = refl

mode_of-exempt-le_example :
    (mode_rank (mode_of zai (provider Quota.exhausted 300))
      ≤ mode_rank (mode_of codex (provider Quota.exhausted 300)))
    × (mode_of codex (provider Quota.exhausted 300) ≡ Mode.disabled
        → (mode_of zai (provider Quota.exhausted 300) ≡ Mode.reserve)
          ⊎ ((provider Quota.exhausted 300).manual_disabled ≡ true)
          ⊎ IsCorruptQuota (provider Quota.exhausted 300).quota
          ⊎ IsCorruptAvailability (provider Quota.exhausted 300).availability)
mode_of-exempt-le_example = mode_of-exempt-le zai codex (provider Quota.exhausted 300) exempt gated

has_zai : lookup "zai" desired.providers ≡ some zai
unfolding lookup str_eq
has_zai = refl

saw_zai : lookup "zai" state.providers ≡ some (provider Quota.low 300)
unfolding lookup str_eq
saw_zai = refl

has_codex : lookup "codex" desired.providers ≡ some codex
unfolding lookup str_eq
has_codex = refl

saw_codex : lookup "codex" state.providers ≡ some (provider Quota.normal 150)
unfolding lookup str_eq
saw_codex = refl

mapping_mode-exempt_example : (mapping_mode desired state "zai" ≡ Mode.disabled) ↔ (
    ((provider Quota.low 300).manual_disabled ≡ true)
    ⊎ IsCorruptQuota (provider Quota.low 300).quota
    ⊎ IsCorruptAvailability (provider Quota.low 300).availability)
mapping_mode-exempt_example = mapping_mode-exempt desired state "zai" has_zai saw_zai exempt

mapping_mode-gated_example :
    let ps = provider Quota.normal 150 in
    ((mapping_mode desired state "codex" ≡ Mode.disabled)
      ↔ (CrossesBoundary ps ⊎ IsOff ps.manual_disabled ps.quota ps.availability))
    × ((mapping_mode desired state "codex" ≡ Mode.reserve) ↔ (
        (¬ CrossesBoundary ps)
        × (ps.manual_disabled ≡ false)
        × (ps.quota ≡ Quota.low)
        × IsHealthy ps.availability))
mapping_mode-gated_example = mapping_mode-gated desired state "codex" has_codex saw_codex gated

abbrev ranks : RankLookup
ranks = ("codex", pos 1) ∷ ("zai", pos 0) ∷ []

-- the entries of a chain that survive, in the modes "normal" and "reserve"
abbrev survivors : List Survivor
survivors =
    record {
      ref = record { spelling = "zai/glm"; base = "zai/glm"; suffix = "" };
      mid = "zai";
      mode = Mode.reserve;
    }
    ∷ record {
      ref = record { spelling = entry; base = base; suffix = suffix };
      mid = "codex";
      mode = Mode.normal;
    }
    ∷ []

abbrev arranged : List Survivor
arranged =
    record {
      ref = record { spelling = entry; base = base; suffix = suffix };
      mid = "codex";
      mode = Mode.normal;
    }
    ∷ record {
      ref = record { spelling = "zai/glm"; base = "zai/glm"; suffix = "" };
      mid = "zai";
      mode = Mode.reserve;
    }
    ∷ []

collected : collect desired state (target false).full ≡ ok survivors
unfolding collect survivor_of parse_ref parse_model_ref cut has_code split_last resolve_model
    baseline_of baseline_disabled mapping_mode mode_of quota_gate_exempt quota_gate_exempt_mode
    snapshot_quota_unavailable is_available no_allowance effective_remaining min_loop min_step
    remaining clamp01 effective_mode quota_eq availability_eq valid_quota valid_availability
    normalize_provider_axes lookup str_eq
collected = refl

resolves : resolve_survivors desired state (target false).full ranks ≡ ok arranged
unfolding survivor_of parse_ref parse_model_ref cut has_code split_last resolve_model baseline_of
    baseline_disabled mapping_mode mode_of quota_gate_exempt quota_gate_exempt_mode
    snapshot_quota_unavailable is_available no_allowance effective_remaining min_loop min_step
    remaining clamp01 effective_mode quota_eq availability_eq valid_quota valid_availability
    normalize_provider_axes lookup str_eq resolve_survivors collect arrange is_reserve overlay_if
    apply_routing_overlay ranked_groups reorder_groups balance_group_of reorder in_slot refill
    rank_of insert_sorted
resolves = refl

resolve_survivors_lem_example :
    All (FromChain desired state (target false).full) arranged
    × IsPartitioned desired state arranged
resolve_survivors_lem_example =
    resolve_survivors_lem desired state (target false).full ranks arranged resolves

effective_order-perm_example :
    (order : List String) × (effective_order desired state (target false).full ranks ≡ ok order)
    × Perm order (map (λ v. v.ref.spelling) survivors)
effective_order-perm_example =
    effective_order-perm desired state (target false).full ranks survivors collected

apply_routing_overlay-slots_example :
    map (slot_view desired ranks) (apply_routing_overlay desired ranks survivors)
    ≡ map (slot_view desired ranks) survivors
apply_routing_overlay-slots_example = apply_routing_overlay-slots desired ranks survivors

build-HasOrigin_example :
    All
      (HasOrigin desired state (target false) ranks)
      (build desired state (target false) ranks).0.edits
build-HasOrigin_example = build-HasOrigin desired state (target false) ranks

grouped : (build desired state (target true) ranks).1 ≡ none
unfolding build build_edits finish scalar_loop scalar_step scalar_edit scalar_fields definition_loop
    definition_step required fallback_value survivor_of parse_ref parse_model_ref cut has_code
    split_last resolve_model baseline_of baseline_disabled mapping_mode mode_of quota_gate_exempt
    quota_gate_exempt_mode snapshot_quota_unavailable is_available no_allowance effective_remaining
    min_loop min_step remaining clamp01 effective_mode quota_eq availability_eq valid_quota
    valid_availability normalize_provider_axes lookup str_eq resolve_survivors collect arrange
    is_reserve overlay_if apply_routing_overlay ranked_groups reorder_groups balance_group_of
    reorder in_slot refill rank_of insert_sorted
grouped = refl
