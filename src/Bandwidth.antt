-- ===== src/Bandwidth.antt =====
-- core/src/ws/bandwidth-metrics.ts. Byte counts are numbers; the percentage, which is a double in the
-- source, is the pair of its numerator and denominator.
use ride_location_tracking_e.Common.{ℕ, ◌+◌, Option, none, some, ltb, ◌==◌, if◌then◌else◌}
use ride_location_tracking_e.Common.Interval
use ride_location_tracking_e.Common.Interval.{Interval}
use ride_location_tracking_e.Common.Int.{ℤ, pos, sub_ℕ, times, round_div}

pub record BandwidthTotals : Type 0 where
  pub messages_sent : ℕ
  pub full_payload_equivalent_bytes : ℕ
  pub actual_bytes_sent : ℕ

pub no_totals : BandwidthTotals
no_totals = record { messages_sent = 0; full_payload_equivalent_bytes = 0; actual_bytes_sent = 0 }

unfoldable pub record_message : ℕ → ℕ → BandwidthTotals → BandwidthTotals
record_message full actual t = record {
  messages_sent = t.messages_sent + 1;
  full_payload_equivalent_bytes = t.full_payload_equivalent_bytes + full;
  actual_bytes_sent = t.actual_bytes_sent + actual;
}

pub record BandwidthSummary : Type 0 where
  pub totals : BandwidthTotals
  pub bytes_saved : ℤ
  pub savings_percent : ℤ × ℕ

unfoldable pub get_bandwidth_stats : BandwidthTotals → BandwidthSummary
get_bandwidth_stats t =
    let saved = sub_ℕ t.full_payload_equivalent_bytes t.actual_bytes_sent in
    record {
      totals = t;
      bytes_saved = saved;
      savings_percent =
          if ltb 0 t.full_payload_equivalent_bytes
          then (times saved 100, t.full_payload_equivalent_bytes)
          else (pos 0, 1);
    }

-- What is logged: the totals, and the percentage in tenths.
unfoldable pub log_bandwidth_summary : BandwidthTotals → Option (BandwidthTotals × ℤ)
log_bandwidth_summary t =
    let stats = get_bandwidth_stats t in
    if stats.totals.messages_sent == 0
    then none
    else some (stats.totals, round_div (times stats.savings_percent.0 10) stats.savings_percent.1)

-- The loop that logs.
abbrev pub start_bandwidth_log_loop : Interval → ℕ → Interval
start_bandwidth_log_loop = Interval.start_loop

abbrev pub stop_bandwidth_log_loop : Interval → Interval
stop_bandwidth_log_loop = Interval.stop_loop
