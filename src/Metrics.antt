-- ===== src/Metrics.antt =====
-- reportMetrics of src/MetricsReporter.cpp. The host's name and the printing of numbers are parameters,
-- and so is whether the program was built with CURL.
use Prim.Native.String.{◌++◌ as append_text}
use forward_epics_to_kafka.Base.{
  ℕ, suc, ◌+◌, ◌*◌, ◌/◌, ◌%◌, ◌<◌, ◌≡◌, String, Bool, not, ◌&&◌, Option, none, some, List, [], ◌∷◌,
  is_empty, if◌then◌else◌, arith,
}
use forward_epics_to_kafka.Kafka.{ProducerStats}
use forward_epics_to_kafka.Kafka.Producers.{Totals}
use forward_epics_to_kafka.Kafka.Closing.{Producers, get_stats_for_all_producers}

-- The numbers that are logged, from the most significant on.
pub record Logged : Type 0 where
  pub m2 : ℕ
  pub m1 : ℕ
  pub b3 : ℕ
  pub b2 : ℕ
  pub b1 : ℕ

unfoldable pub logged : Totals → Logged
logged t =
    let b2 = t.bytes / 1024 in
    record {
      m2 = t.messages / 1000;
      m1 = t.messages % 1000;
      b3 = b2 / 1024;
      b2 = b2 % 1024;
      b1 = t.bytes % 1024;
    }

pub record MetricsLibrary : Type 0 where
  pub show : ℕ → String
  pub show_double : ℕ → String
  pub hostname : String
  pub have_curl : Bool

module _ (lib : MetricsLibrary) where
  abbrev field : String → String → String → String
  field name value rest = append_text name (append_text value rest)

  -- The line of a producer, which is the i-th, in front of what follows.
  unfoldable pub stats_line : ℕ → ProducerStats → String → String
  stats_line i s rest = field "forward-epics-to-kafka,hostname=" lib.hostname (
      field ",set=" (lib.show i) (
        field " produced=" (lib.show s.produced) (
          field ",produce_fail=" (lib.show s.produce_fail) (
            field ",local_queue_full=" (lib.show s.local_queue_full) (
              field ",produce_cb=" (lib.show s.produce_cb) (
                field ",produce_cb_fail=" (lib.show s.produce_cb_fail) (
                  field ",poll_served=" (lib.show s.poll_served) (
                    field ",msg_too_large=" (lib.show s.msg_too_large) (
                      field ",produced_bytes=" (lib.show_double s.produced_bytes)
                        (field ",outq=" (lib.show s.out_queue) (append_text "\n" rest)))))))))))

  -- The loop over the producers' statistics, from the i-th on.
  unfoldable pub stats_lines : ℕ → List ProducerStats → String
  unfolding stats_line
  stats_lines i [] = ""
  stats_lines i (s ∷ ss) = stats_line i s (stats_lines (suc i) ss)

  -- What is sent to InfluxDB, if anything. Nothing is ever put into `converters`, so that the second
  -- loop writes nothing.
  unfoldable pub report : String → Producers → Option String
  unfolding stats_lines get_stats_for_all_producers
  report influx_uri ps =
      if lib.have_curl && not (is_empty influx_uri)
      then some (stats_lines 0 (get_stats_for_all_producers ps))
      else none

-- The logged groups of digits are in their ranges, and together they give the totals back.
logged_lem :
    (t : Totals)
    → ((logged t).m2 * 1000 + (logged t).m1 ≡ t.messages)
      × (((logged t).b3 * 1024 + (logged t).b2) * 1024 + (logged t).b1 ≡ t.bytes)
      × ((logged t).m1 < 1000)
      × ((logged t).b2 < 1024)
      × ((logged t).b1 < 1024)
unfolding logged
logged_lem t = (omega arith, omega arith, omega arith, omega arith, omega arith)
