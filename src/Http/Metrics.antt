-- ===== src/Http/Metrics.antt =====
-- The Prometheus text of the counters: src/infrastructure/http/metrics.ts.
use pulse_ledger.Base.{ℕ, Option, none, some, List, [], ◌∷◌, ◌++◌, map, ◌==◌, if◌then◌else◌}
use pulse_ledger.Base.Decimal.{Text, to_decimal}
use pulse_ledger.Outbox.Repository.{OutboxStats}
use pulse_ledger.Transfers.Service.{TransferMetrics}

-- `text.replace(/c/g, by)`
abbrev pub replace : ℕ → Text → Text → Text
replace c by [] = []
replace c by (d ∷ ds) = (if d == c then by else d ∷ []) ++ replace c by ds

-- `value.replace(/\\/g, '\\\\').replace(/"/g, '\\"').replace(/\n/g, '\\n')`
unfoldable pub escape : Text → Text
escape value =
    replace 10 (92 ∷ b'n' ∷ []) (replace 34 (92 ∷ 34 ∷ []) (replace 92 (92 ∷ 92 ∷ []) value))

-- `lines.join(separator)`
abbrev pub join : Text → List Text → Text
join separator [] = []
join separator (line ∷ []) = line
join separator (line ∷ next ∷ lines) = line ++ separator ++ join separator (next ∷ lines)

-- `key="value"`
unfoldable pub render_label : Text × Text → Text
unfolding escape
render_label (key, value) = key ++ b'=' ∷ 34 ∷ escape value ++ 34 ∷ []

-- `renderLabels`
unfoldable pub render_labels : Option (List (Text × Text)) → Text
unfolding render_label
render_labels none = []
render_labels (some labels) = b'{' ∷ join (b',' ∷ []) (map render_label labels) ++ b'}' ∷ []

pub record Sample : Type 0 where
  pub labels : Option (List (Text × Text))
  pub value : ℕ

pub data MetricType : Type 0 where
  counter gauge : MetricType

pub record MetricFamily : Type 0 where
  pub help : Text
  pub name : Text
  pub samples : List Sample
  pub type : MetricType

-- `counter`
abbrev pub counter_word : Text
counter_word = b'c' ∷ b'o' ∷ b'u' ∷ b'n' ∷ b't' ∷ b'e' ∷ b'r' ∷ []

-- `gauge`
abbrev pub gauge_word : Text
gauge_word = b'g' ∷ b'a' ∷ b'u' ∷ b'g' ∷ b'e' ∷ []

-- `# HELP `
abbrev pub help_word : Text
help_word = b'#' ∷ 32 ∷ b'H' ∷ b'E' ∷ b'L' ∷ b'P' ∷ 32 ∷ []

-- `# TYPE `
abbrev pub type_word : Text
type_word = b'#' ∷ 32 ∷ b'T' ∷ b'Y' ∷ b'P' ∷ b'E' ∷ 32 ∷ []

abbrev pub type_word_of : MetricType → Text
type_word_of counter = counter_word
type_word_of gauge = gauge_word

abbrev pub sample_line : Text → Sample → Text
sample_line name s = name ++ render_labels s.labels ++ 32 ∷ to_decimal s.value

-- `renderFamily`
unfoldable pub render_family : MetricFamily → Text
unfolding render_labels
render_family f = join (10 ∷ []) (
    (help_word ++ f.name ++ 32 ∷ f.help)
    ∷ (type_word ++ f.name ++ 32 ∷ type_word_of f.type)
    ∷ map (sample_line f.name) f.samples)

-- `Transfers committed since process start.`
abbrev pub completed_help : Text
completed_help =
    b'T' ∷ b'r' ∷ b'a' ∷ b'n' ∷ b's' ∷ b'f' ∷ b'e' ∷ b'r' ∷ b's' ∷ 32 ∷ b'c' ∷ b'o' ∷ b'm' ∷ b'm'
    ∷ b'i' ∷ b't' ∷ b't' ∷ b'e' ∷ b'd' ∷ 32 ∷ b's' ∷ b'i' ∷ b'n' ∷ b'c' ∷ b'e' ∷ 32 ∷ b'p' ∷ b'r'
    ∷ b'o' ∷ b'c' ∷ b'e' ∷ b's' ∷ b's' ∷ 32 ∷ b's' ∷ b't' ∷ b'a' ∷ b'r' ∷ b't' ∷ b'.' ∷ []

-- `pulseledger_transfers_completed_total`
abbrev pub completed_name : Text
completed_name =
    b'p' ∷ b'u' ∷ b'l' ∷ b's' ∷ b'e' ∷ b'l' ∷ b'e' ∷ b'd' ∷ b'g' ∷ b'e' ∷ b'r' ∷ b'_' ∷ b't' ∷ b'r'
    ∷ b'a' ∷ b'n' ∷ b's' ∷ b'f' ∷ b'e' ∷ b'r' ∷ b's' ∷ b'_' ∷ b'c' ∷ b'o' ∷ b'm' ∷ b'p' ∷ b'l'
    ∷ b'e' ∷ b't' ∷ b'e' ∷ b'd' ∷ b'_' ∷ b't' ∷ b'o' ∷ b't' ∷ b'a' ∷ b'l' ∷ []

-- `Transfer attempts retried after a serialization failure or deadlock.`
abbrev pub retries_help : Text
retries_help =
    b'T' ∷ b'r' ∷ b'a' ∷ b'n' ∷ b's' ∷ b'f' ∷ b'e' ∷ b'r' ∷ 32 ∷ b'a' ∷ b't' ∷ b't' ∷ b'e' ∷ b'm'
    ∷ b'p' ∷ b't' ∷ b's' ∷ 32 ∷ b'r' ∷ b'e' ∷ b't' ∷ b'r' ∷ b'i' ∷ b'e' ∷ b'd' ∷ 32 ∷ b'a' ∷ b'f'
    ∷ b't' ∷ b'e' ∷ b'r' ∷ 32 ∷ b'a' ∷ 32 ∷ b's' ∷ b'e' ∷ b'r' ∷ b'i' ∷ b'a' ∷ b'l' ∷ b'i' ∷ b'z'
    ∷ b'a' ∷ b't' ∷ b'i' ∷ b'o' ∷ b'n' ∷ 32 ∷ b'f' ∷ b'a' ∷ b'i' ∷ b'l' ∷ b'u' ∷ b'r' ∷ b'e' ∷ 32
    ∷ b'o' ∷ b'r' ∷ 32 ∷ b'd' ∷ b'e' ∷ b'a' ∷ b'd' ∷ b'l' ∷ b'o' ∷ b'c' ∷ b'k' ∷ b'.' ∷ []

-- `pulseledger_transfer_retries_total`
abbrev pub retries_name : Text
retries_name =
    b'p' ∷ b'u' ∷ b'l' ∷ b's' ∷ b'e' ∷ b'l' ∷ b'e' ∷ b'd' ∷ b'g' ∷ b'e' ∷ b'r' ∷ b'_' ∷ b't' ∷ b'r'
    ∷ b'a' ∷ b'n' ∷ b's' ∷ b'f' ∷ b'e' ∷ b'r' ∷ b'_' ∷ b'r' ∷ b'e' ∷ b't' ∷ b'r' ∷ b'i' ∷ b'e'
    ∷ b's' ∷ b'_' ∷ b't' ∷ b'o' ∷ b't' ∷ b'a' ∷ b'l' ∷ []

-- `Transfers that exhausted their bounded retry budget and returned 503.`
abbrev pub exhausted_help : Text
exhausted_help =
    b'T' ∷ b'r' ∷ b'a' ∷ b'n' ∷ b's' ∷ b'f' ∷ b'e' ∷ b'r' ∷ b's' ∷ 32 ∷ b't' ∷ b'h' ∷ b'a' ∷ b't'
    ∷ 32 ∷ b'e' ∷ b'x' ∷ b'h' ∷ b'a' ∷ b'u' ∷ b's' ∷ b't' ∷ b'e' ∷ b'd' ∷ 32 ∷ b't' ∷ b'h' ∷ b'e'
    ∷ b'i' ∷ b'r' ∷ 32 ∷ b'b' ∷ b'o' ∷ b'u' ∷ b'n' ∷ b'd' ∷ b'e' ∷ b'd' ∷ 32 ∷ b'r' ∷ b'e' ∷ b't'
    ∷ b'r' ∷ b'y' ∷ 32 ∷ b'b' ∷ b'u' ∷ b'd' ∷ b'g' ∷ b'e' ∷ b't' ∷ 32 ∷ b'a' ∷ b'n' ∷ b'd' ∷ 32
    ∷ b'r' ∷ b'e' ∷ b't' ∷ b'u' ∷ b'r' ∷ b'n' ∷ b'e' ∷ b'd' ∷ 32 ∷ b'5' ∷ b'0' ∷ b'3' ∷ b'.' ∷ []

-- `pulseledger_transfer_retry_exhausted_total`
abbrev pub exhausted_name : Text
exhausted_name =
    b'p' ∷ b'u' ∷ b'l' ∷ b's' ∷ b'e' ∷ b'l' ∷ b'e' ∷ b'd' ∷ b'g' ∷ b'e' ∷ b'r' ∷ b'_' ∷ b't' ∷ b'r'
    ∷ b'a' ∷ b'n' ∷ b's' ∷ b'f' ∷ b'e' ∷ b'r' ∷ b'_' ∷ b'r' ∷ b'e' ∷ b't' ∷ b'r' ∷ b'y' ∷ b'_'
    ∷ b'e' ∷ b'x' ∷ b'h' ∷ b'a' ∷ b'u' ∷ b's' ∷ b't' ∷ b'e' ∷ b'd' ∷ b'_' ∷ b't' ∷ b'o' ∷ b't'
    ∷ b'a' ∷ b'l' ∷ []

-- `Outbox events by delivery status. A rising pending or failed count means the worker is behind or stuck.`
abbrev pub outbox_help : Text
outbox_help =
    b'O' ∷ b'u' ∷ b't' ∷ b'b' ∷ b'o' ∷ b'x' ∷ 32 ∷ b'e' ∷ b'v' ∷ b'e' ∷ b'n' ∷ b't' ∷ b's' ∷ 32
    ∷ b'b' ∷ b'y' ∷ 32 ∷ b'd' ∷ b'e' ∷ b'l' ∷ b'i' ∷ b'v' ∷ b'e' ∷ b'r' ∷ b'y' ∷ 32 ∷ b's' ∷ b't'
    ∷ b'a' ∷ b't' ∷ b'u' ∷ b's' ∷ b'.' ∷ 32 ∷ b'A' ∷ 32 ∷ b'r' ∷ b'i' ∷ b's' ∷ b'i' ∷ b'n' ∷ b'g'
    ∷ 32 ∷ b'p' ∷ b'e' ∷ b'n' ∷ b'd' ∷ b'i' ∷ b'n' ∷ b'g' ∷ 32 ∷ b'o' ∷ b'r' ∷ 32 ∷ b'f' ∷ b'a'
    ∷ b'i' ∷ b'l' ∷ b'e' ∷ b'd' ∷ 32 ∷ b'c' ∷ b'o' ∷ b'u' ∷ b'n' ∷ b't' ∷ 32 ∷ b'm' ∷ b'e' ∷ b'a'
    ∷ b'n' ∷ b's' ∷ 32 ∷ b't' ∷ b'h' ∷ b'e' ∷ 32 ∷ b'w' ∷ b'o' ∷ b'r' ∷ b'k' ∷ b'e' ∷ b'r' ∷ 32
    ∷ b'i' ∷ b's' ∷ 32 ∷ b'b' ∷ b'e' ∷ b'h' ∷ b'i' ∷ b'n' ∷ b'd' ∷ 32 ∷ b'o' ∷ b'r' ∷ 32 ∷ b's'
    ∷ b't' ∷ b'u' ∷ b'c' ∷ b'k' ∷ b'.' ∷ []

-- `pulseledger_outbox_events`
abbrev pub outbox_name : Text
outbox_name =
    b'p' ∷ b'u' ∷ b'l' ∷ b's' ∷ b'e' ∷ b'l' ∷ b'e' ∷ b'd' ∷ b'g' ∷ b'e' ∷ b'r' ∷ b'_' ∷ b'o' ∷ b'u'
    ∷ b't' ∷ b'b' ∷ b'o' ∷ b'x' ∷ b'_' ∷ b'e' ∷ b'v' ∷ b'e' ∷ b'n' ∷ b't' ∷ b's' ∷ []

-- `status`
abbrev pub status_word : Text
status_word = b's' ∷ b't' ∷ b'a' ∷ b't' ∷ b'u' ∷ b's' ∷ []

-- `pending`
abbrev pub pending_word : Text
pending_word = b'p' ∷ b'e' ∷ b'n' ∷ b'd' ∷ b'i' ∷ b'n' ∷ b'g' ∷ []

-- `processing`
abbrev pub processing_word : Text
processing_word = b'p' ∷ b'r' ∷ b'o' ∷ b'c' ∷ b'e' ∷ b's' ∷ b's' ∷ b'i' ∷ b'n' ∷ b'g' ∷ []

-- `failed`
abbrev pub failed_word : Text
failed_word = b'f' ∷ b'a' ∷ b'i' ∷ b'l' ∷ b'e' ∷ b'd' ∷ []

abbrev pub counter_family : Text → Text → ℕ → MetricFamily
counter_family help name value = record {
  help = help;
  name = name;
  samples = record { labels = none; value = value } ∷ [];
  type = counter;
}

abbrev pub status_sample : Text → ℕ → Sample
status_sample status value = record { labels = some ((status_word, status) ∷ []); value = value }

abbrev pub outbox_families : Option OutboxStats → List MetricFamily
outbox_families none = []
outbox_families (some o) =
    record {
      help = outbox_help;
      name = outbox_name;
      samples =
          status_sample pending_word o.pending
          ∷ status_sample processing_word o.processing
          ∷ status_sample failed_word o.failed
          ∷ [];
      type = gauge;
    }
    ∷ []

-- `renderPrometheusMetrics`
unfoldable pub render_prometheus_metrics : TransferMetrics → Option OutboxStats → Text
unfolding render_family
render_prometheus_metrics transfers outbox =
    join (10 ∷ 10 ∷ []) (
      map render_family (
        counter_family completed_help completed_name transfers.completed
        ∷ counter_family retries_help retries_name transfers.retries
        ∷ counter_family exhausted_help exhausted_name transfers.exhausted
        ∷ outbox_families outbox))
    ++ 10 ∷ []
