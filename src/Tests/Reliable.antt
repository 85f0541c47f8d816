-- ===== src/Tests/Reliable.antt =====
-- The dispatcher, the transport and the pipelines' control at concrete inputs.
use gline.Base.{
  ◌≡◌, ◌⊎◌, ◌↔◌, ap, refl, true, false, none, some, codes, bytes_eq, [], ◌∷◌, lookup, has, put, pos,
  bytes_beq, is_blank, if◌then◌else◌,
}
use gline.Spool.Model.{Commit, Wal, empty_index}
use gline.Spool.Index.{apply_commit, present}
use gline.Spool.Index.Changes.{commits}
use gline.Spool.Index.Validity.{IsValid, IsValid-empty, change-IsValid}
use gline.Spool.File.{written}
use gline.Spool.Compact.{prepare_failed}
use gline.Spool.Operations.{pending_batches, peek, peek_in}
use gline.Reliable.Transport.{
  Decoder, response, accepted, retryable, send, send_result, response_class, acknowledged_class,
}
use gline.Reliable.Transport.Answers.{IsAcknowledged, delivered, send-IsAcknowledged}
use gline.Reliable.Dispatcher.{
  Dispatcher, World, next_pending, search_all, search_pending, is_blocked, round,
}
use gline.Reliable.Dispatcher.Order.{IsFirst, IsIdle, next_pending-IsFirst, next_pending-IsIdle}
use gline.Reliable.Dispatcher.Delivery.{IsSettled, round-keeps}
use gline.Reliable.Control.{PipelineState, runnable, report, running, desires, start, flag_of}
use gline.Reliable.Control.Reports.{running_iff, started_may_run}
use gline.Tests.Codec.{plain}

abbrev batch_1 : Commit
batch_1 = record {
  batch_id = codes "b1";
  payload = codes "b1";
  checkpoint = record {
    source_key = codes "s";
    file_identity = codes "f";
    offset_bytes = pos 3;
    observed_at = 5;
  };
}

abbrev loaded : Wal
loaded = record {
  file = [];
  max_bytes = 5000;
  max_record_bytes = 1000;
  closed = false;
  index = apply_commit batch_1 40 empty_index;
  signalled = false;
}

nothing_seen : has (codes "b1") empty_index.seen ≡ false
unfolding has lookup
nothing_seen = refl

loaded-IsValid : IsValid loaded.index
loaded-IsValid = change-IsValid empty_index IsValid-empty (commits batch_1 40) nothing_seen

loaded-pending : lookup (codes "b1") loaded.pending ≡ some batch_1
unfolding apply_commit lookup put bytes_beq
loaded-pending = refl

-- A dispatcher that has not tried the batch, and one that waits until the instant 50.
abbrev eager : Dispatcher
eager = record {
  spool = loaded;
  options = record { base_delay = 10; max_delay = 100 };
  attempts = [];
  blocked_until = [];
}

abbrev waiting : Dispatcher
waiting = record eager { blocked_until = (codes "b1", 50) ∷ [] }

abbrev rejected : World
rejected = record {
  now = 20;
  result = record { class = retryable; status_code = 503; retry_after = 30; code = [] };
  failed = false;
  canceled = false;
  canceled_later = false;
  jitter = none;
  later = 21;
  ack = record { append = written; stat_ok = true; compact = prepare_failed };
  append = written;
}

eager-sends : next_pending eager 20 ≡ (some batch_1, 0)
unfolding next_pending peek peek_in apply_commit lookup put bytes_beq
eager-sends = refl

next_pending-IsFirst_example : IsFirst [] 20 (pending_batches loaded) batch_1
next_pending-IsFirst_example = next_pending-IsFirst eager 20 batch_1 0 eager-sends

waiting-waits : next_pending waiting 20 ≡ (none, 30)
unfolding next_pending search_all search_pending is_blocked pending_batches present apply_commit
    lookup put bytes_beq
waiting-waits = refl

next_pending-IsIdle_example : IsIdle waiting.blocked_until 20 (pending_batches loaded) 30
next_pending-IsIdle_example = next_pending-IsIdle waiting 20 30 waiting-waits

round-keeps_example :
    (lookup (codes "b1") (round plain eager rejected).0.spool.pending ≡ some batch_1)
    ⊎ IsSettled eager rejected (codes "b1")
round-keeps_example =
    round-keeps plain eager rejected (codes "b1") batch_1 loaded-IsValid loaded-pending

abbrev decoder : Decoder
decoder = record {
  batch_id_of = λ b. some b;
  acknowledgement_of = λ b. some (record { batch_id = b; status = codes "accepted" });
  failure_of = λ b. record { nested_code = []; code = b };
}

batch_1-accepted : (send decoder (codes "b1") (response 201 0 (codes "b1"))).class ≡ accepted
unfolding send send_result response_class acknowledged_class bytes_beq is_blank
batch_1-accepted = refl

send-IsAcknowledged_example : IsAcknowledged decoder (codes "b1") (response 201 0 (codes "b1"))
send-IsAcknowledged_example =
    send-IsAcknowledged decoder (codes "b1") (response 201 0 (codes "b1"))
      (ap delivered batch_1-accepted)

abbrev pipelines : PipelineState
pipelines = record {
  order = codes "p" ∷ [];
  local_version = (codes "p", pos 2) ∷ [];
  desired =
      (
        codes "p",
        record { id = codes "p"; desired_status = codes "enabled"; config_version = pos 2 },
      )
      ∷ [];
  control_known = true;
  active = (codes "p", true) ∷ [];
  failures = [];
}

running_iff_example :
    ((report pipelines (codes "p")).0 ≡ running)
    ↔ ((runnable pipelines (codes "p") ≡ true) × (flag_of pipelines.active (codes "p") ≡ true))
running_iff_example = running_iff pipelines (codes "p")

started_may_run_example :
    runnable (start pipelines (codes "p")) (codes "p")
    ≡ (if pipelines.control_known then desires pipelines (codes "p") else true)
started_may_run_example = started_may_run pipelines (codes "p")
