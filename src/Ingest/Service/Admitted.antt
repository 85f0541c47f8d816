-- ===== src/Ingest/Service/Admitted.antt =====
-- What becomes of the reservation that admission gave.
use gline.Base.{if◌then◌else◌, ◌≡◌, refl, true, false, not, some, length, pos, Result, ok, arith}
use gline.Domain.Models.{Time, Batch}
use gline.Auth.{Principal}
use gline.Admission.Limiter.{Limiter, Reservation, allow_ingest, finish}
use gline.Admission.Limiter.Reservations.{finish_once}
use gline.Ingest.Transaction.{Receipt, IngestError, within_tx}
use gline.Ingest.Service.{
  Server, Call, accept, prepare, admit_and_run, with_reservation, settle_reservation, was_accepted,
}

settle_reservation_lem :
    (l : Limiter) (at : Time) (r : Reservation) (result : Result IngestError Receipt)
    → settle_reservation l at r result ≡ (finish l at r (not (was_accepted result))).0
unfolding settle_reservation
settle_reservation_lem l at r result =
    elim (was_accepted result)
      as (λ accepted.
        (if accepted
          then (finish (finish l at r false).0 at (finish l at r false).1 true).0
          else (finish l at r true).0)
        ≡ (finish l at r (not accepted)).0) [
          | true ↦ finish_once l (finish l at r false).0 at at r false true
          | false ↦ refl
        ]

-- For a batch that was prepared and admitted, Accept ends with the limiter in which the
-- reservation was finished exactly once, at the end of the transaction: without a refund if the
-- batch was accepted, and with the refund for every other end.
pub settled_once :
    (s : Server) (p : Principal) (candidate b : Batch) (call : Call) (l l' : Limiter)
    (r : Reservation)
    → prepare p candidate ≡ ok b
    → s.limiter ≡ some l
    → allow_ingest l call.admitted_at call.canceled p.key_id p.project_id
        (pos (length b.entries))
        b.payload_bytes
      ≡ (l', ok r)
    → (accept s p candidate call).0.limiter
      ≡ some
          (finish l' call.finished_at r
            (not (was_accepted (within_tx call.faults call.io s.db b call.committed_at).1))).0
unfolding accept admit_and_run with_reservation
settled_once s p candidate b call l l' r prepared limited admitted = ground (
  arith,
  prepared,
  limited,
  admitted,
  settle_reservation_lem l' call.finished_at r
      (within_tx call.faults call.io s.db b call.committed_at).1,
)
