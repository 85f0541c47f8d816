-- ===== src/Reliable/Dispatcher.antt =====
-- internal/agent/reliable/dispatcher.go. A round of Run is one function: what the transport answers,
-- what the clock shows and what the file system does are its argument.
pub mod Backoff
pub mod Order
pub mod Delivery
use gline.Base.{
  ℕ, zero, suc, ◌+◌, ◌-◌, ◌*◌, ◌/◌, min, max, ℤ, pos, below, above, to_nat, Bool, true, false, not,
  ◌&&◌, ◌||◌, Option, none, some, Bytes, bytes_eq, List, [], ◌∷◌, Map, lookup, put, delete, ltb,
  leb, nat_beq, Result, ok, err, ◌>>=◌, ◌>>◌, reject_if, if◌then◌else◌,
}
use gline.Spool.Model.{Time, Commit, Quarantined, SpoolError, Wal}
use gline.Spool.Codec.{Json}
use gline.Spool.File.{AppendIo}
use gline.Spool.Operations.{AckIo, Outcome, pending_batches, peek, ack, quarantine}
use gline.Reliable.Transport.{
  ResultClass, SendResult, unset, accepted, duplicate, retryable, terminal, blocked, unknown,
}

-- A jitter of none is no jitter or no source of random numbers. The product of a duration with the
-- random factor, which the source computes with floating point, is an argument.
abbrev pub Jitter : Type 0
Jitter = Option (ℕ → ℤ)

-- The loop of Backoff, with the number of doublings that are left.
unfoldable pub doubled : ℕ → ℕ → ℕ → ℕ
doubled zero delay maximum = delay
doubled (suc n) delay maximum =
    let rest = doubled n (delay * 2) maximum in
    if ltb delay maximum then (if ltb (maximum / 2) delay then maximum else rest) else delay

-- Backoff
unfoldable pub backoff : ℕ → ℕ → ℕ → Jitter → ℕ
unfolding doubled
backoff attempt base maximum jitter =
    let delay = min (doubled (max 1 attempt - 1) base maximum) maximum in
    elim jitter [
      | none ↦ delay
      | some scaled ↦
          (let jittered = scaled delay in
            if below jittered 0
            then 0
            else if above jittered maximum
            then maximum
            else to_nat jittered)
    ]

pub record Options : Type 0 where
  pub base_delay : ℕ
  pub max_delay : ℕ

pub data OptionsError : Type 0 where
  max_below_base : OptionsError

-- NewDispatcher's durations. The checks of nil arguments and of the jitter's range are left out.
unfoldable pub new_options : ℤ → ℤ → Result OptionsError Options
new_options base_delay max_delay = do
  let base : ℕ = if above base_delay 0 then to_nat base_delay else 1000000000
  let maximum : ℕ = if above max_delay 0 then to_nat max_delay else 60000000000
  reject_if (ltb maximum base) max_below_base
  ok (record { base_delay = base; max_delay = maximum })

-- The spool, and the two maps that Run keeps in its frame.
pub record Dispatcher : Type 0 where
  pub spool : Wal
  pub options : Options
  pub attempts : Map Bytes ℕ
  pub blocked_until : Map Bytes Time

-- Whether a block on a batch still stands.
unfoldable pub is_blocked : Map Bytes Time → Time → Commit → Bool
is_blocked until now c = elim (lookup c.batch_id until) [ none ↦ false | some t ↦ ltb now t ]

pub block_end : Map Bytes Time → Commit → Time
block_end until c = elim (lookup c.batch_id until) [ none ↦ 0 | some t ↦ t ]

-- The zero instant stands for no block seen yet.
earlier : Time → Time → Time
earlier earliest t = if nat_beq earliest 0 || ltb t earliest then t else earliest

-- The loop of nextPending: a batch to send, or how long to wait.
unfoldable pub search_pending : Map Bytes Time → Time → Time → List Commit → Option Commit × ℕ
unfolding is_blocked block_end earlier
search_pending until now earliest [] = (none, earliest - now)
search_pending until now earliest (c ∷ cs) =
    let rest = search_pending until now (earlier earliest (block_end until c)) cs in
    if is_blocked until now c then rest else (some c, 0)

unfoldable pub search_all : Map Bytes Time → Time → List Commit → Option Commit × ℕ
unfolding search_pending
search_all until now [] = (none, 0)
search_all until now (c ∷ cs) = search_pending until now 0 (c ∷ cs)

-- nextPending
unfoldable pub next_pending : Dispatcher → Time → Option Commit × ℕ
unfolding search_all
next_pending d now = elim d.blocked_until [
  | [] ↦ (peek d.spool, 0)
  | _ ∷ _ ↦ search_all d.blocked_until now (pending_batches d.spool)
]

pub data DispatchError : Type 0 where
  canceled : DispatchError
  ack_failed quarantine_failed : SpoolError → DispatchError
  terminal_result : Bytes → SendResult → DispatchError
  unknown_class : DispatchError

-- How a round ends: Run waits for a time or for the spool's channel, goes on, or returns.
pub data Round : Type 0 where
  waits : ℕ → Round
  goes_on : Round
  returns : DispatchError → Round

-- What the world does in a round.
pub record World : Type 0 where
  pub now : Time
  pub result : SendResult
  pub failed : Bool
  pub canceled : Bool
  pub canceled_later : Bool
  pub jitter : Jitter
  pub later : Time
  pub ack : AckIo
  pub append : AppendIo

pub attempts_of : Map Bytes ℕ → Bytes → ℕ
attempts_of m id = elim (lookup id m) [ none ↦ 0 | some n ↦ n ]

-- The delay before the next attempt: a Retry-After can only lengthen it, and the maximum bounds it.
unfoldable pub retry_delay : Options → ℕ → Jitter → ℕ → ℕ
unfolding backoff
retry_delay o attempt jitter retry_after =
    min (max (backoff attempt o.base_delay o.max_delay jitter) retry_after) o.max_delay

-- ResultRetryable and ResultBlocked
unfoldable pub postpone : Dispatcher → World → Bytes → Dispatcher
unfolding retry_delay attempts_of
postpone d a id =
    let attempt = attempts_of d.attempts id + 1 in
    record d {
      attempts = put id attempt d.attempts;
      blocked_until =
          put id (a.later + retry_delay d.options attempt a.jitter a.result.retry_after)
            d.blocked_until;
    }

unfoldable pub forget : Dispatcher → Wal → Bytes → Dispatcher
forget d w id = record d {
  spool = w;
  attempts = delete id d.attempts;
  blocked_until = delete id d.blocked_until;
}

unfoldable pub after_ack : Dispatcher → Bytes → Outcome (Unit {0}) → Dispatcher × Round
unfolding forget
after_ack d id (w, ok u) = (forget d w id, goes_on)
after_ack d id (w, err e) = (record d { spool = w }, returns (ack_failed e))

unfoldable pub after_quarantine : Dispatcher → Bytes → Outcome Quarantined → Dispatcher × Round
unfolding forget
after_quarantine d id (w, ok q) = (forget d w id, goes_on)
after_quarantine d id (w, err e) = (record d { spool = w }, returns (quarantine_failed e))

-- A transport that fails without a class leaves the batch for another attempt.
unfoldable pub effective_class : World → ResultClass
effective_class a = elim a.result.class [ unset ↦ if a.failed then retryable else unset | c ↦ c ]

-- The switch on the class of the result.
unfoldable pub settle : Json → Dispatcher → World → Commit → ResultClass → Dispatcher × Round
unfolding postpone after_ack after_quarantine
settle j d a c accepted = after_ack d c.batch_id (ack j d.spool c.batch_id a.canceled_later a.ack)
settle j d a c duplicate = after_ack d c.batch_id (ack j d.spool c.batch_id a.canceled_later a.ack)
settle j d a c retryable = (postpone d a c.batch_id, goes_on)
settle j d a c blocked = (postpone d a c.batch_id, goes_on)
settle j d a c ResultClass.quarantine = after_quarantine d c.batch_id (
    quarantine j d.spool c.batch_id (pos a.result.status_code) a.result.code a.later
      a.canceled_later a.append)
settle j d a c terminal = (d, returns (terminal_result c.batch_id a.result))
settle j d a c unset = (d, returns unknown_class)
settle j d a c (unknown n) = (d, returns unknown_class)

unfoldable pub send_next : Json → Dispatcher → World → Option Commit × ℕ → Dispatcher × Round
unfolding effective_class settle
send_next j d a (none, wait) = (d, waits wait)
send_next j d a (some c, wait) =
    if a.canceled then (d, returns DispatchError.canceled) else settle j d a c (effective_class a)

-- One round of Run's loop.
unfoldable pub round : Json → Dispatcher → World → Dispatcher × Round
unfolding next_pending send_next
round j d a = send_next j d a (next_pending d a.now)
