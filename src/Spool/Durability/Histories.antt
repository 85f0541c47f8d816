-- ===== src/Spool/Durability/Histories.antt =====
-- The life of a log: what callers do with it, crashes, and what Open finds afterwards.
use gline.Base.{
  ℕ, ℤ, ◌^◌, ◌<◌, ◌≡◌, refl, sym, ap, ◌∙◌, subst, Bool, true, false, Option, Bytes, [], ◌++◌,
  length, take, take-append-length, is_blank, trim_space, ok, ok_inj, Result-cases, inl, inr, arith,
}
use gline.Spool.Model.{Time, Checkpoint, Commit, Wal, empty_index}
use gline.Spool.Codec.{Json, RoundTrips}
use gline.Spool.File.{AppendIo}
use gline.Spool.Index.Sameness.{Same, Same-refl}
use gline.Spool.Recover.{Recovered, recover, frames, replay}
use gline.Spool.Recover.Scanning.{IsTail, scan-nil}
use gline.Spool.Recover.Replays.{recover-frames}
use gline.Spool.Index.Validity.{IsValid, IsValid-empty}
use gline.Spool.Operations.{
  Config, OpenIo, AckIo, open_wal, opened, positive_or, default_max_bytes, default_max_record_bytes,
  commit, ack, transition, quarantine, close,
}
use gline.Spool.Durability.{IsDurable, IsClean}
use gline.Spool.Durability.Calls.{
  LeavesFile, AckFits, MoveFits, QuarantineFits, commit-IsDurable, ack-IsDurable,
  transition-IsDurable, quarantine-IsDurable, close-IsDurable,
}

-- A call of a method that changes the log, with what the file system does in it.
pub data Call : Type 0 where
  commits : Commit → Bool → AppendIo → Call
  acks : Bytes → Bool → AckIo → Call
  moves : Option Checkpoint → Checkpoint → Bool → AppendIo → Call
  parks : Bytes → ℤ → Bytes → Time → Bool → AppendIo → Call
  closes : Call

-- The log behind a call, whatever the call returned.
abbrev pub after : Json → Call → Wal → Wal
after j (commits c stop io) w = (commit j w c stop io).0
after j (acks id stop io) w = (ack j w id stop io).0
after j (moves expected next stop io) w = (transition j w expected next stop io).0
after j (parks id code error_code at stop io) w = (quarantine j w id code error_code at stop io).0
after j closes w = close w

module _ (j : Json) (c : Config) (back : RoundTrips j) where
  -- The longest record that Open accepts.
  abbrev pub limit_of : ℕ
  limit_of = positive_or c.max_record_bytes default_max_record_bytes

  -- Arguments that JSON keeps, a record within the limit, and appends that are whole or cut off again.
  abbrev pub IsSound : Call → Type 0
  IsSound (commits batch stop io) = (j.is_plain batch ≡ true) × IsClean io
  IsSound (acks id stop io) =
      (j.is_text id ≡ true) × AckFits j limit_of id × IsClean io.append × LeavesFile io.compact
  IsSound (moves expected next stop io) =
      (j.is_plain_checkpoint next ≡ true) × MoveFits j limit_of back next × IsClean io
  IsSound (parks id code error_code at stop io) =
      (j.is_text id ≡ true)
      × (j.is_text (trim_space error_code) ≡ true)
      × QuarantineFits j limit_of back (record {
        batch_id = id;
        http_code = code;
        error_code = trim_space error_code;
        quarantined_at = at;
      })
      × IsClean io
  IsSound closes = Unit

  -- From a log, by any number of sound calls and of crashes, after which the file has a torn tail or
  -- none, and is opened again.
  pub data Lives (start : Wal) : Wal → Type 0 where
    stays : Lives start start
    calls : {w : Wal} → Lives start w → (m : Call) → IsSound m → Lives start (after j m w)
    reopens :
        {w : Wal}
        → Lives start w
        → (tail : Bytes) → IsTail limit_of tail
        → (io : OpenIo) (w' : Wal) → open_wal j c io (w.file ++ tail) ≡ ok w'
        → Lives start w'

  after-IsDurable :
      (m : Call) (w : Wal) → IsDurable j limit_of w → IsSound m → IsDurable j limit_of (after j m w)
  after-IsDurable (commits b stop io) w d (plain, clean) =
      commit-IsDurable j limit_of back w b stop io d plain clean
  after-IsDurable (acks id stop io) w d (text, fits, clean, leaves) =
      ack-IsDurable j limit_of back w id stop io d text fits clean leaves
  after-IsDurable (moves expected next stop io) w d (plain, fits, clean) =
      transition-IsDurable j limit_of back w expected next stop io d plain fits clean
  after-IsDurable (parks id code error_code at stop io) w d (text, error_text, fits, clean) =
      quarantine-IsDurable j limit_of back w id code error_code at stop io d text error_text fits
        clean
  after-IsDurable closes w d s = close-IsDurable j limit_of back w d

  open_wal-ok :
      (io : OpenIo) (file : Bytes) (w : Wal)
      → open_wal j c io file ≡ ok w
      → (r : Recovered) × (recover j limit_of file empty_index ≡ ok r)
        × (w.file ≡ take r.end file)
        × (w.index ≡ r.index)
        × (w.max_record_bytes ≡ limit_of)
        × (limit_of < 2 ^ 32)
  unfolding open_wal opened
  open_wal-ok io file w h = elim (Result-cases (recover j limit_of file empty_index)) [
    | inl (r, recovers) ↦ (
      r,
      recovers,
      ground (arith, h, recovers),
      ground (arith, h, recovers),
      ground (arith, h, recovers),
      ground (arith, h, recovers),
    )
    | inr (e, failed) ↦ absurd (ground (arith, h, failed))
  ]

  -- Open of a file that works: what it finds.
  open_wal-works :
      (io : OpenIo) (file : Bytes) (r : Recovered)
      → is_blank c.path ≡ false
      → limit_of < 2 ^ 32
      → io.prepared ≡ true
      → io.truncates ≡ true
      → io.seeks ≡ true
      → recover j limit_of file empty_index ≡ ok r
      → (w : Wal) × (open_wal j c io file ≡ ok w)
  unfolding open_wal opened
  open_wal-works io file r path short prepared truncates seeks recovers = (
    record {
      file = take r.end file;
      max_bytes = positive_or c.max_bytes default_max_bytes;
      max_record_bytes = limit_of;
      closed = false;
      index = r.index;
      signalled = false;
    },
    ground (arith, path, short, prepared, truncates, seeks, recovers),
  )

  recovers_frames :
      (w : Wal) (tail : Bytes) (d : IsDurable j limit_of w)
      → IsTail limit_of tail
      → recover j limit_of (w.file ++ tail) empty_index
        ≡ ok (record { index = d.replayed; end = length (frames d.records) })
  recovers_frames w tail d cut =
      ap (λ f. recover j limit_of (f ++ tail) empty_index) d.on_disk
      ∙ recover-frames j limit_of d.records tail empty_index d.replayed d.fit cut d.replays

  recovers_nothing :
      recover j limit_of [] empty_index ≡ ok (record { index = empty_index; end = 0 })
  unfolding replay frames
  recovers_nothing =
      recover-frames j limit_of [] [] empty_index empty_index tt (inl (scan-nil limit_of)) refl

  -- What Open makes of a durable log's file.
  open-IsDurable :
      (w : Wal) (tail : Bytes) (io : OpenIo) (w' : Wal)
      → IsDurable j limit_of w
      → IsTail limit_of tail
      → open_wal j c io (w.file ++ tail) ≡ ok w'
      → IsDurable j limit_of w' × Same w.index w'.index × (w'.file ≡ w.file)
  open-IsDurable w tail io w' d cut h =
      let recovers = recovers_frames w tail d cut in
      let (r, found, file, index, limit, short) = open_wal-ok io (w.file ++ tail) w' h in
      let same_r : record { index = d.replayed; end = length (frames d.records) } ≡ r =
        ok_inj (sym recovers ∙ found) in
      let index' : d.replayed ≡ w'.index = ap (λ x. x.index) same_r ∙ sym index in
      let file' : w'.file ≡ w.file =
        file
        ∙ ap (λ x. take x.end (w.file ++ tail)) (sym same_r)
        ∙ ap (λ f. take (length f) (w.file ++ tail)) (sym d.on_disk)
        ∙ take-append-length w.file tail in
      (
        record {
          limit_kept = limit;
          limit_short = short;
          records = d.records;
          replayed = d.replayed;
          on_disk = file' ∙ d.on_disk;
          fit = d.fit;
          replays = d.replays;
          same = subst (λ x. Same x d.replayed) index' (Same-refl d.replayed);
          valid = subst IsValid index' d.valid_replayed;
          valid_replayed = d.valid_replayed;
        },
        subst (λ x. Same w.index x) index' d.same,
        file',
      )

  open_empty : (io : OpenIo) (w : Wal) → open_wal j c io [] ≡ ok w → IsDurable j limit_of w
  unfolding frames replay recover
  open_empty io w h =
      let (r, found, file, index, limit, short) = open_wal-ok io [] w h in
      let same_r : record { index = empty_index; end = 0 } ≡ r =
        ok_inj (sym recovers_nothing ∙ found) in
      let index' : empty_index ≡ w.index = ap (λ x. x.index) same_r ∙ sym index in
      record {
        limit_kept = limit;
        limit_short = short;
        records = [];
        replayed = empty_index;
        on_disk = file ∙ ap (λ x. take x.end []) (sym same_r);
        fit = tt;
        replays = refl;
        same = subst (λ x. Same x empty_index) index' (Same-refl empty_index);
        valid = subst IsValid index' IsValid-empty;
        valid_replayed = IsValid-empty;
      }

  Lives-IsDurable :
      (start w : Wal) → IsDurable j limit_of start → Lives start w → IsDurable j limit_of w
  Lives-IsDurable start w d stays = d
  Lives-IsDurable start w d (calls {w = v} before m sound) =
      after-IsDurable m v (Lives-IsDurable start v d before) sound
  Lives-IsDurable start w d (reopens {w = v} before tail cut io w' opens) =
      (open-IsDurable v tail io w (Lives-IsDurable start v d before) cut opens).0

  -- Open on an empty file, and then any history of calls to Commit, Ack, Transition, Quarantine and
  -- Close, with arguments that JSON keeps, records within the limit, appends that are whole or cut off
  -- again and no swap by a compaction, and of crashes that leave a torn tail, each with an Open behind
  -- it. Whenever the process stops then, with a torn tail or without, Open succeeds if the file system
  -- does its part, on the file without the tail, and shows the same batches, quarantined batches,
  -- checkpoints and byte count as the maps in memory did.
  pub reopen_durable :
      (io io' : OpenIo) (start w : Wal) (tail : Bytes)
      → is_blank c.path ≡ false
      → open_wal j c io [] ≡ ok start
      → Lives start w
      → IsTail limit_of tail
      → io'.prepared ≡ true
      → io'.truncates ≡ true
      → io'.seeks ≡ true
      → (again : Wal) × (open_wal j c io' (w.file ++ tail) ≡ ok again)
        × Same w.index again.index
        × (again.file ≡ w.file)
  reopen_durable io io' start w tail path opens reached cut prepared truncates seeks =
      let d = Lives-IsDurable start w (open_empty io start opens) reached in
      let (again, works) =
        open_wal-works io' (w.file ++ tail) _ path d.limit_short prepared truncates seeks
          (recovers_frames w tail d cut) in
      let (durable, same, file) = open-IsDurable w tail io' again d cut works in
      (again, works, same, file)
