-- ===== src/Spool/Index/Changes.antt =====
-- The four changes of the maps as one abstract machine, which the running log and recovery both
-- follow: what each change requires, and what it makes of the maps.
use gline.Base.{ℕ, ◌≡◌, true, false, some, Bytes, has, lookup, bytes_eq}
use gline.Spool.Model.{Index, Commit, Quarantined, Checkpoint}
use gline.Spool.Index.{apply_commit, apply_quarantine, remove_active, set_checkpoint, is_active}

pub data Change : Type 0 where
  commits : Commit → ℕ → Change
  acks : Bytes → Change
  quarantines : Quarantined → Change
  moves : Checkpoint → Change

abbrev pub Allowed : Change → Index → Type 0
Allowed (commits c n) idx = has c.batch_id idx.seen ≡ false
Allowed (acks id) idx = is_active id idx ≡ true
Allowed (quarantines q) idx = lookup q.commit.batch_id idx.pending ≡ some q.commit
Allowed (moves c) idx = Unit {0}

abbrev pub change : Change → Index → Index
change (commits c n) = apply_commit c n
change (acks id) = remove_active id
change (quarantines q) = apply_quarantine q
change (moves c) = set_checkpoint c
