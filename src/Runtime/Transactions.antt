-- ===== src/Runtime/Transactions.antt =====
-- `DatasetTransaction` and `recover_orphan_transactions` of src/smoking_data/runtime/transactions.py: the
-- directories of one dataset, and every state of the disk that a commit passes through. A directory's
-- content is a value of the parameter `D`; the writing of the manifest into the staging directory is
-- `seal`, and the comparison of checksums `verify`.
pub mod Atomic
pub mod Recovery
mod Examples
use smoking_data.Prelude.{
  String, Bool, true, false, not, ◌&&◌, Option, none, some, List, [], ◌∷◌, if◌then◌else◌, str_eq,
  is_empty,
}
use smoking_data.Prelude.Sort.{sort}

abbrev pub Directories : Type 0 → Type 0
Directories D = List (String × D)

-- The dataset's directory, and the hidden ones beside it: `.txn-<id>`, `.backup-<id>` and `.copy-<id>`.
pub record Disk (D : Type 0) : Type 0 where
  pub final : Option D
  pub staging : Directories D
  pub backups : Directories D
  pub copies : Directories D

-- `os.replace(self.staging_root, self.final_root)`
pub data Install : Type 0 where
  renamed cross_device io_error : Install

-- `shutil.copytree`
pub data Copy (D : Type 0) : Type 0 where
  copied : D → Copy D
  copy_error : Copy D

-- What the file system does in a commit: which calls raise, what a copy holds halfway and at its end. A
-- call that raises changes nothing, but for a failed copy.
pub record Faults (D : Type 0) : Type 0 where
  pub backup_raises : Bool
  pub install : Install
  pub restore_raises : Bool
  pub copy_reset_raises : Bool
  pub copy_id : String
  pub halfway : D
  pub copy : Copy D
  pub copy_removal_raises : Bool
  pub swap_raises : Bool
  pub source_removal_raises : Bool
  pub backup_removal_raises : Bool

pub record AbortFaults : Type 0 where
  pub staging_removal_raises : Bool
  pub restore_raises : Bool
  pub backup_removal_raises : Bool

pub data CommitMode : Type 0 where
  same_filesystem_atomic_replace cross_filesystem_copy_verify_swap : CommitMode

pub data Outcome : Type 0 where
  committed : CommitMode → Outcome
  raised : Outcome

-- The states of the disk that a run passes through, what it ends in, and the disk at its end.
pub record Run (D : Type 0) : Type 0 where
  pub visited : List (Disk D)
  pub outcome : Outcome
  pub disk : Disk D

-- What an abort ends in, with the disk at its end.
pub data Abort (D : Type 0) : Type 0 where
  aborted abort_raised : Disk D → Abort D

module _ {D : Type 0} where
  -- `reset_path`
  unfoldable pub remove : String → Directories D → Directories D
  remove x [] = []
  remove x ((y, c) ∷ ds) = let rest = remove x ds in if str_eq y x then rest else (y, c) ∷ rest

  unfoldable pub find : String → Directories D → Option D
  find x [] = none
  find x ((y, c) ∷ ds) = let later = find x ds in if str_eq y x then some c else later

  abbrev pub after : Disk D → Run D → Run D
  after d r = record { visited = d ∷ r.visited; outcome = r.outcome; disk = r.disk }

  abbrev pub ends : Outcome → Disk D → Run D
  ends o d = record { visited = d ∷ []; outcome = o; disk = d }

  -- `DatasetTransaction.create` with the id of the transaction.
  unfoldable pub create : D → String → Disk D → Disk D
  unfolding remove
  create empty id d = record d { staging = (id, empty) ∷ remove id d.staging }

  -- The dataset's directory gets its backup's name.
  abbrev pub to_backup : String → D → Disk D → Disk D
  to_backup id old d = record d { final = none; backups = (id, old) ∷ d.backups }

  abbrev pub without_backup : String → Disk D → Disk D
  without_backup id d = record d { backups = remove id d.backups }

  -- `os.replace(self.backup_root, self.final_root)`
  abbrev pub from_backup : String → D → Disk D → Disk D
  from_backup id old d = record d { final = some old; backups = remove id d.backups }

  abbrev pub restore_to : Option D → Option D → String → Disk D → Disk D
  restore_to none (some old) id d = from_backup id old d
  restore_to _ _ id d = d

  -- The handler of `commit`: the backup comes back if the dataset's directory is missing. The first
  -- argument tells whether the `os.replace` that brings it back raises.
  unfoldable pub restore : Bool → Bool → String → Disk D → Disk D
  unfolding find remove
  restore true moved id d = d
  restore false false id d = d
  restore false true id d = restore_to d.final (find id d.backups) id d

  abbrev pub fails : Faults D → Bool → String → Disk D → Run D
  fails faults moved id d = after d (ends raised (restore faults.restore_raises moved id d))

  -- The last step of a commit, `reset_path(self.backup_root)`.
  abbrev pub finishes : Faults D → String → CommitMode → Disk D → Run D
  finishes faults id mode d =
      if faults.backup_removal_raises
      then ends raised d
      else after d (ends (committed mode) (without_backup id d))

  abbrev pub with_copy : Faults D → D → Disk D → Disk D
  with_copy faults c d = record d { copies = (faults.copy_id, c) ∷ remove faults.copy_id d.copies }

  abbrev pub without_copy : Faults D → Disk D → Disk D
  without_copy faults d = record d { copies = remove faults.copy_id d.copies }

  -- `reset_path(swap)` in the handler of `_copy_verify_swap`.
  abbrev pub clear_copy : Faults D → Disk D → Disk D
  clear_copy faults d = if faults.copy_removal_raises then d else without_copy faults d

  module _ (verify : D → D → Bool) (faults : Faults D) (id : String) (moved : Bool)
      (sealed : D) where
    -- The copy gets the dataset's name, and the staging directory is removed.
    unfoldable pub swap_copy : D → Disk D → Run D
    unfolding remove restore
    swap_copy c d =
        let swapped = record (without_copy faults d) { final = some c } in
        let removed = record swapped { staging = remove id d.staging } in
        if faults.swap_raises
        then fails faults moved id (clear_copy faults d)
        else if faults.source_removal_raises
        then after swapped (ends raised swapped)
        else after swapped (finishes faults id cross_filesystem_copy_verify_swap removed)

    unfoldable pub verify_copy : Copy D → Disk D → Run D
    unfolding swap_copy
    verify_copy copy_error d = fails faults moved id (clear_copy faults d)
    verify_copy (copied c) d = after (with_copy faults c d) (
        if verify c sealed
        then swap_copy c (with_copy faults c d)
        else fails faults moved id (clear_copy faults (with_copy faults c d)))

    -- `_copy_verify_swap`
    unfoldable pub copy_verify_swap : Disk D → Run D
    unfolding verify_copy
    copy_verify_swap d =
        let started = with_copy faults faults.halfway (without_copy faults d) in
        if faults.copy_reset_raises
        then fails faults moved id d
        else after started (verify_copy faults.copy started)

    unfoldable pub install_staging : Install → Disk D → Run D
    unfolding copy_verify_swap
    install_staging renamed d =
        finishes faults id same_filesystem_atomic_replace
          (record d { final = some sealed; staging = remove id d.staging })
    install_staging io_error d = fails faults moved id d
    install_staging cross_device d = after d (copy_verify_swap d)

  module _ (verify : D → D → Bool) (seal : Option D → D → Option D) where
    unfoldable pub commit_sealed : Faults D → String → D → Option D → Disk D → Run D
    unfolding install_staging
    commit_sealed faults id sealed none d =
        after d (install_staging verify faults id false sealed faults.install d)
    commit_sealed faults id sealed (some old) d =
        if faults.backup_raises
        then ends raised d
        else after d (
            after (to_backup id old d)
              (install_staging verify faults id true sealed faults.install (to_backup id old d)))

    abbrev pub with_sealed : String → D → Disk D → Disk D
    with_sealed id sealed d = record d { staging = (id, sealed) ∷ remove id d.staging }

    abbrev pub commit_content : Faults D → String → Option D → Disk D → Run D
    commit_content faults id none d = ends raised d
    commit_content faults id (some sealed) d =
        after d (commit_sealed faults id sealed d.final (with_sealed id sealed d))

    abbrev pub seal_content : Option D → Option D → Option D
    seal_content previous none = none
    seal_content previous (some content) = seal previous content

    -- `DatasetTransaction.commit`; a `seal` that gives nothing is an invalid part.
    unfoldable pub commit : Faults D → String → Disk D → Run D
    unfolding commit_sealed find
    commit faults id d = commit_content faults id (seal_content d.final (find id d.staging)) d

  abbrev pub abort_backup : AbortFaults → Option D → Option D → String → Disk D → Abort D
  abort_backup faults none (some old) id d =
      if faults.restore_raises then abort_raised d else aborted (from_backup id old d)
  abort_backup faults _ _ id d =
      if faults.backup_removal_raises then abort_raised d else aborted (without_backup id d)

  -- `DatasetTransaction.abort`
  unfoldable pub abort : AbortFaults → String → Disk D → Abort D
  unfolding find remove
  abort faults id d =
      if faults.staging_removal_raises
      then abort_raised d
      else abort_backup faults d.final (find id d.backups) id
          (record d { staging = remove id d.staging })

  -- `backups[-1]`
  unfoldable pub last : Directories D → Option D
  last [] = none
  last ((x, c) ∷ []) = some c
  last ((x, c) ∷ d ∷ ds) = last (d ∷ ds)

  abbrev pub or_last : Option D → Option D → Option D
  or_last (some c) backup = some c
  or_last none backup = backup

  -- `recover_orphan_transactions`, with the order of the backups' names.
  unfoldable pub recover : (String → String → Bool) → Disk D → Disk D
  unfolding last
  recover before d = record {
    final = or_last d.final (last (sort (λ a b. before a.0 b.0) d.backups));
    staging = [];
    backups = [];
    copies = d.copies;
  }
