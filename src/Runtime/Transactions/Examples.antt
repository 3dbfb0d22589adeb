-- ===== src/Runtime/Transactions/Examples.antt =====
-- A commit across file systems on concrete contents.
use smoking_data.Prelude.{
  ◌≡◌, refl, String, true, false, Option, none, some, [], ◌∷◌, str_eq, All, if◌then◌else◌,
}
use smoking_data.Runtime.Transactions.{
  Disk, cross_device, copied, copy_error, Copy, Faults, AbortFaults, aborted, raised, find,
  seal_content, commit, recover, abort,
}
use smoking_data.Runtime.Transactions.Atomic.{IsAtomic, commit-IsAtomic}
use smoking_data.Runtime.Transactions.Recovery.{
  IsRecovered, recover-commit, IsAborted, abort-commit,
}

abbrev seal : Option String → String → Option String
seal previous content = if str_eq content "" then none else some content

abbrev disk : Disk String
disk = record { final = some "old"; staging = ("t", "new") ∷ []; backups = []; copies = [] }

abbrev faults : Copy String → Faults String
faults copy = record {
  backup_raises = false;
  install = cross_device;
  restore_raises = true;
  copy_reset_raises = false;
  copy_id = "c";
  halfway = "ne";
  copy = copy;
  copy_removal_raises = false;
  swap_raises = false;
  source_removal_raises = false;
  backup_removal_raises = false;
}

program : Unit {0}
unfolding commit find recover abort
program = tt

copied_well : (commit str_eq seal (faults (copied "new")) "t" disk).disk.final ≡ some "new"
unfolding program
copied_well = refl

restored :
    (commit str_eq seal
      (record (faults (copied "nex")) { restore_raises = false })
      "t"
      disk).disk.final
    ≡ some "old"
unfolding program
restored = refl

not_restored : (commit str_eq seal (faults (copied "nex")) "t" disk).disk.final ≡ none
unfolding program
not_restored = refl

abbrev no_faults : AbortFaults
no_faults = record {
  staging_removal_raises = false;
  restore_raises = false;
  backup_removal_raises = false;
}

restored_by_abort :
    abort no_faults "t" (commit str_eq seal (faults (copied "nex")) "t" disk).disk
    ≡ aborted (record { final = some "old"; staging = []; backups = []; copies = [] })
unfolding program
restored_by_abort = refl

commit-IsAtomic_example :
    IsAtomic str_eq "t"
      (some "old")
      (seal_content str_eq seal (disk.final) (find "t" (disk.staging)))
      true
      (commit str_eq seal (faults copy_error) "t" disk)
commit-IsAtomic_example = commit-IsAtomic str_eq seal (faults copy_error) "t" disk refl

recover-commit_example :
    All
      (λ s.
        IsRecovered
          (λ a b. true)
          str_eq
          "t"
          (some "old")
          (seal_content str_eq seal (disk.final) (find "t" (disk.staging)))
          (recover (λ a b. true) s))
      (commit str_eq seal (faults copy_error) "t" disk).visited
recover-commit_example = recover-commit (λ a b. true) str_eq "t" seal (faults copy_error) disk refl

commit-raises : (commit str_eq seal (faults copy_error) "t" disk).outcome ≡ raised
unfolding program
commit-raises = refl

abort-commit_example :
    IsAborted "t" str_eq
      (some "old")
      (seal_content str_eq seal (disk.final) (find "t" (disk.staging)))
      (abort no_faults "t" (commit str_eq seal (faults copy_error) "t" disk).disk)
abort-commit_example =
    abort-commit str_eq seal (faults copy_error) no_faults "t" disk refl commit-raises
