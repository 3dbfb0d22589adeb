-- ===== src/Runtime/Transactions/Recovery.antt =====
-- What `recover_orphan_transactions` makes of a disk that a crash left, and what `abort` leaves.
use smoking_data.Prelude.{
  ◌≡◌, ◌≢◌, refl, sym, ap, ◌∙◌, if-elim, if◌then◌else◌, subst, String, Bool, Option, none, some, [],
  ◌∷◌, arith, All, All-map, ◌⊎◌, inl, inr,
}
use smoking_data.Prelude.Sort.{sort}
use smoking_data.Runtime.Transactions.{
  Directories, Disk, Faults, find, or_last, last, recover, seal_content, commit, remove, abort,
  abort_backup, raised, AbortFaults, Abort, aborted, abort_raised, without_backup, from_backup,
}
use smoking_data.Runtime.Transactions.Atomic.{
  IsNew, sealed_content, verified_copy, saved, IsKept, old_kept, new_kept, away, IsEnded,
  commit-IsAtomic, find-saved, IsEnded-IsKept,
}

module _ {D : Type 0} (before : String → String → Bool) (verify : D → D → Bool) (id : String) where
  -- The dataset is the old one or the new one, and no staging directory and no backup is left.
  pub record IsRecovered (old sealed : Option D) (d : Disk D) : Type 0 where
    pub generation : (d.final ≡ old) ⊎ IsNew verify id old sealed d.final
    pub no_staging : d.staging ≡ []
    pub no_backups : d.backups ≡ []

  abbrev newest : Directories D → Option D
  newest backups = last (sort (λ a b. before a.0 b.0) backups)

  newest-saved : (old sealed : Option D) → newest (saved verify id old sealed old) ≡ old
  unfolding last
  newest-saved none sealed = refl
  newest-saved (some c) sealed = refl

  or_last-IsNew :
      (old sealed : Option D) (final backup : Option D)
      → IsNew verify id old sealed final
      → IsNew verify id old sealed (or_last final backup)
  or_last-IsNew old sealed _ backup (sealed_content c e) = sealed_content c e
  or_last-IsNew old sealed _ backup (verified_copy x c e same) = verified_copy x c e same

  or_last-old : (final backup : Option D) → backup ≡ none → or_last final backup ≡ final
  or_last-old none backup e = e
  or_last-old (some c) backup e = refl

  IsKept-IsRecovered :
      (old sealed : Option D) (d : Disk D)
      → IsKept verify id old sealed d
      → IsRecovered old sealed (recover before d)
  unfolding recover last
  IsKept-IsRecovered old sealed d (old_kept e b) = record {
    generation = inl (or_last-old d.final _ (ap newest b) ∙ e);
    no_staging = refl;
    no_backups = refl;
  }
  IsKept-IsRecovered old sealed d (new_kept n) = record {
    generation = inr (or_last-IsNew old sealed d.final _ n);
    no_staging = refl;
    no_backups = refl;
  }
  IsKept-IsRecovered old sealed d (away m b) = record {
    generation =
        inl (ap (λ f. or_last f (newest d.backups)) m ∙ ap newest b ∙ newest-saved old sealed);
    no_staging = refl;
    no_backups = refl;
  }

  -- A crash in any state that a commit on a disk without backups passes through, whichever calls of the
  -- commit raise, loses no dataset: a recovery that runs to its end gives the old one or the new one, and
  -- leaves no staging directory and no backup.
  pub recover-commit :
      (seal : Option D → D → Option D) (faults : Faults D) (d : Disk D)
      → d.backups ≡ []
      → All
          (λ s.
            IsRecovered d.final
              (seal_content verify seal d.final (find id d.staging))
              (recover before s))
          (commit verify seal faults id d).visited
  recover-commit seal faults d b =
      All-map _ _ (λ s kept. IsKept-IsRecovered d.final _ s kept)
        ((commit-IsAtomic verify seal faults id d b).kept)

module _ {D : Type 0} (id : String) (verify : D → D → Bool) (old sealed : Option D) where
  find-remove_self : (ds : Directories D) → find id (remove id ds) ≡ none
  unfolding find remove
  find-remove_self [] = refl
  find-remove_self ((x, c) ∷ ds) = ground (arith, find-remove_self ds)

  IsNew-ne-none : (final : Option D) → IsNew verify id old sealed final → final ≢ none
  IsNew-ne-none _ (sealed_content c e) = cc
  IsNew-ne-none _ (verified_copy x c e same) = cc

  -- An abort that returns leaves the old dataset or the new one, and no staging directory and no backup of
  -- the transaction; one that raises leaves the old one, the new one, or the old one as the only backup.
  pub data IsAborted : Abort D → Type 0 where
    cleared :
        (d : Disk D)
        → (d.final ≡ old) ⊎ IsNew verify id old sealed d.final
        → find id d.staging ≡ none
        → find id d.backups ≡ none
        → IsAborted (aborted d)
    incomplete : (d : Disk D) → IsKept verify id old sealed d → IsAborted (abort_raised d)

  backup-IsKept :
      (d : Disk D) (c : D)
      → d.final ≡ none
      → find id d.backups ≡ some c
      → IsKept verify id old sealed d
      → some c ≡ old
  unfolding find
  backup-IsKept d c m f (old_kept e b) =
      let none_found : find id d.backups ≡ none = ap (λ l. find id l) b in absurd (ground arith)
  backup-IsKept d c m f (new_kept n) = absurd (IsNew-ne-none d.final n m)
  backup-IsKept d c m f (away _ b) =
      sym f ∙ ap (λ l. find id l) b ∙ find-saved verify id old sealed old

  generation-IsKept :
      (d : Disk D)
      → (d.final ≡ none → find id d.backups ≡ none)
      → IsKept verify id old sealed d
      → (d.final ≡ old) ⊎ IsNew verify id old sealed d.final
  generation-IsKept d h (old_kept e b) = inl e
  generation-IsKept d h (new_kept n) = inr n
  generation-IsKept d h (away m b) =
      inl (m ∙ sym (h m) ∙ ap (λ l. find id l) b ∙ find-saved verify id old sealed old)

  discards-IsAborted :
      (faults : AbortFaults) (d : Disk D)
      → (d.final ≡ none → find id d.backups ≡ none)
      → find id d.staging ≡ none
      → IsKept verify id old sealed d
      → IsAborted
          (if faults.backup_removal_raises then abort_raised d else aborted (without_backup id d))
  discards-IsAborted faults d h s k =
      if-elim IsAborted faults.backup_removal_raises _ _ (incomplete d k)
        (cleared (without_backup id d) (generation-IsKept d h k) s (find-remove_self d.backups))

  abort_backup-IsAborted :
      (faults : AbortFaults) (d : Disk D) (final backup : Option D)
      → d.final ≡ final
      → find id d.backups ≡ backup
      → find id d.staging ≡ none
      → IsKept verify id old sealed d
      → IsAborted (abort_backup faults final backup id d)
  abort_backup-IsAborted faults d none (some c) m f s k =
      if-elim IsAborted faults.restore_raises _ _ (incomplete d k) (
        cleared (from_backup id c d) (inl (backup-IsKept d c m f k)) s (find-remove_self d.backups))
  abort_backup-IsAborted faults d none none m f s k = discards-IsAborted faults d (λ _. f) s k
  abort_backup-IsAborted faults d (some c) backup m f s k =
      discards-IsAborted faults d (λ e. absurd (ground arith)) s k

  without_staging-IsKept :
      (d : Disk D)
      → IsKept verify id old sealed d
      → IsKept verify id old sealed (record d { staging = remove id d.staging })
  without_staging-IsKept d (old_kept e b) = old_kept e b
  without_staging-IsKept d (new_kept n) = new_kept n
  without_staging-IsKept d (away m b) = away m b

  abort-IsAborted :
      (faults : AbortFaults) (d : Disk D)
      → IsKept verify id old sealed d
      → IsAborted (abort faults id d)
  unfolding abort
  abort-IsAborted faults d k =
      if-elim IsAborted faults.staging_removal_raises _ _ (incomplete d k) (
        abort_backup-IsAborted faults _ d.final (find id d.backups) refl refl
          (find-remove_self d.staging) (without_staging-IsKept d k))

-- After a commit on a disk without backups that raises, whichever calls raise in it, an abort that returns
-- leaves the old dataset or the new one, and no staging directory and no backup of the transaction; an
-- abort that raises leaves the old one, the new one, or the dataset away with the old one as the only
-- backup.
pub abort-commit :
    {D : Type 0} (verify : D → D → Bool) (seal : Option D → D → Option D) (faults : Faults D)
    (abort_faults : AbortFaults) (id : String) (d : Disk D)
    → d.backups ≡ []
    → (commit verify seal faults id d).outcome ≡ raised
    → IsAborted id verify d.final
        (seal_content verify seal d.final (find id d.staging))
        (abort abort_faults id (commit verify seal faults id d).disk)
abort-commit verify seal faults abort_faults id d b r =
    let ended =
      subst
        (IsEnded verify id d.final _ faults.restore_raises (commit verify seal faults id d).disk) r
        ((commit-IsAtomic verify seal faults id d b).ended) in
    abort-IsAborted id verify d.final _ abort_faults (commit verify seal faults id d).disk
      (IsEnded-IsKept verify id d.final _ faults.restore_raises _ ended)
