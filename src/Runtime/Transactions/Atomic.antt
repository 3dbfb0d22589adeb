-- ===== src/Runtime/Transactions/Atomic.antt =====
-- What the disk holds while a commit runs, and when it ends.
use smoking_data.Prelude.{
  ◌≡◌, refl, sym, ap, ◌∙◌, if-elim, String, Bool, true, false, Option, none, some, [], ◌∷◌, arith,
  eq_iff, All, Bool-cases, ◌⊎◌, inl, inr,
}
use smoking_data.Runtime.Transactions.{
  Directories, Disk, Install, renamed, cross_device, io_error, Copy, copied, copy_error, Faults,
  CommitMode, cross_filesystem_copy_verify_swap, Outcome, committed, raised, Run, remove, find,
  after, ends, to_backup, without_backup, restore_to, restore, fails, finishes, with_copy,
  without_copy, clear_copy, swap_copy, verify_copy, copy_verify_swap, install_staging,
  commit_sealed, with_sealed, commit_content, seal_content, commit,
}

module _ {D : Type 0} (verify : D → D → Bool) (id : String) (old sealed : Option D) where
  -- The sealed content, or a copy of it whose checksums were verified.
  pub data IsNew : Option D → Type 0 where
    sealed_content : (content : D) → sealed ≡ some content → IsNew (some content)
    verified_copy :
        (content c : D) → sealed ≡ some content → verify c content ≡ true → IsNew (some c)

  -- The backups that a commit makes.
  abbrev pub saved : Option D → Directories D
  saved none = []
  saved (some content) = (id, content) ∷ []

  -- The dataset is the old one, the new one, or away with the old one as the only backup.
  pub data IsKept (d : Disk D) : Type 0 where
    old_kept : d.final ≡ old → d.backups ≡ [] → IsKept d
    new_kept : IsNew d.final → IsKept d
    away : d.final ≡ none → d.backups ≡ saved old → IsKept d

  -- After a commit that succeeds the dataset is the new one, and no backup is left; after one that
  -- raises it is the old one, with no backup left, or the new one, or, where also the call that restores
  -- the old one raised, away with the old one as the only backup.
  pub data IsEnded (restore_raises : Bool) (d : Disk D) : Outcome → Type 0 where
    success :
        (mode : CommitMode)
        → IsNew d.final
        → d.backups ≡ []
        → IsEnded restore_raises d (committed mode)
    rolled_back : d.final ≡ old → d.backups ≡ [] → IsEnded restore_raises d raised
    installed : IsNew d.final → IsEnded restore_raises d raised
    stranded :
        restore_raises ≡ true
        → d.final ≡ none
        → d.backups ≡ saved old
        → IsEnded restore_raises d raised

  pub record IsAtomic (restore_raises : Bool) (r : Run D) : Type 0 where
    pub kept : All IsKept r.visited
    pub ended : IsEnded restore_raises r.disk r.outcome

  after-IsAtomic :
      {restore_raises : Bool} (d : Disk D) (r : Run D)
      → IsKept d
      → IsAtomic restore_raises r
      → IsAtomic restore_raises (after d r)
  after-IsAtomic d r k h = record { kept = (k, h.kept); ended = h.ended }

  -- The dataset is away, and its backup is there if there was one.
  record IsAway (moved : Bool) (d : Disk D) : Type 0 where
    missing : d.final ≡ none
    backup : d.backups ≡ saved old
    was_moved : (moved ≡ true) ⊎ (old ≡ none)

  remove-saved : (content : Option D) → remove id (saved content) ≡ []
  unfolding remove
  remove-saved none = refl
  remove-saved (some c) = ground (arith, eq_iff id id)

  pub find-saved : (content : Option D) → find id (saved content) ≡ content
  unfolding find
  find-saved none = refl
  find-saved (some c) = ground (arith, eq_iff id id)

  restore_to-old :
      (d : Disk D) (final content : Option D)
      → final ≡ none
      → d.final ≡ final
      → content ≡ old
      → d.backups ≡ saved old
      → ((restore_to final content id d).final ≡ old)
        × ((restore_to final content id d).backups ≡ [])
  restore_to-old d none none m e o b = (e ∙ o, b ∙ sym (ap (λ x. saved x) o))
  restore_to-old d none (some c) m e o b = (o, ap (λ l. remove id l) b ∙ remove-saved old)
  restore_to-old d (some x) content m e o b = cc

  restore-IsEnded :
      (restore_raises moved : Bool) (d : Disk D)
      → IsAway moved d
      → IsEnded restore_raises (restore restore_raises moved id d) raised
  unfolding restore
  restore-IsEnded true moved d a = stranded refl a.missing a.backup
  restore-IsEnded false false d a = elim a.was_moved [
    | inl m ↦ absurd (ground arith)
    | inr none_old ↦ rolled_back (a.missing ∙ sym none_old) (a.backup ∙ ap (λ x. saved x) none_old)
  ]
  restore-IsEnded false true d a =
      let (back, cleared) =
        restore_to-old d d.final (find id d.backups) a.missing refl
          (ap (λ b. find id b) a.backup ∙ find-saved old) a.backup in
      rolled_back back cleared

  pub IsEnded-IsKept :
      (restore_raises : Bool) (d : Disk D) → IsEnded restore_raises d raised → IsKept d
  IsEnded-IsKept restore_raises d (rolled_back e b) = old_kept e b
  IsEnded-IsKept restore_raises d (installed n) = new_kept n
  IsEnded-IsKept restore_raises d (stranded r m b) = away m b

  fails-IsAtomic :
      (faults : Faults D) (moved : Bool) (d : Disk D)
      → IsAway moved d
      → IsAtomic faults.restore_raises (fails faults moved id d)
  fails-IsAtomic faults moved d a =
      let ended = restore-IsEnded faults.restore_raises moved d a in
      record {
        kept = (away a.missing a.backup, (IsEnded-IsKept faults.restore_raises _ ended, tt));
        ended = ended;
      }

  clear_copy-IsAway :
      (faults : Faults D) (moved : Bool) (d : Disk D)
      → IsAway moved d
      → IsAway moved (clear_copy faults d)
  clear_copy-IsAway faults moved d a =
      if-elim (IsAway moved) faults.copy_removal_raises _ _ a
        (record { missing = a.missing; backup = a.backup; was_moved = a.was_moved })

  finishes-IsAtomic :
      (faults : Faults D) (mode : CommitMode) (d : Disk D)
      → IsNew d.final
      → d.backups ≡ saved old
      → IsAtomic faults.restore_raises (finishes faults id mode d)
  finishes-IsAtomic faults mode d n b =
      if-elim (IsAtomic faults.restore_raises) faults.backup_removal_raises (ends raised d)
        (after d (ends (committed mode) (without_backup id d)))
        (record { kept = (new_kept n, tt); ended = installed n })
        (record {
          kept = (new_kept n, (new_kept n, tt));
          ended = success mode n (ap (λ l. remove id l) b ∙ remove-saved old);
        })

  module _ (faults : Faults D) (moved : Bool) (content : D)
      (is_sealed : sealed ≡ some content) where
    swap_copy-IsAtomic :
        (c : D) (d : Disk D)
        → verify c content ≡ true
        → IsAway moved d
        → IsAtomic faults.restore_raises (swap_copy verify faults id moved content c d)
    unfolding swap_copy
    swap_copy-IsAtomic c d v a =
        let swapped : Disk D = record (without_copy faults d) { final = some c } in
        let removed : Disk D = record swapped { staging = remove id d.staging } in
        let fresh : IsNew (some c) = verified_copy content c is_sealed v in
        if-elim (IsAtomic faults.restore_raises) faults.swap_raises _ _
          (fails-IsAtomic faults moved _ (clear_copy-IsAway faults moved d a))
          (if-elim (IsAtomic faults.restore_raises) faults.source_removal_raises _ _
            (record { kept = (new_kept fresh, (new_kept fresh, tt)); ended = installed fresh })
            (after-IsAtomic swapped _ (new_kept fresh)
              (finishes-IsAtomic faults cross_filesystem_copy_verify_swap removed fresh a.backup)))

    verify_copy-IsAtomic :
        (copy : Copy D) (d : Disk D)
        → IsAway moved d
        → IsAtomic faults.restore_raises (verify_copy verify faults id moved content copy d)
    unfolding verify_copy
    verify_copy-IsAtomic copy_error d a =
        fails-IsAtomic faults moved _ (clear_copy-IsAway faults moved d a)
    verify_copy-IsAtomic (copied c) d a =
        let full = with_copy faults c d in
        let away_full : IsAway moved full = record {
          missing = a.missing;
          backup = a.backup;
          was_moved = a.was_moved;
        } in
        elim (Bool-cases (verify c content)) [
          | inl same ↦
              rw (verify_copy, same)
                (after-IsAtomic full _ (away a.missing a.backup)
                  (swap_copy-IsAtomic c full same away_full))
          | inr other ↦
              rw (verify_copy, other)
                (after-IsAtomic full _ (away a.missing a.backup)
                  (fails-IsAtomic faults moved _ (clear_copy-IsAway faults moved full away_full)))
        ]

    install_staging-IsAtomic :
        (install : Install) (d : Disk D)
        → IsAway moved d
        → IsAtomic faults.restore_raises (install_staging verify faults id moved content install d)
    unfolding install_staging copy_verify_swap
    install_staging-IsAtomic renamed d a =
        finishes-IsAtomic faults _
          (record d { final = some content; staging = remove id d.staging })
          (sealed_content content is_sealed) a.backup
    install_staging-IsAtomic io_error d a = fails-IsAtomic faults moved d a
    install_staging-IsAtomic cross_device d a =
        let started = with_copy faults faults.halfway (without_copy faults d) in
        after-IsAtomic d _ (away a.missing a.backup) (
          if-elim (IsAtomic faults.restore_raises) faults.copy_reset_raises _ _
            (fails-IsAtomic faults moved d a)
            (after-IsAtomic started _ (away a.missing a.backup) (
              verify_copy-IsAtomic faults.copy started
                (record { missing = a.missing; backup = a.backup; was_moved = a.was_moved }))))

module _ {D : Type 0} (verify : D → D → Bool) (seal : Option D → D → Option D) where
  commit_sealed-IsAtomic :
      (faults : Faults D) (id : String) (content : D) (old : Option D) (d : Disk D)
      → d.final ≡ old
      → d.backups ≡ []
      → IsAtomic verify id old
          (some content)
          faults.restore_raises
          (commit_sealed verify seal faults id content old d)
  unfolding commit_sealed
  commit_sealed-IsAtomic faults id content none d f b =
      after-IsAtomic verify id none (some content) d _ (old_kept f b) (
        install_staging-IsAtomic verify id none (some content) faults false content refl
          faults.install d (record { missing = f; backup = b; was_moved = inr refl }))
  commit_sealed-IsAtomic faults id content (some old) d f b =
      let moved = to_backup id old d in
      let one : (id, old) ∷ d.backups ≡ (id, old) ∷ [] = ap (λ l. (id, old) ∷ l) b in
      if-elim (IsAtomic verify id (some old) (some content) faults.restore_raises)
        faults.backup_raises (ends raised d) _
        (record { kept = (old_kept f b, tt); ended = rolled_back f b })
        (after-IsAtomic verify id (some old) (some content) d _ (old_kept f b) (
          after-IsAtomic verify id (some old) (some content) moved _ (away refl one) (
            install_staging-IsAtomic verify id (some old) (some content) faults true content refl
              faults.install moved
              (record { missing = refl; backup = one; was_moved = inl refl }))))

  commit_content-IsAtomic :
      (faults : Faults D) (id : String) (sealed : Option D) (d : Disk D)
      → d.backups ≡ []
      → IsAtomic verify id d.final sealed faults.restore_raises
          (commit_content verify seal faults id sealed d)
  commit_content-IsAtomic faults id none d b = record {
    kept = (old_kept refl b, tt);
    ended = rolled_back refl b;
  }
  commit_content-IsAtomic faults id (some content) d b =
      after-IsAtomic verify id d.final (some content) d _ (old_kept refl b) (
        commit_sealed-IsAtomic faults id content d.final (with_sealed verify seal id content d) refl
          b)

  -- A commit on a disk without backups, whichever of its calls raise: in every state that it passes
  -- through the dataset is the old one, the new one (sealed, or a verified copy of that), or away with the
  -- old one as the only backup. Where it succeeds it ends with the new one and no backup; where it raises
  -- it ends with the old one and no backup, with the new one, or, only if the call that restores the old
  -- one raises as well, away with the old one as the only backup.
  pub commit-IsAtomic :
      (faults : Faults D) (id : String) (d : Disk D)
      → d.backups ≡ []
      → IsAtomic verify id d.final
          (seal_content verify seal d.final (find id d.staging))
          faults.restore_raises
          (commit verify seal faults id d)
  unfolding commit
  commit-IsAtomic faults id d b = commit_content-IsAtomic faults id _ d b
