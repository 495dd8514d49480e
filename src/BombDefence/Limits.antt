-- ===== src/BombDefence/Limits.antt =====
-- What the checks of an archive's metadata and of an entry's header let through.
use zip_extraction.Common.{◌≡◌, ◌↔◌, ◌⊎◌, inl, inr, false, none, some, arith}
use zip_extraction.Extraction.Errors.{BombDefenceError, bomb}
use zip_extraction.Common.Int.{pos, ◌≤ℤ◌}
use zip_extraction.Config.{BombDefenceConfig}
use zip_extraction.Extraction.Types.{ArchiveMetadata, EntryInfo}
use zip_extraction.BombDefence.{pre_check, entry_check, is_symlink}

-- rules 1, 4 and 12; a maximum that is not positive switches rule 12 off
pub record IsWithin (cfg : BombDefenceConfig) (meta : ArchiveMetadata) : Type 0 where
  pub compressed : meta.total_compressed_bytes ≤ℤ cfg.max_compressed_size_bytes
  pub entries : meta.entry_count ≤ℤ cfg.max_entry_count
  pub declared :
      (cfg.max_total_declared_uncompressed_bytes ≤ℤ pos 0)
      ⊎ (meta.total_declared_uncompressed_bytes ≤ℤ cfg.max_total_declared_uncompressed_bytes)

-- rules 5, 6 and 9
pub record IsAcceptable (cfg : BombDefenceConfig) (e : EntryInfo) : Type 0 where
  pub depth : e.directory_depth ≤ℤ cfg.max_directory_depth
  pub no_link : is_symlink e.mode ≡ false
  pub size : e.uncompressed_size ≤ℤ cfg.max_single_file_size_bytes

-- The pre-check passes exactly where the totals are within rules 1, 4 and 12.
pub pre_check_iff :
    (cfg : BombDefenceConfig) (meta : ArchiveMetadata)
    → (pre_check cfg meta ≡ none) ↔ IsWithin cfg meta
unfolding pre_check
pre_check_iff cfg meta = ground arith

-- The check of an entry passes exactly where it keeps rules 5, 6 and 9.
pub entry_check_iff :
    (cfg : BombDefenceConfig) (e : EntryInfo) → (entry_check cfg e ≡ none) ↔ IsAcceptable cfg e
unfolding entry_check
entry_check_iff cfg e = ground arith

pre_check-cases :
    (cfg : BombDefenceConfig) (meta : ArchiveMetadata)
    → (pre_check cfg meta ≡ none)
      ⊎ ((bde : BombDefenceError) × (pre_check cfg meta ≡ some (bomb bde)))
unfolding pre_check
pre_check-cases cfg meta = ground arith

entry_check-cases :
    (cfg : BombDefenceConfig) (e : EntryInfo)
    → (entry_check cfg e ≡ none)
      ⊎ ((bde : BombDefenceError) × (entry_check cfg e ≡ some (bomb bde)))
unfolding entry_check
entry_check-cases cfg e = ground arith

-- beyond the limits, the error is of the bomb defence
pub pre_check-rejects :
    (cfg : BombDefenceConfig) (meta : ArchiveMetadata)
    → ¬ IsWithin cfg meta
    → (bde : BombDefenceError) × (pre_check cfg meta ≡ some (bomb bde))
pre_check-rejects cfg meta beyond = elim (pre_check-cases cfg meta) [
  | inl passes ↦ absurd (beyond ((pre_check_iff cfg meta).0 passes))
  | inr rejected ↦ rejected
]

pub entry_check-rejects :
    (cfg : BombDefenceConfig) (e : EntryInfo)
    → ¬ IsAcceptable cfg e
    → (bde : BombDefenceError) × (entry_check cfg e ≡ some (bomb bde))
entry_check-rejects cfg e beyond = elim (entry_check-cases cfg e) [
  | inl passes ↦ absurd (beyond ((entry_check_iff cfg e).0 passes))
  | inr rejected ↦ rejected
]
