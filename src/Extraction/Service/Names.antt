-- ===== src/Extraction/Service/Names.antt =====
-- The names of an entry's object and row, and the sizes that an entry declares.
use zip_extraction.Common.{ℕ, ◌≤◌, ◌<◌, ◌≡◌, false, none, arith}
use zip_extraction.Common.Int.{ℤ, pos, two63, two64, ◌≤ℤ◌, int64}
use zip_extraction.Go.Strings.{Text, text}
use zip_extraction.Go.Strings.Laws.{NoByte, append-sep_injective, append-cancel_left}
use zip_extraction.Go.Fmt.{decimal4}
use zip_extraction.Go.Fmt.Laws.{decimal4-injective, decimal4-IsDigit, NoByte-of_IsDigit}
use zip_extraction.Config.{BombDefenceConfig}
use zip_extraction.BombDefence.{entry_check, is_symlink}
use zip_extraction.BombDefence.Limits.{entry_check_iff}
use zip_extraction.Extraction.ZipOpen.{ZipFile}
use zip_extraction.Extraction.Service.{build_child_key, row_pk, row_sk, entry_info}

no_dash : (i : ℕ) → NoByte b'-' (decimal4 i)
no_dash i = NoByte-of_IsDigit b'-' (decimal4 i) (λ d. omega (arith, d.0)) (decimal4-IsDigit i)

-- Two entries have the same child key only if they are entries of the same execution, with the same
-- index and the same name, where the executions' names hold no slash.
pub build_child_key_injective :
    (exec exec' : Text) (i j : ℕ) (name name' : Text)
    → NoByte b'/' exec
    → NoByte b'/' exec'
    → build_child_key exec i name ≡ build_child_key exec' j name'
    → (exec ≡ exec') × ((i ≡ j) × (name ≡ name'))
unfolding build_child_key
build_child_key_injective exec exec' i j name name' h h' e =
    let (same_exec, tail) =
      append-sep_injective b'/' exec exec' _ _ h h' (append-cancel_left (text "input/") _ _ e) in
    let (same_index, same_name) =
      append-sep_injective b'-' (decimal4 i) (decimal4 j) name name' (no_dash i) (no_dash j) tail in
    (same_exec, (decimal4-injective i j same_index, same_name))

-- Two entries have the same row only if they are entries of the same execution, with the same index.
pub row_injective :
    (exec exec' : Text) (i j : ℕ)
    → row_pk exec ≡ row_pk exec'
    → row_sk i ≡ row_sk j
    → (exec ≡ exec') × (i ≡ j)
unfolding row_pk row_sk
row_injective exec exec' i j e e' = (
  append-cancel_left (text "PIPELINE#") exec exec' e,
  decimal4-injective i j (append-cancel_left (text "FILE#") _ _ e'),
)

wrapped-le : (w : ℕ) (limit : ℤ) → two63 ≤ w → w < two64 → pos 0 ≤ℤ limit → int64 w ≤ℤ limit
unfolding int64
wrapped-le w limit h k l = ground arith

-- An entry that declares 2^63 bytes or more passes the check of an entry where it keeps the rules on
-- depth and links, whatever the limit on the size is: the size is negative as an int64.
pub entry_check-wrapped :
    {R : Type 0} (cfg : BombDefenceConfig) (file : ZipFile R)
    → two63 ≤ file.uncompressed_size64
    → file.uncompressed_size64 < two64
    → pos 0 ≤ℤ cfg.max_single_file_size_bytes
    → (entry_info file).directory_depth ≤ℤ cfg.max_directory_depth
    → is_symlink file.mode ≡ false
    → entry_check cfg (entry_info file) ≡ none
unfolding entry_info
entry_check-wrapped cfg file h k l depth link = (entry_check_iff cfg (entry_info file)).1 (record {
  depth = depth;
  no_link = link;
  size = wrapped-le file.uncompressed_size64 cfg.max_single_file_size_bytes h k l;
})
