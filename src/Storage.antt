-- ===== src/Storage.antt =====
-- storage.go and fs.go: the copies of files on disk.
pub mod Inside
use fileprocessor.Base.{
  ℕ, ◌⊎◌, inl, inr, Bool, true, false, ◌&&◌, ◌||◌, not, Option, none, some, ◌++◌, if◌then◌else◌,
  Bytes, codes, fail_as, and_then,
}
use fileprocessor.Text.{has_prefix, decimal}
use fileprocessor.Paths.{clean, is_abs, base_name, join_path, dir}

-- The calls of the packages `os`, `time` and `crypto/sha256`. `Stat` gives whether there is a
-- directory, and the size; to read a file is to open it and to read what is opened. A call without a
-- value gives its error, if any.
pub record FileSystem (W E : Type 0) : Type 0 where
  pub stat : Bytes → W → E ⊎ (Bool × ℕ)
  pub read : Bytes → W → E ⊎ (E ⊎ Bytes)
  pub sha256_hex : Bytes → Bytes
  pub remove : Bytes → W → Option E × W
  pub mkdir_all : Bytes → W → Option E × W
  pub copy_file : Bytes → Bytes → W → Option E × W
  pub time_now : W → ℕ × W

-- The path that `SafeDelete` goes on with: that of the file if it is inside the base directory.
unfoldable pub deletion_path : Bytes → Bytes → Option Bytes
deletion_path file_path base_dir =
    let cleaned = clean file_path in
    let expected_prefix = clean base_dir ++ codes "/" in
    if has_prefix cleaned (codes "http")
      || is_abs cleaned && not (has_prefix cleaned expected_prefix)
    then none
    else if not (has_prefix cleaned expected_prefix)
    then none
    else some cleaned

pub data StorageError (E : Type 0) : Type 0 where
  open_failed : E → StorageError E
  hash_failed : E → StorageError E
  stat_failed : E → StorageError E
  mkdir_failed : E → StorageError E
  copy_failed : E → StorageError E

-- The key of a copy, made at a time.
unfoldable make_rel_key : ℕ → Bytes → Bytes
make_rel_key now src = join_path (codes "uploads") (decimal now ++ (codes "-" ++ base_name src))

module _ {W E : Type 0} (fs : FileSystem W E) where
  -- What is done with a path, by what `Stat` gives: it is removed unless it is a directory.
  unfoldable pub remove_file : Bytes → E ⊎ (Bool × ℕ) → W → Option E × W
  remove_file path (inl err) w = (none, w)
  remove_file path (inr (true, size)) w = (none, w)
  remove_file path (inr (false, size)) w = fs.remove path w

  unfoldable pub delete_path : Option Bytes → W → Option E × W
  delete_path none w = (none, w)
  delete_path (some path) w = remove_file path (fs.stat path w) w

  -- `SafeDelete`.
  unfoldable pub safe_delete : Bytes → Bytes → W → Option E × W
  safe_delete file_path base_dir w = delete_path (deletion_path file_path base_dir) w

  -- `CalculateFileHash`.
  unfoldable pub calculate_file_hash : Bytes → W → StorageError E ⊎ Bytes
  calculate_file_hash path w =
      and_then (fail_as open_failed (fs.read path w))
        (λ opened. and_then (fail_as hash_failed opened) (λ content. inr (fs.sha256_hex content)))

  -- `GetFileInfo`: the size.
  unfoldable pub get_file_info : Bytes → W → StorageError E ⊎ ℕ
  get_file_info path w = and_then (fail_as stat_failed (fs.stat path w)) (λ info. inr info.1)

  -- The copy, once its directory is there.
  unfoldable after_copy : Bytes × Bytes → Option E × W → (StorageError E ⊎ (Bytes × Bytes)) × W
  after_copy paths (none, w) = (inr paths, w)
  after_copy paths (some err, w) = (inl (copy_failed err), w)

  unfoldable after_mkdir :
      Bytes → Bytes × Bytes → Option E × W → (StorageError E ⊎ (Bytes × Bytes)) × W
  after_mkdir src paths (none, w) = after_copy paths (fs.copy_file paths.0 src w)
  after_mkdir src paths (some err, w) = (inl (mkdir_failed err), w)

  -- `CopyToStorage`: the absolute path and the key.
  unfoldable copy_to_storage : Bytes → Bytes → W → (StorageError E ⊎ (Bytes × Bytes)) × W
  copy_to_storage src base_dir w =
      let (now, w') = fs.time_now w in
      let rel_key = make_rel_key now src in
      let abs_path = join_path base_dir rel_key in
      after_mkdir src (abs_path, rel_key) (fs.mkdir_all (dir abs_path) w')
