-- ===== src/Log/Sizes.antt =====
-- How large the files of libs/app_utils/src/log.c become.
use linux_dev_framework.Base.{length, ℕ, ◌+◌, ◌<◌, max, ◌≡◌, List, [], ◌∷◌}
use linux_dev_framework.Log.{File, Log}

-- Every file is smaller than the bound.
abbrev pub Small : (bound : ℕ) → List File → Type 0
Small k [] = Unit
Small k (f ∷ disk) = (length f.content < k) × Small k disk

-- All files are smaller than the size that the log was opened with and the longest line.
abbrev pub Within : (max : ℕ) → Log → Type 0
Within max l = (l.max_log_file_size ≡ max) × Small (max + 288) l.disk
