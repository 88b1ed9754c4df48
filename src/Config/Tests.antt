-- ===== src/Config/Tests.antt =====
-- libs/app_utils/src/config_file_ops.c on a small file.
use linux_dev_framework.Base.{some, [], ◌∷◌}
use linux_dev_framework.Config.{Var}
use linux_dev_framework.Config.Store.{Store}

-- dir="/a" and x=""
abbrev dir : Var
dir = record { name = 100 ∷ 105 ∷ 114 ∷ []; value = 47 ∷ 97 ∷ [] }

abbrev x_empty : Var
x_empty = record { name = 120 ∷ []; value = [] }

abbrev stored : Store
stored = record { vars = dir ∷ x_empty ∷ []; ga_values_backup = some ((47 ∷ 97 ∷ []) ∷ [] ∷ []) }
