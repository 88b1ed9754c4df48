-- ===== src/Config/RoundTrip.antt =====
-- Writing and reading a whole configuration in libs/app_utils/src/config_file_ops.c.
use linux_dev_framework.Base.{List, [], ◌∷◌}
use linux_dev_framework.Config.{Var}
use linux_dev_framework.Config.Line.{Plain}

abbrev pub AllPlain : List Var → Type 0
AllPlain [] = Unit
AllPlain (v ∷ vars) = Plain v × AllPlain vars
