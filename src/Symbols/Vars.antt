-- ===== src/Symbols/Vars.antt =====
-- The assignment of a variable in libs/app_utils/src/symbol_utils.c.
use Prim.Native.Nat.pow
