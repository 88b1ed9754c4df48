-- ===== src/Net/Memory.antt =====
-- The memory that libs/app_utils/src/net.c works on: a byte for each address, on a little-endian
-- target.
use linux_dev_framework.Base.{
  ◌==◌, if◌then◌else◌, ℕ, ◌+◌, ◌*◌, ◌/◌, ◌%◌, ◌^◌, ◌<◌, ◌≡◌, fun_ext, arith,
}

abbrev pub Mem : Type 0
Mem = ℕ → ℕ

-- Every address holds a byte.
abbrev pub IsBytes : Mem → Type 0
IsBytes m = (a : ℕ) → m a < 256

-- A `__u16` at an address.
abbrev pub load16 : Mem → ℕ → ℕ
load16 m a = m a + 256 * m (a + 1)

abbrev pub store16 : Mem → ℕ → ℕ → Mem
store16 m a v x = if x == a then v % 256 else if x == a + 1 then v / 256 % 256 else m x

-- `ntohs` and `htons` swap the two bytes.
abbrev pub swap16 : ℕ → ℕ
swap16 v = v % 256 * 256 + v / 256 % 256

pub load16-store16 : (m : Mem) (a v : ℕ) → v < 2 ^ 16 → load16 (store16 m a v) a ≡ v
load16-store16 m a v h = ground arith

pub store16-IsBytes : (m : Mem) (a v : ℕ) → IsBytes m → IsBytes (store16 m a v)
store16-IsBytes m a v b x = ground (arith, b x)

-- A second write hides the first.
pub store16_twice : (m : Mem) (a v w : ℕ) → store16 (store16 m a v) a w ≡ store16 m a w
store16_twice m a v w = fun_ext (λ x. ground arith)

-- Writing back what was there changes nothing.
pub store16_back : (m : Mem) (a v : ℕ) → IsBytes m → store16 (store16 m a v) a (load16 m a) ≡ m
store16_back m a v b = fun_ext (λ x. ground (arith, b a, b (a + 1)))
