-- ===== src/Patchbay/Floats.antt =====
-- What src/patchbay uses of `double`, of libm and of the conversions of libc. These are not part of
-- the repository: their operations are the parameter of everything that computes with numbers.
use monoblok.Shared.{ℕ, Bool, not, ◌&&◌, Option, Bytes}

pub record Floats : Type 1 where
  pub Num : Type 0
  -- `(double)n`, and `(size_t)x` or `(uint64_t)x`.
  pub of_nat : ℕ → Num
  pub to_nat : Num → ℕ
  -- `<`, `<=` and `==`.
  pub lt : Num → Num → Bool
  pub le : Num → Num → Bool
  pub eq : Num → Num → Bool
  pub add : Num → Num → Num
  pub sub : Num → Num → Num
  pub mul : Num → Num → Num
  pub div : Num → Num → Num
  pub neg : Num → Num
  pub fabs : Num → Num
  pub floor : Num → Num
  pub round : Num → Num
  pub sqrt : Num → Num
  pub pow : Num → Num → Num
  -- `strtod`, where it reads the whole text and sets no error.
  pub strtod : Bytes → Option Num
  -- `snprintf` with `%.*g` and with `%.*f`.
  pub print_g : ℕ → Num → Option Bytes
  pub print_f : ℕ → Num → Option Bytes

-- `floor(x) == x`
pub whole : (F : Floats) → F.Num → Bool
whole F x = F.eq (F.floor x) x

-- `x >= 1 && floor(x) == x`, the test of counts and of intervals.
pub positive_whole : (F : Floats) → F.Num → Bool
positive_whole F x = not (F.lt x (F.of_nat 1)) && whole F x
