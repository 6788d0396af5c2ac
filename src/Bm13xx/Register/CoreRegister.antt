-- ===== src/Bm13xx/Register/CoreRegister.antt =====
-- `CoreRegister` of mujina-miner/src/asic/bm13xx/register.rs and the conversions that its derives
-- (`IntoPrimitive`, `FromPrimitive` with `catch_all`) give it.
use mujina.Common.{ℕ, ◌≡◌, ◌≢◌, refl, ◌==◌, if◌then◌else◌, arith}

pub data CoreRegister : Type 0 where
  clock_delay : CoreRegister
  core_enable : CoreRegister
  clock_select_bm1362 : CoreRegister
  clock_select_bm1368 : CoreRegister
  nonce_bin_overflow : CoreRegister
  unknown : ℕ → CoreRegister

unfoldable pub to_u8 : CoreRegister → ℕ
to_u8 clock_delay = 0x00
to_u8 core_enable = 0x02
to_u8 clock_select_bm1362 = 0x05
to_u8 clock_select_bm1368 = 0x0B
to_u8 nonce_bin_overflow = 0x0D
to_u8 (unknown id) = id

unfoldable pub from_u8 : ℕ → CoreRegister
from_u8 id =
    if id == 0x00
    then clock_delay
    else if id == 0x02
    then core_enable
    else if id == 0x05
    then clock_select_bm1362
    else if id == 0x0B
    then clock_select_bm1368
    else if id == 0x0D
    then nonce_bin_overflow
    else unknown id

-- An `unknown` does not carry the id of a register that has a name.
abbrev pub Named : CoreRegister → Type 0
Named (unknown id) = (id ≢ 0x00) × (id ≢ 0x02) × (id ≢ 0x05) × (id ≢ 0x0B) × (id ≢ 0x0D)
Named _ = Unit {0}

pub from_u8-to_u8 : (r : CoreRegister) → Named r → from_u8 (to_u8 r) ≡ r
unfolding from_u8 to_u8
from_u8-to_u8 clock_delay h = refl
from_u8-to_u8 core_enable h = refl
from_u8-to_u8 clock_select_bm1362 h = refl
from_u8-to_u8 clock_select_bm1368 h = refl
from_u8-to_u8 nonce_bin_overflow h = refl
from_u8-to_u8 (unknown id) h = ground arith

pub to_u8-from_u8 : (id : ℕ) → to_u8 (from_u8 id) ≡ id
unfolding from_u8 to_u8
to_u8-from_u8 id = ground arith

pub from_u8-Named : (id : ℕ) → Named (from_u8 id)
unfolding from_u8
from_u8-Named id = ground arith
