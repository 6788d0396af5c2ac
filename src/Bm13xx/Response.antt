-- ===== src/Bm13xx/Response.antt =====
-- mujina-miner/src/asic/bm13xx/response.rs: the frames that chips send back.
use mujina.Common.{ℕ, ◌+◌, ◌*◌, ◌/◌, ◌%◌, ◌^◌, bit_and, ◌==◌, if◌then◌else◌, Option, some, none}
use mujina.Common.{Result, ok, err, ◌>>=◌}
use mujina.Common.Words.{Bytes4}
use mujina.Bm13xx.Error.{ProtocolError, invalid_register_address, invalid_response_type}
use mujina.Bm13xx.Register
use mujina.Bm13xx.Register.{Register, RegisterAddress, address_of_u8}
use mujina.Bm13xx.Register.ChipModel.{ChipModel, bm1370}

pub record RegisterResponse : Type 0 where
  pub chip_address : ℕ
  pub register : Register

-- `version` is the pair of bytes of a `GeneralPurposeBits`.
pub record NonceResponse : Type 0 where
  pub nonce : ℕ
  pub job_id : ℕ
  pub excess_difficulty : ℕ
  pub version : ℕ × ℕ
  pub subcore_id : ℕ

pub data Response : Type 0 where
  read_register : RegisterResponse → Response
  nonce : NonceResponse → Response

pub data ResponseType : Type 0 where
  read_register_type nonce_type : ResponseType

-- `ResponseType::try_from(repr).ok()`, of the derive `TryFromPrimitive`.
unfoldable pub response_type : ℕ → Option ResponseType
response_type repr =
    if repr == 0 then some read_register_type else if repr == 4 then some nonce_type else none

-- The buffer that `decode` is given: the codec, its one caller, passes the nine bytes that follow
-- the preamble. The last one holds the type in its top three bits.
pub record Body : Type 0 where
  pub value : Bytes4
  pub byte4 : ℕ
  pub byte5 : ℕ
  pub byte6 : ℕ
  pub byte7 : ℕ
  pub type_and_crc : ℕ

-- `get_u32_le`.
unfoldable pub from_le_bytes : Bytes4 → ℕ
from_le_bytes b = b.byte3 * 2 ^ 24 + b.byte2 * 2 ^ 16 + b.byte1 * 2 ^ 8 + b.byte0

-- The job id and the subcore id that the result header packs, split by model.
unfoldable pub split_header : ChipModel → ℕ → ℕ × ℕ
split_header bm1370 header = (bit_and (header / 2 ^ 4) 0x0f, bit_and header 0x0f)
split_header _ header = (header / 2 ^ 3, bit_and header 0x07)

unfoldable pub decode_register : Body → Option RegisterAddress → Result ProtocolError Response
decode_register b none = err (invalid_register_address b.byte5)
decode_register b (some a) = do
  register ← Register.decode a b.value
  ok (read_register (record { chip_address = b.byte4; register = register }))

unfoldable pub decode_nonce : ChipModel → Body → NonceResponse
unfolding from_le_bytes split_header
decode_nonce model b =
    let (job_id, subcore_id) = split_header model b.byte5 in
    record {
      nonce = from_le_bytes b.value;
      job_id = job_id;
      excess_difficulty = b.byte4;
      version = (b.byte6, b.byte7);
      subcore_id = subcore_id;
    }

unfoldable pub decode_as : ChipModel → Body → Option ResponseType → Result ProtocolError Response
unfolding decode_register decode_nonce
decode_as model b (some read_register_type) = decode_register b (address_of_u8 b.byte5)
decode_as model b (some nonce_type) = ok (nonce (decode_nonce model b))
decode_as model b none = err (invalid_response_type (b.type_and_crc / 2 ^ 5))

unfoldable pub decode : Body → ChipModel → Result ProtocolError Response
unfolding response_type decode_as
decode b model = decode_as model b (response_type (b.type_and_crc / 2 ^ 5))

pub data NonceFields : Type 0 where
  bm1362_fields : (core_id : ℕ) (chip_address : ℕ) (counter : ℕ) → NonceFields
  bm1370_fields : (core_id : ℕ) (counter : ℕ) → NonceFields

-- `u32::swap_bytes`.
unfoldable pub swap_bytes : ℕ → ℕ
swap_bytes w =
    w % 2 ^ 8 * 2 ^ 24
    + w / 2 ^ 8 % 2 ^ 8 * 2 ^ 16
    + w / 2 ^ 16 % 2 ^ 8 * 2 ^ 8
    + w / 2 ^ 24 % 2 ^ 8

unfoldable pub from_nonce : ChipModel → ℕ → NonceFields
unfolding swap_bytes
from_nonce bm1370 word =
    let value = swap_bytes word in bm1370_fields (value / 2 ^ 25 % 2 ^ 8) (bit_and value 0x1ff_ffff)
from_nonce _ word =
    let value = swap_bytes word in
    bm1362_fields (value / 2 ^ 25 % 2 ^ 8) (bit_and (value / 2 ^ 18) 0x7f % 2 ^ 8 * 2 % 2 ^ 8)
      (bit_and value 0x3ffff)
