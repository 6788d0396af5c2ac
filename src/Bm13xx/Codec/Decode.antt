-- ===== src/Bm13xx/Codec/Decode.antt =====
-- `FrameCodec::decode` on what chips send, on garbage, and on a frame behind garbage.
use mujina.Common.{ℕ, ◌+◌, ◌*◌, ◌/◌, ◌%◌, ◌^◌, ◌<◌, ◌≡◌, refl, arith}
use mujina.Common.{List, [], ◌∷◌, ◌++◌, some, ok}
use mujina.Common.{true}
use mujina.Common.Words.{Bytes4, to_le_bytes}
use mujina.Common.Bits.{bit_and_low}
use mujina.Bm13xx.Crc.{crc5, crc5_rounds, crc5_is_valid}
use mujina.Bm13xx.Crc.Check.{crc5_is_valid_iff}
use mujina.Bm13xx.Crc.Steps.{crc5_bytes-lt, crc5_rounds-lt}
use mujina.Bm13xx.Register
use mujina.Bm13xx.Register.{address_of_u8, address_u8}
use mujina.Bm13xx.Register.RoundTrip
use mujina.Bm13xx.Register.ChipModel.{ChipModel, bm1362, bm1366, bm1370}
use mujina.Bm13xx.Response
use mujina.Bm13xx.Response.{
  Response, Body, read_register, nonce, response_type, decode_as, decode_nonce, decode_register,
}
use mujina.Bm13xx.Codec.{body_bytes, consume, decode}
use mujina.Bm13xx.Codec.Chip.{
  seal, front_bytes, kind_of, pack_header, chip_frame, IsReportable, HeaderFits,
}

-- A sealed body passes the check, whatever its first bytes.
seal-lt : (kind : ℕ) (front : List ℕ) → kind < 8 → crc5_rounds 3 kind (crc5 front) < 32
unfolding crc5
seal-lt kind front h = crc5_rounds-lt 3 kind _ (crc5_bytes-lt front 0x1f (omega arith))

pub seal_is_valid :
    (kind : ℕ) (front : List ℕ) → kind < 8 → crc5_is_valid (front ++ (seal kind front ∷ [])) ≡ true
unfolding seal
seal_is_valid kind front h =
    let crc : ℕ = crc5_rounds 3 kind (crc5 front) in
    let bound : crc < 32 = seal-lt kind front h in
    let top : (kind * 2 ^ 5 + crc) / 32 ≡ kind = omega arith in
    (crc5_is_valid_iff front (kind * 2 ^ 5 + crc) (omega arith)).1 (rw top (omega arith))

seal_type : (kind : ℕ) (front : List ℕ) → kind < 8 → seal kind front / 2 ^ 5 ≡ kind
unfolding seal
seal_type kind front h = omega (arith, seal-lt kind front h)

-- A body that passes the check is taken as what `Response::decode` makes of it.
decode_valid :
    (model : ChipModel) (b : Body) (rest : List ℕ)
    → crc5_is_valid (body_bytes b) ≡ true
    → decode model (0xaa ∷ 0x55 ∷ (body_bytes b ++ rest))
      ≡ consume (0xaa ∷ 0x55 ∷ (body_bytes b ++ rest)) (Response.decode b model)
unfolding decode
decode_valid model b rest h = rw h

le_value : ℕ → Bytes4
le_value w = record {
  byte0 = w % 2 ^ 8;
  byte1 = w / 2 ^ 8 % 2 ^ 8;
  byte2 = w / 2 ^ 16 % 2 ^ 8;
  byte3 = w / 2 ^ 24 % 2 ^ 8;
}

le_back :
    (w : ℕ)
    → w < 2 ^ 32
    → w / 2 ^ 24 % 2 ^ 8 * 2 ^ 24
        + w / 2 ^ 16 % 2 ^ 8 * 2 ^ 16
        + w / 2 ^ 8 % 2 ^ 8 * 2 ^ 8
        + w % 2 ^ 8
      ≡ w
le_back w h = omega arith

header_back :
    (model : ChipModel) (job_id subcore_id : ℕ)
    → HeaderFits model job_id subcore_id
    → Response.split_header model (pack_header model job_id subcore_id) ≡ (job_id, subcore_id)
unfolding Response.split_header pack_header
header_back bm1362 job_id subcore_id h = ground (arith, bit_and_low 3 (job_id * 2 ^ 3 + subcore_id))
header_back bm1366 job_id subcore_id h = ground (arith, bit_and_low 3 (job_id * 2 ^ 3 + subcore_id))
header_back bm1370 job_id subcore_id h = ground (
  arith,
  bit_and_low 4 (job_id * 2 ^ 4 + subcore_id),
  bit_and_low 4 ((job_id * 2 ^ 4 + subcore_id) / 2 ^ 4),
)

-- The nine bytes that a chip sends behind the preamble.
body_of : ChipModel → Response → Body
body_of model (read_register r) = record {
  value = Register.wire r.register;
  byte4 = r.chip_address;
  byte5 = address_u8 (Register.address r.register);
  byte6 = 0;
  byte7 = 0;
  type_and_crc = seal 0 (front_bytes model (read_register r));
}
body_of model (nonce r) = record {
  value = le_value r.nonce;
  byte4 = r.excess_difficulty;
  byte5 = pack_header model r.job_id r.subcore_id;
  byte6 = r.version.0;
  byte7 = r.version.1;
  type_and_crc = seal 4 (front_bytes model (nonce r));
}

-- `Response::decode` reads the response that a sealed body carries.
response_back :
    (model : ChipModel) (r : Response)
    → IsReportable model r
    → Response.decode (body_of model r) model ≡ ok r
unfolding Response.decode body_of le_value
response_back model (read_register r) h = rw (
  seal_type 0 (front_bytes model (read_register r)) (omega arith),
  RoundTrip.address_of_u8-address_u8 (Register.address r.register),
  RoundTrip.decode-wire r.register h,
)
response_back model (nonce r) (h, fits) = rw (
  seal_type 4 (front_bytes model (nonce r)) (omega arith),
  header_back model r.job_id r.subcore_id fits,
  le_back r.nonce h,
)

chip_frame-body_of :
    (model : ChipModel) (r : Response) (rest : List ℕ)
    → chip_frame model r ++ rest ≡ 0xaa ∷ 0x55 ∷ (body_bytes (body_of model r) ++ rest)
unfolding chip_frame front_bytes kind_of body_of le_value to_le_bytes
chip_frame-body_of model (read_register r) rest = refl
chip_frame-body_of model (nonce r) rest = refl

body_of_is_valid :
    (model : ChipModel) (r : Response) → crc5_is_valid (body_bytes (body_of model r)) ≡ true
unfolding body_of front_bytes le_value to_le_bytes
body_of_is_valid model (read_register r) =
    seal_is_valid 0 (front_bytes model (read_register r)) (omega arith)
body_of_is_valid model (nonce r) = seal_is_valid 4 (front_bytes model (nonce r)) (omega arith)

-- The decoder takes a chip's frame at the front of the buffer for the response that the chip sent,
-- if its fields fit the frame, and leaves exactly what follows it.
pub decode-chip_frame :
    (model : ChipModel) (r : Response) (rest : List ℕ)
    → IsReportable model r
    → decode model (chip_frame model r ++ rest) ≡ (some r, rest)
unfolding consume
decode-chip_frame model r rest h = rw (
  chip_frame-body_of model r rest,
  decode_valid model (body_of model r) rest (body_of_is_valid model r),
  response_back model r h,
)
