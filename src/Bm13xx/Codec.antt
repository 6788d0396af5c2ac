-- ===== src/Bm13xx/Codec.antt =====
-- mujina-miner/src/asic/bm13xx/codec.rs: `FrameCodec`, which frames what goes to the chips and
-- finds the frames in what comes back. Its one field, the chip model, is an argument.
pub mod Frames
pub mod Chip
pub mod Decode
pub mod Stream
use mujina.Common.{ℕ, ◌+◌, ◌/◌, ◌%◌, ◌^◌, List, [], ◌∷◌, ◌++◌, ◌==◌, ltb, length, drop, take, not}
use mujina.Common.{if◌then◌else◌, Option, some, none, Result, ok, err}
use mujina.Common.Words.{put_u8, to_list}
use mujina.Bm13xx.Error.{ProtocolError}
use mujina.Bm13xx.Crc.{crc5, crc16, crc5_is_valid}
use mujina.Bm13xx.Command.{RegisterCommand, JobCommand, encode_register, encode_job}
use mujina.Bm13xx.Register.ChipModel.{ChipModel}
use mujina.Bm13xx.Response
use mujina.Bm13xx.Response.{Response, Body}

-- `dst[start_pos..]` is what the command has put behind the preamble.
unfoldable pub encode_register_frame : RegisterCommand → List ℕ → List ℕ
encode_register_frame command dst =
    let framed = dst ++ (0x55 ∷ 0xaa ∷ []) in
    let start_pos = length framed in
    let body = encode_register command framed in put_u8 (crc5 (drop start_pos body)) body

-- `to_be_bytes` of a `u16`.
abbrev pub be_bytes16 : ℕ → List ℕ
be_bytes16 w = w / 2 ^ 8 % 2 ^ 8 ∷ w % 2 ^ 8 ∷ []

unfoldable pub encode_job_frame : JobCommand → List ℕ → List ℕ
encode_job_frame command dst =
    let framed = dst ++ (0x55 ∷ 0xaa ∷ []) in
    let start_pos = length framed in
    let body = encode_job command framed in body ++ be_bytes16 (crc16 (drop start_pos body))

-- The first `FRAME_LEN` = 11 bytes of the buffer, if it holds as many.
pub record Frame : Type 0 where
  pub preamble0 : ℕ
  pub preamble1 : ℕ
  pub body : Body

unfoldable pub first_frame : List ℕ → Option Frame
first_frame (p0 ∷ p1 ∷ b0 ∷ b1 ∷ b2 ∷ b3 ∷ b4 ∷ b5 ∷ b6 ∷ b7 ∷ b8 ∷ rest) = some (record {
  preamble0 = p0;
  preamble1 = p1;
  body = record {
    value = record { byte0 = b0; byte1 = b1; byte2 = b2; byte3 = b3 };
    byte4 = b4;
    byte5 = b5;
    byte6 = b6;
    byte7 = b7;
    type_and_crc = b8;
  };
})
first_frame _ = none

abbrev pub body_bytes : Body → List ℕ
body_bytes b = to_list b.value ++ (b.byte4 ∷ b.byte5 ∷ b.byte6 ∷ b.byte7 ∷ b.type_and_crc ∷ [])

-- `match Response::decode(…)`: a response takes the frame's bytes, an error the first one.
unfoldable pub consume : List ℕ → Result ProtocolError Response → Option Response × List ℕ
consume src (ok response) = (some response, drop 11 src)
consume src (err e) = (none, drop 1 src)

-- One call of `decode`: what it returns in its `Ok`, and what it leaves in the buffer.
unfoldable pub decode_frame : ChipModel → List ℕ → Frame → Option Response × List ℕ
unfolding consume
decode_frame model src f =
    if not (f.preamble0 == 0xaa)
    then (none, drop 1 src)
    else if not (f.preamble1 == 0x55)
    then (none, drop 1 src)
    else if not (crc5_is_valid (body_bytes f.body))
    then (none, drop 1 src)
    else consume src (Response.decode f.body model)

unfoldable pub decode : ChipModel → List ℕ → Option Response × List ℕ
unfolding first_frame decode_frame
decode model src = elim (first_frame src) [ none ↦ (none, src) | some f ↦ decode_frame model src f ]
