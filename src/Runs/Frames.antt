-- ===== src/Runs/Frames.antt =====
-- The commands and frames of mujina-miner/src/asic/bm13xx/{command,response,codec}.rs on the frames
-- of their tests.
use mujina.Common.{ℕ, ◌≡◌, ◌≢◌, refl, arith, List, [], ◌∷◌, ◌++◌, All, some, none}
use mujina.Common.Words.{Bytes4, to_le_bytes}
use mujina.Bm13xx.Crc.{crc5, crc16, crc5_rounds, crc5_round}
use mujina.Bm13xx.Register.{at_chip_id, address_u8}
use mujina.Bm13xx.Register.ChipModel.{bm1370}
use mujina.Bm13xx.Command.{RegisterCommand, set_chip_address, read_register, broadcast}
use mujina.Bm13xx.Command.{JobCommand, job_full, encode_register, encode_job, encode_type_flags}
use mujina.Bm13xx.Command.Hash.{hash_to_wire_bytes, hash_from_wire_bytes, of_words}
use mujina.Bm13xx.Command.Hash.{hash_from_wire_bytes-hash_to_wire_bytes}
use mujina.Bm13xx.Command.Parse.{parse, parse-encode_register}
use mujina.Bm13xx.Response.{Response, nonce}
use mujina.Bm13xx.Codec.{encode_register_frame, encode_job_frame, be_bytes16, decode}
use mujina.Bm13xx.Codec.Frames.{encode_register_frame_lem, encode_job_frame_lem}
use mujina.Bm13xx.Codec.Chip.{IsReportable, chip_frame, front_bytes, kind_of, seal, pack_header}
use mujina.Bm13xx.Codec.Decode.{decode-chip_frame}
use mujina.Bm13xx.Codec.Stream.{
  Outcome, calls, frames, decode-Outcome, calls-frames, calls-resync, decode_withholds,
}

abbrev read_id : RegisterCommand
read_id = read_register broadcast at_chip_id

frame_of_read :
    encode_register_frame read_id [] ≡ 0x55 ∷ 0xaa ∷ 0x52 ∷ 0x05 ∷ 0x00 ∷ 0x00 ∷ 0x0a ∷ []
unfolding encode_register_frame encode_register encode_type_flags crc5 address_u8
frame_of_read = refl

-- A nonce that a BM1370 reported.
abbrev reported : Response
reported = nonce (record {
  nonce = 0x40a6_0018;
  job_id = 9;
  excess_difficulty = 2;
  version = (0x22, 0xf9);
  subcore_id = 9;
})

reported-IsReportable : IsReportable bm1370 reported
reported-IsReportable = (omega arith, (omega arith, omega arith))

frame_of_nonce :
    chip_frame bm1370 reported
    ≡ 0xaa ∷ 0x55 ∷ 0x18 ∷ 0x00 ∷ 0xa6 ∷ 0x40 ∷ 0x02 ∷ 0x99 ∷ 0x22 ∷ 0xf9 ∷ 0x91 ∷ []
unfolding chip_frame front_bytes to_le_bytes kind_of seal pack_header crc5 crc5_rounds crc5_round
frame_of_nonce = refl

decode-chip_frame_example :
    decode bm1370 (chip_frame bm1370 reported ++ (1 ∷ [])) ≡ (some reported, 1 ∷ [])
decode-chip_frame_example = decode-chip_frame bm1370 reported (1 ∷ []) reported-IsReportable

decode-Outcome_example :
    Outcome bm1370 (chip_frame bm1370 reported) (decode bm1370 (chip_frame bm1370 reported))
decode-Outcome_example = decode-Outcome bm1370 (chip_frame bm1370 reported)

calls-frames_example :
    calls 2 bm1370 (frames bm1370 (reported ∷ reported ∷ []) ++ (1 ∷ []))
    ≡ (reported ∷ reported ∷ [], 1 ∷ [])
calls-frames_example =
    calls-frames bm1370 (reported ∷ reported ∷ []) (1 ∷ [])
      (reported-IsReportable, (reported-IsReportable, tt))

abbrev noise : List ℕ
noise = 0x00 ∷ 0x55 ∷ []

noise_starts_none : All (λ x. x ≢ 0xaa) noise
noise_starts_none = (ground arith, (ground arith, tt))

calls-resync_example :
    calls 3 bm1370 (noise ++ (chip_frame bm1370 reported ++ [])) ≡ (reported ∷ [], [])
calls-resync_example = calls-resync bm1370 noise reported [] noise_starts_none reported-IsReportable

decode_withholds_example :
    (decode bm1370 (0x00 ∷ (chip_frame bm1370 reported ++ []))
      ≡ (none, chip_frame bm1370 reported ++ []))
    × (decode bm1370 (chip_frame bm1370 reported ++ []) ≡ (some reported, []))
decode_withholds_example =
    decode_withholds bm1370 0x00 reported [] (ground arith) reported-IsReportable

parse-encode_register_example :
    parse (encode_register (set_chip_address 4) []) ≡ some (set_chip_address 4)
parse-encode_register_example = parse-encode_register (set_chip_address 4) (omega arith)

encode_register_frame_lem_example :
    encode_register_frame read_id (9 ∷ [])
    ≡ (9 ∷ [])
      ++ (0x55 ∷ 0xaa ∷ (encode_register read_id [] ++ (crc5 (encode_register read_id []) ∷ [])))
encode_register_frame_lem_example = encode_register_frame_lem read_id (9 ∷ [])

abbrev word : ℕ → Bytes4
word b = record { byte0 = b; byte1 = 0; byte2 = 0; byte3 = 0 }

abbrev words : List Bytes4
words = word 1 ∷ word 2 ∷ word 3 ∷ word 4 ∷ word 5 ∷ word 6 ∷ word 7 ∷ word 8 ∷ []

abbrev sample_job : JobCommand
sample_job = job_full (record {
  job_id = 3;
  num_midstates = 1;
  starting_nonce = 0;
  nbits = 0x1703_a30c;
  ntime = 0x6600_0000;
  merkle_root = of_words words;
  prev_block_hash = of_words words;
  version = 0x2000_0000;
})

encode_job_frame_lem_example :
    encode_job_frame sample_job []
    ≡ []
      ++ (0x55 ∷ 0xaa ∷ (encode_job sample_job [] ++ be_bytes16 (crc16 (encode_job sample_job []))))
encode_job_frame_lem_example = encode_job_frame_lem sample_job []

hash_from_wire_bytes-hash_to_wire_bytes_example :
    hash_from_wire_bytes (hash_to_wire_bytes (of_words words)) ≡ of_words words
hash_from_wire_bytes-hash_to_wire_bytes_example = hash_from_wire_bytes-hash_to_wire_bytes words refl
