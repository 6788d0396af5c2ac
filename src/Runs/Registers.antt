-- ===== src/Runs/Registers.antt =====
-- Registers of mujina-miner/src/asic/bm13xx/register.rs written and read.
use mujina.Common.{◌≡◌, refl, arith, [], ◌∷◌, ◌++◌, true, ok}
use mujina.Common.Words.{Bytes4, to_list, to_be_bytes}
use mujina.Bm13xx.Register.{Register, address, encode, decode, at_chip_id, chip_id, uart_baud}
use mujina.Bm13xx.Register.ChipModel.{bm1370, try_from}
use mujina.Bm13xx.Register.ChipId
use mujina.Bm13xx.Register.UartBaud
use mujina.Bm13xx.Register.RoundTrip.{encode-decode, decode-encode, kept}

abbrev id_answer : Bytes4
id_answer = record { byte0 = 0x13; byte1 = 0x70; byte2 = 0x00; byte3 = 0x04 }

abbrev id_register : Register
id_register = chip_id (record { model = bm1370; unknown = 0; address = 4 })

decode_id : decode at_chip_id id_answer ≡ ok id_register
unfolding decode ChipId.decode try_from
decode_id = refl

encode-decode_example :
    (address id_register ≡ at_chip_id)
    × (encode id_register [] ≡ [] ++ to_list (kept at_chip_id id_answer))
encode-decode_example = encode-decode at_chip_id id_answer id_register [] (omega arith) decode_id

abbrev baud : Register
baud = uart_baud (record { divider = 2; bit28 = true; unexplained = 0x0130_0000 })

decode-encode_example :
    (b : Bytes4) × (encode baud (7 ∷ []) ≡ (7 ∷ []) ++ to_list b)
    × (decode (address baud) b ≡ ok baud)
decode-encode_example =
    decode-encode baud (7 ∷ []) (record { bound_divider = omega arith; masked_unexplained = refl })

encode-baud : encode baud [] ≡ 0x11 ∷ 0x30 ∷ 0x02 ∷ 0x00 ∷ []
unfolding encode UartBaud.encode UartBaud.to_word to_be_bytes
encode-baud = refl
