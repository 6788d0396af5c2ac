-- ===== src/Bm13xx/Command/Parse.antt =====
-- What a chip reads off the body of a register command, written down from the frame layouts, and
-- that it reads what the host meant. A parser of its own: the source has none for this direction.
use mujina.Common.{ℕ, ◌+◌, ◌/◌, ◌%◌, ◌^◌, ◌≡◌, refl, List, [], ◌∷◌}
use mujina.Common.{Option, some, none, Result, ok, err, ◌==◌, IsByte, length}
use mujina.Common.{if◌then◌else◌, ◌&&◌}
use mujina.Bm13xx.Error.{ProtocolError}
use mujina.Bm13xx.Register
use mujina.Bm13xx.Register.{Register, RegisterAddress, address_u8, address_of_u8}
use mujina.Bm13xx.Register.RoundTrip.{address_of_u8-address_u8, encode-wire, decode-wire}
use mujina.Bm13xx.Command.{
  RegisterCommand, set_chip_address, chain_inactive, read_register, write_register, Destination,
  broadcast, chip, encode_register,
}

-- The frame's destination, from the broadcast flag and the address byte.
destination : ℕ → ℕ → Destination
destination flags address = if flags / 2 ^ 4 % 2 == 1 then broadcast else chip address

of_register : Destination → Result ProtocolError Register → Option RegisterCommand
of_register d (ok r) = some (write_register d r)
of_register d (err e) = none

of_address : Destination → Option RegisterAddress → List ℕ → Option RegisterCommand
of_address d (some a) [] = some (read_register d a)
of_address d (some a) (b0 ∷ b1 ∷ b2 ∷ b3 ∷ []) =
    of_register d (Register.decode a (record { byte0 = b0; byte1 = b1; byte2 = b2; byte3 = b3 }))
of_address d _ _ = none

-- The low four bits of the flags are the command; bits 5 and 6 hold 2 in a register command.
pub parse : List ℕ → Option RegisterCommand
unfolding destination of_register of_address
parse (flags ∷ len ∷ address ∷ reg ∷ rest) =
    if (flags / 2 ^ 5 == 2) && (len == length rest + 5)
    then (if flags % 2 ^ 4 == 0
        then some (set_chip_address address)
        else if flags % 2 ^ 4 == 3
        then some chain_inactive
        else of_address (destination flags address) (address_of_u8 reg) rest)
    else none
parse _ = none

-- The fields of a command fit the bytes that carry them.
abbrev pub IsEncodable : RegisterCommand → Type 0
IsEncodable (set_chip_address a) = IsByte a
IsEncodable chain_inactive = Unit {0}
IsEncodable (read_register d a) = Unit {0}
IsEncodable (write_register d r) = Register.IsCanonical r

-- A command whose fields fit their bytes is read back, by a parser for the chip's side, from the
-- bytes that the host encodes it as.
pub parse-encode_register :
    (c : RegisterCommand) → IsEncodable c → parse (encode_register c []) ≡ some c
unfolding parse encode_register
parse-encode_register (set_chip_address a) h = refl
parse-encode_register chain_inactive h = refl
parse-encode_register (read_register broadcast a) h = rw (address_of_u8-address_u8 a)
parse-encode_register (read_register (chip n) a) h = rw (address_of_u8-address_u8 a)
parse-encode_register (write_register broadcast r) h =
    rw (encode-wire r _, address_of_u8-address_u8 (Register.address r), decode-wire r h)
parse-encode_register (write_register (chip n) r) h =
    rw (encode-wire r _, address_of_u8-address_u8 (Register.address r), decode-wire r h)
