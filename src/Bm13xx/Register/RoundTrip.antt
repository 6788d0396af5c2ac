-- ===== src/Bm13xx/Register/RoundTrip.antt =====
-- Reading and writing any register: the bytes on the wire and the typed value determine each other.
use mujina.Common.{ℕ, ◌≡◌, refl, ap, ◌∙◌, List, ◌++◌, arith, ok, some, bit_and}
use mujina.Common.{inl, inr, Result-cases}
use mujina.Common.Words.{Bytes4, AreBytes, to_list}
use mujina.Bm13xx.Register.{
  RegisterAddress, Register, address_u8, address_of_u8, decode, address, encode, wire, IsCanonical,
  at_chip_id, at_pll_divider, at_hash_counting_number, at_ticket_mask, at_misc_control,
  at_uart_baud, at_uart_relay, at_core_mailbox, at_analog_mux, at_io_driver_strength,
  at_ring_osc_pad_disable, at_midstate_config, at_soft_reset_control, at_adc_ctrl1, chip_id,
  pll_divider, hash_counting_number, ticket_mask, misc_control, uart_baud, uart_relay, core_mailbox,
  analog_mux, io_driver_strength, ring_osc_pad_disable, midstate_config, soft_reset_control,
  adc_ctrl1,
}
use mujina.Bm13xx.Register.ChipId
use mujina.Bm13xx.Register.PllDivider
use mujina.Bm13xx.Register.HashCountingNumber
use mujina.Bm13xx.Register.TicketMask
use mujina.Bm13xx.Register.MiscControl
use mujina.Bm13xx.Register.UartBaud
use mujina.Bm13xx.Register.UartRelay
use mujina.Bm13xx.Register.CoreCommand
use mujina.Bm13xx.Register.AnalogMux
use mujina.Bm13xx.Register.IoDriverStrength
use mujina.Bm13xx.Register.RingOscPadDisable
use mujina.Bm13xx.Register.MidstateConfig
use mujina.Bm13xx.Register.SoftResetControl
use mujina.Bm13xx.Register.AdcCtrl1

pub address_of_u8-address_u8 : (a : RegisterAddress) → address_of_u8 (address_u8 a) ≡ some a
unfolding address_of_u8 address_u8
address_of_u8-address_u8 at_chip_id = refl
address_of_u8-address_u8 at_pll_divider = refl
address_of_u8-address_u8 at_hash_counting_number = refl
address_of_u8-address_u8 at_ticket_mask = refl
address_of_u8-address_u8 at_misc_control = refl
address_of_u8-address_u8 at_uart_baud = refl
address_of_u8-address_u8 at_uart_relay = refl
address_of_u8-address_u8 at_core_mailbox = refl
address_of_u8-address_u8 at_analog_mux = refl
address_of_u8-address_u8 at_io_driver_strength = refl
address_of_u8-address_u8 at_ring_osc_pad_disable = refl
address_of_u8-address_u8 at_midstate_config = refl
address_of_u8-address_u8 at_soft_reset_control = refl
address_of_u8-address_u8 at_adc_ctrl1 = refl

-- `encode` appends the four bytes.
pub encode-wire : (r : Register) (dst : List ℕ) → encode r dst ≡ dst ++ to_list (wire r)
unfolding encode wire
encode-wire (chip_id r) dst = ChipId.encode-wire r dst
encode-wire (pll_divider r) dst = PllDivider.encode-wire r dst
encode-wire (hash_counting_number r) dst = unfold HashCountingNumber.encode in refl
encode-wire (ticket_mask r) dst = unfold TicketMask.encode in refl
encode-wire (misc_control r) dst = unfold MiscControl.encode in refl
encode-wire (uart_baud r) dst = unfold UartBaud.encode in refl
encode-wire (uart_relay r) dst = unfold UartRelay.encode in refl
encode-wire (core_mailbox r) dst = unfold CoreCommand.encode in refl
encode-wire (analog_mux r) dst = unfold AnalogMux.encode in refl
encode-wire (io_driver_strength r) dst = unfold IoDriverStrength.encode in refl
encode-wire (ring_osc_pad_disable r) dst = unfold RingOscPadDisable.encode in refl
encode-wire (midstate_config r) dst = unfold MidstateConfig.encode in refl
encode-wire (soft_reset_control r) dst = unfold SoftResetControl.encode in refl
encode-wire (adc_ctrl1 r) dst = unfold AdcCtrl1.encode in refl

-- What is encoded is decoded at its address.
pub decode-wire : (r : Register) → IsCanonical r → decode (address r) (wire r) ≡ ok r
unfolding decode address wire
decode-wire (chip_id r) c = rw (ChipId.decode-wire r)
decode-wire (pll_divider r) c = ap (λ x. ok (pll_divider x)) (PllDivider.decode-wire r)
decode-wire (hash_counting_number r) c =
    ap (λ x. ok (hash_counting_number x)) (HashCountingNumber.decode-wire r c)
decode-wire (ticket_mask r) c = ap (λ x. ok (ticket_mask x)) (TicketMask.decode-wire r c)
decode-wire (misc_control r) c = ap (λ x. ok (misc_control x)) (MiscControl.decode-wire r c)
decode-wire (uart_baud r) c = ap (λ x. ok (uart_baud x)) (UartBaud.decode-wire r c)
decode-wire (uart_relay r) c = ap (λ x. ok (uart_relay x)) (UartRelay.decode-wire r c)
decode-wire (core_mailbox r) c = ap (λ x. ok (core_mailbox x)) (CoreCommand.decode-wire r c)
decode-wire (analog_mux r) c = ap (λ x. ok (analog_mux x)) (AnalogMux.decode-wire r c)
decode-wire (io_driver_strength r) c =
    ap (λ x. ok (io_driver_strength x)) (IoDriverStrength.decode-wire r c)
decode-wire (ring_osc_pad_disable r) c =
    ap (λ x. ok (ring_osc_pad_disable x)) (RingOscPadDisable.decode-wire r)
decode-wire (midstate_config r) c =
    ap (λ x. ok (midstate_config x)) (MidstateConfig.decode-wire r c)
decode-wire (soft_reset_control r) c =
    ap (λ x. ok (soft_reset_control x)) (SoftResetControl.decode-wire r c)
decode-wire (adc_ctrl1 r) c = ap (λ x. ok (adc_ctrl1 x)) (AdcCtrl1.decode-wire r)

-- The bytes that a register keeps: all but the low half of the first byte of a PLL_DIVIDER.
unfoldable pub kept : RegisterAddress → Bytes4 → Bytes4
kept at_pll_divider b = record b { byte0 = bit_and b.byte0 0xf0 }
kept _ b = b

module _ (b : Bytes4) (h : AreBytes b) (r : Register) where
  read : (a : RegisterAddress) → decode a b ≡ ok r → (address r ≡ a) × (wire r ≡ kept a b)
  unfolding decode address wire kept
  read at_chip_id e = elim (Result-cases (ChipId.decode b)) [
    | inl (x, p) ↦ ground (arith, ChipId.wire-decode b x p)
    | inr (x, p) ↦ ground arith
  ]
  read at_pll_divider e = ground (arith, PllDivider.wire-decode b h)
  read at_hash_counting_number e = ground (arith, HashCountingNumber.wire-decode b h)
  read at_ticket_mask e = ground (arith, TicketMask.wire-decode b h)
  read at_misc_control e = ground (arith, MiscControl.wire-decode b h)
  read at_uart_baud e = ground (arith, UartBaud.wire-decode b h)
  read at_uart_relay e = ground (arith, UartRelay.wire-decode b h)
  read at_core_mailbox e = ground (arith, CoreCommand.wire-decode b h)
  read at_analog_mux e = ground (arith, AnalogMux.wire-decode b h)
  read at_io_driver_strength e = ground (arith, IoDriverStrength.wire-decode b h)
  read at_ring_osc_pad_disable e = ground (arith, RingOscPadDisable.wire-decode b)
  read at_midstate_config e = ground (arith, MidstateConfig.wire-decode b h)
  read at_soft_reset_control e = ground (arith, SoftResetControl.wire-decode b h)
  read at_adc_ctrl1 e = ground (arith, AdcCtrl1.wire-decode b)

-- A register that was read is written back, at the address it was read from, as the bytes that it
-- was read as, whatever the address and the bytes; only a PLL_DIVIDER loses
-- the four low bits of its first byte, which are bits 27 to 24 of the register.
pub encode-decode :
    (a : RegisterAddress) (b : Bytes4) (r : Register) (dst : List ℕ)
    → AreBytes b
    → decode a b ≡ ok r
    → (address r ≡ a) × (encode r dst ≡ dst ++ to_list (kept a b))
encode-decode a b r dst h e =
    let (at, bytes) = read b h r a e in (at, encode-wire r dst ∙ ap (λ w. dst ++ to_list w) bytes)

-- A register whose fields fit their bits is read back as it was written, from the four bytes that
-- its encoding appends and at its own address.
pub decode-encode :
    (r : Register) (dst : List ℕ)
    → IsCanonical r
    → (b : Bytes4) × (encode r dst ≡ dst ++ to_list b) × (decode (address r) b ≡ ok r)
decode-encode r dst c = (wire r, encode-wire r dst, decode-wire r c)
