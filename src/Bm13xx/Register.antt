-- ===== src/Bm13xx/Register.antt =====
-- mujina-miner/src/asic/bm13xx/register.rs: the registers of a chip as typed values. Each register
-- is a child of its own, with `encode`, `decode`, the four bytes `wire` that `encode` appends, and
-- its laws; here they are one type behind one address each.
pub mod ChipModel
pub mod ChipId
pub mod PllDivider
pub mod HashCountingNumber
pub mod TicketMask
pub mod MiscControl
pub mod UartBaud
pub mod UartRelay
pub mod CoreRegister
pub mod CoreCommand
pub mod AnalogMux
pub mod IoDriverStrength
pub mod RingOscPadDisable
pub mod MidstateConfig
pub mod SoftResetControl
pub mod AdcCtrl1
pub mod RoundTrip
use mujina.Common.{
  ℕ, ◌≡◌, refl, List, ◌==◌, Option, some, none, if◌then◌else◌, Result, ok, err, ◌>>=◌,
}
use mujina.Common.Words.{Bytes4}
use mujina.Bm13xx.Error.{ProtocolError}

-- `RegisterAddress`, a `u8` by its discriminants. The type `Register` carries the same names.
pub data RegisterAddress : Type 0 where
  at_chip_id : RegisterAddress
  at_pll_divider : RegisterAddress
  at_hash_counting_number : RegisterAddress
  at_ticket_mask : RegisterAddress
  at_misc_control : RegisterAddress
  at_uart_baud : RegisterAddress
  at_uart_relay : RegisterAddress
  at_core_mailbox : RegisterAddress
  at_analog_mux : RegisterAddress
  at_io_driver_strength : RegisterAddress
  at_ring_osc_pad_disable : RegisterAddress
  at_midstate_config : RegisterAddress
  at_soft_reset_control : RegisterAddress
  at_adc_ctrl1 : RegisterAddress

unfoldable pub address_u8 : RegisterAddress → ℕ
address_u8 at_chip_id = 0x00
address_u8 at_pll_divider = 0x08
address_u8 at_hash_counting_number = 0x10
address_u8 at_ticket_mask = 0x14
address_u8 at_misc_control = 0x18
address_u8 at_uart_baud = 0x28
address_u8 at_uart_relay = 0x2C
address_u8 at_core_mailbox = 0x3C
address_u8 at_analog_mux = 0x54
address_u8 at_io_driver_strength = 0x58
address_u8 at_ring_osc_pad_disable = 0x68
address_u8 at_midstate_config = 0xA4
address_u8 at_soft_reset_control = 0xA8
address_u8 at_adc_ctrl1 = 0xB9

-- `RegisterAddress::try_from`, of the derive `TryFromPrimitive`.
unfoldable pub address_of_u8 : ℕ → Option RegisterAddress
address_of_u8 b =
    if b == 0x00
    then some at_chip_id
    else if b == 0x08
    then some at_pll_divider
    else if b == 0x10
    then some at_hash_counting_number
    else if b == 0x14
    then some at_ticket_mask
    else if b == 0x18
    then some at_misc_control
    else if b == 0x28
    then some at_uart_baud
    else if b == 0x2C
    then some at_uart_relay
    else if b == 0x3C
    then some at_core_mailbox
    else if b == 0x54
    then some at_analog_mux
    else if b == 0x58
    then some at_io_driver_strength
    else if b == 0x68
    then some at_ring_osc_pad_disable
    else if b == 0xA4
    then some at_midstate_config
    else if b == 0xA8
    then some at_soft_reset_control
    else if b == 0xB9
    then some at_adc_ctrl1
    else none

pub data Register : Type 0 where
  chip_id : ChipId.ChipId → Register
  pll_divider : PllDivider.PllDivider → Register
  hash_counting_number : HashCountingNumber.HashCountingNumber → Register
  ticket_mask : TicketMask.TicketMask → Register
  misc_control : MiscControl.MiscControl → Register
  uart_baud : UartBaud.UartBaud → Register
  uart_relay : UartRelay.UartRelay → Register
  core_mailbox : CoreCommand.CoreCommand → Register
  analog_mux : AnalogMux.AnalogMux → Register
  io_driver_strength : IoDriverStrength.IoDriverStrength → Register
  ring_osc_pad_disable : RingOscPadDisable.RingOscPadDisable → Register
  midstate_config : MidstateConfig.MidstateConfig → Register
  soft_reset_control : SoftResetControl.SoftResetControl → Register
  adc_ctrl1 : AdcCtrl1.AdcCtrl1 → Register

unfoldable pub decode : RegisterAddress → Bytes4 → Result ProtocolError Register
decode at_chip_id bytes = do r ← ChipId.decode bytes; ok (chip_id r)
decode at_pll_divider bytes = ok (pll_divider (PllDivider.decode bytes))
decode at_hash_counting_number bytes = ok (hash_counting_number (HashCountingNumber.decode bytes))
decode at_ticket_mask bytes = ok (ticket_mask (TicketMask.decode bytes))
decode at_misc_control bytes = ok (misc_control (MiscControl.decode bytes))
decode at_uart_baud bytes = ok (uart_baud (UartBaud.decode bytes))
decode at_uart_relay bytes = ok (uart_relay (UartRelay.decode bytes))
decode at_core_mailbox bytes = ok (core_mailbox (CoreCommand.decode bytes))
decode at_analog_mux bytes = ok (analog_mux (AnalogMux.decode bytes))
decode at_io_driver_strength bytes = ok (io_driver_strength (IoDriverStrength.decode bytes))
decode at_ring_osc_pad_disable bytes = ok (ring_osc_pad_disable (RingOscPadDisable.decode bytes))
decode at_midstate_config bytes = ok (midstate_config (MidstateConfig.decode bytes))
decode at_soft_reset_control bytes = ok (soft_reset_control (SoftResetControl.decode bytes))
decode at_adc_ctrl1 bytes = ok (adc_ctrl1 (AdcCtrl1.decode bytes))

unfoldable pub address : Register → RegisterAddress
address (chip_id _) = at_chip_id
address (pll_divider _) = at_pll_divider
address (hash_counting_number _) = at_hash_counting_number
address (ticket_mask _) = at_ticket_mask
address (misc_control _) = at_misc_control
address (uart_baud _) = at_uart_baud
address (uart_relay _) = at_uart_relay
address (core_mailbox _) = at_core_mailbox
address (analog_mux _) = at_analog_mux
address (io_driver_strength _) = at_io_driver_strength
address (ring_osc_pad_disable _) = at_ring_osc_pad_disable
address (midstate_config _) = at_midstate_config
address (soft_reset_control _) = at_soft_reset_control
address (adc_ctrl1 _) = at_adc_ctrl1

unfoldable pub encode : Register → List ℕ → List ℕ
encode (chip_id r) dst = ChipId.encode r dst
encode (pll_divider r) dst = PllDivider.encode r dst
encode (hash_counting_number r) dst = HashCountingNumber.encode r dst
encode (ticket_mask r) dst = TicketMask.encode r dst
encode (misc_control r) dst = MiscControl.encode r dst
encode (uart_baud r) dst = UartBaud.encode r dst
encode (uart_relay r) dst = UartRelay.encode r dst
encode (core_mailbox r) dst = CoreCommand.encode r dst
encode (analog_mux r) dst = AnalogMux.encode r dst
encode (io_driver_strength r) dst = IoDriverStrength.encode r dst
encode (ring_osc_pad_disable r) dst = RingOscPadDisable.encode r dst
encode (midstate_config r) dst = MidstateConfig.encode r dst
encode (soft_reset_control r) dst = SoftResetControl.encode r dst
encode (adc_ctrl1 r) dst = AdcCtrl1.encode r dst

-- The four bytes that `encode` appends.
pub wire : Register → Bytes4
wire (chip_id r) = ChipId.wire r
wire (pll_divider r) = PllDivider.wire r
wire (hash_counting_number r) = HashCountingNumber.wire r
wire (ticket_mask r) = TicketMask.to_wire_bytes r
wire (misc_control r) = MiscControl.wire r
wire (uart_baud r) = UartBaud.wire r
wire (uart_relay r) = UartRelay.wire r
wire (core_mailbox r) = CoreCommand.wire r
wire (analog_mux r) = AnalogMux.wire r
wire (io_driver_strength r) = IoDriverStrength.wire r
wire (ring_osc_pad_disable r) = RingOscPadDisable.wire r
wire (midstate_config r) = MidstateConfig.wire r
wire (soft_reset_control r) = SoftResetControl.wire r
wire (adc_ctrl1 r) = AdcCtrl1.wire r

-- The values that fit their four bytes.
abbrev pub IsCanonical : Register → Type 0
IsCanonical (chip_id r) = ChipId.IsCanonical r
IsCanonical (pll_divider r) = PllDivider.IsCanonical r
IsCanonical (hash_counting_number r) = HashCountingNumber.IsCanonical r
IsCanonical (ticket_mask r) = TicketMask.IsCanonical r
IsCanonical (misc_control r) = MiscControl.IsCanonical r
IsCanonical (uart_baud r) = UartBaud.IsCanonical r
IsCanonical (uart_relay r) = UartRelay.IsCanonical r
IsCanonical (core_mailbox r) = CoreCommand.IsCanonical r
IsCanonical (analog_mux r) = AnalogMux.IsCanonical r
IsCanonical (io_driver_strength r) = IoDriverStrength.IsCanonical r
IsCanonical (ring_osc_pad_disable r) = RingOscPadDisable.IsCanonical r
IsCanonical (midstate_config r) = MidstateConfig.IsCanonical r
IsCanonical (soft_reset_control r) = SoftResetControl.IsCanonical r
IsCanonical (adc_ctrl1 r) = AdcCtrl1.IsCanonical r
