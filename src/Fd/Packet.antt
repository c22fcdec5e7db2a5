-- ===== src/Fd/Packet.antt =====
-- `FdPacket` and its two readers: `FdLedgerService.normalizePacket` of fd-ledger.service.ts and
-- `coerceFdPacket` of fd-packet.ts. An amount is a count of hundredths of a rupee.
use pft_backend.Prelude.{ℕ, ◌/◌, Bool, true, false, not, ◌||◌, Option, none, some, if◌then◌else◌}
use pft_backend.Prelude.Action.{Result, ok, err}
use pft_backend.Prelude.Value.{
  Number, Value, Fields, number, text, codes, trim, is_empty, is_finite, is_integer, is_negative,
  is_positive, is_zero, hundredths, to_number, get_field, as_object,
}
use pft_backend.Errors.{Error, fd_not_object, fd_not_number, fd_half_zero, fd_negative_scalar}

pub record FdPacket : Type 0 where
  pub amount : ℕ
  pub quantity : ℕ

abbrev pub empty_packet : FdPacket
empty_packet = record { amount = 0; quantity = 0 }

abbrev differs : Bool → Bool → Bool
differs true b = not b
differs false b = b

-- The checks that both readers make of the two fields.
unfoldable pub checked_packet : Number → Number → Result Error FdPacket
checked_packet amount quantity =
    if not (is_finite amount)
      || is_negative amount
      || not (is_integer quantity)
      || is_negative quantity
    then err fd_not_number
    else if differs (is_zero amount) (is_zero quantity)
    then err fd_half_zero
    else ok (record { amount = hundredths amount; quantity = hundredths quantity / 100 })

abbrev pub packet_of_fields : Option Fields → Result Error FdPacket
packet_of_fields none = err fd_not_object
packet_of_fields (some row) =
    checked_packet (to_number (get_field (codes "amount") row))
      (to_number (get_field (codes "quantity") row))

unfoldable pub normalize_packet : Value → Result Error FdPacket
normalize_packet value = packet_of_fields (as_object value)

abbrev pub from_scalar : Number → Result Error FdPacket
from_scalar amount =
    if not (is_finite amount) || is_negative amount
    then err fd_negative_scalar
    else ok (record { amount = hundredths amount; quantity = if is_positive amount then 1 else 0 })

unfoldable pub coerce_fd_packet : Value → Result Error FdPacket
coerce_fd_packet (number n) = from_scalar n
coerce_fd_packet (text s n) = if is_empty (trim s) then err fd_not_object else from_scalar n
coerce_fd_packet value = packet_of_fields (as_object value)
