-- ===== src/Vita49/Types/Indicators.antt =====
-- Reading the trailer, which is also the context packet's state indicator word.
use fers.Base.{ℕ, ◌^◌, ◌<◌, ◌≡◌, Bool, arith}
use fers.Base.Bits.{bit, low_bits}
use fers.Vita49.Types.{make_trailer}
use fers.Vita49.Types.Header.{bit_of}

pub record TrailerFields (w : ℕ) (valid calibrated locked over_range sample_loss : Bool)
    : Type 0 where
  pub fits : w < 2 ^ 32
  pub calibrated_enable : bit w 31 ≡ 1
  pub valid_enable : bit w 30 ≡ 1
  pub locked_enable : bit w 29 ≡ 1
  pub over_range_enable : bit w 28 ≡ 1
  pub sample_loss_enable : bit w 27 ≡ 1
  pub calibrated_bit : bit w 15 ≡ bit_of calibrated
  pub valid_bit : bit w 14 ≡ bit_of valid
  pub locked_bit : bit w 13 ≡ bit_of locked
  pub over_range_bit : bit w 12 ≡ bit_of over_range
  pub sample_loss_bit : bit w 11 ≡ bit_of sample_loss
  pub others_clear : low_bits w 11 ≡ 0

-- Every trailer enables all five indicators, and shows each by the bit of its own, whatever the
-- other four are.
pub make_trailer-TrailerFields :
    (valid calibrated locked over_range sample_loss : Bool)
    → TrailerFields
        (make_trailer valid calibrated locked over_range sample_loss)
        valid
        calibrated
        locked
        over_range
        sample_loss
unfolding make_trailer
make_trailer-TrailerFields valid calibrated locked over_range sample_loss = ground arith
