-- ===== src/Dsd.antt =====
-- dsd.c: the decoder of DSF and DSDIFF files, as compiled for a little-endian machine and without
-- processing. What dsd2pcm makes of bytes is an argument.
pub mod Header
pub mod Safe
pub mod Pack
pub mod Diff
pub mod Dsf
pub mod Decode
pub mod Start
pub mod NewStream
pub mod RoundTrip
mod Tests
use apple_squeezer.Prelude.{
  ℕ, ◌-◌, ◌/◌, ◌^◌, Bool, true, false, ◌&&◌, ◌||◌, not, ◌==◌, ltb, if◌then◌else◌,
}

-- `dsd_type`
pub data DsdType : Type 0 where
  unknown dsf dsdiff : DsdType

-- `dsd_format`
pub data DsdFormat : Type 0 where
  pcm dop dsd_u8 dsd_u16_le dsd_u32_le dsd_u16_be dsd_u32_be dop_s24_le dop_s24_3le : DsdFormat

-- `struct dsd`, less the state of dsd2pcm.
pub record Dsd : Type 0 where
  pub type : DsdType
  pub consume : ℕ
  pub sample_rate : ℕ
  pub channels : ℕ
  pub sample_bytes : ℕ
  pub block_size : ℕ
  pub lsb_first : Bool
  pub is_ready : Bool

abbrev pub is_dsf : DsdType → Bool
is_dsf dsf = true
is_dsf unknown = false
is_dsf dsdiff = false

abbrev pub is_dsdiff : DsdType → Bool
is_dsdiff dsdiff = true
is_dsdiff unknown = false
is_dsdiff dsf = false

abbrev pub is_unknown : DsdType → Bool
is_unknown unknown = true
is_unknown dsf = false
is_unknown dsdiff = false

-- `_valid_stream_format`; `size` is that of streambuf.
unfoldable pub valid_stream_format : ℕ → Dsd → Bool
valid_stream_format size d =
    if not (d.channels == 1) && not (d.channels == 2) || d.sample_rate == 0
    then false
    else not (
        is_dsf d.type
        && (d.block_size == 0
            || ltb ((2 ^ 32 - 1) / d.channels) d.block_size
            || ltb (size / d.channels) d.block_size))

-- `dsd_open`; `allocates` says that the two contexts and the two buffers are there.
unfoldable pub dsd_open : Bool → Dsd → Dsd
dsd_open allocates d = record {
  type = unknown;
  consume = 0;
  sample_rate = 0;
  channels = 0;
  sample_bytes = 0;
  block_size = 0;
  lsb_first = false;
  is_ready = allocates;
}

-- `dsd_close`
unfoldable pub dsd_close : Dsd → Dsd
dsd_close d = record d { is_ready = false }
