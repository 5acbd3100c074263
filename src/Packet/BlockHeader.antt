-- ===== src/Packet/BlockHeader.antt =====
-- `blockHeader` of dataDump/DDPacket.h and dataDump/DDPacket.cpp. A plain getter is a field.
use data_dump_protocol.Base.{
  ℕ, ◌*◌, ◌/◌, ◌^◌, ◌-◌, bit_and, bit_or, Bool, Outcome, ok, ◌>>=◌, ◌==◌, if◌then◌else◌,
}
use data_dump_protocol.Packet.Types.{
  MsgType, msg_type_of, ContinueBit, bit, u8, sizeof_msg_type, sizeof_block_metadata, sizeof_crc,
  sizeof_data_buffer_size,
}
use data_dump_protocol.Packet.Memory.{Memory, Pointer, load, get_word, put_word, reading, writing}
use data_dump_protocol.Packet.Header.{store_msg_type}

pub record BlockHeader : Type 0 where
  pub msg_type : MsgType
  pub block_metadata : ℕ
  pub crc : ℕ
  pub data_buffer_size : ℕ

abbrev pub empty_block_header : BlockHeader
empty_block_header = record {
  msg_type = MsgType.unassigned;
  block_metadata = 0;
  crc = 0;
  data_buffer_size = 0;
}

-- `msbPos`, and `~(1<<msbPos)` cut to a byte.
abbrev pub msb_pos : ℕ
msb_pos = sizeof_block_metadata * 8 - 1

abbrev pub below_msb : ℕ
below_msb = 255 - 2 ^ msb_pos

unfoldable pub make_block_header : MsgType → ℕ → ContinueBit → ℕ → ℕ → BlockHeader
make_block_header msg_type frame_number continue_bit crc data_buffer_size = record {
  msg_type = msg_type;
  block_metadata = u8 (bit_or (bit continue_bit * 2 ^ msb_pos) frame_number);
  crc = crc;
  data_buffer_size = data_buffer_size;
}

unfoldable pub get_continue_bit : BlockHeader → ContinueBit
get_continue_bit h =
    if h.block_metadata / 2 ^ msb_pos == 0
    then ContinueBit.terminate_transfer
    else ContinueBit.continue_transfer

unfoldable pub set_continue_bit : BlockHeader → ContinueBit → BlockHeader
set_continue_bit h continue_bit = record h {
  block_metadata =
      u8 (bit_or (bit_and h.block_metadata below_msb) (bit continue_bit * 2 ^ msb_pos));
}

unfoldable pub get_frame_number : BlockHeader → ℕ
get_frame_number h = bit_and h.block_metadata below_msb

-- The old frame number is not cleared first.
unfoldable pub set_frame_number : BlockHeader → ℕ → BlockHeader
set_frame_number h frame_number = record h {
  block_metadata = u8 (bit_or h.block_metadata (bit_and frame_number below_msb));
}

abbrev pub set_msg_type : BlockHeader → MsgType → BlockHeader
set_msg_type h v = record h { msg_type = v }

abbrev pub set_data_buffer_size : BlockHeader → ℕ → BlockHeader
set_data_buffer_size h v = record h { data_buffer_size = v }

abbrev pub set_crc : BlockHeader → ℕ → BlockHeader
set_crc h v = record h { crc = v }

abbrev pub set_block_metadata : BlockHeader → ℕ → BlockHeader
set_block_metadata h v = record h { block_metadata = v }

module _ (h : BlockHeader) (mem : Memory) (ptr : Pointer) (len : ℕ) where
  unfoldable pub bytes_to_msg_type : Outcome (Bool × BlockHeader)
  bytes_to_msg_type =
      reading sizeof_msg_type ptr len h
        λ at_index. load mem at_index >>= λ b. ok (record h { msg_type = msg_type_of b })

  unfoldable pub bytes_to_block_metadata : Outcome (Bool × BlockHeader)
  bytes_to_block_metadata = reading sizeof_block_metadata ptr len h λ at_index.
      get_word 8 sizeof_block_metadata mem at_index >>= λ v. ok (record h { block_metadata = v })

  unfoldable pub bytes_to_crc : Outcome (Bool × BlockHeader)
  bytes_to_crc =
      reading sizeof_crc ptr len h
        λ at_index. get_word 16 sizeof_crc mem at_index >>= λ v. ok (record h { crc = v })

  unfoldable pub bytes_to_data_buffer_size : Outcome (Bool × BlockHeader)
  bytes_to_data_buffer_size = reading sizeof_data_buffer_size ptr len h λ at_index.
      get_word 8 sizeof_data_buffer_size mem at_index >>= λ v.
      ok (record h { data_buffer_size = v })

module _ (h : BlockHeader) (mem : Memory) (ptr : Pointer) (len : ℕ) where
  unfoldable pub msg_type_to_bytes : Outcome (Bool × Memory)
  msg_type_to_bytes =
      writing sizeof_msg_type mem ptr len λ at_index. store_msg_type mem at_index h.msg_type

  unfoldable pub block_metadata_to_bytes : Outcome (Bool × Memory)
  block_metadata_to_bytes =
      writing sizeof_block_metadata mem ptr len
        λ at_index. put_word 8 sizeof_block_metadata h.block_metadata mem at_index

  unfoldable pub crc_to_bytes : Outcome (Bool × Memory)
  crc_to_bytes =
      writing sizeof_crc mem ptr len λ at_index. put_word 16 sizeof_crc h.crc mem at_index

  unfoldable pub data_buffer_size_to_bytes : Outcome (Bool × Memory)
  data_buffer_size_to_bytes =
      writing sizeof_data_buffer_size mem ptr len
        λ at_index. put_word 8 sizeof_data_buffer_size h.data_buffer_size mem at_index
