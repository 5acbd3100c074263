-- ===== src/Packet/Header.antt =====
-- `TranscationHeader` of dataDump/DDPacket.h and dataDump/DDPacket.cpp. A getter is a field.
use data_dump_protocol.Base.{ℕ, ◌&&◌, Bool, leb, if◌then◌else◌, Outcome, ok, ◌>>=◌}
use data_dump_protocol.Packet.Types.{
  MsgType, code, msg_type_of, sizeof_msg_type, sizeof_transaction_id, sizeof_blocks_per_transaction,
  sizeof_max_packet_len, sizeof_ack_timeout, sizeof_crc, sizeof_data_buffer_size,
  max_block_per_transaction_limit, min_block_per_transaction_limit,
}
use data_dump_protocol.Packet.Memory.{
  Memory, Pointer, load, store, get_word, put_word, reading, writing,
}

pub record TranscationHeader : Type 0 where
  pub msg_type : MsgType
  pub transaction_id : ℕ
  pub max_blocks_per_transaction : ℕ
  pub max_packetlen : ℕ
  pub max_ack_timeout : ℕ
  pub crc : ℕ
  pub data_buffer_size : ℕ

-- The default constructor.
abbrev pub empty_header : TranscationHeader
empty_header = record {
  msg_type = MsgType.unassigned;
  transaction_id = 0;
  max_blocks_per_transaction = 0;
  max_packetlen = 0;
  max_ack_timeout = 0;
  crc = 0;
  data_buffer_size = 0;
}

-- The constructor with values: a count of blocks outside 1..127 becomes 0.
unfoldable pub make_header : MsgType → ℕ → ℕ → ℕ → ℕ → ℕ → ℕ → TranscationHeader
make_header msg_type transaction_id crc data_buffer_size blocks max_size_of_block ack_timeout =
    record {
      msg_type = msg_type;
      transaction_id = transaction_id;
      max_blocks_per_transaction =
          if leb min_block_per_transaction_limit blocks
            && leb blocks max_block_per_transaction_limit
          then blocks
          else 0;
      max_packetlen = max_size_of_block;
      max_ack_timeout = ack_timeout;
      crc = crc;
      data_buffer_size = data_buffer_size;
    }

abbrev pub set_ack_timeout : TranscationHeader → ℕ → TranscationHeader
set_ack_timeout h v = record h { max_ack_timeout = v }

abbrev pub set_blocks_per_transaction : TranscationHeader → ℕ → TranscationHeader
set_blocks_per_transaction h v = record h { max_blocks_per_transaction = v }

abbrev pub set_crc : TranscationHeader → ℕ → TranscationHeader
set_crc h v = record h { crc = v }

abbrev pub set_max_packet_length : TranscationHeader → ℕ → TranscationHeader
set_max_packet_length h v = record h { max_packetlen = v }

abbrev pub set_msg_type : TranscationHeader → MsgType → TranscationHeader
set_msg_type h v = record h { msg_type = v }

abbrev pub set_data_buffer_size : TranscationHeader → ℕ → TranscationHeader
set_data_buffer_size h v = record h { data_buffer_size = v }

abbrev pub set_transaction_id : TranscationHeader → ℕ → TranscationHeader
set_transaction_id h v = record h { transaction_id = v }

module _ (h : TranscationHeader) (mem : Memory) (ptr : Pointer) (len : ℕ) where
  unfoldable pub bytes_to_msg_type : Outcome (Bool × TranscationHeader)
  bytes_to_msg_type =
      reading sizeof_msg_type ptr len h
        λ at_index. load mem at_index >>= λ b. ok (record h { msg_type = msg_type_of b })

  unfoldable pub bytes_to_transaction_id : Outcome (Bool × TranscationHeader)
  bytes_to_transaction_id = reading sizeof_transaction_id ptr len h λ at_index.
      get_word 32 sizeof_transaction_id mem at_index >>= λ v. ok (record h { transaction_id = v })

  unfoldable pub byte_to_block_per_transaction : Outcome (Bool × TranscationHeader)
  byte_to_block_per_transaction = reading sizeof_blocks_per_transaction ptr len h λ at_index.
      get_word 8 sizeof_blocks_per_transaction mem at_index >>= λ v.
      ok (record h { max_blocks_per_transaction = v })

  unfoldable pub byte_to_max_size_of_block : Outcome (Bool × TranscationHeader)
  byte_to_max_size_of_block = reading sizeof_max_packet_len ptr len h λ at_index.
      get_word 8 sizeof_max_packet_len mem at_index >>= λ v. ok (record h { max_packetlen = v })

  unfoldable pub byte_to_ack_timeout : Outcome (Bool × TranscationHeader)
  byte_to_ack_timeout = reading sizeof_ack_timeout ptr len h λ at_index.
      get_word 8 sizeof_ack_timeout mem at_index >>= λ v. ok (record h { max_ack_timeout = v })

  unfoldable pub byte_to_crc : Outcome (Bool × TranscationHeader)
  byte_to_crc =
      reading sizeof_crc ptr len h
        λ at_index. get_word 16 sizeof_crc mem at_index >>= λ v. ok (record h { crc = v })

  unfoldable pub byte_to_data_buffer_size : Outcome (Bool × TranscationHeader)
  byte_to_data_buffer_size = reading sizeof_data_buffer_size ptr len h λ at_index.
      get_word 8 sizeof_data_buffer_size mem at_index >>= λ v.
      ok (record h { data_buffer_size = v })

-- The switch of `msgType_to_Bytes`: its case BLOCK_ACKNOT assigns the member and writes no byte.
abbrev pub store_msg_type : Memory → ℕ → MsgType → Outcome Memory
store_msg_type mem at_index MsgType.block_acknot = ok mem
store_msg_type mem at_index t = store mem at_index (code t)

module _ (h : TranscationHeader) (mem : Memory) (ptr : Pointer) (len : ℕ) where
  unfoldable pub msg_type_to_bytes : Outcome (Bool × Memory)
  msg_type_to_bytes =
      writing sizeof_msg_type mem ptr len λ at_index. store_msg_type mem at_index h.msg_type

  unfoldable pub transaction_id_to_bytes : Outcome (Bool × Memory)
  transaction_id_to_bytes =
      writing sizeof_transaction_id mem ptr len
        λ at_index. put_word 32 sizeof_transaction_id h.transaction_id mem at_index

  unfoldable pub block_per_transaction_to_bytes : Outcome (Bool × Memory)
  block_per_transaction_to_bytes =
      writing sizeof_blocks_per_transaction mem ptr len λ at_index.
        put_word 8 sizeof_blocks_per_transaction h.max_blocks_per_transaction mem at_index

  unfoldable pub max_size_of_block_to_bytes : Outcome (Bool × Memory)
  max_size_of_block_to_bytes =
      writing sizeof_max_packet_len mem ptr len
        λ at_index. put_word 8 sizeof_max_packet_len h.max_packetlen mem at_index

  unfoldable pub ack_timeout_to_bytes : Outcome (Bool × Memory)
  ack_timeout_to_bytes =
      writing sizeof_ack_timeout mem ptr len
        λ at_index. put_word 8 sizeof_ack_timeout h.max_ack_timeout mem at_index

  unfoldable pub crc_to_bytes : Outcome (Bool × Memory)
  crc_to_bytes =
      writing sizeof_crc mem ptr len λ at_index. put_word 16 sizeof_crc h.crc mem at_index

  unfoldable pub data_buffer_size_to_bytes : Outcome (Bool × Memory)
  data_buffer_size_to_bytes =
      writing sizeof_data_buffer_size mem ptr len
        λ at_index. put_word 8 sizeof_data_buffer_size h.data_buffer_size mem at_index
