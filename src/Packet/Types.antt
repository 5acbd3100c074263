-- ===== src/Packet/Types.antt =====
-- The enumerations and field sizes of dataDump/DDPacket.h.
use data_dump_protocol.Base.{ℕ, ◌%◌, ◌^◌, ◌==◌, if◌then◌else◌}

-- `msgType_e`
pub data MsgType : Type 0 where
  unassigned request response initiate_block_transfer block_transfer block_ack block_acknot :
      MsgType

-- The number of an enumerator, as in `(uint8_t)msgType`.
abbrev pub code : MsgType → ℕ
code MsgType.unassigned = 0
code MsgType.request = 1
code MsgType.response = 2
code MsgType.initiate_block_transfer = 3
code MsgType.block_transfer = 4
code MsgType.block_ack = 5
code MsgType.block_acknot = 6

-- The `switch(ptr[0])` of both `bytes_to_MsgType`.
abbrev pub msg_type_of : ℕ → MsgType
msg_type_of b =
    if b == 1
    then MsgType.request
    else if b == 2
    then MsgType.response
    else if b == 3
    then MsgType.initiate_block_transfer
    else if b == 4
    then MsgType.block_transfer
    else if b == 5
    then MsgType.block_ack
    else if b == 6
    then MsgType.block_acknot
    else MsgType.unassigned

-- `continueBit_e`
pub data ContinueBit : Type 0 where
  terminate_transfer continue_transfer : ContinueBit

abbrev pub bit : ContinueBit → ℕ
bit ContinueBit.terminate_transfer = 0
bit ContinueBit.continue_transfer = 1

-- `sizeof` of the field types.
abbrev pub sizeof_msg_type : ℕ
sizeof_msg_type = 1

abbrev pub sizeof_transaction_id : ℕ
sizeof_transaction_id = 4

abbrev pub sizeof_blocks_per_transaction : ℕ
sizeof_blocks_per_transaction = 1

abbrev pub sizeof_max_packet_len : ℕ
sizeof_max_packet_len = 1

abbrev pub sizeof_ack_timeout : ℕ
sizeof_ack_timeout = 1

abbrev pub sizeof_crc : ℕ
sizeof_crc = 2

abbrev pub sizeof_block_metadata : ℕ
sizeof_block_metadata = 1

abbrev pub sizeof_data_buffer_size : ℕ
sizeof_data_buffer_size = 1

abbrev pub max_block_per_transaction_limit : ℕ
max_block_per_transaction_limit = 127

abbrev pub min_block_per_transaction_limit : ℕ
min_block_per_transaction_limit = 1

-- Conversion to `uint8_t`.
abbrev pub u8 : ℕ → ℕ
u8 n = n % 2 ^ 8
