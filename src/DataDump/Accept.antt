-- ===== src/DataDump/Accept.antt =====
-- What both `receive` of dataDump/DDBase.cpp do with the bytes that have come in.
use data_dump_protocol.Base.{ℕ, some, ltb, ◌==◌, if◌then◌else◌, Outcome, ok, ◌>>=◌}
use data_dump_protocol.Crc16.{crc16_generate}
use data_dump_protocol.Packet.Types.{MsgType, code}
use data_dump_protocol.Packet.Memory.{Memory, load}
use data_dump_protocol.Packet.Transaction
use data_dump_protocol.Packet.Transaction.{TransactionPacket}
use data_dump_protocol.Packet.Block
use data_dump_protocol.Packet.Block.{BlockTxRxPacket}

-- The type byte is compared first, then the packet is read and its check sum compared.
unfoldable pub accept_transaction :
    TransactionPacket → MsgType → ℕ → Memory → Outcome (ℕ × TransactionPacket)
accept_transaction packet msg_type len buffer =
    if ltb 0 len
    then (load buffer 0 >>= λ first.
        if first == code msg_type
        then (Transaction.deserialize packet buffer (some 0) len >>= λ r.
            ok (if r.1.header.crc == crc16_generate first len then len else 0, r.1))
        else ok (0, packet))
    else ok (len, packet)

unfoldable pub accept_block : BlockTxRxPacket → MsgType → ℕ → Memory → Outcome (ℕ × BlockTxRxPacket)
accept_block packet msg_type len buffer =
    if ltb 0 len
    then (load buffer 0 >>= λ first.
        if first == code msg_type
        then (Block.deserialize packet buffer (some 0) len >>= λ r.
            ok (if r.1.header.crc == crc16_generate first len then len else 0, r.1))
        else ok (0, packet))
    else ok (len, packet)
