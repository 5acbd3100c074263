-- ===== src/Examples/Machine.antt =====
-- The theorems on server and client, at the sample objects.
use data_dump_protocol.Base.{◌≡◌, ◌≤◌, ◌⊎◌, refl, List, [], ◌∷◌, true, ok, arith, length}
use data_dump_protocol.Packet.Header.{TranscationHeader}
use data_dump_protocol.Packet.Block.{BlockTxRxPacket}
use data_dump_protocol.DataDump.State.{FsmState}
use data_dump_protocol.DataDump.Phase.{Leaves}
use data_dump_protocol.Server.Terms.{negotiate, negotiate_lem}
use data_dump_protocol.Server.Segments.{Carried, segments, segments_lem}
use data_dump_protocol.Server.States.{settle_ack}
use data_dump_protocol.Server.Settle.{Settled, settle_ack_lem}
use data_dump_protocol.Server.Loop.{server_dispatch}
use data_dump_protocol.Server.Steady.{ServerEdge}
use data_dump_protocol.Server.Edges.{server_dispatch-ServerEdge}
use data_dump_protocol.Client.States.{store_block}
use data_dump_protocol.Client.Storage.{with_stored, store_block_lem}
use data_dump_protocol.Client.Loop.{client_dispatch}
use data_dump_protocol.Client.Steady.{ClientEdge}
use data_dump_protocol.Client.Edges.{client_dispatch-ClientEdge}
use data_dump_protocol.Transfer.{line_host, download, messages, transfer_lem}
use data_dump_protocol.Examples.Samples.{
  two_bytes, block, request, request_header, server, server-IsReady, server-IsEnough, client,
  client-HasRoom, keep, give, line, idle_line,
}

segments_lem_example : Carried 2 1 8 0 server
segments_lem_example = segments_lem 2 1 8 0 server server-IsReady server-IsEnough

transfer_lem_example :
    (bs : List BlockTxRxPacket) × (segments 3 server ≡ ok bs)
    × (download line_host (length bs) client (messages bs)
        ≡ ok (true, with_stored client 1 (1 ∷ 2 ∷ 3 ∷ 4 ∷ 5 ∷ 6 ∷ 7 ∷ 8 ∷ []), []))
transfer_lem_example =
    transfer_lem server client 0 8 1 2 1 11 server-IsReady server-IsEnough client-HasRoom
      (omega arith) (omega arith)

store_block_lem_example :
    store_block line_host 7 block client [] ≡ ok (true, with_stored client 1 two_bytes, [])
store_block_lem_example =
    store_block_lem line_host client [] 1 11 7 block two_bytes client-HasRoom (omega arith) refl
      refl (omega arith)

settle_ack_lem_example :
    Settled
      (line keep)
      give
      (record client { internal_buffer_len = 2 })
      idle_line
      1
      true
      (settle_ack (line keep) request (record client { internal_buffer_len = 2 }) idle_line)
settle_ack_lem_example =
    settle_ack_lem (line keep) give (record client { internal_buffer_len = 2 }) idle_line 1 request
      refl refl (omega arith)

server_dispatch-ServerEdge_example :
    Leaves
      (λ d'.
        (d'.current_state ≡ FsmState.block)
        × ((d'.next_state ≡ FsmState.block)
            ⊎ ServerEdge FsmState.block FsmState.block d'.next_state))
      (server_dispatch (line keep) 3 FsmState.block server idle_line)
server_dispatch-ServerEdge_example =
    server_dispatch-ServerEdge (line keep) 3 FsmState.block server idle_line

client_dispatch-ClientEdge_example :
    Leaves
      (λ d'.
        (d'.current_state ≡ FsmState.block)
        × ((d'.next_state ≡ FsmState.block)
            ⊎ ClientEdge FsmState.block FsmState.block d'.next_state))
      (client_dispatch (line keep) 3 FsmState.block client idle_line)
client_dispatch-ClientEdge_example =
    client_dispatch-ClientEdge (line keep) 3 FsmState.block client idle_line

abbrev offer : TranscationHeader
offer = record request_header { max_blocks_per_transaction = 9; max_ack_timeout = 8 }

negotiate_lem_example :
    let terms = negotiate request_header offer in
    (terms.max_blocks_per_transaction ≤ 35)
    × (terms.max_blocks_per_transaction ≤ 9)
    × (terms.max_packetlen ≤ 12)
    × (terms.max_packetlen ≤ 12)
    × (5 ≤ terms.max_ack_timeout)
    × (8 ≤ terms.max_ack_timeout)
    × (terms.transaction_id ≡ 4660)
negotiate_lem_example = negotiate_lem request_header offer
