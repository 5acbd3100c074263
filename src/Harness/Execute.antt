-- ===== src/Harness/Execute.antt =====
-- One name that lets whole runs of dataDump/DDTest.cpp be computed.
use data_dump_protocol.Base.{ℕ, List, Outcome}
use data_dump_protocol.Harness.Main.{Program, Turn, take_turns}

-- The turns of the threads, with every method and callback open.
unfoldable pub execute : ℕ → List Turn → Program → Outcome Program
unfolding data_dump_protocol.DataDump.Ops.send_transaction
    data_dump_protocol.DataDump.Ops.send_block data_dump_protocol.DataDump.Ops.receive_bytes
    data_dump_protocol.DataDump.Ops.receive_transaction
    data_dump_protocol.DataDump.Ops.receive_block
    data_dump_protocol.DataDump.Ops.start_state_transition_timer
    data_dump_protocol.DataDump.Ops.stop_state_transition_timer
    data_dump_protocol.DataDump.Ops.timer_is_expired
    data_dump_protocol.DataDump.Ops.set_current_fsm_state
    data_dump_protocol.DataDump.Ops.set_next_fsm_state
    data_dump_protocol.DataDump.Ops.get_current_fsm_state
    data_dump_protocol.DataDump.Ops.get_next_fsm_state data_dump_protocol.DataDump.Shared.send_until
    data_dump_protocol.DataDump.Shared.receive_until data_dump_protocol.DataDump.Shared.consume
    data_dump_protocol.DataDump.Shared.notify data_dump_protocol.DataDump.Shared.enter_state
    data_dump_protocol.DataDump.Accept.accept_transaction
    data_dump_protocol.DataDump.Accept.accept_block data_dump_protocol.DataDump.Monad.poll
    data_dump_protocol.Server.Terms.negotiate data_dump_protocol.Server.Blocks.make_server
    data_dump_protocol.Server.Blocks.next_block data_dump_protocol.Server.States.server_idle
    data_dump_protocol.Server.States.server_request data_dump_protocol.Server.States.read_storage
    data_dump_protocol.Server.States.server_response
    data_dump_protocol.Server.States.server_initiate_block
    data_dump_protocol.Server.States.send_block_until data_dump_protocol.Server.States.settle_ack
    data_dump_protocol.Server.States.await_ack data_dump_protocol.Server.States.continue_blocks
    data_dump_protocol.Server.States.server_block data_dump_protocol.Server.States.server_terminate
    data_dump_protocol.Server.Loop.server_dispatch data_dump_protocol.Server.Loop.server_loop
    data_dump_protocol.Client.States.client_idle data_dump_protocol.Client.States.client_request
    data_dump_protocol.Client.States.client_response
    data_dump_protocol.Client.States.client_initiate_block
    data_dump_protocol.Client.States.await_block data_dump_protocol.Client.States.store_block
    data_dump_protocol.Client.States.send_ack data_dump_protocol.Client.States.await_more
    data_dump_protocol.Client.States.send_acknot data_dump_protocol.Client.States.client_block
    data_dump_protocol.Client.States.client_terminate data_dump_protocol.Client.Loop.make_client
    data_dump_protocol.Client.Loop.client_dispatch data_dump_protocol.Client.Loop.client_loop
    data_dump_protocol.Harness.World.server_send data_dump_protocol.Harness.World.server_receive
    data_dump_protocol.Harness.World.client_send data_dump_protocol.Harness.World.client_receive
    data_dump_protocol.Harness.World.server_storage_read
    data_dump_protocol.Harness.World.server_host data_dump_protocol.Harness.World.client_host
    data_dump_protocol.Harness.World.client_turn data_dump_protocol.Harness.World.paired_host
    data_dump_protocol.Harness.Main.beside_host data_dump_protocol.Harness.Main.other_turns
    data_dump_protocol.Harness.World.server_loops data_dump_protocol.Harness.Channel.channel_send
    data_dump_protocol.Harness.Channel.channel_receive data_dump_protocol.BTimer.stop
    data_dump_protocol.BTimer.start data_dump_protocol.BTimer.is_expired
    data_dump_protocol.Packet.Header.bytes_to_msg_type
    data_dump_protocol.Packet.Header.bytes_to_transaction_id
    data_dump_protocol.Packet.Header.byte_to_block_per_transaction
    data_dump_protocol.Packet.Header.byte_to_max_size_of_block
    data_dump_protocol.Packet.Header.byte_to_ack_timeout
    data_dump_protocol.Packet.Header.byte_to_crc
    data_dump_protocol.Packet.Header.byte_to_data_buffer_size
    data_dump_protocol.Packet.Header.msg_type_to_bytes
    data_dump_protocol.Packet.Header.transaction_id_to_bytes
    data_dump_protocol.Packet.Header.block_per_transaction_to_bytes
    data_dump_protocol.Packet.Header.max_size_of_block_to_bytes
    data_dump_protocol.Packet.Header.ack_timeout_to_bytes
    data_dump_protocol.Packet.Header.crc_to_bytes
    data_dump_protocol.Packet.Header.data_buffer_size_to_bytes
    data_dump_protocol.Packet.BlockHeader.get_continue_bit
    data_dump_protocol.Packet.BlockHeader.set_continue_bit
    data_dump_protocol.Packet.BlockHeader.get_frame_number
    data_dump_protocol.Packet.BlockHeader.set_frame_number
    data_dump_protocol.Packet.BlockHeader.bytes_to_msg_type
    data_dump_protocol.Packet.BlockHeader.bytes_to_block_metadata
    data_dump_protocol.Packet.BlockHeader.bytes_to_crc
    data_dump_protocol.Packet.BlockHeader.bytes_to_data_buffer_size
    data_dump_protocol.Packet.BlockHeader.msg_type_to_bytes
    data_dump_protocol.Packet.BlockHeader.block_metadata_to_bytes
    data_dump_protocol.Packet.BlockHeader.crc_to_bytes
    data_dump_protocol.Packet.BlockHeader.data_buffer_size_to_bytes
    data_dump_protocol.Packet.Transaction.set_buffer
    data_dump_protocol.Packet.Transaction.get_packet_size
    data_dump_protocol.Packet.Transaction.deserialize
    data_dump_protocol.Packet.Transaction.serialize_buffer
    data_dump_protocol.Packet.Transaction.serialize data_dump_protocol.Packet.Block.set_buffer
    data_dump_protocol.Packet.Block.get_packet_size data_dump_protocol.Packet.Block.deserialize
    data_dump_protocol.Packet.Block.serialize_buffer data_dump_protocol.Packet.Block.serialize
    data_dump_protocol.Packet.Memory.get_word data_dump_protocol.Packet.Memory.put_word
    data_dump_protocol.Harness.Main.server_turn data_dump_protocol.Harness.Main.main_turn
    data_dump_protocol.Harness.Main.main_round data_dump_protocol.Harness.Main.take_turn
    data_dump_protocol.Harness.Main.take_turns data_dump_protocol.Harness.Main.dd_test_setup
    data_dump_protocol.Client.Loop.start_new_transfer data_dump_protocol.Server.Loop.start_server
execute = take_turns
