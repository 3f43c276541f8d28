-- ===== src/Lib.antt =====
-- canok_rtsp_client: a client that asks an RTSP server for a video stream, receives it as RTP packets
-- over UDP, and hands out the H.264 NAL units in it.
--
-- The parts of the program modelled here, all under my_rtsp_client/, and how they work together:
--   test_main.cpp opens a session, takes 300 frames from it, writes them to a file and ends the session.
--   cRTSPClient, the session, connects to the server over TCP and sends OPTIONS, DESCRIBE, SETUP and PLAY,
--   one after the other; what the replies say goes into the next request. After DESCRIBE it creates a
--   cRTPClient, after SETUP it connects its UDP socket, after PLAY it starts its threads. Calls for frames
--   are passed on to the cRTPClient.
--   cRTSPprotocol puts the lines of an RTSP request into a buffer, and takes the server's replies apart:
--   response code, headers, the session description, the parameters of a Transport header.
--   cRTPClient runs two threads. `read_thread` pushes datagrams into the network queue; `parse_thread`
--   borrows one packet after another from it with `getbuffer`, checks the RTP header, passes the payload
--   to a cH264RTP, and gives the slot back with `releasebuffer`. The cH264RTP puts NAL units together
--   from FU-A fragments and pushes them into the frame queue, from which the user of the library borrows
--   them. Both queues are objects of the class CQueue.
--
-- The files:
--   Base        shared names: lists and tests on native numbers, C's `int` (Base.Int), memcpy with its
--               faults (Base.Memory), outcomes of a call (Base.Outcome), what holds of a call that returns
--               (Base.Returns), bit operations (Base.Bits)
--   Macros      my_rtsp_client/com_debug.h: return codes, LEFT_CHAR_BIT_GET, LITTLE_MAKE_UNINT16 and _32
--   Queue       my_rtsp_client/com_queue.h and com_queue.cpp: the class CQueue. `create` is the
--               constructor; `push`, `pop`, `getbuffer` and `releasebuffer` are the methods, and
--               `add_in_index`, `add_out_index`, `increase_effectives` and `reduce_effectives` the private
--               ones. Queue.Frames is the abstract queue, Queue.Valid the invariant, Queue.Refine each
--               method against the abstract queue, Queue.Calls sequences of calls, Queue.Held lent slots
--   H264        my_rtsp_client/cH264RTP.h, cH264RTP.cpp and cRTPParse.h: the class cH264RTP, with
--               `get_nal_type`, `parse_fu_a` (parse_FU_A) and `parse_payload`. H264.Reassembly and
--               H264.Safety hold the theorems, H264.Fragments the packets of RFC 6184
--   RtpClient   my_rtsp_client/cRTPClient.h and cRTPClient.cpp: `set_header_info`, `check_header`,
--               `parse`, a round of `read_thread` (`read_step`), and the frame interface. Header is about
--               the header's bytes, Loss about mlostCount, Parse, Pass and Single about one round of
--               `parse_thread`, Stream and Reassembly about many, Reader about `read_thread`. Lifecycle has
--               `rtp_init`, `rtp_deinit`, `rtp_start`, `rtp_stop`, `rtp_getUDPPort` and `rtp_UDPConnect`;
--               Threads has the loops of `read_thread` and `parse_thread` and a call of `rtp_stop` as steps of
--               three threads
--   Text        C strings, and the parts of strncasecmp and sscanf that the program uses; Text.Print has
--               numbers in decimal, as snprintf prints them
--   Protocol    my_rtsp_client/cRTSPprotocol.h and cRTSPprotocol.cpp. The request buffer (`begain_cmd`,
--               `add_line_cmd`, `end_cmd`) with Buffer and Build; Lines has `getLine`, `checkForHeader` and
--               `parseResponseCode`; Sdp has `parseSDPLine`, `catchVideoMedinSession` and `parseSDP`;
--               Transport has `parseTransportParams`; Reply has `parse`
--   Net         my_rtsp_client/com_net.h and com_net.cpp: `udp_net_setup`, `udp_connect`,
--               `udp_get_port`, `tcp_net_conncet`, reads, writes, and `increase_receive_buffer_to`,
--               over a kernel that is a parameter. Net.Open is about descriptors, Net.Buffer about the
--               receive buffer's size, Net.Observed about what a view of the system sees of a call,
--               Net.Willing about a system that refuses nothing
--   Pcap        my_rtsp_client/Pcapfile.h and Pcapfile.cpp: `init`, `getLittleData` and `getFrames` on a file
--               that is a list of bytes. Records is about one packet, Playback about a whole file
--   RtspClient  my_rtsp_client/cRTSPClient.h and cRTSPClient.cpp. `parse_rtsp_url`, with Url about the
--               URLs that it takes and Address about what it stores; Text.Scans has the conversions of
--               sscanf on such text. Session has the object's state and `rtsp_request`, with Exchange
--               about what a request sends and keeps, Pieces, Answers and Setup about its reply;
--               Requests has the methods `request_` and `after_` of each request
--               (`request_describe_media`, `request_setup_video`, `request_play_stream`,
--               `request_pause_stream` and `request_teardown_stream` are request_describe,
--               request_setup, request_play, request_pause and request_teardown); Api has the public
--               methods. Api.Order is about what a session has sent, Api.Success about when it
--               succeeds, Api.Idle and Api.Fails about the threads that a failed `api_init` leaves, Api.End about
--               `api_deinit` after it. World and Runs run a whole session on a small
--               system
--   TestMain    my_rtsp_client/test_main.cpp: `main`, with the file as the bytes written to it. Frames is
--               about what the loop writes
--
-- How the code is modelled. A method is a function from the object's state to an outcome: `done` with a
-- result and the state after, `waits` with the state in which the thread sleeps (a locked mutex, a
-- semaphore at 0), or `fault` for undefined behaviour such as a copy out of bounds or of a negative
-- length. Bytes are natural numbers; an `int` is a mathematical integer, since every length and count
-- in the code stays far below 2 ^ 31. The bytes that malloc leaves in new memory are arguments. One
-- call on a queue runs at a time; interleavings of threads are sequences of whole calls. The system
-- (sockets, the log's opening, threads) is a record of functions on a state of its own, `Kernel` in
-- Net, and a parameter of all that calls it; laws that a theorem needs are the records `Quiet` and
-- `Fixed` in Net.Observed, `Willing` in Net.Willing and `Descriptors` in Net.Open; what is asked of a
-- server is `Obliging` in RtspClient.Api.Steps. A pointer into a C string is the list of the bytes up
-- to its end, and `getLine`, which overwrites a line end with 0, returns the line and the rest.
--
-- Fuel. The loops over text in Sdp, Transport and Reply run on fuel: one round for each byte of the
-- text and one more, since every round goes on by a byte at least. `try_sizes` in Net has one round for
-- each byte of the size asked for, since each round tries a smaller size; for the 2000000 bytes of
-- `rtp_init` too. Running out of fuel is no result. `get_frames` in Pcap has one round for each jump
-- back to the start of the file.
--
-- Not modelled: interleavings of threads inside a call on a queue, the closing of a capture file, debug
-- output, destructors that only free memory, `findBlankLine`, which only a disabled block calls, the
-- branches that the preprocessor leaves out, and memwatch, a third-party memory checker.
pub mod Base
pub mod H264
pub mod Macros
pub mod Net
pub mod Pcap
pub mod Protocol
pub mod Queue
pub mod RtpClient
pub mod RtspClient
pub mod TestMain
pub mod Text
