-- ===== src/Lib.antt =====
-- The protocol programs of the course projects: a file copy over UDP (p1/source) and a real-time
-- transport (p2/source), and some of the counters and tables of the overlay network that the last project
-- runs on (p4/spines-src-5.5/daemon). Each program of the projects is one loop around `select`; here its
-- variables are a record, each branch of the loop is a function from the record to the new record and the
-- messages that it sends, and the loop is a function on the list of what its rounds bring.
--
-- Parts and files:
--   Common             the shared names: Boolean tests, C arrays as lists, `int` and `long` as integers,
--                      byte buffers (`recvfrom`, `%s`, `bzero`), `double` as a parameter, what the
--                      command lines are read with (`strtok`, `atoi`, `sscanf`), and `htons`;
--   Timeval            `struct timeval`, `Cmp_time`, `Half_time`, and the macros of <sys/time.h>;
--   FileCopy/Message   the packets and limits of p1/source/net_include.h;
--   FileCopy/Receiver  p1/source/rcv.c: `check_timer` is the timer, `receive` the switch on a packet,
--                      `on_data` its last case, with `deliver_alone`, `deliver_and_drain` and
--                      `buffer_early`; `run` is the main loop;
--   FileCopy/Sender    p1/source/ncp.c: `handshake`, the first window `start`, `on_response`, `on_timeout`
--                      and their `round`;
--   FileCopy/Buffer    what `recvfrom`, `bzero` and `strlen` leave in the two programs' buffers;
--   FileCopy/Transfer  ncp.c and rcv.c with the network between them: `Step` is a round of one of the two
--                      loops, `Reach` any number of them, `begin` the state behind the first window;
--                      Transfer/Names adds repetitions of the name that arrive late (`Course`);
--   RealTime/Packet    the packets of p2/source/udp_stream_common.h;
--   RealTime/Estimator the running means of p2/source/rt_rcv.c;
--   RealTime/Receiver  p2/source/rt_rcv.c: `on_answer` and `request` make the connection, `deliver_due`
--                      hands packets over, `on_data` and `on_ackack` answer the server, and
--                      Receiver/Monitor has the statistics and reports, Receiver/Watched the
--                      main loop with them;
--   RealTime/Server    p2/source/rt_srv.c: `accept`, `on_app` for the application's data, `on_network` for
--                      the receiver's, `slide_head`, the main loop `run` and the reports;
--   RealTime/Transfer  rt_srv.c and rt_rcv.c with the network between them: `Step` is a case of the server's
--                      loop or a round of the receiver's, `begin` the state behind their connection;
--   RealTime/Delay     the one-way delay and its extremes, in `double`;
--   RealTime/Usage     `Usage` of the programs of p2/source;
--   RealTime/Bonus     p2/source/bonus: the transport for datagrams of bytes (`on_raw`, `raw`);
--   RealTime/Hosts     the addresses that these programs make of their command lines;
--   FileCopy/Usage     `Usage` of the programs of p1/source, FileCopy/Hosts their addresses;
--   FileCopy/Loss      `sendto_dbg`, through which the programs send;
--   FileCopy/Tcp       p1/source/t_ncp.c (`send_all`) and p1/source/t_rcv.c (`receive_all`, and `report` at
--                      its end);
--   RealTime/Stream    p2/source/udp_stream.c (`send_stream`, `isleep`) and udp_stream_rcv.c (`count_all`, and
--                      its loop with delays and reports in Stream/Monitor);
--   Spines/Sequence    link.c in p4/spines-src-5.5/daemon: `Relative_Position`, `Check_Link_Loss`,
--                      `Set_Loss_SeqNo`;
--   Spines/Stamp       `Link_State_LTS_cmp` of link_state.c, the comparisons of node.c;
--   Spines/Sizes       protocol.c: the sizes of headers and `Calculate_Packets_In_Message`;
--   Spines/Leg         network.c: `Network_Leg_Initial_Cost`, `Network_Leg_Set_Cost`.
-- The sender and the receiver of the file copy exchange the datagrams of FileCopy/Message: the sender
-- reads the `cack` and `nack` of the receiver's headers, the receiver the `seq` and the text of the
-- sender's. The server and the receiver of the real-time transport exchange the `Package` in the same
-- way. In FileCopy/Transfer the network keeps all that was sent, and any of it may arrive at any time,
-- more than once or never, so that loss, repetition, delay and reordering are all runs; no third
-- program sends there. So it is in RealTime/Transfer for what the server sends; what the server hears
-- is arbitrary there, since no proof needs more. ncp.c repeats the name until it is answered; such a
-- repetition may arrive during the copy (`Course`), but not behind the sender's last datagram, where
-- it would open the file again. The message buffers of ncp.c and rcv.c, which the programs do not
-- initialise, are taken to end in a NUL, since rcv.c prints them with `%s`; the window that rt_srv.c
-- takes from `malloc` is taken to be zeros, since it may be read before it is written.
--
-- What the network, the clocks, `select`, `fopen` and `read` give is an argument: a datagram or none,
-- a time, an answer. What a buffer held before is an argument too, since the programs read it.
-- Counters that only grow are natural numbers; their wrap after 2^31 packets is left out, as is that
-- of `int32_t` times. The searches of a window have as many rounds as the source's bound. Two loops
-- move their own bound: `deliver` of rt_rcv.c, whose fuel is one round for each slot of each window
-- that it can still move over, and `slide_head` of rt_srv.c, whose fuel is free. So is the fuel of
-- `send_file` and of the stream's `send_stream`; `check_link_loss` takes 30000 rounds, one for each
-- number. All answer `none` when the fuel is spent.
--
-- A `double` is a parameter with the operations that the programs use, and laws of its order where a
-- theorem needs them. The `int` products of the stream's rates, its packet numbers, and the bytes and
-- seconds of the TCP copy wrap at 2^31; the other `int`s are unbounded, and a theorem on a run that
-- would overflow one of them (the loop `slide_head` that runs on) bounds its rounds.
--
-- Not modelled: the statistics that ncp.c and rcv.c print, the calls that open sockets and files, the
-- course's examples, the other functions of the overlay network's daemon, and its libraries.
pub mod Common
pub mod Timeval
pub mod FileCopy
pub mod RealTime
pub mod Spines
