-- ===== src/Lib.antt =====
-- A verification library for linux-dev-framework, a library of C utilities for Linux
-- (libs/app_utils) with small programs that use it (simple_apps, apps, misc).
--
-- The parts that are modelled, and where:
--
--   PcQueue      libs/app_utils/src/pc_queue.c, the ring of a producer and a consumer. PcQue holds
--                the fields of t_pc_que, its pointers as indices into p_at_entries. The two calls
--                return none when they would read outside the array.
--   ListHead     libs/app_utils/api/list.h, circular lists in a memory of next and prev pointers.
--   Mm           libs/app_utils/src/mm.c, pools of buffers. They are lists of ListHead, with the
--                headers of 32 bytes before each buffer; alloc_buffer is split where it takes the
--                lock, so that two threads can be interleaved there.
--   Net          libs/app_utils/src/net.c and api/net.h: checksums of IPv4, TCP, UDP, ICMP, IGMP
--                and IPv6, frames with VLAN tags and fragments, lengths, names, addresses as
--                texts, the description of a packet. A packet is an address in a memory of bytes, and
--                the target is little-endian.
--   StringUtils  libs/app_utils/src/string_utils.c and api/string_utils.h. A string is the list of
--                its characters; an array keeps what it held behind them.
--   Editor       simple_apps/vi_style_input_test.c, a line editor on insert_char and delete_char of
--                StringUtils. Its state is t_edit_ctx, and what is written to the terminal.
--   Telnetd      libs/app_utils/src/telnetd4dbg.c, the debug telnet server: remove_iacs on what the
--                client sends, the history, read_input and login_auth by the events of the reads,
--                trans_data_pty2sock, which uses str_replace_substr of StringUtils, and the sessions: the
--                rounds of misc_thread_func by what select, accept and socketpair give, between the
--                steps of the shell thread; its loop gives the typed lines to Symbols.
--   IoUtils      libs/app_utils/src/io_utils.c, write_certain_bytes and read_certain_bytes by what the
--                system calls give, one after the other.
--   Config       libs/app_utils/src/config_file_ops.c, the lines of a configuration file, and
--                its variables with their backup.
--   Guard        simple_apps/guard.c, which starts programs and restarts those that end. The table
--                is read from Config; the kernel is a record of fork, waitpid, kill, nano_sleep and
--                reboot on a state of the world, and Guard.Tables has what is relied on of them.
--   Symbols      libs/app_utils/src/symbol_utils.c: the table of symbols from the lines of nm, and
--                the commands of the debug shell on the memory of Net, and the dump of memory.
--   Log          libs/app_utils/src/log.c: the files in the order of their creation, by name.
--   Audio        apps/data_in_audio: the bytes and bits of a file that is sent as sound.
--   Draws        simple_apps/fucai_3d.c, which counts the draws of three digits.
--   PeerServer   simple_apps/p2p_server.c, which tells two users the address of each other. Its lists
--                are lists of requests in the order of their links, and a request has the number
--                of the buffer that it stands in.
--   MiscUtils    libs/app_utils/src/misc_utils.c, the directory of the program and the wait for a file, by
--                what readlink and stat give.
--   Base         the names and lemmas that the others share.
--
-- Numbers are natural numbers, and a machine word keeps its wrap-around written out. Functions and
-- fields have their names in the source; __list_add is list_add_between and __list_del is
-- list_del_between. Children of a module hold its specification and its theorems, Tests its
-- examples.
--
-- Loops without a bound that the data gives run on fuel: list_for_each and for_each_buf_in_all_link
-- on the number of nodes, replace_from and remove_loop on the length of the input, rows of the dump
-- on the number of bytes, which the theorems show to be enough; the digits of a number on the number
-- itself in decimal and on 16 in hexadecimal, as a word has. fold runs on the well-founded order of the numbers.
--
-- Parameters that stand for code elsewhere: malloc, by whether it gives a block and what it held;
-- strtol of net.c, by what it reads; inet_addr; dlsym; the system calls of Guard; the results of
-- read, write, open, select and the sound device, as data. What the C library does to texts (strtok,
-- strchr, atoi, strtol) is in Base.
--
-- Not modelled: the sockets, devices, signals and processes behind the wrappers of system calls;
-- the memory order between the threads of pc_queue.c; what telnetd4dbg.c echoes; the
-- floating-point arithmetic of the tones in apps/data_in_audio; the kernel modules and the test programs.
pub mod Base
pub mod PcQueue
pub mod ListHead
pub mod Mm
pub mod Net
pub mod StringUtils
pub mod Editor
pub mod Telnetd
pub mod IoUtils
pub mod Config
pub mod Guard
pub mod Symbols
pub mod Log
pub mod Audio
pub mod Draws
pub mod PeerServer
pub mod MiscUtils
