-- ===== src/Lib.antt =====
-- e-transfer: the programs etc (client) and etd (daemon), which copy files from one machine to
-- another. A client asks a server for a place to write (requestFileWrite) and a server for a file to
-- read (requestFileRead); one server then sends the bytes to the data server of the other, or gets
-- them from it, over a TCP or UDT connection.
--
-- Parts, and where they stand:
-- - Fd: src/etdc_fd.h, the table of functions etdc_fd that every file and socket is.
-- - Files: src/etdc_fd.h (open_file, etdc_file) and src/etdc_fd.cc (setup_basic_fns): real files, with
--   the directories above them. The system calls are the record Os, a parameter.
-- - DevZero: src/etdc_fd.h and src/etdc_fd.cc, devzeronull: /dev/null and /dev/zero:<size>.
-- - Path: src/etdc_fd.cc, normalize_path, dirname, basename. Each regular expression is a function on
--   bytes.
-- - Text: src/etdc_stringutil.h: comparison without regard to upper and lower case, and string_split.
-- - OpenMode: src/etdc_etd_state.h (openmode_type) and the options of src/etc.cc that choose one.
-- - State: src/etdc_etd_state.h, the map of transfers (emplace, find, erase) that all servers of a
--   daemon share. Keys are uuids, in their order as texts.
-- - Server: src/etdc_etdserver.cc, ETDServer: request_file_write (requestFileWrite), request_file_read
--   (requestFileRead), data_channel_addr (dataChannelAddr), remove_uuid (removeUUID). Each is one
--   function on the state, since each holds the mutex of the state. Server.Listing: listPath, with
--   glob(3) as a parameter.
-- - Exchange: src/etdc_etdserver.cc, sendFile and getFile: their loops over the bytes, the headers they
--   write, and the calls around them.
-- - Copy: src/etdc_etdserver.cc, ETDDataServer::push_n and pull_n, the loops of the other end.
-- - Client: src/etc.cc, the loop of the client over the files, and src/etdc_etdserver.h, the interface
--   of a server (ServerInterface) that it calls. Client.Program: main around that loop, from the URLs
--   on: the choice of the servers, the listing, the checks, push or pull, the wildcard addresses.
-- - Url: src/etc.cc, rxURL and str2url_type: what a text on the command line of the client says.
-- - Listen: src/etd.cc, rxURL and string2socket_type_m: an address that the daemon listens on.
-- - Wire: src/etdc_etdserver.cc, the lines between ETDServerWrapper and ETDProxy: getReplies, and the
--   replies to a list command, as they are written and as listPath reads them.
-- - Address: src/etdc_fd.h (bracket, unbracket, port, operator<<) and src/etdc_etdserver.cc
--   (decode_data_addr): the text of the address of a data channel.
-- - Proxy: src/etdc_etdserver.cc, ETDProxy: its read loops, what it makes of a line, and (Proxy.Requests)
--   its requests, ask_list_path (listPath) and so on.
-- - Command: src/etdc_etdserver.cc, the line that each request sends, and the expressions that
--   ETDServerWrapper::handle matches it with.
-- - Wrapper: src/etdc_etdserver.cc, ETDServerWrapper::handle, over EtdServerInterface, which is
--   ETDServerInterface of src/etdc_etdserver.h with the calls that the wrapper makes.
-- - Remote: ETDProxy and ETDServerWrapper together. Served is a connection with a wrapper at its other
--   end; Remote.Loopback is one.
-- - KeyValue: src/etdc_etdserver.cc (getKeyValuePairs) and src/utilities.h (find_value, no_duplicates):
--   the pairs of a key and a value in a command of a data connection.
-- - DataServer: src/etdc_etdserver.cc, ETDDataServer::handle: the command "{ key:value, ... }", the lock of
--   its transfer, and the copy.
-- - Threads: src/etdc_etd_state.h, the threads that etd_state counts, and src/etd.cc, the cancel flag.
-- - Daemon: src/etd.cc, command_server_thread and data_server_thread, which go through the same points,
--   and main, which starts them and cancels them. A Move is one step of main or of one thread between
--   two accesses to what they share; a schedule is a list of moves. What the other side lets a blocking
--   call do is an Event; accept on a descriptor that a cancellation closed fails.
-- - Sockets: src/etdc_resolve.h (resolve_host), src/etdc_fd.cc (the constructors of the sockets) and
--   src/etdc_fd.h (mk_server and mk_client with settings): the calls of the system and of the UDT library,
--   which are parameters, in their order.
-- - Uuid: src/etdc_uuid.h, the making of a uuid from random numbers.
-- - Common: lists, options, tests, results; Failure names each assertion that can fail.
--
-- How they interact: a server holds an etdc_fd for each transfer, made by Files or DevZero from a path
-- that Path has normalized; Exchange and Copy move bytes between an etdc_fd and a connection, which is
-- one too. The world that an etdc_fd acts on is a type parameter W, passed through; Copy.Channel says
-- what the loops rely on of read(2) and write(2), by two logs. A mutex is a flag: an attempt to lock
-- that fails gives `again`, for the loops that sleep and start over.
--
-- Bounds: size_t and off_t are 64 bits, and their wrap-around is written out, but for positions in
-- files, where off_t is an integer without bound. The loops over n bytes run on fuel n: each round
-- moves a byte at least. The loop of normalize_path runs on the length of the path: each pass but the
-- last makes it shorter. The read loops of proxy, wrapper and data server run on fuel: as many rounds
-- as bytes are on their way, and one, are enough for a reply; the others end only with the connection.
--
-- Not modelled: the UDT library and the command line parser (libudt4hv, argparse11), which the model takes
-- as parameters or leaves out, as it does the wrappers of system calls; of the sockets (src/etdc_fd.cc,
-- src/etdc_fd.h) the default settings and the functions of an accepted one; of the main programs
-- (src/etc.cc, src/etd.cc) the options, privileges, daemonizing and signal handling; logging and the
-- other template utilities. The service of a client is one point of a thread in Daemon. The text of error
-- messages is left out, or a parameter where the wrapper sends it.
pub mod Common
pub mod Fd
pub mod Copy
pub mod Text
pub mod Path
pub mod DevZero
pub mod Files
pub mod OpenMode
pub mod State
pub mod Server
pub mod Exchange
pub mod Client
pub mod Threads
pub mod Wire
pub mod Uuid
pub mod Address
pub mod Proxy
pub mod Command
pub mod Wrapper
pub mod Remote
pub mod DataServer
pub mod KeyValue
pub mod Daemon
pub mod Url
pub mod Listen
pub mod Sockets
