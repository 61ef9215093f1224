-- ===== src/Lib.antt =====
-- MessengerWalkieTalkie, a chat server and a desktop client over TCP, in C++ with Qt.
--
-- The client (Client/) and the server (Server/) exchange JSON objects in frames of
-- [4 bytes size][payload][4 bytes CRC32] (Shared/transportprotocol.h). On top of the frames each end
-- numbers the packets that it tracks, acknowledges the numbered packets of the other, drops those
-- whose number it has passed, and sends again what is not acknowledged (Server/connection.cpp,
-- Client/networkclient.cpp with Client/networktransportstate.cpp). The server authenticates users
-- (Server/serverstorage.cpp), keeps which user is online on which connection (Server/server.cpp) and
-- limits how often a user or a peer may ask (Server/ratelimiter.cpp). The client turns packets into
-- signals (Client/networkpacketdispatcher.cpp) and keeps where in its flow it is
-- (Client/clientflowstate.cpp) and the messages of its chats (Client/chatstate.cpp). Messages and the
-- last session are kept in a local file (Client/historystore.cpp). The chat window
-- (Client/chatwindow.cpp) works on the chats, the file and the network client; the flow controller
-- (Client/clientflowcontroller.cpp) decides which window is shown and what is kept of the session.
--
-- The files:
--   Prelude            names of the libraries, tests, lists, texts, integers, bits, QHash (Dict)
--   Shared/Json        QJsonObject and the accessors of QJsonValue, with toLongLong of a decimal text
--   Shared/Auth        Shared/authprotocol.h
--   Shared/Frame       Shared/transportprotocol.h: crc32, encodePacket, tryDecode
--   Shared/ReadLoop    the loop over tryDecode in Connection::onReadyRead, NetworkClient::onReadyRead
--   Shared/Retry       Connection::checkPendingMessages, collectTrackedRetryActions
--   Server/Logger      Server/logger.cpp: the log, its rotation and the lines that wait to be written
--   Server/Life        start, stop and onNewConnection of Server/server.cpp
--   Server/RateLimiter Server/ratelimiter.cpp
--   Server/Connection  Server/connection.cpp: a slot is a function to a state and a list of effects
--   Server/Sessions    the maps of Server/server.cpp and the methods that write them
--   Server/Crypto      the hashes of Server/serverstorage.cpp
--   Server/Storage     Server/serverstorage.cpp: accounts and sessions, and in Messages the messages
--   Server/Handlers    Server/server.cpp: Authentication (register, login, resume_session, logout),
--                      Chat (the other packets), Routing (onPacketReceived and the other slots)
--   Client/Transport   Client/networktransportstate.cpp
--   Client/Dispatcher  Client/networkpacketdispatcher.cpp
--   Client/Network     Client/networkclient.cpp
--   Client/FlowState   Client/clientflowstate.cpp, LastSessionInfo of Client/historystore.h
--   Client/ChatState   Client/chatstate.cpp, ChatMessage of Client/historystore.h; Calls has the calls
--                      of its methods
--   Client/HistoryStore  Client/historystore.cpp, and in Refinement what it is meant to keep
--   Client/ChatWindow  Client/chatwindow.cpp: Slots, and in Steps what can happen to the window
--   Client/FlowController Client/clientflowcontroller.cpp with the labels of
--                      Client/connectionwindow.cpp and Client/loginwindow.cpp: Handlers, Steps
--   Link               a server connection and a client together
--   Tests              the theorems at concrete inputs
--
-- State is a record, a method is a function from the state to the state; what a method writes, emits
-- or asks of Qt comes back as a list of effects in the order of the code. Clocks, random bytes and
-- identifiers are arguments. Numbers are ℕ, with the wrap of quint32 written out; times are
-- milliseconds after the epoch. A QHash is an association list. Qt itself is a parameter:
-- QString::trimmed is `trimmed`, QJsonDocument is `JsonCodec`, and SHA-256 with the hexadecimal and
-- decimal conversions is `Digest`, and the order of names that ignores case is `folded_before`.
--
-- The read loop runs on fuel, one round more than the buffer has bytes, which is enough since each
-- turn that goes on takes a byte off the buffer. The loop of derivePbkdf2 runs one round for each
-- byte of the key, since a block is not empty.
--
-- A table of SQLite is an association list by its primary key. Each statement may fail: the database
-- carries the answers to the statements to come. A handler of the server gives back what it queues for
-- connections.
--
-- A widget is what the code reads of it: the texts of a list and its current one, the text of a label
-- or a field, whether it is shown or enabled. A signal that the network client emits within a call of
-- the flow controller is handled within that call, one that it emits to a handler of its own is an
-- event of its own; whether the socket tells of its end within a call is an argument.
--
-- Not modelled: the layout of the windows (buildUi of Client/chatwindow.cpp and the constructors of
-- Client/loginwindow.cpp and Client/connectionwindow.cpp), the format of the lines of a chat, message
-- boxes and the main programs, which are calls of Qt; the worker threads (Server/worker.cpp); opening a
-- database and the creation of the tables; the rows of packets without an id, whose null text Qt binds
-- as NULL (Server/serverstorage.cpp), so that an id is a text that is there; what the server writes to its log, where it only reports.
pub mod Prelude
pub mod Shared
pub mod Server
pub mod Client
pub mod Link
pub mod Tests
