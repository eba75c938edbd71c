-- ===== src/Lib.antt =====
-- ServerIList: a server for shopping lists that groups of users share.
--
-- A client sends texts such as `@101|name|password||` over a socket. Server (ServerIList/Server.cpp)
-- puts them into a queue; Manager (ServerIList/Manager.cpp) takes them out one at a time, parses them
-- (ServerIList/Parser.cpp), and serves each on a thread that it joins at once, by calls of Users,
-- PublicGroup, PublicLists and Restore, which keep their data in an SQLite database. The answers go to
-- the sockets of the users who are online; for the others they are stored in the database.
--
-- Where to find what:
--   * Config: the message codes and FIND_MSG_CODE of ServerIList/Config.h. Config/Search has the lemmas
--     on it, Config/Codes compares its table with the codes that are defined.
--   * Exception: the classes of ServerIList/Exception.h, and how a call ends.
--   * Action: the monad of calls that change the state and may fail; Action/Keeps: what calls keep;
--     Action/Commutes: what passes by them.
--   * World: the state of all the parts: the database, the maps of Users, the two mutexes, the cursors
--     of Restore, the sockets and the queue of Server, the slots of Manager.
--   * Messages: class Message of ServerIList/Message.cpp.
--   * Parser: the constructor of Parser, with split and same_char_in_a_row (the latter as
--     `Text.has_double`). Parser/Safety, Parser/Spelling and Parser/RoundTrip have the lemmas on it.
--   * Database: DataBase::query of ServerIList/Database.cpp; Database/Creation: SqlQuerys of
--     ServerIList/Database.h and the constructor; Database/Print: the printers; Database/Clock: the date;
--     Database/Permissions: class Permissions; Database/Mutex: the mutex `mtx` of PublicGroup and the
--     one of PublicLists.
--   * Users: ServerIList/Users.cpp. Users/Online is about the two maps, Users/Accounts and Users/Entry
--     are about the accounts.
--   * Groups: ServerIList/PublicGroup.cpp. Groups/Spec has the calls on tables, Groups/Refinement and
--     Groups/Lookups lead from the one to the other, and the other children say what the calls do.
--   * Lists: ServerIList/PublicLists.cpp, with children of the same kinds.
--   * Session: calls of Users, PublicGroup and PublicLists one after another. Session/Refinement leads
--     to the tables; Session/Foreign, Session/Rooted, Session/Tables, Session/Calls and Session/Invariant
--     are about the groups that members and items belong to.
--   * History: the same with createGroup. History/Lists, History/Alike and History/Books are about the
--     tables; History/Misuse, History/Carries, History/FreeCalls, History/GroupCalls, History/Shows,
--     History/OtherCalls, History/Creation and History/Room about what each call does to them, whatever
--     the state of the mutexes; History/Replies and History/Answers about who is answered;
--     History/Outcomes about the calls on consistent tables.
--   * Packets: ServerIList/UsersPackets.cpp.
--   * Restore: ServerIList/Restore.cpp. Restore/Loops, Restore/Round and Restore/Build are about its loops,
--     Restore/Rendering has the text that is to come out, Restore/Frame says what they leave alone.
--   * Server: the steps of ServerIList/Server.cpp. Server/Sockets is about the connected sockets,
--     Server/Buffer about the buffer of recvFunction; Server/Setup: run, listenFunction and
--     acceptFunction; Server/Threads: the threads that run acceptFunction, recvFunction and
--     getLastPacket, as steps in any order, with Server/Threads/Invariant, Server/Threads/Stall and
--     Server/Threads/Faults about them.
--   * Manager: how ServerIList/Manager.cpp puts texts together and sends them, with Manager/Delivery
--     about who gets them; Manager/Handlers: each case of code_handler, and the guard before the switch,
--     with Manager/Access and Manager/Takeover about who may send what, and Manager/Telling, Manager/Requests and
--     Manager/ListRequests about the messages that change a list, from end to end, and Manager/Orders,
--     Manager/Literals, Manager/Arrival, Manager/Cases, Manager/Obeying, Manager/Closing,
--     Manager/Welcome, Manager/Inviting, Manager/Joining and Manager/GroupRequests about those that
--     change a group, Manager/Restoring about those that ask for a restore;
--     Manager/Threads: message_handler, with Manager/Serve about how a message is served;
--     Manager/Race: a round of threads_handler with the handler that it starts, as steps in any order;
--     Manager/Start: the constructors.
--   * Console: the loop of ServerIList/Program.cpp over the commands that are typed.
--   * Sqlite: what is relied on of the SQLite library. Sqlite/Schema has the tables, Sqlite/Language the
--     statements that the program sends with their texts and answers, Sqlite/Effect what they do to the
--     tables, Sqlite/Spelled which arguments are literals, Sqlite/Refines the refinement of a call with
--     queries by a call on tables, and Sqlite/Follows the same from one state. Sqlite/Arranged is about
--     the order of rows. Sqlite/Toy is an engine for the runs in Tests.
--   * Text, Text/Number, Text/Split, Map, Prelude: strings as lists of bytes, stoi and to_string, maps,
--     and what all the modules share. Tests: runs, and the theorems at concrete inputs.
--
-- How the code is read:
--   * A text is a list of bytes. Texts that come from the network hold no null byte, so that the
--     c_str of a query is the query.
--   * The SQLite library is a parameter, an `Engine`: a function from a text and a state to what
--     sqlite3_prepare and sqlite3_step give. `Implements` says that it behaves as documented on the
--     statements of the program, when the arguments are spelled so that they are the literals they seem
--     to be (no quote in a quoted text, a numeral where a number stands). The program splices group
--     codes without quotes, so for other codes nothing is claimed. The order of the rows of a SELECT
--     that may give several is left open, as SQLite leaves it without ORDER BY: it may differ from
--     statement to statement and from state to state.
--   * An exception is an outcome. The throw() specifications of the headers are taken as the Visual
--     C++ compiler takes them: exceptions propagate. An index past the end of a vector is an outcome
--     too, `out_of_bounds`, which nothing catches.
--   * A mutex records whether it is held and whether it was ever unlocked when not held, which C++
--     leaves undefined. A lock of a held mutex is the outcome `deadlock`. The outcomes of single calls
--     say when such an unlock happens; what the calls after it do is described as if nothing had come
--     of it, and that every call is answered is claimed only where there is none.
--   * operator[] of a map inserts the default value at a missing key.
--   * An int has 32 bits, and the sum in incItem wraps. stoi gives none for what it throws on.
--   * Messages are served one after another, because threads_handler joins each thread. The new
--     thread and the one that starts it race for the slot, and Manager/Race has their steps; a handler
--     that is served alone is in Manager/Serve.
--   * In Server/Threads a step is what a thread does between two calls of a mutex or a condition
--     variable. Whether a wait may also end by itself is a parameter, and each theorem says which of
--     the two it is about. What the code does without the lock that it needs is taken as atomic. A step
--     that C++ leaves undefined has no state after it.
--   * What Winsock and localtime_s answer is given to Server/Setup and Database/Clock.
--   * A session is of the calls that change rows but createGroup, whose code depends on the tables; a
--     history has createGroup too.
--
-- Fuel: FIND_MSG_CODE halves the table of N codes and is given N + 1 rounds. `show_digits` is given
-- n + 1 rounds for n, one more than its digits. The loops of Restore are given the number of rows that
-- they run over, and each round takes one.
--
-- Not modelled: the messages that Server prints on the console, the destructors, the empty class of
-- ServerIList/AES.cpp, and sqlite3.h, which is a third party's.
mod Prelude
pub mod Text
pub mod Exception
pub mod Action
pub mod Config
pub mod Parser
pub mod World
pub mod Messages
pub mod Map
pub mod Database
pub mod Sqlite
pub mod Users
pub mod Groups
pub mod History
pub mod Lists
pub mod Packets
pub mod Restore
pub mod Server
pub mod Session
pub mod Manager
mod Tests
pub mod Console
