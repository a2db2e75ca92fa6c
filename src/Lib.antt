-- ===== src/Lib.antt =====
-- A verification library for minide2, an editor whose user interface (app/, JavaScript) talks to a
-- server in C++. The server exists twice: worker/, an HTTP server with streams to the client, and
-- backend/, which talks over websockets. The library models the parts of both
-- that parse, queue, number, dispatch, check and frame what goes between client and server.
--
-- How the parts interact. In backend/, the texts of a websocket go to FrontendUserSession::on_text,
-- which feeds a StreamParser and takes a message out. A client that is not known may only log in
-- (Api::User); the messages of a known one go to the Dispatcher, which calls the subscribers of the
-- message's type. Api::Workspace subscribes to five types: it verifies the path of a request with
-- the help of Filesystem::Jail, answers through the session, and sends files by a FileWriter.
-- In worker/, HttpDataStreamer keeps for each channel an IdProvider, the addresses of the listeners
-- and a StreamQueue, which stores each message once until the last listener has written it. The
-- requests of worker/routers/workspace.cpp (Router) take the session of the client from the
-- SessionStorage, verify paths, keep their projects and workspaces in files (Persistence), send
-- directories and files (FileContent) over the streams, and receive a file (SaveFile) through a
-- HybridSink, which splits the body, into a HashedFile, which moves it to its place. WsStreamer is
-- the other way to stream; its connections write their ids into the sessions of the clients. A client
-- can run a debugger (Debugging), in an environment that the Settings compile, and gets by a stream
-- what it reports; it can use Toolbars, whose Lua scripts start processes (Subprocess) and read and
-- write files of the project (ProjectControl).
--
-- The files, and the code that they model (paths from the root of the repository):
--   Base            numbers, tests, lists, bytes and integers that the others share
--   StreamParser    backend/src/backend/server/stream/stream_parser.cpp: findCompleteObjectEnd is
--                   find_complete_object_end, consumeObject consume_object, popMessage pop_message
--   Frame           writeText and writeBinary of backend/src/backend/server/
--                   frontend_user_session.cpp, writeMessage of worker/streaming/streamer_base.hpp
--   FileWriter      backend/src/backend/server/writer.cpp: read, write and its chain of callbacks
--   Dispatcher      backend/src/backend/server/stream/dispatcher.cpp: subscribe, dispatch
--   Json            what is used of nlohmann::json, as a parameter
--   UserSession     backend/src/backend/server/frontend_user_session.cpp and api/user.cpp: on_text,
--                   onJson (on_json), onAfterAuthentication, loadPlugins, authenticate
--   FileSystem      what is used of std::filesystem, as a parameter
--   Jail            backend/src/backend/filesystem/jail.cpp
--   Workspace       backend/src/backend/server/api/workspace.cpp: verifyPath (verify_path), open
--                   (open_root), enlist, loadFile, setActiveProject, deleteFile; handle stands for
--                   the subscriptions of doSubscribe
--   IdProvider      worker/streaming/id.cpp: acquireId, freeId, usedIdCount
--   StreamQueue     worker/streaming/stream_queue.cpp, one function per method
--   HttpStreamer    worker/routers/http_streamer.cpp: commonStreamSetup, commonCleanup and send as
--                   stages with a critical section each (advance), broadcast, keepAlive and one
--                   round of consumeLoop; Threads has any number of these, in any order, Ownership
--                   who has which id, Races what goes wrong
--   SessionStorage  worker/session/session_storage.hpp, one function per method
--   HybridSink      worker/hybrid_read_sink.cpp: the table of setupAutomaton (transitions), its
--                   actions (enter), write
--   HashedFile      worker/workspace/hashed_file.cpp: open (open_file), write, testAndMove, and the
--                   destructor (destroy)
--   Persistence     worker/workspace/project_persistence.cpp and workspace_persistence.cpp
--   FileContent     worker/workspace/stream_messages/file_content.cpp: load
--   Router          worker/routers/workspace.cpp, one function per route (Requests, FileRequests,
--                   SaveFile), verifyPath with worker/filesystem/relations.cpp (Paths),
--                   toggleSourceHeader (Toggle, Extensions); Handler has what handlers are made of,
--                   Triples and Keeps how they are reasoned about, Isolation and Clients what they
--                   leave alone, Saved what saveFile does, Delivery what a request sends when
--                   the streams are websockets
--   EnvironmentLock worker/environment_lock.cpp: doWithModifiedPath on two threads (step)
--   WsStreamer      worker/streaming/ws_streamer.cpp: start (connect), removeConnection, broadcast,
--                   send; worker/streaming/stream_session.cpp: on_text with its automaton
--   RunConfig       worker/workspace/run_config.cpp: to_json and from_json of both types
--   Settings        worker/settings/environment.cpp, and compileEnvironment of
--                   worker/public_settings.cpp; Order, Paths and Variables are about the containers,
--                   Maps is about the order of the maps; load, save and the JSON of the settings are
--                   in Store
--   Debugging       worker/debugger/debugger.cpp (Relay has what it sends) and
--                   worker/routers/debugger.cpp: deleteInstance, rawCommand and command (Requests),
--                   createInstance, its checks and what it saves, and the exit of a debugger
--                   (Create); two createInstance that come together (Races)
--   Toolbars        worker/toolbars/scripted_toolbar.cpp: the actions of a toolbar (Actions) and its
--                   making (Initialize); worker/routers/toolbar.cpp (Requests)
--   Subprocess      worker/scripting_engine/process.cpp: execute, executeShort, tryGetExitStatus, kill,
--                   the destructor (destroy), and the thread of a process (watch_step)
--   ProjectControl  worker/scripting_engine/project_control.cpp, one function per method; openFileAt
--                   in Opening
--   Samples         a JSON library and a file system that satisfy what is relied on, for tests
-- A component's state is a record with the fields of its class, and an operation a function of
-- that state. A method that holds one mutex throughout is one step; one that takes several
-- after each other, in HttpStreamer and EnvironmentLock, is a step for each. Threads are
-- histories of such steps (Step and Reach, or lists of events). `usedIdCount` reads without a
-- mutex and is one step.
--
-- Bounds. Sizes printed in frames are taken below 2^32; ids are 32-bit and stop at 2^32 - 1 as in
-- the code; reference counts, usedIdCount and the size of a JSON part wrap at 2^64. The counter of
-- braces is an integer that does not overflow. There are three fuels: hex has 16 digits, as many as a
-- 64-bit number has; a write to the HybridSink has six rounds of its automaton, and no way through
-- the states is longer than four moves; reading a file has as many rounds as there are bytes. The
-- loops run over the bytes, the subscribers and the listeners that are there, FileWriter over the
-- answers whether the session still lives, and idle_rounds over a number of rounds.
--
-- Not modelled: the JavaScript user interface; sockets, HTTP and websockets; v8, the inside of
-- Lua and of gdb; logging. JSON, the file system and the automaton library are parameters, and
-- so are the callbacks of the dispatcher; a callback that throws is one that answers false. In
-- UserSession a callback changes only the world that is the parameter, so requests that answer
-- through the session are modelled by themselves, in Workspace. Paths are those of POSIX.
-- Answers of the Router leave out the fields that respondWithError adds, the headers and CORS;
-- that a client goes away during saveFile, and that std::filesystem::exists may throw, are left
-- out too. What plugins do when they run, the directory caches, the terminal of the worker and
-- the backend's own toggleSourceHeader, which is the worker's function, are not modelled. Lua
-- and its binding, the debugger interface and the texts that boost replaces are parameters. In
-- the Router, Debugging and Toolbars requests come one at a time, but for Debugging/Races; the
-- mutex of a toolbar is counted for the thread that is looked at, and that another thread has
-- it is an argument. The mutex of the state of a script is left out of Subprocess, and with it
-- the deadlock of a script that holds it and waits for a thread that needs it. A write that
-- fails after the file was opened is not told apart from one that works.
pub mod Base
pub mod StreamParser
pub mod Frame
pub mod FileWriter
pub mod HttpStreamer
pub mod FileContent
pub mod HashedFile
pub mod HybridSink
pub mod IdProvider
pub mod SessionStorage
pub mod StreamQueue
pub mod Dispatcher
pub mod Json
pub mod UserSession
pub mod FileSystem
pub mod Jail
pub mod Persistence
pub mod EnvironmentLock
pub mod Router
pub mod RunConfig
pub mod Samples
pub mod Workspace
pub mod WsStreamer
pub mod Settings
pub mod Debugging
pub mod Toolbars
pub mod Subprocess
pub mod ProjectControl
