-- ===== src/Lib.antt =====
-- Oblireach is a remote desktop system in three programs. The relay (server/) pairs a browser viewer
-- with an agent by a session token and tunnels frames between their WebSockets. The agent (agent/)
-- keeps a command channel to the Obliance server, captures and encodes the screen, adapts the
-- bitrate, injects input, and on Windows reaches other sessions through helper processes on pipes.
-- The desktop client (client-app/) is a local proxy that holds the user's session.
--
-- Base and its children hold what the parts share: numbers and tests, bytes and texts, decimals,
-- lists, Go's maps as association lists, and (value, error) results.
--
-- Server.Token: server/auth.go validateViewerToken, server/signal.go issueViewerToken and
--   handleIssueToken. HMAC-SHA256 is a parameter.
-- Server.Config and Server.Access: server/config.go, validateAgentSession of server/auth.go, and
--   handleRelay of server/relay.go up to the upgrade.
-- Server.Sessions: server/session.go; sessionStore is a table from tokens to entry numbers.
-- Server.Relay: handleRelay from the upgrade on. A connection is a phase, a channel and what was
--   written to it; in Server.Relay.Steps `step` is one action of one connection, and `run` any
--   sequence of them, so that theorems on `run` hold for every interleaving. Pairing, Echo, Limits
--   and Lifetime hold the proofs.
-- Agent.WebSocket: agent/websocket.go, frames and addresses.
-- Agent.Bitrate: adaptiveBitrate of agent/stream.go, with the rounding of float64 products.
-- Agent.Encoders: the encoder flags of StreamSession.run and of runHelperMode.
-- Agent.StreamLoop: the state of StreamSession.run, Agent.StreamLoop.Steps the cases of its select,
--   Agent.StreamLoop.Reader the goroutine that reads the browser's frames into its channels.
-- Agent.Streams: startStream, stopStream and the map of active streams, agent/stream.go.
-- Agent.CrossSession: runCrossSession of agent/remote_session_windows.go; its child Reading is what
--   the read deadline makes of the bytes on the pipe.
-- Agent.Pipe: the framing of the helper pipes, agent/remote_session_windows.go and agent/chat.go.
-- Agent.Reconnect: agent/cmd_ws.go, one session and the waits between sessions; its child Heartbeat
--   is what the channel sends and the address that it connects to.
-- Agent.Input: dispatchInputJSON and codeToVK of agent/stream.go; Agent.Input.Linux the tables of
--   agent/input_linux.go.
-- Agent.Commands: handleCommand of agent/push.go, which starts and stops the streams and the chats;
--   Agent.Commands.Push is doPush and runPushLoop, as the commands that goroutines are started for.
-- Agent.Chats: agent/chat.go. The state is the two maps and every ChatSession; Agent.Chats.Events
--   `step` is one command, one move of a helper or one of a goroutine, `run` any sequence of them.
-- Agent.LogonSessions: agent/sessions_windows.go, the session to capture.
-- Agent.DeviceUuid: agent/machine_uuid.go, agent/machine_uuid_linux.go, and generateUUID and
--   setupConfig of agent/main.go.
-- Agent.Capture: agent/capture_windows.go, the sources and the size that a frame has.
-- Agent.Pixels: bgraToI420 of agent/encode_openh264_windows.go and bgra_to_i420 of
--   agent/encode_windows.go.
-- Agent.AnnexB: ensureAnnexB of agent/encode_windows.go.
-- Agent.Libraries: the encoders of agent/encode_vp9_windows.go, encode_openh264_windows.go,
--   encode_h265_windows.go and encode_av1_windows.go; Process is their state in one process.
-- Client.Proxy: client-app/proxy.go, one request at a time.
--
-- Conventions. Go strings and byte slices are lists of numbers below 256. Times are natural numbers,
-- in seconds for tokens and in nanoseconds elsewhere. JSON is decoded and encoded outside the model;
-- a decoded value is a record, and a failed decoding is `none`. What a library, the network or the
-- operating system answers is an argument of the step that asks. Lengths and counters are unbounded
-- except where the code makes them wrap, as in the four bytes of a pipe's length.
--
-- Fuel. Agent.Pipe.recv_all runs on fuel, and one unit more than the number of messages is enough.
-- Agent.Bitrate.unit_of has 64 units, more than the 27 that an 80-bit product needs to come down to
-- 53 bits. Agent.AnnexB.convert has one unit more than there are bytes; a round takes four.
-- Agent.Chats.Deadline.relay_window and Agent.CrossSession.Reading.window_turns have one unit more
-- than there are bytes; a message takes five. All other loops are structural.
--
-- Not modelled: the pixels of the screen capture, capture on Linux and macOS, the inside of the codec
-- libraries and the settings handed to them, Media Foundation, audio, input injection of Windows and
-- macOS, windows and notifications, the service manager, TLS and HTTP transport, and the client's
-- pages: they are calls of the operating system or of libraries, or HTML. How several goroutines of
-- handleCommand interleave, and several requests to the local proxy, is left out too: one command and
-- one request are modelled from their start to their end.
pub mod Base
pub mod Server
pub mod Agent
pub mod Client
