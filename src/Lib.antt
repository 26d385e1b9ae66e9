-- ===== src/Lib.antt =====
-- The remote-control program: a signaling server (RemoteControl_rtc/SignalingServer) and a Windows
-- client (RemoteControl_rtc/RemoteControl_rtc).
--
-- Clients keep a TCP connection to the server, log in under a user id and learn who is online. Two
-- clients exchange offers, answers, candidates and hangups as lines of JSON that the server routes
-- and signs with the sender's id. Then they are connected by WebRTC; mouse and keyboard go over a data
-- channel as packets of 12 bytes, and an authorized receiver injects them into its desktop.
--
-- Which file models what:
-- Server/Text: EscapeJson, FindValue, StringField, AddSender of RemoteControl_rtc/SignalingServer/main.cpp.
-- Server/State: g_clients and g_users, QueueLine, BuildPresenceSnapshot, BroadcastPresence,
--   RegisterClient. The maps are association lists; a reference to a client is its socket.
-- Server/Route: RouteMessage and DisconnectClient.
-- Server/Connection: ReadClient and WriteClient. What recv and send return is an argument.
-- Server/Loop: AcceptClients, the loop of main and the cleanup behind it. What accept and select
--   return is an argument, so a run is a list of what each turn brings.
-- Server/Buffers, News, Registry, Safety, Departure, Streams, Invariant, Reachable, Capacity, Shutdown,
--   Routing, Login: the proofs about them, by subject.
-- Client/Protocol: RemoteControl_rtc/RemoteControl_rtc/SignalingProtocol.cpp; std::to_string and strtol are
--   parameters. Client/Transport: Send and the login line of
--   RemoteControl_rtc/RemoteControl_rtc/SignalingClient.cpp. Client/Receiving: Run of the same file with its
--   receive loop. Client/Search, RoundTrip, Chunks, Arrival: proofs.
-- Exchange: a client's message through the server to the other client.
-- Control/Injector: RemoteControl_rtc/RemoteControl_rtc/InputInjectorWin.cpp, on parameters for the screen metrics,
--   MulDiv and SendInput. Control/Packet: ControlPacket as bytes. Control/Channel:
--   RemoteControl_rtc/RemoteControl_rtc/RemoteControlChannel.cpp; a call returns what it does to the outside.
--   Control/Safety, Clicks, Button, Ping: proofs.
-- Peer/Session, Peer/Life: RemoteControl_rtc/RemoteControl_rtc/PeerSession.cpp, with what libwebrtc calls back as
--   events; Peer/Negotiation: runs of those events, within one negotiation. Peer/Ice: ConfigureIceServers and its environment.
--   Peer/Setup: its setters and the local tracks. Peer/Codecs: PreferCodec. Peer/Reports: the members of a report, the selected candidate pair and its route.
--   Peer/Manager: RemoteControl_rtc/RemoteControl_rtc/SessionManager.cpp.
--   Peer/Engine: RemoteControl_rtc/RemoteControl_rtc/WebRtcEngine.cpp. Peer/Candidates, Passes, Order, Beginning, Closing,
--   Authorization, Preference: proofs.
-- View/Geometry, View/Window, View/Input: RemoteControl_rtc/RemoteControl_rtc/VideoRenderWnd.cpp: where the
--   video stands, the window with its fullscreen view, and its input handlers. View/Fit, Pointing, Modes,
--   Fullscreen: proofs.
-- Dialog/State, Dialog/Sessions, Dialog/Control, Dialog/Dispatch:
--   RemoteControl_rtc/RemoteControl_rtc/RemoteControl_rtcDlg.cpp, on the models of the sessions, the channels and
--   the messages; a handler returns the new state and its calls. Dialog/Run: any order of what the user, the
--   server, libwebrtc and Windows bring. Dialog/Keeping, Inputs, Denial, Forbidding, Permission,
--   Roster (the list box as a set), Presence: proofs.
-- Media/Recorder: RemoteControl_rtc/RemoteControl_rtc/RemoteVideoRecorder.cpp, the calls of the other
--   threads and the steps of its own thread in any order. Media/Writing, Recording: proofs.
-- Tests: runs on small inputs, and each theorem at a concrete one.
--
-- Bytes and machine integers are natural numbers; where the source's arithmetic wraps around, the
-- model writes the modulus out. The loop over received lines has the length of the buffer and one as
-- fuel, and the loop of UserIds the length of the text and one: every round of either takes a byte at
-- least.
--
-- Not modelled: calls of the operating system (sockets, console, windows, Direct3D, Media Foundation),
-- the library libwebrtc, the capture of the screen, and of the dialog the layout, the texts of its widgets,
-- the media statistics and the end of the program. The log output is left out. What a handler does behind
-- the release of a mutex is part of the step that holds it. The message queue of the main video window is
-- an argument of OnFrame.
pub mod Base
pub mod Server
pub mod Client
pub mod Exchange
pub mod Control
pub mod Peer
pub mod View
pub mod Media
pub mod Dialog
pub mod Tests
