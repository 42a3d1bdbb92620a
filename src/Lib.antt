-- ===== src/Lib.antt =====
-- Overdub is a daemon that runs on an Echo Dot: it takes over the buttons, plays what a
-- Sendspin server streams, and speaks the protocol of ESPHome to Home Assistant. This library
-- models the parts of it that decide something, and proves what makes them correct.
--
-- How the parts interact. internal/evdev reads and writes the events of the kernel.
-- internal/button reads them from the nodes it has grabbed, writes them to a clone, and turns
-- presses into gestures. internal/sendspin reads messages from an encrypted connection
-- (transport.go), decides what the server may do (hello.go), keeps the state of the stream
-- (stream.go, command.go) and hands on the audio (chunk.go). internal/audio keeps that audio
-- in a queue, makes blocks of it when the mixer asks (stream.go), mixes them with the chimes
-- and writes them to the player. internal/esphome reads the encrypted frames of Home Assistant
-- (noise.go) and the protobuf messages in them (proto.go), does what they ask for (server.go,
-- media.go) and tells subscribers what it has read (state.go). internal/alexa follows what
-- Alexa plays and who holds the audio focus, hands her clips and sends her commands.
-- internal/mdns answers who looks for the services. internal/untrustedlog bounds what a peer
-- makes the daemon log.
--
-- Which file models which part, and what stands for the state.
--
-- - Base: lists, tests, bytes, integers and texts over the native numbers.
-- - UntrustedLog: internal/untrustedlog/untrustedlog.go. The Log is a record; the clock
--   readings of a call are its arguments.
-- - Button/Gesture: the MultiPress of internal/button/button.go; a step is a move of the key
--   or a callback of a timer, and a callback may be late. Button/Route: the loop of the
--   Interceptor, with the mode set and keys pressed on the clone from outside between events.
-- - Evdev: the bytes of internal/evdev/evdev.go, with a bitmap as its sequence of bits, and
--   the volume guard of internal/button/mute.go.
-- - Esphome/Proto: internal/esphome/proto.go.
-- - Esphome/Noise: the frames of internal/esphome/noise.go; the ciphers are parameters.
--   Esphome/Commands: how handle of internal/esphome/server.go reads the messages with a key.
--   Esphome/State: internal/esphome/state.go, with the connections as a list of what each was
--   told. Esphome/Worker: the wish and the goroutine behind the microphone's switch, in
--   internal/esphome/server.go. Esphome/Media: the volumes and the commands that wait, in
--   internal/esphome/media.go.
-- - Alexa: internal/alexa. Focus is the watcher of focus.go, Playback the one of playback.go,
--   Speak the clips of speak.go, and Command the requests of command.go, which are parameters
--   on a state of the world.
-- - Mdns: internal/mdns/mdns.go. Questions is what a query is answered with, Answers the
--   records of the reply, Rates how often, Replies the whole of it, Names what an advert has
--   to be, Life an announcement in its goroutine against changes and goodbyes, as a step
--   relation in which the check under the lock and the write without it are two steps, and
--   Changes what a new list has the responder send.
-- - Sendspin/Ws: internal/sendspin/ws.go below it: the frames of the websocket. What the peer
--   has sent is a list of bytes; writing to it is a parameter.
-- - Sendspin/Transport: internal/sendspin/transport.go. The ciphers (flynn/noise) and the
--   connection are parameters of the definitions; the theorems name what they rely on.
-- - Sendspin/Activate: the decision on server/activate of internal/sendspin/hello.go, with the
--   texts as lists of bytes.
-- - Sendspin/Stream: the Session of internal/sendspin/handshake.go as the messages of
--   internal/sendspin/stream.go, command.go and hello.go change it, and the chunks of
--   internal/sendspin/chunk.go. Base64 and the FLAC decoder are parameters; a message is what
--   its JSON parses to, or nothing.
-- - Audio/Mixer: the mixer of internal/audio/mixer.go. Audio/Output: writeAll of the same
--   file, against what the player answers. Audio/Stream and Audio/Anchor: the Stream of
--   internal/audio/stream.go, as it is written to, and as it learns from the player when a
--   frame is heard. Audio/Fill: read and fill of the same file, which make a block of the
--   queue; the ducking is a parameter. Times are numbers of nanoseconds.
--
-- Bounds and fuel. Numbers are natural numbers or integers without a bound, and a wrap-around
-- is written out where the code relies on one. uvarint recurses on the value that falls. The
-- walk over a message has the length of the message as fuel, and WriteTyped the length of the
-- body: theorems show that this is enough. Both functions called Read stop after 4096 frames,
-- as the code does. The loop of fill has as fuel the frames of the block, the frames that are
-- held and the chunks, and one more, which is shown to be enough. The other loops recurse on a
-- list: of events, of sources, of what the player answers.
--
-- Not modelled: system calls, cgo and shell commands (the nodes, ALSA, Android), most
-- goroutines and locks (each method that holds a lock is one step), JSON, HTTP, the
-- cryptography, DNS and FLAC libraries, the ducking of internal/audio/stream.go, the readings
-- and the entity lists of internal/esphome, the sockets and the ladder of announcements of
-- internal/mdns, and internal/device, the client of internal/sendspin and the daemon's wiring
-- (main.go, serve.go).
pub mod Base
pub mod Alexa
pub mod Audio
pub mod Button
pub mod Esphome
pub mod Evdev
pub mod Mdns
pub mod Sendspin
pub mod UntrustedLog
