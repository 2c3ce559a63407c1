-- ===== src/Lib.antt =====
-- The live transcription app for Nextcloud Talk (Go), modelled and verified.
--
-- The app joins a Talk call as an internal client of the signaling server (HPB), receives the
-- participants' audio over WebRTC, recognizes speech with Vosk, and sends the transcripts, and on
-- request their translations, to the participants that asked for them.
--
-- Parts and files. Each operation of the source is a function of the component's state, which
-- returns the new state. Where the source holds a mutex for a whole operation, nothing can fall between
-- its parts. The handling of a message, of an offer and of a participant update takes locks in several
-- short sections; there the function is the operation undisturbed, and the sections are calls of their
-- own where runs are considered (Signaling/Calls, Service/Overlap).
--
-- - GoMap: a Go map or set keyed by text, with `lookup` (`v, ok := m[k]`), `insert`, `delete`. The
--   order of the list is the order in which `range` visits; the theorems hold for every list, so for
--   every order. GoMap/Laws: what a map answers after an update.
-- - Constants: internal/constants/constants.go.
-- - Languages: internal/languages/models.go. Model has the records and `ModelsList`; First to Fourth
--   are the parts of `LanguageMap`; Supported has `VoskSupportedLanguageMap` as `init` builds it.
-- - Signaling: internal/signaling. Messages is messages.go. The rest is client.go: Client has the
--   struct, the outgoing messages, the deferred close timer and `Close`; Targets has `AddTarget`,
--   `RemoveTarget` and `SendTranscript`; Offers has the peer connections and the channel of audio,
--   Audio the reader of a track; Events has `handleEvent`; Connect has `Connect`, the handshake and the
--   resume; Monitor has the monitor goroutine. What a client does to its surroundings (messages
--   written, peer connections closed, timers, goroutines started on the callback) is recorded in
--   fields of its state. Calls lists all that may happen to a connected client, so a run is a list of
--   calls in any order; a message that the monitor has read may be handled in any state, and offers and
--   updates may be interrupted between their sections. Invariant, Closing, Silence, Delivery, Waiting,
--   Handshake, Connections, LostPeer and LateOffer have the proofs.
-- - Translation: internal/translation. Ocp is ocp.go without the tasks, Task is `Translate` and
--   `pollTask` of it, Meta is meta.go. Agreement, Sessions, Granted, Delivery, Running, Polling and
--   Detection have the proofs. Flow has the goroutine of meta.go with the two channels and the jobs between them,
--   as steps in any order; Flow/Asked and Flow/Delivered have its proofs.
-- - Sending: internal/transcript/sender.go and internal/translation/sender.go. Timing has the timeouts
--   of the two loops, Transcript and Translated one round of each. Timeouts and OneCopy have the
--   proofs; OneCopy is about the sender, its channel and the
--   translators together.
-- - Vosk: internal/vosk. Models is model.go, Recognizer and Manager are recognizer.go, Audio the
--   samples and Worker the loop of worker.go, Download is download.go. References, Balance and Rooms
--   have the proofs about the counts of references, for all rooms of the process together; Chunks and
--   Samples those about recognizers and audio; Worker/Path is about the client's tracks, its channel
--   and the worker together; Download/Files and Download/Complete are about the download.
-- - Service: internal/service/service.go. Startup has `NewApplication`, Application the rooms and the
--   operations on one that exists, Request has `TranscriptReq`, Languages the languages that the app
--   offers for translations. In these each operation is one step, also where the source gives up the
--   lock in between or waits for the signaling server; Ending, Runs, Abandoned and Idle have the
--   proofs. Overlap has requests that
--   overlap, with the rooms as pointers: a step is the code between two points at which another
--   goroutine may run. Overlap/Lost and Overlap/Orderly have its proofs, the latter about all runs in
--   which the requests for one room come one at a time.
-- - AppApi: internal/appapi. Base64 is the standard encoding of the language's library, Auth has
--   auth.go, config.go and `encodeAuth`, Client the rest of client.go. RoundTrip, Admission and
--   Requests have the proofs; Requests is about the client and the middleware together.
-- - Handlers: internal/handlers. Its root has the four handlers that change the rooms, Routes the others
--   and the routes. Statuses has the proof.
-- - Server: main.go, which puts the routes behind the middleware and ends the rooms when the process is
--   told to stop, while the HTTP server still serves. Credentials and Ending have the proofs, over all parts above.
-- - Tests: small runs, and each theorem at an input that meets its hypotheses.
--
-- Numbers are natural numbers; where the source has a machine integer whose range matters, the
-- reduction modulo its width is written out (the message counter, the shift of the poll
-- delay, the samples of the audio). Durations are nanoseconds as in Go.
--
-- Loops are recursions on lists, or on the rounds that are left where the source counts them (the
-- handshake, the resume, the polls, the schedule requests, the attempts
-- to connect), so no fuel is added. The repository of models is a finite tree of answers, as deep as
-- its directories, and its listing a recursion on the tree.
--
-- What is not in the source enters as an argument: the frames that a socket reads, the answers of
-- the WebRTC stack, of Nextcloud, of the repository of models and of Vosk, the clock, the nonce, the
-- HMAC, and how JSON is read and written. Not modelled: the bytes of JSON and HTTP, logging, what the
-- packages behind those arguments do, the texts with which handlers report, the sockets and time limits
-- of the HTTP server in main.go, and the contents of model files, of which only the sizes
-- count. `sanitizeWebSocketURL`, which a new client is given the result of, is left out too, and so are
-- `IsModelAvailable`, `ListAvailableModels` and `IsTargetLangSupported`, which nothing in the program
-- calls.
pub mod Prelude
pub mod GoMap
pub mod Constants
pub mod Languages
pub mod Signaling
pub mod Translation
pub mod Vosk
pub mod Sending
pub mod AppApi
pub mod Service
pub mod Handlers
pub mod Server
pub mod Tests
