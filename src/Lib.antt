-- ===== src/Lib.antt =====
-- A verification library for the WhatsApp client of whatsapp-cli (wa/).
--
-- The client speaks to WhatsApp over one WebSocket. wa/transport/framesocket.py cuts the stream
-- into frames, wa/crypto/noise.py and wa/handshake.py agree on keys and encrypt the frames, and
-- wa/wabinary/ turns the plaintext of a frame into a tree of nodes and back. What users write to
-- each other is a protobuf message inside such a node; wa/pbutil.py and wa/peerreq.py read and
-- write it by hand, and wa/messages.py builds and searches these messages.
--
-- The files, by the part of the program:
-- - Common: Python's values. A `bytes` is a list of numbers, a `str` the list of its code points
--   with UTF-8 in Common/Utf8, and an operation that may raise returns an `Outcome`
--   (Common/Outcome).
-- - Protobuf: Writer is wa/peerreq.py and Reader is wa/pbutil.py. The dict of `decode_fields` is
--   an association list in insertion order. The loop over the buffer has one round more than there
--   are bytes, which is enough since every field takes one byte at least.
-- - Messages: Build has the builders of wa/messages.py and the two of wa/cli.py, Quoted has
--   `extract_quoted_id` and `device_sent_destination`; Replies reads the built messages back and
--   Errors says what the search raises. Text is `_extract_text` of wa/cli.py, which ReadBack
--   takes to the built messages, and MediaRef `extract_media`. Phash is `_phash` of wa/cli.py and
--   PhashOrder says that the order of the devices does not matter. The code's `_depth` is counted
--   down: `levels` is 5 - `_depth`, and the search gives up at 0.
-- - Transport: Framing is `FrameParser` and `encode_frame`; Socket is `FrameSocket` with its
--   fields as a record, and a call that awaits an empty queue says that it waits. The WebSocket
--   is the list of messages that it delivers and the list of those it was given.
-- - Noise: Symmetric is wa/crypto/noise.py, Certificates and Handshake are wa/handshake.py. The
--   functions of `hashlib`, `hmac` and `cryptography`, and the generated protobuf bindings, are
--   parameters; Primitives states what is relied on: AES-GCM opens what it sealed, and both ends
--   of a Diffie-Hellman exchange get one secret. Responder is the other end of the
--   Noise XX pattern, which is not part of the program, written from the Noise specification
--   on states of its own with no function of wa/; it is what Agreement measures the client by.
--   Mirror, a step towards it, has a responder in the client's own terms.
-- - Media: Cipher is `encrypt_media` and `decrypt_media` of wa/media.py, with the key expansion
--   and the block decryption of wa/history.py, and `_unpad` of wa/signal/session.py. AES-CBC on
--   whole blocks is a parameter. `_hkdf_expand` has one round for each byte wanted, and each adds
--   a digest.
-- - WaBinary: Tokens and the tables below it are wa/wabinary/tokens.py and _tokens_data.py, Node
--   is wa/wabinary/node.py and the JID type, Packed is the packed strings of encoder.py and
--   decoder.py. Encoder is the rest of encoder.py, where a function returns the bytes that it
--   appends, and Decoder that of decoder.py, where the reader's position is passed on. The
--   interpreter's stack has room for `limit` nested calls of `_read_value` in
--   `decode_node_within`, which raises RecursionError beyond, as CPython does on deeply nested
--   input: its frames for one level count against a limit of a thousand by default. The calls
--   nest no deeper than the payload has bytes, since each reads a tag of its own, and
--   `decode_node`, of which the round trips speak, has room for that many. WireForm says what the
--   wire keeps of a node; Packing, Binary, Strings, Jids, JidForms, Attributes, NodeParts, Nodes
--   and Codec follow the encoder's output through the decoder, and Depth and Termination the
--   decoder on any input.
-- - Also in WaBinary, JidText has the text forms of a JID, with `int(text)` as an argument, and
--   JidParse reads them back.
-- - Session is wa/session.py. State has its fields; what is outside of it, the socket with the
--   codec and the Noise state, the handler of messages and the clock, is a record of functions on
--   a state of its own. Futures stand on a heap, since a bucket and a waiting call share them.
--   Stanzas builds what the session sends, Handle has its operations, Calls cuts `request_iq` and
--   `wait_ack` at their await and has the steps that the tasks interleave. A handler is one step,
--   since what it reads and writes of the session comes before its first await. Promise writes
--   out the waiter of a stanza and the stanzas that answer it apart from the code, Owed, Spelled
--   and Rows lead there, and Promised compares; Futures, Answers, Invariant and Runs follow the
--   owners of futures, and Closing, Ends, which has the two ways a session ends, and Ending the
--   calls that wait. Drain is the loop of `drain` in milliseconds, with two rounds more than the
--   hard cap has spans of 50 milliseconds, which is enough since each round sleeps that long.
-- - Device: State is the record of wa/store.py, Pairing is wa/pair.py and Paired spells out the
--   tests, the signed bytes and the response, and PairGuard says when the device changes and how.
--   Prekeys is wa/prekeys.py with the reader of a bundle in wa/cli.py, and Bundles reads an
--   upload back. The generated bindings and the signature are parameters.
-- - Signal is wa/signal/session.py: State has the fields of `SignalSession` and the libsignal
--   package as a record of functions on a store, Ops its operations and Restore `_load_all`, with
--   `int(text)` as an argument. `saved` is what `signal.json` holds. Keys and Saved are about the
--   keys and the entries of the file, Mirror has a run of operations, and Restart and Reload
--   follow the file into a new object.
-- - Cache: Chats is wa/cache.py on what its files hold. Summary and Canonical are about the entries
--   and the canonical JID.
-- - History: Payload, Sync and Conversation are wa/history.py; Notified says when a message
--   carries a notification. The rows of the generator come with what ends it.
-- - Examples, WireExamples, SessionExamples, DeviceExamples, MessageExamples and SignalExamples:
--   the theorems at concrete inputs.
--
-- Machine integers: Python's integers have no bound; where the code masks, the model has `% 2 ^
-- w`. The reader's varint stops at a shift of 64 bits, and lengths on the wire are below 2 ^ 64.
--
-- A `str` has no lone surrogates, on which Python's encode would raise. The interpreter's
-- limit on the depth of calls stands only in `decode_node_within`; elsewhere it is not reached. An integer inside a node is not negative.
--
-- Not modelled: the command lines, the files and JSON, the QR code, transfer of media, the ratchet of
-- the libsignal package, the JavaScript client for Signal, and cancellation of tasks but for
-- what it does to the state.
pub mod Common
pub mod Cache
pub mod History
pub mod Session
pub mod Signal
pub mod Device
pub mod Protobuf
pub mod Messages
pub mod Transport
pub mod Noise
pub mod Media
pub mod WaBinary
pub mod Examples
pub mod WireExamples
pub mod SessionExamples
pub mod SignalExamples
pub mod DeviceExamples
pub mod MessageExamples
