-- ===== src/Lib.antt =====
-- matter-cli is a controller for Matter devices. This library models the core of its protocol stack
-- and proves what a user of the stack relies on: messages come back whole, in order and once.
--
-- A message travels down as follows. `internal/tlv` writes an application payload as TLV elements.
-- `internal/protocol` puts a protocol header before it (message.go), seals both with AES-CCM
-- (codec.go, with `internal/crypto/aesccm.go`) under the keys of a session (session.go), and puts
-- the message header in front. Over Bluetooth, `internal/transport/btp.go` cuts the result into
-- segments. The receiver does the same upwards, and checks the message counter against the replay
-- window of the session, and `internal/protocol/exchange.go` hands the message to the exchange that
-- waits for it; `internal/transport/mrp.go`, which nothing calls yet, sends a message again until it is
-- acknowledged. On an exchange, `internal/interaction` reads and writes attributes, invokes
-- commands and subscribes. Before a device is joined, `internal/commissioning/payload.go` reads the
-- codes printed on it, and network.go beside it the dataset of a Thread network. `internal/store`
-- keeps the fabrics and their nodes.
--
-- Files, each with its proofs in the folder of the same name:
--   Tlv/Types        internal/tlv/types.go and tags.go: element types, tags, `encodeTag`,
--                    `decodeTag`, `tagSize`
--   Tlv/Writer       internal/tlv/encoder.go: the methods of `Writer`, state passed explicitly
--   Tlv/Reader       internal/tlv/decoder.go: `Next` and what it calls
--   Tlv/RoundTrip    one call of the writer against one `Next`; Tlv/Document a whole run
--   Crypto/Ccm       internal/crypto/aesccm.go
--   Protocol/Message internal/protocol/message.go: `EncodeMessageHeader`, `DecodeMessageHeader`,
--                    `EncodeProtocolHeader`, `DecodeProtocolHeader`
--   Protocol/Session internal/protocol/session.go: `validate` (the replay window), the session
--                    table with `CreateSession`, `UnsecuredSession`, `RemoveSession`
--   Protocol/Codec   internal/protocol/codec.go: `Encode`, `Decode`
--   Transport/Btp    internal/transport/btp.go: `segment`, `handleSegment`, `processAck` and the
--                    window
--   Protocol/Exchange
--                    internal/protocol/exchange.go: `Exchange` and `ExchangeManager`, with the
--                    exchanges in a store, and Protocol/Exchange/Routes for the map of keys
--   Transport/Mrp    internal/transport/mrp.go: the methods of `MRP` and its timers, as events in any
--                    order
--   Interaction/Path, Interaction/Status and Interaction/Reports
--                    internal/interaction/path.go, status.go, read.go, write.go, invoke.go and
--                    subscribe.go: the data, with internal/tlv/optional.go
--   Interaction/Reassemble
--                    internal/interaction/reassemble.go: `reassembleListChunks`
--   Interaction/Client
--                    internal/interaction/client.go: `sendIMMessageWithACK`,
--                    `checkStatusResponse`, and below it `Read`, `Write` and `invokeInternal`
--                    (Operations) and `Subscribe`
--   Commissioning/Base38, Verhoeff, Packing, Payload and Manual
--                    internal/commissioning/payload.go: `base38Encode`, `base38Decode`,
--                    `verhoeffGenerate`, `verhoeffValidate`, `writeBits`, `readBits`, `QRCode`,
--                    `ParseQRCode`, `ManualPairingCode`, `ParseManualPairingCode`
--   Commissioning/Network
--                    internal/commissioning/network.go: `ValidateThreadDataset`,
--                    `ExtractExtendedPANID`
--   Store/Types, Store/Flat and Store/Memory
--                    internal/store/types.go, store.go (the interface as a specification) and
--                    memory.go
--   Prelude          numbers, bytes, bits, lists, maps and results that the parts share
--   Tests            runs at concrete inputs
--
-- Numbers are natural numbers, with the wrap-around of the Go type written out where it can occur.
-- Bytes are numbers, and a theorem that needs them below 256 says so. A method with a pointer
-- receiver takes the state and returns it; an `error` is an `err` of a data type with a constructor
-- for each failure. Map values are in association lists.
--
-- Bounds: `create_loop` has 65535 rounds, one for each session ID, and is shown to return within
-- them. `segment_loop` has a round for each byte of the message, and a round takes one at least.
-- The client's loops end with the list of what `Receive` gives, as the calls end with their context.
-- The loops over a Thread dataset have a round for each byte, and a round takes two or more.
-- `ctr_loop` and `mac_blocks` have a round for each byte where one for 16 bytes is used.
--
-- Parameters: the block cipher of crypto/aes, of which only that it gives 16 bytes for a 16-byte key
-- is assumed; what crypto/rand gives for a first counter; whether the channel of received messages
-- has room. The client is given, as `Wire`, the encodings and decodings of `internal/tlv/marshal.go`
-- at the types of its messages, and as `Link` an open exchange: what `Receive` gives and which
-- messages the transport takes. Nothing is assumed of either but what a theorem names.
--
-- Not modelled: goroutines, timers but those of the reliability layer, mutexes and log lines (a method
-- that holds its mutex is one step, and the reliability layer and the exchanges take such steps in any
-- order); the creation and the close of the exchange of a client's operation; structs that are put
-- already encoded, in the runs of the TLV writer; slices that the store shares with its callers; the
-- texts of paths and statuses;
-- the key exchanges of `internal/secure` and the certificates of `internal/crypto`, which are
-- calls of the Go cryptography library; `internal/tlv/marshal.go`, which works by reflection; the
-- generated `internal/clusters`; discovery, sockets, the Bluetooth stack, the database, the daemon
-- and the command line, which are I/O.
pub mod Prelude
pub mod Crypto
pub mod Commissioning
pub mod Protocol
pub mod Transport
pub mod Tlv
pub mod Interaction
pub mod Store
pub mod Tests
