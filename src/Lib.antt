-- ===== src/Lib.antt =====
-- A model of the core of lbry.go: the identifiers of its distributed hash table, and the routing
-- table, the store, the tokens, the messages and the searches of a node (the Go package dht and
-- its child dht/bits); its streams of encrypted blobs (stream); its urls (url); and its ordered
-- map. With what makes them correct.
--
-- The parts, from the bottom up:
--   Bitmap    dht/bits/bitmap.go: 384-bit identifiers, Bitmap as its 48 bytes. Bitmap.antt holds
--             Cmp, Equals, Closer, Xor, And, Or, Not, getBit, setBit, Get, Set, add and Add; Hex the
--             functions on text and Sub; Window Prefix, Suffix and PrefixLen; Big the functions on
--             big.Int; Select Closest and RandInRangeP. Value, Bytes, Order, Distance, Sum,
--             Difference and Text are proofs: the number of a bitmap, its bits, and the operations
--             against them.
--   Range     dht/bits/range.go: MaxRange, IntervalP, intervalStart, IntervalSize and Contains;
--             proofs in Interval and Halves.
--   Contact   dht/contact.go: Equals, MarshalCompact and UnmarshalCompact (proofs in Compact), and
--             sortByDistance (proofs in Sorting).
--   Bucket    dht/routing_table.go, peer and bucket: Touch, IsBad, Fail, Has, Contacts, find,
--             moveToBack, UpdatePeer, FailContact, NeedsRefresh and Split. Peers, Update and Changes
--             are proofs on what a call does, Invariant, Splitting and Total on `IsBucket`.
--   Table     dht/routing_table.go, routingTable: reset, bucketFor, shouldSplit, Update, Fresh, Fail,
--             GetClosest, Count and GetIDsForRefresh. Cover, Updating, Storing, Ends and Closest
--             are proofs about tables that are `IsTable`.
--   OrderedMap  extras/orderedmap/ordered_map.go, on its own: New, Get, Set, InsertAt, Prepend,
--             Delete and Copy; proofs in Places, Laws and Copies.
--   Store     dht/store.go: newStore, Upsert, Get (announced) and CountStoredHashes; proofs in Laws.
--   Tokens    dht/token_manager.go: rotateSecret, Start, Get, Verify and genToken, for any hash
--             function; proofs in Rotation.
--   Messages  dht/message.go: the messages as records, and Response.argsDebug.
--   Node      dht/node.go: handlePacket, handleRequest, handleResponse, handleError, the transactions,
--             Store and AddKnownNode; InSlice of extras/util/slice.go. Queries has SendAsync:
--             send_start before the query waits, attempts for what it meets, send_end after it.
--             Proofs in Transactions, Requests, Responses and Packets, of the node as a state machine
--             in Steps, and of an announcement from its first request to its last in Announcing.
--   Finder    dht/node_finder.go: the shortlist, the active contacts, the end of a probe and of a
--             cycle, and the two ends of Find. Trace has the steps of a search, Invariant and Steps
--             what each of them keeps, Probes how the code takes them, and Lists, Results and Cycles
--             proofs.
--   Blob      stream/blob.go: Hash, HashHex, ValidForSend, NewBlob, Plaintext, pkcs7Pad and
--             pkcs7Unpad; proofs in Padding and Damage.
--   SdBlob    stream/sdBlob.go and stream/json.go: SDBlob and BlobInfo, their hashes, ToBlob and
--             FromBlob; proofs in Json and Spaces.
--   Stream    stream/stream.go: the Encoder with Next and Stream, New, NewEncoderWithIVs,
--             NewEncoderFromSD and Decode; proofs in RoundTrip, Encoding, Decoding and Malformed.
--   Url       url/url.go: the scanners of its regular expressions; parseModifier in Modifiers, Parse in
--             Parsing, Build and String in Building; proofs in Patterns, Scanning and
--             Channels.
--   Prelude   shared names, the results of a call (Run), lists and Go's integers.
--   Tests     sample values and runs.
-- A node calls Update for every contact that it hears of, Fail for one that does not answer and
-- GetClosest to answer a request; the table calls the buckets, these the ranges, and all of them the
-- bitmaps. A message that the node handles reads and changes the table, the store and the tokens; a
-- search begins with the table and asks its contacts through the node. A stream is a descriptor and
-- blobs: the encoder makes a blob of each chunk that it reads and adds it to the descriptor.
--
-- A method with a pointer receiver takes the state and returns it. A call ends with a value, an
-- error, a panic, or, where the model is on fuel, out of fuel. Fuel: Split recurses at most once
-- for each halving of a range of 384 bits, so split_fuel is 385; the loop of RandInRangeP
-- subtracts at most as often as the random number says; the digits of n are at most n + 1; each
-- call of Next but the last takes a result of the reader, so the loop of Stream has one round more
-- than these. All other loops are structural. The clock, crypto/rand and the order that sort.Slice
-- gives to equal elements are arguments or fixed where they are named; Go's encoding/hex, math/big
-- and net are modelled as documented where they are used. A negative bit index is left out.
--
-- The hash of a token, the decoders of messages, and for streams the hash, the cipher, hex and
-- JSON are parameters, with what is asked of them stated as a hypothesis where it is used
-- (IsLibrary in Blob.Padding, IsJsonLibrary in SdBlob.Json).
--
-- Locks are not modelled: a method that locks holds the lock throughout, so it is one step. Not
-- modelled either: the saved form of the table, bencode, sockets and goroutines of dht, the JSON
-- form of an ordered map, IsNameValid of a url, and the other packages. Urls are ASCII texts.
pub mod Prelude
pub mod Bitmap
pub mod Range
pub mod Contact
pub mod Bucket
pub mod Table
pub mod OrderedMap
pub mod Store
pub mod Tokens
pub mod Messages
pub mod Node
pub mod Finder
pub mod Blob
pub mod SdBlob
pub mod Stream
pub mod Url
pub mod Tests
