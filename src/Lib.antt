-- ===== src/Lib.antt =====
-- gologix: a driver and a server for Logix controllers over EtherNet/IP (CIP).
--
-- The library talks to a controller in packets. A packet carries CIP items (items.go); an item's
-- content is a request or a reply, built from logical segments (cip_definitions.go), routes (path.go)
-- and encoded tag names (ioi.go). The client encodes what the server decodes, so most theorems are
-- round trips between the two sides of the same repository.
--
-- Files and the code they are about:
--   Base          names and helpers that the parts share: lists, Boolean tests, signed words, and
--                 Result, whose third case `panic` is a Go runtime panic
--   Wire          binary.Read and binary.Write of fixed-size numbers, over lists of bytes
--   Text          what the code uses of strings, strconv and regexp, over lists of bytes
--   Path          path.go: ParsePath
--   Builder       path.go: PathBuilder
--   Segment       cip_definitions.go: CIPClass, CIPInstance, CIPAttribute and CIPElement;
--                 server_unconnected.go: parseClassInstancePath
--   Item          items.go: CIPItem, readItems, serializeItems
--   Ioi           ioi.go: parse_tag_name, newSymbolicIOI, getTagFromPath
--   Connections   server_connections.go: the connections of the server
--   Members       listmembers.go: the fragmented read of a template's members, the size of a structure;
--                 listalltags.go: the type word of a tag
--   Types         types.go: the sizes of the types, GoVarToCIPType, readValue and getBit
--   Pack          pack.go: the alignment of Go types, Pack and Unpack
--   Identity      server_listidentity.go and listidentity.go: the answer to List Identity, built and read
--   TagMap        server_router.go: the routes and the tags of a server
--   Groups        taggroup.go: tag groups, their names and the values they are read into
--   Subscription  tag_subscribe.go: the poll loop of a subscription, its channels and Stop
--   MultiReply    server_connected.go: the reply to several services; read.go: the offsets of its parts
--   Server        server.go, server_connected.go, server_unconnected.go, server_listidentity.go: what one TCP
--                 connection of the server does with the bytes that arrive, from serve to the replies
--   Client        sendreceive.go, connect.go, listservices.go, listidentity.go: the session of the client; what
--                 comes of its requests when the server of the repository answers them
--   Batch         read.go: the choice of the service and the packing of tags into requests, up to the
--                 loop of ReadMap
--   PartialRead   partialread.go: ReadList; read.go: countFragIOIsThatFit
--
-- A function of the source is a function by clauses with the source's name. State that a method
-- changes is an argument and a result; an error is `err`, without its text, and a runtime panic is
-- `panic`. Bytes are numbers below 256 and a w-bit number has its wrap-around written out.
--
-- Go's standard library is modelled where the source uses it: bytes.Buffer as the list of its bytes
-- (its Write never fails), strconv.Atoi with a 64-bit int, the two regular expressions of ioi.go as
-- scans. A Go value that binary.Write encodes is the bytes it becomes, and a float is its bits.
-- The decoder of tag names takes names as they are encoded, without strings.ToLower.
--
-- One connection of the server is a state, the record Session of Server.Session: the fields of serverTCPHandler, the bytes that
-- have arrived and are not read, the packets that were sent, the connections and the state of the
-- endpoints. A handler is an action on it (Action), which returns a result and the state behind it,
-- so that an error keeps what was sent before it. The peer's bytes are a finite list, whose end is the end
-- of the connection; a peer that takes no packets (`writable`) takes none of a packet. The endpoints and
-- their route, the attributes of the server, its address and the numbers of rand.Uint32 are an argument,
-- Env, and sort.Slice is an insertion sort. One handler runs at a time.
--
-- The socket of the client is an argument, which gives the bytes that arrive after a message is written, or
-- an error. In Client.Served it is one round of the server's loop, whose packets arrive.
--
-- Bounds and fuel: the loop of getTagFromPath runs on fuel, the number of bytes of the path, and each
-- round takes at least one byte. The read of template members has the source's own bound of 1024
-- rounds. The loops of ReadMap and ReadList run on fuel, the number of tags that are left, and each round
-- takes at least one. The loop of serve runs on fuel, one more than the number of bytes that arrive:
-- each round reads a header; without enough fuel there is no outcome. The loop of
-- nextConnectionSerialNumber has two rounds, since the number behind 0 is 1. All other loops are
-- recursion on the list or the count they go through.
--
-- The goroutine of a subscription, its consumer and the caller of Stop are interleaved as a sequence of
-- events, each of them one step; a channel is the list of what is in it, with its capacity.
--
-- A value that the source computes by reflection, and the exchange with the controller inside a read,
-- are arguments: the size of a Go structure is a field of TagDesc, and the reader of a chunk and the read
-- of a list of tags are functions that return a result. reflect.DeepEqual, strings.ToLower and
-- strings.TrimSpace and the conversion of a value to the type of an element are arguments too. Pack and Unpack
-- go through a Go value given as data, with its tags, and leave out slices, values with methods of their
-- own, and arrays of structures with `nopack`.
--
-- Not modelled: the listeners, UDP and class 1 I/O of the server; dialing, KeepAlive and Disconnect of the
-- client; sockets, timeouts, other goroutines, locks and logging; reflection over Go structs; the tables of
-- names; the schema of L5X files.
pub mod Base
pub mod Wire
pub mod Text
pub mod Path
pub mod Ioi
pub mod Segment
pub mod Item
pub mod Builder
pub mod Connections
pub mod Members
pub mod Types
pub mod Pack
pub mod Identity
pub mod TagMap
pub mod Groups
pub mod Subscription
pub mod MultiReply
pub mod Server
pub mod Client
pub mod Batch
pub mod PartialRead
