-- ===== src/Lib.antt =====
-- trpc-go, a framework for remote procedure calls in Go: a model of parts of it.
--
-- A call goes from the client's stub through its filters, the naming service and the client codec
-- to a transport, and on the server from the transport through the server codec and the filters to
-- the handler. Plugins are configured and set up when the process starts. A restful service finds
-- its method by matching the path of the request against the templates of its routes.
--
-- The parts that are modelled:
-- * codec.go, with internal/attachment and the fields of codec/message_impl.go that it reads and
--   writes: the module Codec. Codec/Frame has the 16-byte frame head (FrameHead, construct,
--   extract), the framer's ReadFrame and Parse; Codec/Message the messages; Codec/Server and
--   Codec/Respond the server's Decode and Encode; Codec/Client the client's two methods. A message
--   that the code changes is an argument and a part of the result. Outcome (Codec/Outcome) tells a
--   result, an error and a panic apart, so that a slice out of range is a value. Slices are
--   Wire/Slice, encoding/binary's big-endian numbers Wire/BigEndian; uint16 and uint32 wrap around
--   by `% 2 ^ 16` and `% 2 ^ 32`. The constants of the protocol (trpcpb) are the record Protocol,
--   protobuf and the calls of the streaming codecs the record Proto; the theorems name what they
--   need of both. Codec/Frame/RoundTrip, Codec/Frame/Reading, Codec/Server/Decode,
--   Codec/Client/Decode and Codec/Exchange hold the proofs.
-- * codec_stream.go, with AddrToKey of internal/addrutil: the module Codec/Stream, with the two
--   codecs in its Client and Server. The server's table of initialised streams is an argument and a
--   part of the result; its lock makes every operation on it one step. The metadata that it points
--   to are also what the decoded message points to, and Encode of an Init frame writes to them
--   there; the table of the model has their request part, which is all that is read through it and
--   is not written. Codec/Stream/Table and Codec/Stream/Lifecycle compare it with a flat table,
--   Codec/Stream/Arrives has the exchanges. Codec/Metadata has what the metadata of a call are.
-- * internal/httprule and internal/stack: the module HttpRule. HttpRule/Template has the templates,
--   HttpRule/Chars the classes of characters, HttpRule/Parse the parser (Parse, parse,
--   parseSegments, validate, ...) and HttpRule/Match the matcher (Match and the handle methods)
--   with its stack from HttpRule/Stack. The parser's position in the text is the text that is left.
--   parseSegments and parseFieldPath run on fuel, one more than the length of the text, since each
--   call reads a byte before the next; HttpRule/Parse/Fuel shows that it is enough. The matcher is
--   structural recursion over the template. HttpRule/Match/Reference is a matcher without stack and
--   positions for comparison.
-- * plugin/setup.go, with Get of plugin/plugin.go: the module Plugin. Plugin/Setup has loadPlugins,
--   setupPlugins, hasDependence, checkDependence and onFinish. The channel of plugins is a list,
--   the map of their status a dictionary (Common/Dict); a map is ranged over in the order of its
--   list, which is arbitrary. What a plugin's own methods do is the record Factory. The outer loop
--   runs on fuel, one more than the number of plugins, since each round leaves fewer;
--   Plugin/Ends shows that it is enough, Plugin/Order the order of setup.
-- * rpcNameIsTRPCForm, methodFromRPCName and getAppServerService of codec/message_impl.go, with the
--   setters that use them: the module RpcName.
-- * stream/flow_control.go, both ends: the module FlowControl. FlowControl/Receive has
--   receiveControl; a sequence of calls of OnRecv is a list of sizes; the feedback function is an
--   argument. FlowControl/Send has sendControl, with its window as an integer (Common/Int), and the
--   steps of a sender and a receiver with what is under way between them; FlowControl/Conserved and
--   FlowControl/Progress hold the proofs.
-- * internal/queue/queue.go, with its callers: the module Queue. A step is what Put or Get does
--   between two points where another goroutine can run: under the lock, or one operation on a
--   channel. Queue/Waking and Queue/Fifo hold the proofs.
-- * naming/loadbalance, the pickers of weightroundrobin and roundrobin: the module LoadBalance.
--   LoadBalance/Plain has the plain picker, LoadBalance/Weighted the weighted one; the time since
--   the last update is an argument, and selectServer's loop is written as the three things that it
--   does: raising the weights, their total, and the choice. LoadBalance/Balanced,
--   LoadBalance/Selected and LoadBalance/Rounds hold the proofs about the weighted picker.
-- * pool/connpool/connection_pool.go, the pool of one address: the module ConnPool. ConnPool has what
--   is done under a lock; a connection is the number of its dial, and connList the list of such
--   numbers. ConnPool/Tasks has the goroutines: where one is, its steps (Local), and the states of a
--   pool with any number of them. ConnPool/Places, ConnPool/Counters and ConnPool/Size hold the
--   proofs, which add up what the goroutines hold.
-- * stream/client.go, stream/server.go and stream/config.go, but for the sending of messages: the
--   module Stream. Stream/Client has what dispatch does in a round, and RecvMsg; what recv finds
--   outside of itself, such as the loads of the flag closed, is an argument. Stream/Receiving has
--   the steps of dispatch and of the queue between the two, the queue being that of the module
--   Queue, and the responses that are to be expected. Stream/Handshake has the two Init frames.
--   Stream/Dispatcher has the server's dispatcher, in which a stream is a number in the list of all
--   that were made. Stream/Order, Stream/Carried, Stream/Recv, Stream/Messages and Stream/Single
--   hold the proofs about the client, Stream/Pointers, Stream/Live, Stream/Served and
--   Stream/Failing those about the dispatcher.
-- Common has the shared tests, lists, texts and dictionaries. Each module's Tests has runs.
--
-- Not modelled: the error texts, logs and metrics; the pools that only reuse memory (sync.Pool);
-- goroutines, sockets, timers and files, hence transport, pool/multiplexed, server, client, http,
-- log, config and admin; serialization and compression, which call third-party libraries; the
-- sending of messages on a stream, the rest of naming, filters, internal/ring and the restful
-- router, which are independent of the parts above.
pub mod Common
pub mod Wire
pub mod Codec
pub mod HttpRule
pub mod Plugin
pub mod RpcName
pub mod FlowControl
pub mod Queue
pub mod LoadBalance
pub mod ConnPool
pub mod Stream
