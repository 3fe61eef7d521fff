-- ===== src/Lib.antt =====
-- A model of the native extension of the aws_crt gem, which gives the AWS Common Runtime (CRT) to
-- Ruby: its Rust sources in ext/aws_crt/src. The CRT's C libraries and Ruby itself are outside; what
-- the code asks of them is an argument of the definitions that ask.
--
-- Cbor (cbor.rs) is AwsCrt::Cbor. `Cbor.Value` has the Ruby values that it handles, floats as the bits
-- of an f64; `Cbor.Calls` collects what it asks of Ruby's Time, BigDecimal, Array and Hash. `Cbor.Encode`
-- has the encoder: write_head, encode_integer, encode_value and the others, each taking the buffer and
-- giving it back longer; an encoder that fails gives back what it wrote. `Cbor.Head`, `Cbor.Read` and
-- `Cbor.Decode` have the decoder's functions from the smallest to decode_value; each takes the input
-- and a position and gives the new position. usize and u64 are 64 bits wide, and `dec_take` wraps and
-- panics where the source does. decode_value takes fuel for its nesting, one more than the length of
-- the input, and a loop over an indefinite-length item takes as many rounds; both are enough because
-- each level and each round takes a byte. `Cbor.Api` has Encoder, Decoder, encode and decode.
-- `Cbor.View` says which values the format keeps and as what they come back: a symbol comes back as a
-- string, a NaN with a shorter payload, a hash with the last value of each key.
-- `Cbor.Decoded` says which values the decoder can return.
--
-- Http (http.rs) is one HTTP request. `Http.State` has RequestState and the log of what a request takes
-- from the CRT and gives back; `Http.Callbacks` has the callbacks of the CRT's event loop,
-- `Http.Build` build_request and cleanup_request_context, `Http.Run` the calling thread of make_request
-- and make_streaming_request. `Http.Trace` lets both threads take steps in any order that the CRT
-- allows: one callback for the connection, then header and body callbacks, then one for the end. A
-- callback or a round between two waits holds the lock or works on what it took under it, and is one
-- step. The exchange counts the notifications of the condition variable: `Http.Trace.Wakes` has the
-- callbacks that come during one wait. What the CRT answers to a call is free.
-- `Http.Trace.Accounted` and `Http.Trace.Resources` have the invariant on what is held,
-- `Http.Trace.Delivery` the one on what the caller was given, and `Http.Trace.Heads` the one on the
-- status and the headers among it.
--
-- Error (error.rs) has CrtError and the Ruby exception class of each error name, which `Error.Exact`
-- states without an order of tests. Pool (pool.rs) has AwsCrt::Http::ConnectionPool: `Pool.Endpoint`
-- reads the endpoint, `Pool.Options` the options, `Pool.Object` is the object with its connection
-- manager, `Pool.Object.Repeated` the object over several calls of initialize,
-- `Pool.Object.Latest` the manager that it then has, and `Pool.Reply` makes the Ruby value of a
-- request, which `Pool.Streamed` joins with Http. `Pool.Shared` is one pool in several threads, with the
-- count of RefCell's borrows: a step is what a method does while it holds Ruby's lock.
--
-- Crt is shared by the wrappers of CRT objects. `Crt.Resource` has these objects and a log of the calls
-- that acquire and release them; `Crt.Action` has the functions that make such calls: a function ends
-- with a value, with the code of a CrtError or with a panic, `owning` and `scoped` are Rust's Drop on an
-- early return and at the end of a scope. `Crt.Runs` says what a function leaves held and `Crt.Gives` what
-- it returns, each with one rule for each way to build a function; `Crt.Yields` has rules for a property of
-- the value, `Crt.Fails` for a function that cannot return one. Runtime (runtime.rs) has the objects
-- of the process, Tls (tls.rs) the TLS context, Proxy (proxy.rs) and Connection (connection_manager.rs)
-- the connection manager. Checksums (lib.rs) has the checksum functions, and
-- `Checksums.Reference` the checks that they are named after, bit by bit.
--
-- S3 is AwsCrt::S3::Client. `S3.Client` (s3_client.rs, credentials.rs, signing.rs) has the client with
-- what it owns, `S3.Message`, `S3.Transfer`, `S3.Options` and `S3.Request` (s3_request.rs) one meta
-- request: its message, the state that its callbacks share with the waiting thread, its options, and
-- get_object and put_object. The CRT's answer to a request is its report, a list of callbacks that
-- ends with finish_callback, so that the wait is structural recursion on it; `S3.Transfer.Waits` lets
-- the waiting thread wake up between any two of them. `S3.Ruby` (s3_ruby.rs) has the reading of the
-- hashes, `S3.Ruby.Params` what each method reads, `S3.Ruby.Methods` the methods and `S3.Ruby.Reply`
-- the hashes that they return. A method reads its hashes before it calls the CRT; the reading may
-- raise, and what follows it is an action.
--
-- Extension (lib.rs) is the entry of the extension: `Extension.Classes` has the registration of modules,
-- classes and methods in each file, the statics that it fills, and the lookups of exception classes
-- that rely on it. `Extension.Vm` is what it asks of Ruby, an interface with laws: no constant is
-- defined twice, and a class keeps what it inherits from. `Extension.Facts` is what is known of it and
-- `Extension.Facts.Calls` what each call adds.
--
-- Not modelled: that Ruby calls a registered method by its name, the initialisation of the CRT's
-- libraries, which has no result, RefCell's borrows of the other objects, and the Ruby code in lib. A
-- float of an S3 client's options is a value of any type.
pub mod Prelude
pub mod Crt
pub mod Runtime
pub mod Tls
pub mod Proxy
pub mod Connection
pub mod S3
pub mod Checksums
pub mod Cbor
pub mod Http
pub mod Error
pub mod Pool
pub mod Extension
