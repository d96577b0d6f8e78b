-- ===== src/Lib.antt =====
-- A model of the core of the EzBake common C++ libraries: the in-memory caches, the configuration
-- and its property files, network addresses, the permissions of users, security tokens
-- and the clients of the security service, the pools of Thrift clients and their asynchronous socket
-- channels, and service discovery.
--
-- Cache/Lru.antt is `LRUCache` of common/src/main/include/ezbake/common/lrucache/LRUCache.h. A cache
-- is its capacity and its entries in the order of the bimap's list view, the least recently used
-- first; an iterator is a position in that view. The hash table of the key view is Boost's: it is
-- the argument `range`, the order of an `equal_range`, of which the theorems assume only that it
-- runs through the entries of the key, each once (`IsRange`). Lru/Spec.antt, Lru/Writes.antt and
-- Lru/Reads.antt describe the methods on the list alone, Lru/Bounds.antt has the invariant along
-- sequences of calls, and Lru/Queries.antt the lookups by value. The mutex is left out: each method
-- holds it from its first access to its last, so calls are one after another.
-- Cache/Timed.antt is `LRUTimedCache` of LRUTimedCache.h beside it, over the same cache with stamped
-- values (`CacheValue`). The clock is an argument. A `std::set` of entries is iterated in the order
-- of the argument `order`, of which only the elements matter (`IsOrder`).
--
-- Config/Parser.antt is `PropertyParser` of configuration/src/main/cpp/util/PropertiesUtil.cpp: its
-- loop is `loop`, one round is `step`, and its variables are the record `Lexer`. The loop takes
-- fuel. Three rounds to a byte are enough, since no more than two rounds in a row read nothing
-- (Parser/Halts.antt), and where they are not enough no number is, since the lexer is then in a
-- round that changes nothing; `read_properties` gives `hang` there. Parser/RoundTrip.antt has the
-- format as a list of lines. Config/Properties.antt is the rest of `PropertiesUtil`; the file system,
-- `getenv` and Boost's string algorithms are the record `System`. Config/EzConfiguration.antt is
-- configuration/src/main/cpp/EZConfiguration.cpp, whose state is a property container; a method that
-- changes it returns it beside the outcome, since an exception does not undo what came before it.
-- Config/Convert.antt is util/StringConversionUtil.cpp and Config/OpenShift.antt
-- util/OpenShiftUtil.cpp, both with Boost's `lexical_cast` as an argument where they use it.
-- Config/Helpers/ holds the typed views of configuration/src/main/cpp/helpers, one file to a class;
-- the generated property names are the record `Constants`. Helpers/Security.antt has the keys and
-- signatures over the record `Crypto`, which stands for OpenSSL, and Config/CryptoUtil.antt is
-- util/CryptoUtil.cpp, over the base64 filter of OpenSSL (`Bio`).
--
-- Net/HostAndPort.antt is configuration/src/main/cpp/util/HostAndPort.cpp and the same class in
-- common/src/main/include/ezbake/common/HostAndPort.h.
--
-- Security/Permissions.antt is security/permission-utils/src/main/cpp/ezbake_permissions.cpp, with
-- the evaluation of visibility expressions as an argument. That evaluation is
-- Security/Visibility.antt, for ezbake_visibility.cpp beside it: Visibility/Markings.antt replaces
-- the markings of an expression by words for true and false, Visibility/Grammar.antt is the grammar
-- `parser`, whose combinators are read as Boost.Spirit documents them, and Permissions/Evaluated.antt
-- puts the two programs together. The parser takes fuel, a unit for each call of a rule; there are at
-- most four calls to a byte and four more, which Grammar/Halts.antt shows to be enough. Boost's
-- `split`, `replace_all` and `lexical_cast` are the record `Boost`, and what is assumed of the first
-- two is `IsBoost` (Markings/Documented.antt). The order of the set of markings is an argument, of
-- which only the elements matter (Visibility/Meaning.antt), since its comparator is no strict order.
--
-- Security/Tokens.antt is security/client/src/main/cpp/EzSecurityTokenUtils.cpp with its header: the
-- texts that are signed, in Tokens/Json.antt the JSON of tokens, and in Tokens/Signed.antt the
-- signatures, which are those of `SecurityConfiguration`, and the check of a received token. The
-- structures are those that Thrift generates, with the fields read; picojson is the record
-- `PicoJson`, and the clock is an argument. Security/Client.antt is CommonClient.cpp and SyncClient.cpp
-- beside it: the two `LRUTimedCache`s are those of the model, the service and the pool of connections
-- are the record `Service`. Security/AsyncClient.antt is AsyncClient.cpp beside it.
--
-- ThriftUtils/ClientPool.antt is thrift-utils/src/main/cpp/ThriftClientPoolBase.cpp and
-- ThriftSyncClientPool.cpp with thrift-utils/src/main/include/ezbake/thriftutils/
-- ThriftSyncClientPool.tcc: endpoints are in an `LRUCache` from common and connections in an
-- `LRUTimedCache`, so the pool is written over those models; ClientPool/Borrow.antt lends clients
-- and takes them back. Sockets and service discovery are the record `Outside`. ThriftUtils/AsyncPool.antt
-- is ThriftAsyncClientPool.cpp and ThriftAsyncClientPool.tcc there, over the same state:
-- its discovery of services is in AsyncPool.antt itself, with the delegates' state as other
-- invocations have left it; AsyncPool/Create.antt connects to the endpoints of a service in turn,
-- AsyncPool/Borrow.antt lends clients and takes them back, and AsyncPool/Close.antt closes the pool.
-- ThriftUtils/Channel.antt and the files below it are thrift-utils/src/main/cpp/tasync and
-- thrift-utils/src/main/include/ezbake/thriftutils/tasync: Channel/Frame.antt writes and reads frames
-- (TAsyncAsioTransport.h), Channel/Connect.antt connects, shakes hands and closes, and
-- Channel/Transfer.antt exchanges messages. The `write` and the memory buffer of Thrift are the
-- parameter `BufferBase` and the record `MemoryBuffer`. The loop of `writeSlow` doubles a size of 32
-- bits; the 66 rounds of `grow` are enough, which Frame/Bytes.antt shows.
--
-- Discovery/Registry.antt is discovery/src/main/cpp/ServiceDiscoverySyncClient.cpp over the record
-- `ZooKeeper`, whose state is that of the service; Registry/Documented.antt says what is assumed of
-- it, that its nodes form a tree. Discovery/Paths.antt has the paths of ServiceDiscoveryClient.cpp.
-- Discovery/Async.antt is ServiceDiscoveryAsyncClient.cpp beside it with the callbacks of
-- ServiceDiscoveryCallbacks.h; `create_node` has a unit of fuel for each node of the path.
-- The pools of clients take what they ask of service discovery as given.
--
-- Asynchronous code is a value of `Async` (Common/Async.antt): a handler issues one operation and
-- leaves the rest to the handler of its completion, and a call of the principal's callback is part of
-- the value, so that a callback that is dropped or called twice can be told from one that is called
-- once. A handler that ZooKeeper's callbacks invoke twice after an error starts two chains (`both`), and
-- so does one that the pool invokes more than once. `run` completes each operation as a given step
-- function says, those of the first chain first; what is proved of any step function does not rest on
-- that order. The functions of a pool and of the security client issue a request with their state as it
-- is then, and have the state as other calls have left it when the request completes; strands run
-- handlers one after the other.
--
-- Common.antt and the files below it have what the others share: Boolean tests, lists over the
-- native numbers, strings as lists of bytes (`Text`), maps as association lists (Common/Dict.antt),
-- and the outcomes of C++ code (Common/Result.antt): a value, an exception, a loop that never ends
-- (`hang`), and undefined behaviour (`crash`). Tests.antt in each part applies the theorems to
-- concrete inputs.
--
-- Numbers are natural numbers, but for the times of tokens, which have a sign (Common/Int.antt);
-- sizes that the code converts to `unsigned int` are taken modulo 2^32.
-- Times of the clock are exact here: the model leaves out the overflow of 64-bit seconds.
--
-- Not modelled: the constructors of the clients and pools; the sessions with ZooKeeper; the threads of
-- `TAsyncClientManager` and the settings of the SSL channel factory (calls of Boost.Asio); the C
-- wrappers of serialization and purge; encryption (calls of OpenSSL); logging; and the copies of other
-- libraries (picojson, gtest, base64.h, the ZooKeeper client).
pub mod Common
pub mod Cache
pub mod Net
pub mod Config
pub mod Security
pub mod ThriftUtils
pub mod Discovery
