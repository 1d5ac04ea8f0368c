-- ===== src/Lib.antt =====
-- weather-rtos: collectors send weather packets as JSON envelopes over TCP, subscribers validate and
-- count them, writers queue them by region and store them in TimescaleDB, and a service answers map
-- queries over HTTP. This library models the parts of that program which hold its own logic and proves
-- what they promise.
--
-- Which file models which part:
--   * Base and its children: lists, texts (lists of byte codes), integers, bits and Boolean tests.
--   * Double and Json: `double` and the nlohmann JSON values as records of operations with the laws that
--     the proofs rest on. They are parameters of every module that uses them; Tests/Instances fills both.
--   * Protocol/Packet and Protocol/Envelope: common/models/WeatherPacket.hpp and common/protocol.
--   * Analytics: common/analytics/MapAnalytics.hpp (clamping, norms, scores, hazards, tiles, events).
--   * Pipeline: common/pipeline/ValidationAggregationConsumerPipeline.hpp. Its state is the record
--     Pipeline, `consume` is one call and `consume_all` a sequence of calls.
--   * RtSafe/RingBuffer: common/rt_safe/LocklessRingBuffer.hpp. `push` and `pop` are the whole calls; in
--     RingBuffer/Spsc they are cut into their atomic accesses, which a producer and a consumer
--     interleave. RtSafe/BoundedQueue is the abstract queue that the ring implements.
--   * RtSafe/FlowController: common/rt_safe/FlowController.hpp, on 64-bit words.
--   * Metrics: common/metrics/Metrics.hpp, the counters on 64-bit words and their text.
--   * Timescale/RegionQueue and Timescale/AsyncWriter: common/timescale/AsyncQueueWriter.hpp, the map of
--     region queues and the writer over it. The writer holds a Timescale/BatchWriter.
--   * Timescale/BatchWriter, Timescale/Flush and Timescale/Sql: common/timescale/TimescaleBatchWriter.hpp,
--     that is the pending queue with its duplicate cache, the groups and rows of a batch, the outbox,
--     and the quoting (with `sqlEscape` of services/map_query_api/main.cpp and `shellEscape` of
--     common/timescale/TimescaleReadClient.hpp). Timescale/Hazard holds its own scores.
--   * Http: the HTTP side of services/map_query_api/main.cpp. Http/Request is `parseHttpRequest` and
--     `readBody`, Http/Handler is `handleConnection` with all its routes.
--   * Tiles and Png: the images of that service. Tiles/Heat is what lies below the renderer, Tiles/Render
--     `renderHeatTilePng`, Png `encodePngRgba`; Png/Decode is a decoder made from the formats' documents,
--     with the checksums as Png/Crc and Png/Checksum define them.
--   * Store: `MapQueryStore` of that service. Store/Sql is the text of its queries, Store/Snapshots and
--     Store/History what it makes of the answers. The database's answers are an argument.
--   * Math: the functions of <cmath> and the conversions that the rendering uses, as a parameter.
--   * Personal: services/personal_comparator/main.cpp. Personal/Threads runs its three threads on two
--     RtSafe/RingBuffer rings as a relation of steps.
--   * Socket: the framing in common/socket/TCPSocket.cpp. What `epoll_wait` and `recv` answer is an
--     argument.
--   * Collectors: collectors/regional/main.cpp, the packet of an answer in `pollCity`, and `weatherQueue`
--     between the poll threads and the sender as steps in any order.
--   * Broker: the topic queues of common/subscribing/InProcessBrokerSubscriber.hpp, the filter of
--     common/gateway/RegionalGateway.hpp, and `extractRegion` of the async writer.
--   * Routes: common/utils/LogisticsRouteMapper.hpp and common/utils/CitySampling.hpp, over the distance
--     of two points as an argument.
--   * Tests: every theorem below applied at a concrete input.
--
-- How the parts interact: an envelope received by Socket is read by Protocol, checked and counted by
-- Pipeline, and handed to AsyncWriter, which feeds BatchWriter, which groups and delivers it by Flush. A request to the
-- query service is read and taken apart by Http, answered by Store from the database, and by Tiles with
-- an image that Png encodes.
--
-- A thrown exception is `none`, as is undefined behaviour in the ring buffer, in the batch writer and in
-- the drawing of a tile; the answers of the query service tell the two apart.
-- Critical sections are single steps; only the ring buffer is taken apart further. Loops on fuel:
-- `passes` runs on one round more than the batch has room for, which its theorem shows to be enough;
-- `split_loop` and `query_loop` run on the length of their text, of which every round takes a byte.
-- `receive_loop` and `acquire` run over the answers of the environment, which are finite lists.
--
-- `find_blank_line`, `read_body` and the drawing loops are structural; `stored_blocks` runs on the length
-- of its bytes and `take_lines` on that of its buffer, of which every round takes one at least.
--
-- Not modelled: the programs that wire the parts together, threads and sockets as resources, log
-- output, the database clients, the rest of the collector, the aggregator and the simulator, the
-- text of the SQL statements of the batch writer, and the raw rows of a batch, whose statement is
-- incomplete in the source.
pub mod Base
pub mod Double
pub mod Json
pub mod Math
pub mod Protocol
pub mod Analytics
pub mod Pipeline
pub mod Metrics
pub mod RtSafe
pub mod Timescale
pub mod Http
pub mod Socket
pub mod Routes
pub mod Broker
pub mod Collectors
pub mod Tiles
pub mod Png
pub mod Store
pub mod Personal
mod Tests
