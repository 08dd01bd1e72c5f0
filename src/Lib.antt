-- ===== src/Lib.antt =====
-- Verification of the core of sonic-otairedis: the part of SONiC that puts a Redis database between
-- the applications of an optical transport device and the vendor's library for its linecards (OTAI).
--
-- An application calls OTAI objects by virtual ids (VIDs); meta/Meta.cpp checks each call; syncd takes
-- it from Redis, translates VIDs to the real ids (RIDs) of the vendor library
-- (syncd/VirtualOidTranslator.cpp) and calls the library. The two maps between the kinds of ids are
-- kept in Redis (syncd/RedisClient.cpp), where new VIDs get their index from a counter
-- (lib/RedisVidIndexGenerator.cpp), and cached by the translator.
--
-- The files, and the code that each models:
--   Common, and below it: Booleans and the conditional, maps as functions, `Result` for code that
--     throws, methods as functions on a state, the bits of numbers, signed integers, and Common.Assoc,
--     maps that are walked and counted.
--   Otai: the object types and the status codes of the OTAI headers.
--   Metadata: attributes, and the generated OTAI metadata as a record of lookups.
--   Oid.Virtual: lib/VirtualObjectIdManager.cpp. Below it, Fields has the laws of the codec, Queries
--     those of objectTypeQuery and linecardIdQuery, Allocation those of allocateNewObjectId.
--   Oid.Real: vslib/RealObjectIdManager.cpp, with its laws.
--   Oid.VidManager: syncd/VidManager.cpp.
--   Serialize.ObjectId: otai_serialize_object_id and otai_deserialize_object_id of
--     meta/OtaiSerialize.cpp, over texts as lists of bytes. Serialize.Texts: what the program uses of
--     `std::string`.
--   Redis.Database: what the program sends to a Redis database. Redis.VidMap: the interface between
--     the translator and the stored maps. Redis.Client: syncd/RedisClient.cpp, which fills it.
--   Translator: syncd/VirtualOidTranslator.cpp, one function for each method. A method is a function
--     from the state (the three maps and the database) to its result and the new state; a throw
--     keeps what was written before it. Below it, Coherence and Linked have the invariants of the
--     local and the stored maps, Attributes the overloads for attributes.
--   Meta: meta/Meta.cpp. Checks, Values and ObjList are the checks of ids, values and id lists;
--     Create and SetGet the validations of the calls; Create.Conditions says when a condition of a
--     conditional attribute holds, by itself; Calls the methods of `Meta`, in front of an
--     implementation that is a parameter.
--   Requests: processOid and the requests that it serves in syncd/Syncd.cpp, over the translator and
--     the vendor library; the uninitialised variable of processOidCreate is an argument.
--     Requests.AsicState: syncUpdateRedisQuadEvent. Requests.Events: processEvent, processSingleEvent
--     and processQuadEvent, from the text of a request to the answer that is sent; Effects and
--     Answers below it say what a request does and how it is answered.
--   Reinit: syncd/SingleReiniter.cpp, which creates the objects of ASIC_STATE again on hardware that
--     has lost them. Reinit reads the keys and fills the tables (prepareAsicState); Reinit.Objects has
--     processSingleVid and processAttributesForOids, which call each other; Reinit.BoardMode and
--     Reinit.Linecards what is done for the linecard; Reinit.Check checkAllIds; Reinit.HardReinit
--     puts them together. Below Reinit.Objects, Renamed says which ids the attributes get, Recreated
--     what was created, Keeps what the maps keep, and Complete when all of it returns.
--     Reinit.Soft: syncd/SoftReiniter.cpp, which sets the attributes again on hardware that has kept
--     its objects: processSingleVid and processOids, and in Reinit.Soft.Linecards the linecards and
--     softReinit.
--   Collector: the clock of syncd/pm/Collector.cpp. Collector.Stat: syncd/pm/OtaiStatCollector.cpp, a
--     function from a reading and the sums to the new sums and what is written to Redis.
--     Collector.Gauge: syncd/pm/OtaiGaugeCollector.cpp in the same way, and Collector.Gauge.Bytes the
--     order in which compare_primitive of meta/OtaiSerialize.cpp puts integers. Collector.Copies:
--     transfer_attributes and compare_attribute of meta/OtaiSerialize.cpp, with the lists that are
--     copied into buffers; Faithful below it says which copies are whole. Collector.Attr:
--     syncd/pm/OtaiAttrCollector.cpp, which saves its readings by them.
--   FlexCounter: syncd/FlexCounter.cpp, the settings and the collectors of a group of counters;
--     FlexCounter.Cycle its thread, cycle by cycle; FlexCounter.Manager syncd/FlexCounterManager.cpp,
--     and Counters below it the counters by group and VID, as one map;
--     FlexCounter.Events the requests on counters in syncd/Syncd.cpp and the calls that
--     syncd/FlexCounterReiniter.cpp makes after a restart.
--   Tests: the theorems at concrete inputs.
--
-- Numbers are natural numbers; what the source computes on 64 bits wraps around at 2 ^ 64, and what
-- it casts to 32 bits at 2 ^ 32. Times in nanoseconds are taken to fit 64 bits. Most loops run over
-- lists. There is fuel in two places. The digits of a number in base 16: there are at most as many as
-- the number is large. The calls of processSingleVid by itself: the fuel is the room on the stack, and
-- Reinit.Objects.Complete shows how much is enough, for objects that do not refer to each other in a
-- circle; on a circle the source overflows its stack, and so does the model. The polls of setBoardMode
-- are counted as in the source, which stops after 600.
--
-- Parameters: the OTAI headers (their promises are `IsOtai`), the metadata, the vendor library, and
-- the Redis database (what Redis documents is `IsRedis`). An attribute value is a union in the source;
-- here each member stands by itself, and the code reads the member of the attribute's type.
--
-- Not modelled: the JSON forms of values and notifications, the sockets and threads of syncd and of
-- the client library, the virtual linecard, and logging.
pub mod Common
pub mod Otai
pub mod Metadata
pub mod Oid
pub mod Serialize
pub mod Redis
pub mod Translator
pub mod Meta
pub mod Reinit
pub mod Requests
pub mod Collector
pub mod FlexCounter
pub mod Tests
