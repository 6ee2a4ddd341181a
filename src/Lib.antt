-- ===== src/Lib.antt =====
-- Verification of ccRTP, a C++ stack for RTP and RTCP over the Common C++ library.
--
-- The library receives RTP packets (src/incqueue.cpp), keeps a table of the session's
-- synchronization sources (src/members.cpp) with statistics and a validation state for each,
-- sends packets (src/outqueue.cpp) that src/rtppkt.cpp builds, exchanges RTCP packets about them
-- (src/control.cpp, src/rtcppkt.cpp), and can protect both by SRTP (src/CryptoContext.cpp,
-- src/CryptoContextCtrl.cpp).
--
-- Source models the data of one source: SyncSource of src/ccrtp/sources.h, SyncSourceLink of
-- src/ccrtp/iqueue.h and initStats of src/members.cpp.
--
-- Reception models recordReception of src/incqueue.cpp (validate, track, account and their
-- composition record_reception) and computeStats of src/members.cpp. uint16 and uint32
-- differences wrap as in C. The jitter is the bit pattern of a float, and the expression that
-- smooths it is a parameter. Sequence, Validation and Loss hold the proofs.
--
-- Members models the table: a bucket is the list of the objects that its nextCollis pointers
-- reach, and an object that has been deleted while a pointer to it remains is marked. An access
-- to such an object is the result none. The list of all sources, which starts at first, is a list
-- of marks in the order of creation; the index in it is the serial of an object. Members that the
-- constructors leave unset are a parameter. Chain and Table prove look-up and creation, Remove
-- the removal and BYE.
--
-- Queue models the queue of received packets: links at pointers, each in the queue of all packets and
-- in that of its source. A read through NULL or of a deleted link, and a write to one, is the result
-- none. It has insertRecvPacket, isWaiting and getFirstTimestamp, Waiting has getWaiting, getData and
-- purgeIncomingQueue; the search runs on as much fuel as links were made. end2EndDelayed is a parameter.
-- Line, Step and Arrival are about packets in order and Take and Drain about how they are taken out,
-- Disorder is about others, Dangling about deleted links. The locks are left out: each operation is one
-- step.
--
-- Crypto models the members of CryptoContext that guessIndex, checkReplay and update use; the
-- replay window is the list of its 64 bits. A shift that C leaves undefined is the result none.
-- Index, Replay and History hold the proofs. CryptoCtrl does the same for the SRTCP context.
--
-- Cipher models SrtpSymCrypto (src/ccrtp/crypto/gcrypt/gcryptSrtpSymCrypto.cpp): setNewKey, counter mode
-- and f8 mode in place, the key stream, and the cipher for f8's IV. Memory is a function from positions
-- to bytes. AES and Twofish are parameters: a function from keys and blocks to blocks. The loops of
-- counter mode run on one step of fuel for each block and one for the rest, which is enough where the
-- blocks are fewer than the values of the 16-bit counter (Counter, Stream). Xor has the laws of the
-- exclusive or, Mask sees a mode as bytes that the data is xored with, Feedback is about f8 mode.
--
-- Session models the keys of a context: what the constructors set up and what deriveSrtpKeys and
-- deriveSrtcpKeys make of it (Derive). The MACs are parameters, and so is what the stack and new memory
-- hold. A call on a pointer that is NULL is the result none.
--
-- Srtcp models srtcpEncrypt and srtcpAuthenticate of src/CryptoContextCtrl.cpp and protect and unprotect of
-- src/control.cpp over the memory of a packet, Srtp their counterparts in src/CryptoContext.cpp and
-- src/rtppkt.cpp over the packets of Packet. Sealed describes the memory of a protected packet,
-- RoundTrip and Delivery bring it back, Refusal is about what is not accepted, Clear about keys that AES
-- does not have. Manager adds the lists of SRTCP contexts of src/control.cpp, sendControlToDestinations
-- and the part of takeInControlPacket that opens a packet; Exchange joins the two. The memory behind the packet is taken to be large enough for index and tag.
--
-- Packet models the memory of a packet as a function from positions to bytes, with its size: the
-- three constructors of OutgoingRTPPkt and the setters over whatever the memory held before
-- (Fields), IncomingRTPPkt and the part of takeInDataPacket in src/incqueue.cpp that clears the
-- padding bit and puts it back (Incoming). A read behind the buffer is the result none. Memory and
-- Build hold lemmas on writes, RoundTrip and Delivery what a receiver reads of a packet that was
-- built, Received what it does with lengths from the network.
--
-- Outgoing models the queue of src/outqueue.cpp in a session without crypto contexts: the list from
-- sendFirst to sendLast, sendLock, the counters and the datagrams handed to sendData. A write lock
-- that is held and not released is waited for without end, the result none; the loops of putData
-- and sendImmediate run on as much fuel as there are bytes of data, which is enough with a segment
-- size of at least 1. Stream says what packets deliver; Segments, Dispatch, Immediate, Partial and Destinations hold the proofs. Schedule
-- models getSchedulingTimeout: its loop runs on one step of fuel for each packet and one more, the one
-- that catches up with overflows on the seconds of the clock; Expiry holds the proofs. The time of a clock
-- is at least the time in which a timestamp overflows.
--
-- Contexts models the lists of crypto contexts, for any kind of context, and those of both queues, with Lookup for the proofs, and
-- Create how a context is made for a new SSRC and gets its session keys (src/CryptoContext.cpp, takeInDataPacket). A call of
-- the missing cipher of a context without encryption is the result none.
--
-- Conflict models ConflictHandler and checkSSRCInIncomingRTPPkt of src/incqueue.cpp: the state is
-- the source's link, the recorded addresses, the local SSRC and the number of BYEs. A read through
-- NULL is the result none; random numbers, the clock and the table look-up are parameters; the loop
-- of renewLocalSSRC runs on fuel for its 20 tries. Collision holds the proofs.
--
-- Conflict.Control adds checkSSRCInRTCPPkt of src/control.cpp over the same state.
--
-- Control models the times of the RTCP service: timer and reverse reconsideration, the transmission
-- service, the loop of controlReceptionService on fuel, the average packet size, and the conversions
-- of src/rtcppkt.cpp and src/ccrtp/base.h. A uint32 of microseconds is taken modulo 2^32. The clock and
-- the results of computeRTCPInterval, which is floating-point code, are parameters. Clock,
-- Reconsideration and Reception hold the proofs.
--
-- Rtcp models RTCP packets in the receive buffer: checkCompoundRTCPHeader (Compound), the BYE compound of
-- dispatchBYE over whatever its buffer held before and the reason that getBYE reads (Bye, with Layout
-- and RoundTrip), and the walk of takeInControlPacket over a compound in a session without crypto
-- contexts (TakeIn). The walk works on any state, a faulted session's included: a record of handlers stands for the virtual
-- functions and for the table of sources. The loops run on one round more than the datagram has
-- bytes, which is enough for packets of 4 bytes at least that are passed by; the loop over BYE packets may
-- not end. Ends holds the proofs, and Goodbye is about the
-- loop of getBYE over the membership table. A read behind the buffer is the result none. BYEPacket is
-- packed, so the reason begins 17 bytes into the compound.
--
-- Not modelled: the calls that protect data packets in the loops of the queues (the sessions of Outgoing and
-- Rtcp have no crypto contexts), the reports and SDES packets of RTCP and the interval of its timer,
-- participants. The I/O services, the MACs and the block ciphers, and the copies of MD5, Twofish
-- and Skein are left out.
pub mod Prelude
pub mod Crypto
pub mod CryptoCtrl
pub mod Source
pub mod Reception
pub mod Members
pub mod Packet
pub mod Outgoing
pub mod Control
pub mod Rtcp
pub mod Cipher
pub mod Session
pub mod Srtcp
pub mod Srtp
pub mod Conflict
pub mod Contexts
pub mod Queue
