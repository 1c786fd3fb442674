-- ===== src/Lib.antt =====
-- A model of the SNMP protocol engine of tkined: the BER coder and the code that reads and writes
-- SNMP messages with it, the queue of requests, object identifiers, the tree of MIB instances,
-- the scheduler of jobs, and vectors.
--
-- The program. tnm (tnm/) is a Tcl extension for network management. Its SNMP engine (tnm/snmp)
-- turns a received packet into a structure TnmSnmpPdu and a session with a PDU into a packet.
-- Both ways go through one module, tnm/snmp/tnmAsn1.c, whose functions take a stream `struct
-- TnmBer *`, and return it, or NULL with a message left in it. tnm/snmp/tnmSnmpRecv.c calls its
-- decoders, tnm/snmp/tnmSnmpSend.c its encoders. The packet of a request that waits for an
-- answer is kept in the queue of tnm/snmp/tnmSnmpUtil.c and sent again when its timer runs out.
-- An agent looks for the instances of a received PDU in the tree of tnm/snmp/tnmSnmpInst.c. The
-- jobs of tnm/generic/tnmJob.c evaluate Tcl scripts periodically. tkined/ is the graphical
-- editor on top of the extension.
--
-- The state. A stream is the record `Ber` of Ber/Stream: `mem`, the bytes from `start` up to
-- `end`, `current`, the distance of the current position from `start`, and `error`, the message.
-- A token or another pointer into the packet is such a distance. A function of the code is a
-- function of type `M A`, from a stream to an outcome: `ok a ber` when it returns the stream,
-- with what it stores through its other arguments as `a`; `null ber` when it returns NULL, with
-- the stream that the caller still has; `fault` when it writes behind an array, shifts an int by
-- its width or does something else that C leaves undefined; `spent` when the model has run out
-- of fuel, which is no outcome of the program. Bytes are numbers, below 256 where a theorem
-- needs it; an int is its bit pattern, a number below 2 ^ 32; a sub-identifier (Tnm_Oid) is a
-- number kept below 2 ^ 32.
--
-- The functions outside the coder return an `Option` where C leaves something undefined: `none` is
-- a store behind an array or a buffer, a read through NULL or, in `schedule`, a look at a job
-- that was deleted, or spent fuel.
--
-- The files.
--   Prelude: the names that all modules use, tests on numbers, lemmas on lists.
--   Ber/Stream: TnmBerCreate, TnmBerDecDone, TnmBerSize, TnmBerDecPeek, TnmBerEncByte,
--     TnmBerDecByte and the messages TnmBerSetError, TnmBerWrongTag, TnmBerWrongLength and
--     TnmBerWrongValue of tnm/snmp/tnmAsn1.c. Ber/At: a stream as the bytes behind and before it.
--   Ber/Length: TnmBerEncLength and TnmBerDecLength, with lemmas in Shift, Encode and Decode.
--   Ber/Integer: TnmBerEncInt, TnmBerDecInt and TnmBerDecUnsigned64.
--   Ber/Oid: TnmBerEncOID and TnmBerDecOID, with the array of the caller.
--   Ber/Octets: TnmBerEncOctetString, TnmBerDecOctetString, TnmBerEncNull, TnmBerDecNull and
--     TnmBerDecAny.
--   Ber/Sequence: TnmBerEncSequenceStart, TnmBerEncSequenceEnd, TnmBerDecSequenceStart and
--     TnmBerDecSequenceEnd.
--   Ber/Safety, Ber/Ends and Ber/Frames: predicates on decoders and encoders, with a lemma for
--     each function and for sequencing: it keeps the stream inside the packet, it ends, it
--     writes or reads certain bytes.
--   Snmp/Decode: DecodePDU of tnm/snmp/tnmSnmpRecv.c, with Safety, Termination,
--     Trap, and in VarBinds and Pdus what it reads of an encoded PDU.
--   Snmp/Message: DecodeMessage, DecodeHeader, DecodeUsmSecParams and DecodeScopedPDU of the same
--     file, with Safety.
--   Snmp/Encode: EncodeHeader and EncodeUsmSecParams of tnm/snmp/tnmSnmpSend.c, with RoundTrip
--     and Usm.
--   Snmp/EncodePdu: EncodePDU, EncodeScopedPDU, EncodeMessage and the mapping of PDUs to SNMPv1
--     in TnmSnmpEncode of the same file. What Tcl, the resolver, the clock and the MIB do for
--     them is the record `Env`. Binding is about the varbinds, RoundTrip about whole messages,
--     Mapping about SNMPv1.
--   Snmp/Send: TnmSnmpEncode of the same file, up to the wait for the answer of a synchronous
--     request. Queued joins the encoders, the queue and the decoders.
--   Snmp/Hex: TnmHexEnc and TnmHexDec of tnm/generic/tnmUtil.c.
--   Snmp/Queue: the queue of asynchronous requests in tnm/snmp/tnmSnmpUtil.c with the timers of
--     TnmSnmpTimeoutProc in tnm/snmp/tnmSnmpNet.c and the options of a session in
--     tnm/snmp/tnmSnmpTcl.c. The record `Engine` holds the sessions by their addresses, the list
--     of the open ones, the queue, and a log of what was sent. Counts and Invariant relate the
--     counters to the queue, Timeout and Reach are about the events one by one and in any
--     sequence, and Window, Order, Progress, Pending, Retries and Ids about what the queue
--     promises.
--   Snmp/OidText: identifiers as texts, TnmOidToStr and TnmStrToOid of tnm/snmp/tnmAsn1.c and the
--     loops of TnmIsOid and TnmOidFromString of tnm/snmp/tnmOidObj.c, with Digits. Snmp/OidObj:
--     struct TnmOid and its operations in the same file, with Space for its memory, Order for the
--     comparisons, and RoundTrip and Safety for the texts.
--   Snmp/Inst: AddNode, FindNode, FindNextNode and RemoveNode of tnm/snmp/tnmSnmpInst.c, with the
--     tree by its child and sibling pointers. Order has the order of the siblings and the paths
--     of nodes; Find, Next, Add and Remove are about the four functions. Inst/Bindings:
--     TnmSnmpSetNodeBinding and TnmSnmpGetNodeBinding of the same file, with ReadBack.
--   Job: AdjustTime, NextSchedule and Schedule of tnm/generic/tnmJob.c. The record `JobControl`
--     holds the jobs by their addresses, the list, the timer, and a log of the jobs that were
--     run; the evaluation of a script is a function on it. Round is about the loop that runs
--     jobs, Delete about the one that deletes them, Timer about the timer and, in Schedule, the
--     whole. Job/Configure: CreateJob, SetOption, DeleteProc and the destroy command of the same
--     file and the loop of TnmSetConfig of tnm/generic/tnmUtil.c, with Sound and Reach for
--     sequences of operations.
--   Vector: struct TnmVector of tnm/generic/tnmInt.h and its operations in
--     tnm/generic/tnmUtil.c, with Contents for the list that a vector holds.
--   The modules Tests run the code on packets, queues, identifiers, trees and jobs.
--
-- Fuel. `count_octets` has five rounds: the fourth shift empties an int, and the fifth would be
-- undefined. `dec_subid` has a round for each byte of the packet and one more, `dec_oid_loop` one
-- for each octet of the length, `decode_varbinds` one for each byte of the packet; each round
-- reads a byte. `get_request_id` has a round for each number of the list that stands for rand().
-- `grow` and `emit` have ten, enough for a number below 2 ^ 32. The two loops of `schedule`,
-- which start over behind every job, have a round for each job and one more, enough while the
-- scripts leave the scheduler alone; scripts that keep making jobs due do not let the program
-- end. All other loops are recursions on a counter of the code or on a list.
--
-- Not modelled: TnmBerEncUnsigned64, which computes with doubles; the counters of tnmSnmpStats;
-- the texts that DecodePDU builds for Tcl with the help of the MIB, with the calls of
-- TnmOidToStr and its buffer; the error messages for Tcl, for which EncodeMessage calls
-- TnmBerGetError(NULL); the overflow of the ints of the queue and of the scheduler, which are
-- plain numbers; the search for names in the MIB and the parsing of Tcl lists, which are
-- parameters; SNMPv2U, which is not compiled in; the callbacks of the application, sockets, the
-- MIB, and the other commands of the extension. Of the tree of instances TnmSnmpCreateNode,
-- which asks the MIB, and TnmSnmpEvalNodeBinding; of the jobs their tags, their attributes, the
-- commands that look for jobs or wait for them, and the calendar, which is not compiled in.
pub mod Prelude
pub mod Job
pub mod Ber
pub mod Snmp
pub mod Vector
