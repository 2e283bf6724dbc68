-- ===== src/Lib.antt =====
-- PFSsim, a simulator of parallel file systems on OMNeT++: the request schedulers of its data servers
-- and the division of a request over the data servers.
--
-- A client turns each request of an application into a trace (omnetpp/trace). The trace asks the
-- metadata server for the layout of its file (omnetpp/layout) and then hands out packets
-- (omnetpp/packet), one for each data server and window. A proxy in front of a data server puts the
-- packets into a queue of omnetpp/scheduler, which decides their order and how many are outstanding.
-- In the data server the daemon (omnetpp/dserver/dsd) divides a read into sub-requests, VFS
-- (omnetpp/dserver/vfs) finds the pages of each, and the local file system (omnetpp/dserver/lfs) the
-- blocks of the disk; the answers go the same way back.
--
-- Files:
--   Base       tests, lists, signed numbers, arrays, and the arithmetic on `double`
--   Packet     the packets of omnetpp/packet/Packets.msg
--   Layout     omnetpp/layout/Layout.cc; an ID or a size of -1 is `none`, an array a function
--   Trace      omnetpp/trace/WindowBasedTrace.cc; `initialize`, `open_new_window`,
--              `next_g_packet` for nextgPacket, `finished_g_packet` for finishedgPacket, and
--              `set_layout` for setLayout (Offset); a cell of dataSizeInWindow is a `Slot`
--   Application  omnetpp/client/application/Application.cc: the requests that an application makes of
--              its input flows (Flows) from its start on (Runs)
--   Files      omnetpp/pfsfile and omnetpp/mserver/strategy: the files that a client or the metadata
--              server knows, and the answer to a query
--   Client     omnetpp/client/pfsclient/strategy/PVFS2ClientStrategy.cc: its handlers, the IDs of its
--              requests (Ids) and the packets of a transfer (Split)
--              The module around it is PFSClient.cc (Module)
--   Mserver    omnetpp/mserver/MetadataServer.cc: the module around the answers of Files
--   Lfs        omnetpp/dserver/lfs: the extents of ILFS.cc (Extents), the queue of EXT3.cc
--              (Ext3) and the handlers of LFS_M.cc (Module)
--   Dsd        omnetpp/dserver/dsd: the division of a read by PVFS2DSD.cc, with a file system below that
--              answers (Serve), and the handlers of DSD_M.cc (Handlers, Reply)
--   Vfs        omnetpp/dserver/vfs/VFS.cc: the pages of a file request (Pages) and the queues
--   Cache      omnetpp/dserver/diskcache/DiskCache.cc: the page table of a file and the walk over it
--              (Ranges), trimming (Trim), the choice of pages to write back (Writeout), what a read
--              does next (Reads), and the read-ahead windows (ReadAhead)
--   Scheduler  omnetpp/scheduler: the interface of the queues with its contract (IQueue), and FIFO,
--              EDF, SFQ, SSFQ, I2L, AVATAR, DTA and DSFQ with its variants
--   Proxy      omnetpp/proxy/Proxy.cc: the handlers over any queue; an `Effect` is a message that is
--              sent, or set for later
--
-- State is passed explicitly: an operation takes the queue, the layout or the trace and returns the
-- new one, beside its result. A handler also returns the messages that it sends or sets for later, as
-- a list of effects, and `none` where an error ends it: `PrintError::print` rethrows outside a
-- handler, which ends the program. Where a queue of SFQ or FIFO prints such an error and would return
-- NULL, its model returns `none` as the result. `endSimulation` ends the run of an application: nothing
-- of it follows (`ends`). A pointer that may be NULL is an `Option`. Where two components
-- interact, the operations are a record (`IQueue`), with its laws as a second one (`Contract`), which
-- each queue fills; the theorems on runs of calls are proved once against it.
--
-- Numbers are natural numbers without a bound; the degree of a queue is signed. The tags of SFQ and
-- the deadlines of EDF are values of `double`, whose operations are a parameter (`Arith`), with the
-- order and the laws that the code relies on as named hypotheses (`IsOrder`, `IsTagArith`); rounding
-- can break these on a machine.
-- VFS counts pages in `double`: its theorem assumes that the quotients by the page size, and the sums
-- and products that it forms of them, are exact (`IsExact`). Delays are whole ticks, and the clock is a
-- parameter or a field. Where the source puts a long ID into an int, the proxy and DTA narrow it as it
-- does there; that of a trace (trace/ITrace.h) is not narrowed.
--
-- The loops without a bound run on fuel. The search of SFQ::dispatchNext has appNum + 2 rounds: it
-- passes each queue once and comes back to where it began. The division of a window has one round
-- more than the bytes of the window and one for the start: each later round takes a byte at least.
-- A client sends at most one packet for each server before it waits, and needs one more round to see
-- that; a transfer and a reply take a byte at least in each round; the search of the extents halves
-- its part of the list and has a round for each extent. A loop that dispatches from a queue has one round more
-- than packets wait, and so has a search or a filter of the queues of DTA. All are shown to end within that.
--
-- Not modelled: the queue SFQRC; the end of AVATAR's window, of which only the search of a rank is
-- modelled, and which is a parameter of I2L, assumed to keep the packets (`KeepsPackets`); the handlers
-- and the LRU list of the disk cache. A walk over the page table stops as `short` where the source
-- reclaims pages by lru_free_pages, and takes the table from the node where it begins, the head or
-- pr_last. Nor are modelled the network, the disk and the text files, which are left to OMNeT++,
-- DiskSim and the operating system; the debug output;
-- and what a double free or a use after a free does.
pub mod Base
pub mod Mserver
pub mod Packet
pub mod Layout
pub mod Scheduler
pub mod Trace
pub mod Files
pub mod Client
pub mod Lfs
pub mod Proxy
pub mod Dsd
pub mod Vfs
pub mod Cache
pub mod Application
