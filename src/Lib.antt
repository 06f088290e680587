-- ===== src/Lib.antt =====
-- A library on the simulators of this repository: the resource management system (RMS) of the
-- energy-aware data centre, `Energy-aware supercomputing/SuperComRmsApp.cc` and `SuperComRmsApp.h`
-- there, the servers that run its jobs, `SuperComServerApp.cc` and `SuperComServerApp.h` beside it, the
-- scheduler of a federation of data centres, `SuperComUSO.cc` and `SuperComUSO.h`, and the BitTorrent peers, in `Multiaccess Information-centric P2P networks/BitTorrent`:
-- `BitField.cc`, `BTUtils.cc`, `BTPeerWireBase.cc` and `BTPeerWireClientHandlerBase.cc`.
--
-- The RMS keeps a list of servers, a list of clients, a list of running jobs and a queue of jobs. A
-- request is placed on servers at once or queued; when a job ends, the queue is looked at again. The
-- servers are told to run a job, to sleep or to wake up, and answer. The scheduler of a federation (USO)
-- asks the RMS of each data centre and sends a job to one of them. A BitTorrent peer has a bit field of its own and one of each peer that it is connected with, counts
-- how many peers have each piece, keeps the requests that each connection has pending, and decides
-- which peers it serves.
--  * `Common`: Boolean tests, lists indexed by native numbers, integers, results that can fault, and in
--    `Sort` the sorting of a list by a Boolean order, and in `Members` counts over lists.
--  * `Rms/State`: serverInfo, clientInfo, runjobInfo and the module's fields as records, lookupServer,
--    lookupClient and the setters. A dereference of NULL is the fault `null_server` or `null_client`,
--    a call of `error` is `too_many_cores`, an access out of bounds `bad_index`, and scheduleAt with
--    a time in the past `past_time`.
--  * `Rms/Numbered`: the server list as `initialize` numbers it.
--  * `Rms/Search`: searchServers (`search_servers`), isResourcesAvailable, calculateFreeResources.
--    `Best` is about the inner loop, `Picks` about the outer one, `Outcome` about the whole.
--  * `Rms/Queue`: enqueue, enqueueJob; `Order` is about the order of the queue.
--  * `Rms/Connect`: initServerConnection and sendClientRequests. `Frame` says what they leave alone,
--    `Load`, `Charge` and `Capacity` how cores and jobs are charged, `Total` when they succeed, and
--    `Place` joins them with the search.
--  * `Rms/Estimate`: getEstimatedStartTime; `Sure` says when it reads no deleted message,
--    `Bound` bounds it, `Latest` says which time it picks.
--  * `Rms/Sleep`: checkServers and scheduleSleep; `Suspended` says what they change and
--    when, `Rested` that without a job no idle server is left.
--  * `Rms/Dequeue`: findResources, addOptimalJob and dequeue. `Ready` is the state between two steps,
--    `Fifo` the service in order, `FirstFit` and `BestFit` (with `Remove`, `Pull` and `Optimal`) are
--    the two backfills, `Step` a round of the first, `Whole` joins them, and `Registered` follows the
--    client list.
--  * `Rms/Request`: the request handler and checkQueue; `Admitted` is about its result.
--  * `Rms/Finish`: the handler of the servers' messages: the end of a job with removeServerJobs
--    (`Jobs`, `Freed`, `Handled`), the sleep and the wake-up response (`Woken`); and the part of
--    `established` that deletes a client whose job has finished (`finish_established`).
--  * `Rms/Initialize`: the servers that `initialize` creates. `Rms/Run`: runs as sequences of events
--    from there; `Safe` is about all states of all runs.
--  * `Rms/Tests`: runs on small systems.
--  * `ServerApp/State`: the fields of SuperComServerApp, `initialize`, and computeEnergy as the list of
--    the periods that it is called for. `ServerApp/Cores`: the loops over cores, memory sticks and
--    loaded times; `Marked` counts cores by their load, `Undone` is about allocation and return.
--    `ServerApp/Handle`: handleMessage, response and wakeupResponse; sleepResponse is the case of
--    `expire` that only answers. `Outcome` says what they come to, `Undone` that the end of a job undoes
--    its start, and `Energy` that no time is left out. `ServerApp/Run`: runs; `Totals` sums over the
--    scheduled messages, `Consistent`, `Ended` and `Power` keep the books, `Handled` joins them.
--    `ServerApp/Tests`: runs.
--  * `Uso/State`: RMSInfo, clientInfo and the module's fields, with the accessors; a site holds the state
--    of its RMS, whose search is the one of `Rms/Search`. `Uso/Sites`: the list of sites as `initialize`
--    numbers it. `Uso/Select`: selectRMS; `RoundRobin`, `Delay`, and `Energy` and `Load` are about its
--    strategies. `Uso/Request`: the request handler with addClientInfo, setClientRMSNumber and
--    sendClientRequests; `Placed` is about its result. `Uso/Ratio`: quotients. `Uso/Tests`: runs.
--  * `BitTorrent/BitField`: the BitField class with setBlockRequested, update and findNextBlock;
--    `Next` is about findNextBlock, `Kept` about the operations on a block, and `Filled` about the one
--    on a whole piece.
--  * `BitTorrent/Remote`: the bit field of a remote peer from its message, with the questions that are
--    asked of a bit field, BlockItem, and amInterested; `Told` is about what the message says.
--  * `BitTorrent/Requests`: RequestState; `Fifo` is about the order in which requests are served, `Room`
--    about the limit of the queue, `Found` about the removal of a request.
--  * `BitTorrent/Pieces`: PieceFreqState and selectPiece; `Rarest` is about the order of the pieces,
--    `Offered` about the chosen one.
--  * `BitTorrent/Wire`: the states of the client and of its connections, with what the timers
--    UNCHOKE_TIMER and CHOKE_TIMER do. `BitTorrent/Choking`: ChokingAlgorithm and
--    chokeWorstDownloader; `Frame` says what a round does, `Bound` bounds the peers that are served,
--    `Fair` says who is refused, `Worst` which peer is choked. `BitTorrent/Optimistic`:
--    OptimisticUnChokingAlgorithm and chooseOptUnchokePeer; `Enough` says when there are peers enough
--    for it, `Marked` and `Count` count those that it leaves optimistically unchoked.
--  * `BitTorrent/Tests`: runs.
--
-- getEstimatedStartTime keeps pointers to the jobs of a server that can never have the cores that the
-- first job needs, messages of a copy of its queue that is destroyed with them. A read of such a
-- message is the fault `freed_job`. It is met when that job needs more cores than a server has, which
-- an event of a run excludes, and with it `Ready`.
--
-- The self-messages that the RMS schedules for the current time, and its calls of the statistics, are
-- a list of effects in the state. simtime_t is an integer of picoseconds, and run times, doubles in
-- the source, are taken as such times; int and long are unbounded, so overflow is not modelled.
-- Addresses are natural numbers. Loops over the queue run on fuel, the queue's length: each round
-- starts a job or ends the loop, and running out is the fault `no_fuel`, which the theorems exclude.
-- Loops over the servers count the rounds left, and so does the loop of findNextBlock, which a round
-- behind the last block ends. What is read behind an array is a parameter, and so are the values of
-- fields that a constructor leaves uninitialised. A rate, a float that is only compared, is an integer;
-- a peer's ID and the pointer to a connection's thread are numbers. `intrand` is a function that is a
-- parameter, as is the outcome of comparing dblrand() with a probability, of the first of which a theorem assumes that the result is below the bound; std::sort, which leaves
-- the order of equal elements open, is the sorting by insertion. The quotients that the federation
-- scheduler compares are fractions, and its estimate of a job's energy, a sum of formulas in floating
-- point, is a parameter of which nothing is assumed.
--
-- A load of a server's core is in halves of a percent, a loaded time in millionths; what the arithmetic
-- of the source rounds is exact here. The self-messages of a server are a list, from which any one can
-- be next that is not in the past.
--
-- An event of a run carries what its message is assumed to satisfy: a client sends one request at a
-- time, for no more cores than a server has, a server reports the end of a job that it holds, and a wake-up response and the end of a job are
-- for a client that has its servers. `Ready` collects what the handlers keep.
--
-- Not modelled: TCP sockets, threads and the times of timers, network energy and PUE in floating
-- point, log output, the other parts of the BitTorrent peer and its trackers, and the other simulators
-- of the repository.
pub mod BitTorrent
pub mod Common
pub mod Rms
pub mod ServerApp
pub mod Uso
