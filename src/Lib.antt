-- ===== src/Lib.antt =====
-- bmw takes jobs from HTTP requests, puts them on a queue and hands them to workers. A service is an
-- API, a queue, a dispatcher and workers around a handler; the programs under worker/ are such
-- services. This library models the pipeline, its rate limiter, the queue on beanstalk, the HTTP
-- client, the etcd publisher and eight of the workers.
--
-- Pipeline (api.go, queue/go_chan.go, dispatcher.go, worker.go, api/middleware.go)
--   Pipeline/Types       RetryJob, and the codec and the handler, which are arguments
--   Pipeline/Worker      register, GoChannel.Push, dispatch and Worker.handle as functions
--   Pipeline/Steps       the goroutines as a step relation: any held job may be handled next
--   Pipeline/Handling, Drain, Retries   the ends of handle, rest and retries
--   Pipeline/Pool        the same with WorkerPool and the channels of the workers
--   Pipeline/Flow, Refined   the pool without its channels as a state of the steps, and the theorem
--   Pipeline/Chain       Chain.Then, Append and Extend of the middleware
--
-- Setup (multiple.go, single.go, api.go, dispatcher.go, worker.go)
--   Setup/Types, Build   the routes, queues, dispatchers and workers that NewMultiBMW and Start make
--   Setup/Routes, Started   the theorem; the engine of gin is a parameter, with its rules as hypotheses
--
-- Limiter (lib/rate_limiter.go)
--   Limiter/Steps        Limit, and the ticks of NewRateLimiter, as a step relation in which each load and
--                        store of the counter is a step of its own
--   Limiter/Bounds       its theorem
--
-- Relation (worker/relation/relation.go, container.go, storage.go, main.go)
--   Relation/Types       users, friends, requests; a *User is an address of a heap, and the package's
--                        variables are one state with the writes that the bolt file took; what it
--                        answers to a write, which the code only logs, is a field of the state
--   Relation/User, Registry   methods of User on its maps; usersContainer and typeUIDMap
--   Relation/Match       handleInput, scanAllFriends, checkFriend, handleUnbind, getRelation
--   Relation/Api         startWork, unbindAccount, the HTTP handlers, restore, and serve, which takes
--                        requests and check rounds in any order
--   the others           their theorems: Uids, Resolve, Input, Handled, Invariant, Preserved,
--                        Reachable, Checked, Reports, Mutual, Writes, Unbind, Durable, Served, Restart
--
-- Resource (worker/resource/bucket.go, generate.go, job.go, request.go, storage.go)
--   Resource/Types       requests, job trees, and the record Cloud of what is called outside: storage
--                        services, files, commands and downloads
--   Resource/Bucket, Generate   uploads and the commands that make files
--   Resource/Job, Tree   doJob, getResult, cleanFiles, and the trees that the request types get
--   Resource/Requests    handleRequest and handleBatchRequest
--   Resource/Table, Queries   store, findKey and findKeyQuery (storage.go) over a table; what a query
--                        answers after a batch
--   the others           their theorems: Bits, Done, Uploads, Failure, Callbacks
--
-- Rsync (worker/rsync/main.go, s3.go)
--   Rsync/Types, Handler the body of a request, and Handle with its loop and its deferred removals
--   Rsync/Statuses       its theorem
--
-- Cover (worker/cover/main.go)
--   Cover/Types          the calls outside, and a trace of files made, removed and uploaded
--   Cover/Files, Handler the functions that make files, and Handle with its deferred removals
--   Cover/Trace, Makers, Results, Branches, Callback   its theorem and the lemmas below it
--
-- Image (worker/image/image.go)
--   Image/Types, Parse   Cmd.parse, with the searches of its regular expressions written out
--   Image/Match, Items, Commands   the text of a command from its items, and the round trip
--   Image/Odd            remainOdd, which writes to the array that it reads, and its theorem
--
-- Locks (lib/spinlock.go, sleep_rate_limit.go)
--   Locks/Spin           SpinLock under any number of goroutines, and its theorem
--   Locks/Rate           LimitRate under any number of callers, and its theorem
--
-- Http (lib/http.go)
--   Http/Types, Request, Fetch   NewHTTPReqeust, HTTPGet, HTTPGetFile and HTTPPost, over clients, a server
--                        and files, with a trace of what is sent, opened, read, written and closed
--   Http/Traces, Ends    the traces of each end, and the theorem
--
-- Beanstalk (queue/beanstalk.go)
--   Beanstalk/Types      the client of beanstalk and what its protocol says, of a server without other clients
--                        and while no other job is reserved
--   Beanstalk/Producer   NewBeanstalkProducerPusher, Wait and Push; a Wait that lost its connection is in
--                        the loop of newBeanstalkConn, one call of which is one turn
--   Beanstalk/Conserved  its theorem
--
-- Publisher (publisher/etcd.go, service.go)
--   Publisher/Types, Server   the calls of etcd, and Register, Unregister and the ticks of Heartbeat in
--                        any order, with the channel quit; a Delete and the Stop behind it, and the
--                        select of a tick and its Set, are steps of their own
--   Publisher/Quiet      its theorem
--
-- Push (worker/push/main.go, apns.go, gcm.go)
--   Push/Types, Services, Handler   the pool of notifications, both send methods, and Handle
--   Push/Outcomes        its theorem
--
-- Recorder (worker/recorder/main.go)
--   Recorder/Types, Server   recorders, files, goroutines and waiting uploads, and the handlers; messages,
--                        requests, ticks and uploads are inputs that come in any order, one at a time; an
--                        upload reads its file and is answered in one step, and `stored` is the log of
--                        the uploads that were made, of which a later one overwrites its key
--   Recorder/Book        the abstract specification: a log for each topic
--   Recorder/Owners, Kept, Refines, Uploads   its theorems
--
-- Signup (worker/signup/auto_msg.go)
--   Signup/Deliver, Order   sendAutoMessage, start and the closure that posts; their theorem
--
-- Sizeof (lib/sizeof.go)
--   Sizeof/Types, Internal   values by reflection, on a heap, and the computation of their size
--   Sizeof/Breaks        its theorem
--
-- Base holds lists, maps, texts and tests that the parts share. Each Examples module applies the theorems of
-- its part to small concrete data.
--
-- A map is an association list, and the order in which Go ranges over a map is that of the list. A
-- lock is not modelled where a step holds it throughout. All functions are structural recursions, so
-- no fuel is needed; the loop of removeUID is bounded by the length that its range clause read. The
-- counter of tries keeps its eight bits. Strings are compared as they are.
--
-- Not modelled: logging, configuration and signals, the JSON decoders (arguments), the loading of
-- certificates, the bolt file below its writes, the goroutines of the image worker (doCmds, handleCmds),
-- the queue on nsq, the engine of gin, the geo worker, which
-- is a scratch program, and the mqtt package, which stands on a package that the repository lacks.
pub mod Base
pub mod Beanstalk
pub mod Cover
pub mod Http
pub mod Image
pub mod Limiter
pub mod Locks
pub mod Pipeline
pub mod Publisher
pub mod Push
pub mod Recorder
pub mod Relation
pub mod Resource
pub mod Rsync
pub mod Setup
pub mod Signup
pub mod Sizeof
