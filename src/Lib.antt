-- ===== src/Lib.antt =====
-- eidola is a microservice framework for Go on top of grpc. This development models the parts of
-- it that decide: when calls are let through, repeated or refused, where they go, over which
-- connections, and who may make them.
--
-- Common: shared names, Boolean tests, lists, uint32 words, signed counters, and maps with string
-- keys.
--
-- CircuitBreaker: internal/circuitbreaker/circuitbreaker.go. Defs has the record CircuitBreaker
-- with the struct's fields, and one function per method (allow is Allow, success is Success and so
-- on); step and run apply calls in sequence. The methods lock a mutex, so a call is one step.
--
-- LoadBalance: loadbalance/. RoundRobin, WeightRoundRobin (round_robin/), LeastActive
-- (leastactive/), Fastest (fastest/), Random (random/) and Hash (hash/) have the struct of a picker
-- as a record, and pick, done and build for Pick, the Done callback and Build; Fastest has
-- updateRespTime too. grpc's SubConn, resolver.Address and PickInfo are type parameters. Filter has
-- the filter of filter.go.
--
-- ConnPool: internal/connpool/pool.go. Each critical section of the pool's mutex is a function: get
-- up to the point where it dials, what follows a dial that worked or failed, put, close and clean.
-- The idle slice is kept with its end first; `released` and `signals` log the connections that
-- were closed and the signals sent.
--
-- RateLimit: ratelimit/. FixWindow, SlideWindow, TokenBucket, TokenBucketLimiter and Adaptive
-- (AdaptiveLimiter, with Rates for how its rate changes). A request is one step at a time of the
-- clock. TokenBucket has the operations on float64 as a record, and Rounds what its theorem takes
-- these to promise; the select of TokenBucketLimiter is a choice among the branches that are ready.
--
-- Retry: internal/retry/retry.go. Budget has the methods of Budget; Interceptor has the loop of both
-- interceptors, over a World that says what each attempt meets: the end of its wait, the time, and
-- the answer of the invoker. The deferred ReleaseRetry calls run at the end. Retrier has the
-- retriers of internal/retry/backoff.go, over any back-off strategy, and Agreement their theorems.
--
-- Rbac: auth/authorization/rbac.go: roles, permission strings, and the decision of the
-- interceptors. strings.ToLower is a parameter. The loop over the map of services takes the
-- entries in the order of the list.
--
-- Token: auth/token/. Store and Blacklist are InMemoryTokenStore and InMemoryBlacklist; Claims
-- signs and reads tokens, with JSON, base64 and the Encryptor as the functions of a record Codec;
-- Manager is CustomTokenManager over these two stores; Service is TokenService over it.
--
-- Auth: auth/. Extractor has the three extractors of tokens, Authorizer the RBACAuthorizer, and
-- Interceptor the AuthInterceptor, over any extractor, token manager and authorizer. Roles has the
-- lemmas on the authorizer, and Tokens those on the interceptor over Token and Authorizer.
--
-- Plugin: plugin/plugin.go, Manager and LifecycleManager over plugins that are given by what their
-- methods return. The order in which Go ranges over the map of plugins is an argument.
--
-- Resolver: resolver.go and ServiceInstance of registry/types.go. Defs has resolve with its cache
-- and fallback addresses, over a World that says what one call meets; Builder has the options,
-- Build and retrySubscribe. The goroutines are not modelled, only what they call.
--
-- Mfa: auth/mfa/. Totp has the codes of totp.go and their validation over a Library of functions of
-- Go's packages; Repository is InMemoryMFARepository, Provider TOTPProvider over it, and
-- Authenticator MFAAuthenticator over both.
--
-- Stream: internal/stream/backpressure.go. Each critical section of the interceptor is a function,
-- and send_msg puts them together, with what other goroutines do in between.
--
-- Batch: internal/batch/processor.go. handle_request, submit, receive and close are what the workers
-- and the callers do with the batch and the channel of requests; a run is a list of requests.
--
-- Isolation: internal/security/isolation.go. Access is DefaultAccessControl, and Isolator is
-- ServiceIsolator with its decorators, over any rate limiter and circuit breaker, and a memory of
-- isolators: a decorator that segregates points to one of its own.
--
-- Errs: internal/errs/enhanced_errors.go. Defs has the errors and ErrorAggregator.
--
-- Mempool: internal/mempool/message_pool.go. Defs has MessagePool, where which object the sync.Pool
-- gives is an argument, and Reuse which objects come back into use.
--
-- How they interact: Manager calls Store and Blacklist as token.go does, and hands the changed
-- stores on; Service calls Manager. The interceptor of Auth takes ValidateToken of Manager and
-- CheckPermission of Authorizer as functions; Mfa takes users from Token. The other packages do not
-- call each other.
--
-- Conventions. Times and durations are not negative, in nanoseconds where a file does not say
-- seconds, and the clock is an argument of the call that reads it. uint32 arithmetic has its
-- wrap-around written out. A float64 is an element of a type parameter, and the operations on it
-- are parameters. Maps are association lists. Random draws, hashes and the
-- hash ring are parameters. Counts of attempts are not negative. No model runs on fuel: the loops
-- are recursions on lists, and those over the attempts of a retry or of resolve are recursions on how
-- many of them remain.
--
-- Not modelled: the glue around grpc (client.go, server.go), registries, the Redis
-- clients, logging, metrics and tracing, cryptography and compression, whose behaviour is that of
-- libraries; the adaptive variants of the breaker, the pool and the batcher; the
-- goroutine of the connection pool that waits on its condition variable; the back-off strategies of
-- backoff.go, which compute in float64; the pools of buffers.
pub mod Common
pub mod CircuitBreaker
pub mod LoadBalance
pub mod ConnPool
pub mod RateLimit
pub mod Rbac
pub mod Retry
pub mod Token
pub mod Auth
pub mod Plugin
pub mod Resolver
pub mod Mfa
pub mod Stream
pub mod Batch
pub mod Isolation
pub mod Errs
pub mod Mempool
