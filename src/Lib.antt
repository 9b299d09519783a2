-- ===== src/Lib.antt =====
-- The x402B packages under typescript/packages: payments over HTTP 402 that are settled by Boson
-- Protocol exchanges. A resource server (server) answers a request with payment requirements; the
-- buyer pays with a signed payload; the server validates it, has a facilitator (facilitator) relay it
-- to the escrow contract, verifies the exchange that results, and answers with the next actions
-- (actions) that the exchange's state machine (core) allows. The modules follow these parts.
--
-- Machine: core/src/state-machine/{states,action-ids,transitions}.ts, the states, the action ids, and
--   the transition tables as functions by clauses. Machine/Diagram is the documented transition table
--   as a relation, which Machine/Laws compares with the tables; Machine/Progress follows runs.
-- Json, Wire: core/src/schemes/escrow, the types of the wire format. Offers, schemas and buyer data are
--   JSON values; integers are natural numbers, and amounts and addresses are strings, as in the source.
--   Wire/Schemas, Wire/Patterns: the zod schemas of the payment payload and of the payment
--   requirements, as tests on values of the types.
-- Actions: actions/src/{derive,onchain-hints}.ts and registry, the envelope of next actions.
-- Effects: asynchronous code as functions from a world to an outcome, returned or thrown, and a world.
--   Each promise is awaited where it is made, so the operations are in sequence.
-- Facilitator: facilitator/src/types.ts, what the facilitator is asked and answers. Below it:
--   Config (its configuration and libraries), Structural (verify/structural.ts), Hex (signatures as
--   hexadecimal text), MetaTx and TokenAuth (verify/{meta-tx-signature,token-auth-signature}.ts, with
--   core/src/eip712/token-auth/fetch-token-domain.ts), Envelope (internal and verify/simulate.ts),
--   Verify, Settle, Calldata and Perform (verify/index.ts, settle, perform-action). Their modules
--   below are named for what is proved: Structure, Verified, Settled, Matching, Performed, Packing,
--   and Encoding, which compares the server's encoding of a signature with the facilitator's.
-- Server/Exchange: server/src/onchain/verify-exchange.ts (verifyExchangeSnapshot, verifyExchange). The
--   loop is structural recursion on the attempts left, 3 by default, so it needs no fuel.
-- Server/Payload/Paths follows paths into offers, and Reflexive is about equal ones. Server/Endpoints:
--   server/src/internal/facilitator-endpoints.ts and handlers/next-actions.ts.
-- Server/Payload: server/src/validate/payment-payload.ts (validatePaymentPayload and its helpers);
--   Server/Payload/Offer is deepEqual. Server/Decode: server/src/validate/decode.ts.
-- Server/State: server/src/{config,store}.ts and handlers/types.ts, what the handlers are given, keep
--   and answer. The state is the two stores and the world outside.
-- Server/Delivery: the hand-over to a fulfillment channel that handlers/perform-action.ts and
--   handlers/commit-and-redeem.ts share. Server/Perform, Server/Perform/Redeem: handlePerformAction
--   and handleRedeem. Server/Commit: handleCommit, handleCommitAndRedeem and handleCommitImpl.
-- Server/Entity: server/src/handlers/{resolve-entity,withdraw-funds,available-funds}.ts; the reads that
--   `Promise.all` joins are made one after the other.
-- Server/HttpClient: server/src/facilitator/client.ts, over a transport that is a parameter. Its loop is
--   structural recursion on the attempts left. Attempts, Requests and Guards are what is proved of it.
-- Server/Recovery: recovery.list and recovery.replay of server/src/server.ts; Recovery/Replayable is
--   about the entries that the handlers leave.
-- Client: client/src, the payment of a 402 answer (handle402): TokenAuth (token-auth), Choice (action.ts,
--   fulfillment.ts, the amount check) and Payment (pre-commit.ts, payload.ts, client.ts); and Submit, the
--   submission of a signed action (submit.ts). Chosen and Accepted are about authorisations, Assembled
--   about how a payment comes about, Payable about payments that the facilitator checks, Served and
--   Fulfilled about payments that the resource server checks, Submit/Replies, Tried and Order about
--   the walk over the channels. Withdraw: withdraw.ts; Withdraw/Resolved compares the resolution of an
--   address with the server's, Withdraw/Emptied is about the withdrawal of all funds. PostCommit: post-commit.ts and the
--   client's submitAction; Signed is what it shares with withdraw.ts, PostCommit/Relayed is about what
--   the facilitator makes of a signed action, PostCommit/Submitted about how submitAction
--   ends. Response: response.ts, the reading of X-PAYMENT-RESPONSE;
--   Response/Reported is about the response that Fetch makes up.
-- Fetch: client-fetch/src/wrap.ts and core/src/schemes/escrow/accepts.ts, the `fetch` that pays a 402
--   answer by the client's handle402, which is a parameter there, and falls back to the facilitator.
--   Read is what it reads of JSON, with Read/Fields and Read/Targets about the target of the fallback;
--   Answers, Origins and Traffic are what is proved of the answers, the responses and the requests.
-- Server/Mutex: server/src/concurrency.ts, the mutex per exchange. What the runtime does between two
--   calls are steps; Order, Called and Reached are about the invariant of the states that they reach,
--   Exclusive about what follows from it.
--
-- Parameters: the exchange reader and its delays, the facilitator client, the fulfillment channels, the
-- clock, base64 and JSON decoding with the payload schema, the building of calldata and the recovery
-- of signers (core-sdk and viem); the facilitator's clients of the chain and its relaying wallet; the
-- transports under its HTTP client and under the buyer's; what core-sdk signs for the buyer. The stores
-- are maps, whose operations do not fail. Log messages and the human-readable parts of errors are
-- left out; codes and statuses are kept.
--
-- Not modelled: the plug-in interfaces and the negotiation of a fulfillment, and the building of
-- challenges, which assemble data for the parts above; the wiring of the server object and the checks
-- of its configuration; and the Express and browser adapters, which are glue. The handlers are
-- modelled one at a time, without the mutex around them.
pub mod Prelude
pub mod Machine
pub mod Json
pub mod Wire
pub mod Actions
pub mod Effects
pub mod Facilitator
pub mod Server
pub mod Client
pub mod Fetch
