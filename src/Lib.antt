-- ===== src/Lib.antt =====
-- A model of the auction house: its back end (back/src), with the money that bids hold, the settlement
-- that moves it, and the life of an auction from its start to its end; and the parts of the web client
-- (front/src) and of the simulator (packages/simulator) that work with it.
--
-- The parts. A wallet has a balance and a held amount. `placeBid` checks a bid against its auction,
-- releases the hold of the bid it displaces and holds the new amount; a Dutch bid settles at once.
-- After each bid the ladder lets the automatic bids of an English auction outbid one another. The
-- end-auction job picks the winner, gives the losing sealed bids back and settles; `buyNow` and
-- `confirmWinnerPayment` settle too. All settlements go through the escrow service, which keeps one
-- row for each auction.
--
-- Which file models what:
--   Decimal          back/src/lib/decimal.ts: serializeMoney
--   Schema           back/prisma/schema.prisma: enumerations and rows
--   Store            the tables and the writes of the database client; Store/Holds defines `excess`,
--                    the hold of a user less the bids that it is for
--   Tx               createError of back/src/middleware/error.middleware.ts, prisma.$transaction,
--                    row locks, and what is sent
--   Escrow           back/src/modules/escrow/escrow.service.ts
--   Bidding          placeBid of back/src/modules/bidding/bid.service.ts
--   BidList          getAuctionBids of the same file
--   Ladder           processAutoBidLadder and autoBidWorker of back/src/workers/index.ts
--   Closing          endAuction of the same file
--   Schedule         its start-auction and drop-price jobs, and reconcileDutchAuctions
--   Commitments      back/src/modules/bidding/commitment.service.ts; SHA-256 is a parameter
--   AutoBids         back/src/modules/auto-bid/auto-bid.service.ts
--   AuctionService   createAuction, cancelAuction and buyNow of
--                    back/src/modules/auctions/auction.service.ts; Requests: createAuction of
--                    back/src/modules/auctions/auction.controller.ts
--   Detail           getAuctions and getAuctionById of the same file
--   Payment          back/src/modules/payments/payment.service.ts
--   WalletService    deposit and withdraw of back/src/modules/wallet/wallet.service.ts
--   Fraud            back/src/modules/fraud: the graph of recent bids (Buckets, Graph), the features,
--                    the classifier, the latency ring, the engine and the stored flags (Flags)
--   Sequencer        back/src/modules/bidding/bid.sequencer.ts; Redis is a parameter
--   BidController    placeBid and placeBidStream of back/src/modules/bidding/bid.controller.ts
--   Accounts         the tables around the users; Session: back/src/middleware/auth.middleware.ts;
--                    Auth, Admin, Users, Watchlist, Notifications: the services of these names
--                    Dashboard: the figures and listings of the administrator and of a wallet
--   Gateway          back/src/gateway/socket.gateway.ts
--   Client           front/src, of which: Session and Routes (store/authStore.ts, lib/api.ts,
--                    components/AuthProvider.tsx, proxy.ts), Sealed (the commitment panel), Contracts
--                    (lib/contracts.ts), Countdown, and FraudPage (the query of
--                    app/admin/fraud/page.tsx)
--   Simulator        packages/simulator/src: agents.ts, the loop of run.ts, dataset.ts, the metrics of
--                    eval.ts
--   Conservation     the services and jobs that move money, in any order of events
--   LockOrder        the order of the row locks across the services
--   Prelude          Boolean tests, rows of a table, signed amounts; Scenario: tables for the tests
--
-- How the code corresponds. An operation is a function from the state (the tables, the locks of the
-- running transaction, what was sent) to a result and a state; it returns `err` where the code
-- throws. Amounts are cents: the columns have two decimals and the request schemas ask for positive
-- numbers, so prices are natural numbers, and balances, holds and ledger rows are signed. A user's
-- wallet is named by the user's id. Ids are numbers, and `next_id` stands for the fresh uuids. One
-- reading of the clock, `now`, serves a whole call. Each transaction runs alone: the row locks are
-- recorded in their order and not contended for.
--
-- Loops. The ladder runs on the number of steps that the code computes (`maxSteps`, at most 100000),
-- which is the recursion's argument; the digits of an amount run on fuel above the amount, which the
-- proof that they can be read back needs and gets; the consumer of the sequencer runs for a number of
-- passes, of which one for ten entries is enough; every other loop is a recursion over a list.
--
-- The sequencer hands queued bids to `placeBid` one after the other; after each bid the engine of the
-- fraud detector adds it to its graph and scores it. A request passes the cached check of its user
-- first. The client's panels and the simulator's agents call the same handlers: their definitions run
-- on the state of the server. bcrypt and JSON web tokens are parameters of that check.
--
-- Floating point is a parameter: in the classifier; in Commitments, where a reveal may come with more
-- than two decimals (Amounts; the panel's amounts have two); and in AuctionService/Requests, for the
-- count of the drops of a Dutch auction, which is relied on to be exact for prices of whole units only.
--
-- Not modelled: routes, queues and clients (glue), names, titles and pictures, the training of the
-- classifier, the scripts, and the markup and data fetching of the front end. A notification is an
-- event in the outbox, and the watchers of an auction are an argument.
pub mod Prelude
pub mod Decimal
pub mod Schema
pub mod Store
pub mod Tx
pub mod Escrow
pub mod Scenario
pub mod Bidding
pub mod Ladder
pub mod WalletService
pub mod AuctionService
pub mod Closing
pub mod Payment
pub mod AutoBids
pub mod BidList
pub mod Schedule
pub mod Commitments
pub mod Fraud
pub mod Sequencer
pub mod BidController
pub mod Accounts
pub mod LockOrder
pub mod Conservation
pub mod Detail
pub mod Gateway
pub mod Client
pub mod Simulator
