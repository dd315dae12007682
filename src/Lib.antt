-- ===== src/Lib.antt =====
-- The off-chain parts of the Nouns monorepo that keep state from the contracts' events: the
-- subgraph, the image encoding of the SDK, the state of the web application with its composables,
-- and the bots.
--
-- The parts and their files:
--   Common: lists, tests and integers over the native natural numbers.
--   Subgraph: packages/nouns-subgraph. Host holds what graph-ts and graph-node provide, as a record
--     of operations (`GraphNode`) and the documented behaviour that is relied on (`IsLawful`);
--     Schema has the entities of schema.graphql and the constructors generated from it, Store the
--     entity tables with src/utils/helpers.ts, Token and Transfer the handlers of
--     src/nouns-erc-721.ts, Quorum src/utils/dynamicQuorum.ts, Dao src/nouns-dao.ts, Auctions
--     src/nouns-auction-house.ts, Index the routing of events in subgraph.yaml.mustache. A handler
--     is a function from the store to the store; an entity that it loads is a copy, and `save`
--     writes it back. A handler that can abort gives none. Memory is one store that has the
--     behaviour of `IsLawful`.
--   Sdk: packages/nouns-sdk/src/image. Hex is utils.ts, Image image.ts, Svg svg-builder.ts, Encoder
--     png-collection-encoder.ts. A text is a list of character codes.
--   Webapp: packages/nouns-webapp/src. Auction, Logs and Display are the slices of state/slices
--     with the hooks of wrappers/onDisplayAuction.ts, utils/nounderNoun.ts and the updater of
--     state/updaters/logs.ts, Activity is wrappers/nounActivity.ts, Proposals is
--     wrappers/nounsDao.ts: the states against `state` of NounsDAOLogicV1.sol, the titles and the
--     transactions; Bid is components/Bid/index.tsx, Seeds wrappers/nounToken.ts, Pagination
--     components/Pagination/usePagination.js, and Votes pages/Vote/index.tsx with
--     utils/getNounsVotes.ts, utils/pseudoRandomPredictableShuffle.ts and
--     components/NounImageVoteTable/index.tsx. Logs.Keys is utils/logParsing.ts, Logs.Use
--     hooks/useLogs.ts, CreateProposal pages/CreateProposal/index.tsx. A reducer is a function from
--     the state to the state, a hook a function of the slices and of the answers of the queries.
--   Bots: packages/nouns-bots/src, index.ts with cache.ts and utils/proposals.ts: a tick is a
--     function from an answer of the subgraph, the time and the cache to the messages and the
--     cache.
--   Composables: packages/nouns-webapp/src/utils/composables. Tallies, Holdings and Ledger are
--     getTokenHoldings and getChildTokens of composablesWrapper.ts, Items and Market its items and
--     listings; Database and Indexer are the tables and the index functions of
--     composablesIndexer.ts, Filters fills in the names that its search compares, Search is the
--     search with the pages of pages/Composer/index.tsx. An index function is a step of the
--     database; one that a rejected call of a contract can cut short gives an `Outcome`.
--   Composer: packages/nouns-webapp/src/pages/Composer. index.tsx has the layers,
--     SaveModal/index.tsx (Save) the transaction that saves them, and Save/Composition is what
--     NounsComposer.sol does with it: `draft` makes the parameters of the transaction,
--     `compose_child_batch` carries them out.
--
-- The web application shows what the subgraph stores: Webapp.Display takes past auctions from the
-- entities of Subgraph.Auctions, Webapp.Activity the transfer and delegation events that
-- Subgraph.Transfer and Subgraph.Token save, and Webapp.Proposals takes its statuses from
-- Subgraph.Dao. The composer's page takes items from Composables, and its children from the
-- composer's contract.
--
-- Numbers are natural where the source's are unsigned; a field that the subgraph subtracts from is
-- an integer, without a bound, as a BigInt is; the quorum's conversion to 32 bits is the host's.
-- The loops of the image bounds are structural recursions on the passes that are left; a
-- hexadecimal number's digits have the number for fuel, and the block ranges the number of blocks,
-- since each pass moves on by one at least; a run of pixels has its length and one for fuel, and
-- the chunks of a palette its length; the shuffle has a pass for each element. The SQL statements
-- of the index are operations on lists of rows: texts are compared exactly, numbers keep their
-- value, and the order by priority and LIKE are arguments. The functions of the index run one after
-- the other, without another client of the database. The ticks of the bots run one after the other
-- too: the timer of the bots can start a tick while an older one waits for its answer, which has read
-- the cache before, and such ticks are left out.
--
-- Not modelled: the other contracts in Solidity, the React views, the bots' texts and clients, the
-- API, deployment, calls of contracts and providers, the GraphQL texts, and the text of an SVG. The
-- generated constructors and the host of the subgraph are parameters, as are JSON.parse, the
-- decoding of calls and the random numbers of the shuffle. Of the contracts, three functions are
-- here as what the application is compared with: `state`, the test on a bid, and the positions of
-- the composer.
pub mod Common
pub mod Subgraph
pub mod Sdk
pub mod Webapp
pub mod Bots
pub mod Composables
pub mod Composer
