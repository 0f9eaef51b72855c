-- ===== src/Lib.antt =====
-- Quittance: verified models of the servicing of tokenized cashflows on Casper.
--
-- A verifier looks up the evidence of a payment and signs a verdict on it; it serves its
-- verdicts over HTTP behind an x402 payment. The servicer, an agent, pays several verifiers in
-- each cycle, collects their signed verdicts, and calls the vault contract's `distribute` when a
-- quorum of them says yes. The order of the modules follows the program's:
--
-- - Prelude: the shared names, native lists, dictionaries and the outcome of an awaited call.
-- - Js: the parts of the language that the source relies on: hex and decimal text, trimming,
--   `BigInt`, parsed JSON, `encodeURIComponent`. A double is known by the operations used on it.
-- - Core (packages/core/src): Core.Types for types.ts, Core.Sign for sign.ts, Core.Quorum for
--   quorum.ts, Core.Ports for the data of payment-client.ts, chain-client.ts and brief-client.ts,
--   Core.Fakes for the in-memory clients of fakes.ts. Core.Crypto holds the hash, signature and
--   hex functions of the libraries as parameters, and in `IsLawful` what the code relies on: bytes
--   survive hex, and a signature that was made verifies. Core.Utf8 is `TextEncoder`. The buffer
--   that `canonicalBytes` fills is a list that is overwritten part by part.
-- - Agent (agent/src): Agent.Ports and Agent.Fakes for verifier-client.ts, with the types of
--   servicer.ts, Agent.Servicer for `queryWithRetry` and `runCycle`, Agent.LlmBrief for
--   llm-brief-client.ts. A cycle is a function of the answers of its clients to its result, an
--   outcome or what it throws, and to the trace of the calls it makes. Concurrent queries are
--   independent: each answer is a function of the endpoint's place and of the attempt, and the
--   trace lists the calls endpoint by endpoint.
-- - Adapters (packages/adapters/src): Adapters.VerifierClient for casper-verifier-client.ts,
--   Adapters.EntrypointArgs, Adapters.Patterns and Adapters.ChainClient for
--   casper-js-chain-client.ts. What the SDKs and the node answer is given. The endless loop of
--   `waitForFinality` runs on fuel, with the clock as a function of the round; a theorem gives the
--   fuel that is enough.
-- - Verifiers (verifiers/src): Verifiers.Verdict for verdict.ts, Verifiers.Verifier for
--   verifier.ts, Verifiers.CashflowSource and Verifiers.Stripe for the two sources, and
--   Verifiers.Server for server.ts with Verifiers.Server.Gate for what the gate is built from,
--   Verifiers.Server.App for the handlers of its route, and
--   Verifiers.Environment for what serve.ts reads before it listens. A request through the gate is
--   a function of what the gateway answers to it, and in Verifiers.Server requests are taken one
--   after the other, with a flag for a successful initialization. Verifiers.Server.Initialization
--   has the initialization that concurrent requests share: arrivals, answers of the gateway and
--   resumed requests are steps in any order.
-- - Contracts (contracts/src): servicer_vault.rs, the vault on the chain. Contracts.Types for what it
--   stores and its errors, Contracts.Message for the bytes that it checks a signature against,
--   Contracts.Evidence for the quorum gate, Contracts.Registry for the reputation of the verifiers,
--   Contracts.Payout for the payments, Contracts.Vault for the entrypoints. A call takes the contract
--   to the one after it, or is reverted with an error, or trapped by the host or a panic; the purse,
--   the transfers and the events that the host keeps are part of the state. Numbers of 256 and 512
--   bits panic where they overflow, and counters of 32 bits wrap. Contracts.Vault.History has the
--   calls that finish as steps.
-- - System puts the parts together: the servicer over the paying client, and behind each signer
--   that keeps its key a verifier. What is assumed of the signatures is `Genuine`: a valid verdict
--   of such a signer that the client accepts has the bytes of one that its service signed.
--   System.Onchain puts the vault behind the servicer: `Reading` is how the agent's texts become keys
--   and signatures, and `Agrees` that the host and the agent's library agree on a verdict.
--   That the agent's read of the dictionary `distributed` answers what the vault's mapping holds, as
--   the vault's comment has it, is a hypothesis where it is used.
--   System.Mirror has the calls behind the cycles that the dashboard lists, System.Pricing the amount
--   on a receipt beside the price of the verifier's route.
-- - Dashboard (dashboard): Dashboard.Types for lib/types.ts, Dashboard.Ledger for lib/data.ts, the
--   checks on the committed ledger and what is derived from it, Dashboard.Format for
--   lib/format.ts, Dashboard.Chain for lib/chain.ts with the rows of app/holder/page.tsx,
--   Dashboard.Views for the texts on the cards of a cycle in components, Dashboard.Demo for
--   components/TryTheFraudDemo.tsx with the pages that take the ledger, app/demo/page.tsx and
--   app/page.tsx.
--
-- The modules named Tests run the models on a toy signature library, and apply each theorem with
-- hypotheses to concrete data.
--
-- A text is a sequence of Unicode scalars, so lone surrogates are not modelled; an error keeps
-- its message and not its cause; log lines are left out. Not modelled: the markup of the dashboard
-- and its header, badges and reputation cards, whose percentages are doubles, the scripts of e2e,
-- the build of the contract, and the wiring of third-party libraries: Express, what the rate limiter
-- counts, the construction of the SDKs' clients.
pub mod Prelude
pub mod Js
pub mod Core
pub mod Agent
pub mod Adapters
pub mod Verifiers
pub mod Contracts
pub mod System
pub mod Dashboard
