-- ===== src/Lib.antt =====
-- spec-torture: a reference server for the Agent Registration Protocol (ARP), and a runner that tests
-- implementations of protocols against specs.
--
-- The parts and their files
-- * arp/server keeps projects, workspaces, agents and tokens, and serves gRPC calls. Arp.State is its
--   `Server`: the maps of the source hold addresses into heaps of entries, because Go reaches an entry
--   through pointers from several places (`tokens` and `byBearer` share one entry, and a principal
--   points to its token). Arp.Handler is the shape of a method: a state goes in, and the state comes
--   back beside the outcome, an error included, since what was written before a failure stays written.
-- * Arp.Messages is proto/arp/v1; Arp.Scope and Arp.Tokens are arp/server/scope.go and token.go;
--   Arp.Auth, Arp.Ports, Arp.Events and Arp.Cards are arp/server/server.go (authentication and
--   visibility; ports; subscriptions and publication; agent cards), with a2aconv.go; Arp.Agents, with
--   Spawn, Lifecycle and Queries, is agent.go; Arp.Projects is project.go; Arp.Workspaces is
--   workspace.go; Arp.Discovery and Arp.Discovery.Watch are discovery.go; Arp.Seed is seed.go.
-- * Arp.Rpc collects the calls that the server registers. Arp.Steps is a step relation of the primitive
--   changes of the state, into which its modules split the handlers.
-- * Value is JSON values. Runner.Evaluator is internal/runner/evaluator.go: partial matching of an
--   expected object against an actual one.
-- * Runner.Transport is internal/runner/transport.go: references to the last response, and in Expect the
--   check of an expectation. Runner.Http and Runner.JsonRpc are http_runner.go and jsonrpc_runner.go,
--   with server-sent events in Runner.JsonRpc.Stream and, from the text of a stream to its lines, in its
--   child Text; Runner.Mcp is mcp_translator.go; Runner.Run, with Cases, is runner.go: the steps, the test
--   cases and the run.
-- * Mock.Lifecycle, with Workspaces and Agents, is internal/mockserver/arp_lifecycle.go: a server for
--   tests, whose state changes by requests and by goroutines that wake up, in any order
--   (Mock.Lifecycle.Steps). Runner.Mcp.Paths composes the translation of a tool with these handlers.
-- * Mock.Server is internal/mockserver/server.go: JSON-RPC calls and the record of requests; its child
--   Proxy is arp_handlers.go. Backend.MockAgent is arp/backend/mock.go: an agent with its tasks.
-- * Client is internal/clientrunner/runner.go: tests of clients, which share a mock server.
--   Client.Driver is the search for a JSON object in crush_driver.go.
-- * Report is internal/report/report.go: the Markdown table of a run.
-- * Schema.Spec is internal/schema/spec.go and testcase.go: validation. Schema.Result is
--   internal/schema/result.go: the summary of a run.
-- * Base holds lists, maps, texts and integers over the native numbers.
--
-- What comes from outside
-- Arp.State.World holds the answers of the operating system, the agent backend, the agents' own cards,
-- the clock and random sources, and library code (protojson, net, path/filepath). An answer is numbered
-- by the question that asks for it, so nothing is assumed of two answers being equal. Runner.Evaluator's
-- Formats holds what Go's printing and float arithmetic answer. Runner.Host holds the network, the
-- clock and the JSON library for the runners; the results of a test case depend on the host as that
-- test case meets it. The Docker daemon is a function that may start a container.
--
-- Bounds and fuel
-- No definition runs on fuel, but for `decimal`, which is given more digits than a number has. A poll
-- makes at most `max_attempts` attempts, as in the source. `allocPort` scans max + 1 - min ports, the
-- length of its range. A line of a stream that does not fit the 64 KB of a scanner ends the reading. A
-- stream accepts some number of messages before a send fails, given as an argument. A subscriber's channel
-- holds 32 events, as in the source, and drops further ones.
--
-- What is not modelled
-- Message texts of errors; the forced interleaving of goroutines of the ARP server (a handler is one
-- sequence; Step covers the locked regions one by one); processes, sockets, Docker and SQL; the
-- program that internal/clientrunner/crush_driver.go starts, and the store, internal/store; the JSON
-- report, which is the library's encoder; generated code; the commands. URLs are texts: their escapes and
-- the redirects of Go's ServeMux are left out.
pub mod Base
pub mod Value
pub mod Arp
pub mod Runner
pub mod Mock
pub mod Backend
pub mod Client
pub mod Report
pub mod Schema
