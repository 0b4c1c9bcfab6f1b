-- ===== src/Lib.antt =====
-- wso2is-operator: a Kubernetes operator that keeps the applications of a WSO2 Identity Server in
-- line with WSO2SP objects, and the state of the server with WSO2ISInstance objects.
--
-- The program has three layers and an entry point, cmd/main.go, which registers the reconcilers with
-- controller-runtime and starts it. api/v1alpha1 holds the two resources. internal/wso2 is a client of
-- the server: it builds SOAP and SCIM requests, sends them, maps the replies back, and turns SAML
-- metadata into a configuration. internal/controller holds the two reconcilers: each reads an object
-- and a secret, builds a client, compares what the server has with what the spec wants, and writes
-- the difference to the server and the outcome to the object's status.
--
-- Which file models which part (files here, then paths of the repository):
-- - Api/Sp, Api/Instance: api/v1alpha1/wso2sp_types.go and wso2isinstance_types.go; Api/Meta the parts
--   of the Kubernetes metadata that the program uses.
-- - Wso2/App: internal/wso2/application.go. Wso2/Scim and Wso2/Soap: scim.go and soap.go.
-- - Wso2/Build: builder.go. Wso2/Map: mapper.go, with the panics of an index and of a nil pointer.
-- - Wso2/Metadata: saml.go, one file for each of collectACSURLs (Acs), parseSLOEndpoints (Slo),
--   deriveAlias (Alias) and the functions that use them (Config). Client/Metadata: the fetch.
-- - Wso2/Json: the JSON values that encoding/json makes of the configurations, before they are text.
-- - Wso2/Client: client.go, with doRequest, doJSON and doSOAP in Transport.
-- - System: the world outside. Platform is a record of operations over an unknown state: the exchange
--   of an HTTP request, the reads and writes of the Kubernetes API, the clock, the decoders, the digest
--   and the sorting of claims. A piece of code is a function from a system to an exit and a system; the
--   exit is a value or a Go panic, and the system records every call that leaves the operator, with
--   the latest first. Reads of the Kubernetes API are not recorded. System/Trace is a logic for what a
--   piece of code may do to the system: a rule is a relation on systems that can be composed. One rule
--   says which calls are made; another, in System/Stored, says which properties of the object in the
--   cluster stay. System/Ends is a logic for code that returns, and for what it returns; System/Does
--   joins the two.
-- - Controller/Spec and Controller/Changed: internal/controller/helpers.go from the spec to the wanted
--   state, and the comparison. Controller/Phase: setPhase, and the result of a step.
-- - Controller/Secrets: upsertApplicationSecret and populateInboundSecrets. Controller/Reconcile:
--   the steps of wso2sp_controller.go, from Oauth, Saml and Admin over Application to Delete and Entry,
--   which holds buildClient and Reconcile. Controller/Instance and Controller/Condition:
--   wso2isinstance_controller.go. Where a Go function goes on after a call, the rest is a definition of
--   its own, named for the point from which it goes on.
-- - Controller/Trace: the parts of the reconcilers under any rule, with what each asks of the rule as a
--   record, and the calls of each reconciler. Controller/Invariant: the object in the cluster under
--   sequences of reconciliations and edits. Controller/Liveness: the reconcilers return, and are run
--   again. Controller/Settled: a reconciliation where nothing has to be done.
-- - Cmd: cmd/main.go, with SetupWithManager of the two reconcilers. controller-runtime is a record of
--   operations over an unknown state.
-- - RoundTrip: mapper.go after builder.go.
-- - Tests: a concrete platform, and each theorem at a concrete input.
--
-- An error is its message; a nil pointer or slice is `none` where the program can tell it from an
-- empty one. Go's int and int64 only travel through this program from object to object and from
-- request to reply, and are compared, but are never computed with: they are integers without bounds.
-- All loops are structural recursion. The one function on fuel prints a number in decimal (show_nat in
-- Base/Text): it gets one unit more than the number, which is more than it has digits.
--
-- What the theorems assume of the world is named where they are stated: System/Stored has the laws of
-- the API server on one object (a read gives the object as it stands, an update leaves the status and
-- a status update leaves the rest, a patch leaves a resource ID that it does not change, and each may
-- fail), and Controller/Liveness/Answers the form of the server's replies. A reconciliation is one
-- step between edits: an edit during it is not covered.
--
-- Not modelled: generated deep copies, the scheme, logging and its flags, the notes of events, contexts
-- and timeouts, the text of requests (encoding/json and encoding/xml stand behind the platform), and
-- concurrency: a reconciliation runs alone.
pub mod Base
pub mod Api
pub mod Wso2
pub mod System
pub mod Controller
pub mod Cmd
pub mod RoundTrip
pub mod Tests
