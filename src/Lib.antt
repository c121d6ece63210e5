-- ===== src/Lib.antt =====
-- le-to-alicloud: an operator that has cert-manager issue certificates, uploads them to the
-- certificate service of Alibaba Cloud (CAS) and binds them to domains of cloud products.
--
-- The parts, by file. A function of the model has the name of the Go function in snake case; where
-- a Go function has several steps, each step is a definition of its own, and a comment names it.
-- - Prelude: shared names, Boolean tests, texts as lists of bytes, signed numbers, results, maps.
-- - Run: the monad of programs with a state and an error, which the two worlds and the clients share.
-- - Naming: pkg/naming/naming.go, and the tokens of internal/controller/upload.go and deletion.go.
-- - Api: api/v1alpha1, the custom resources and their conditions. The helpers of apimachinery that
--   set and find conditions are the record `Meta`, with the laws that their documentation states.
-- - Aliyun/Errors: pkg/aliyun/errors.go; an error is a chain of wrapped errors.
-- - Pki: pkg/pki. `Sans` is the coverage of names, `Bundle` the parsing, checking and encoding of
--   certificates. Go's crypto packages are the record `Crypto`, with the laws of PEM and of the
--   marshallers. The loop over PEM blocks has one more unit of fuel than the input has bytes, and
--   each block takes at least one byte.
-- - Controller/Issuer and Controller/Secrets: internal/controller/issuer.go and desired.go.
-- - Controller/World: what is outside a reconciler. `Env` answers the calls to the API server, the
--   cloud and the clock; an answer may depend on all earlier calls, which a `Trace` records, so any
--   failure and any reordering by others is an answer that some `Env` gives. `Act` is the state and
--   error monad of the methods: the CR in memory, the base of its patches (`orig`), the trace. What
--   was written in memory before an error stays written, as in Go.
-- - Controller/Certificate: the reconciler of internal/controller/aliyuncertificate_controller.go.
--   `Status` is status.go with the aggregation of conditions, `Upload` upload.go, `Retention`
--   retention.go, `Deletion` deletion.go, `Probe` probe.go, `Material` material.go, `Reconcile` the
--   steps of a round, which call all of these in order.
-- - Controller/Binding: the reconciler of internal/controller/aliyuncertificatebinding_controller.go.
--   `World` is as Controller/World, with a cloud whose state is the parameter `W`; the providers and
--   the factory that makes them are fields of `BindingEnv`. `Conflict` is binding_conflict.go,
--   `Material` binding_material.go with the gate of binding_identity.go, `Identity` the rest of that
--   file with `targetOf`, `Status` binding_status.go with the gauges of metrics.go, `Observe`
--   binding_observe.go, `Apply` binding_apply.go, `Deletion` binding_deletion.go, `Client` and
--   `Reconcile` the controller itself; `Look` says in words of its own what a round observed. `reconcile_binding` is a whole round.
-- - Controller/Factories and Controller/Indexes: provider_factory.go, cas_factory.go and indexes.go of
--   internal/controller.
-- - Provider: pkg/provider. `Types` and `Interface` are provider.go and registry.go, `Errors` the
--   mapping of cloud errors of internal/aliyunerr/errors.go, `Fc3` and `Oss` the two providers, as
--   programs over the client that they are given.
-- - Aliyun: the clients of pkg/aliyun. `Clients` has the interfaces, `Cache` cache.go, `Credentials`
--   credentials.go, `Listing` the pages of `FindUploaded`, `Sdk` the translations of the bodies of
--   fc3_sdk.go and oss_sdk.go. `Fake` is pkg/aliyun/fake, the clouds in memory, which the providers
--   are run against.
-- - Scenarios: a small concrete world, and runs in it.
--
-- Instants are nanoseconds as natural numbers, durations are signed. A certId is a natural number.
-- A condition has no message and no time of its last change. Upper and lower case and blanks are those
-- of ASCII. The loop of the retention counts its excess down; the loop over the pages of a listing has
-- 200 units of fuel, the limit of the code, and uses the last one up only after the last page that may
-- be asked for; the other loops run on their lists.
--
-- Not modelled: logs, the gauges of a certificate, the messages of conditions and events, the watches
-- and the locks of the reconcilers; the construction of SDK clients, their calls and timeouts, and the
-- rate limiter; cmd/main.go; generated code; the tests.
pub mod Prelude
pub mod Run
pub mod Naming
pub mod Api
pub mod Aliyun
pub mod Pki
pub mod Provider
pub mod Controller
pub mod Scenarios
