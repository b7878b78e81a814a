-- ===== src/Tests.antt =====
-- Instances of the parameters, and the theorems at concrete inputs.
mod ListMap
mod ListStore
mod CoreExamples
mod LruExamples
mod LfuExamples
mod SketchExamples
mod ArcExamples
mod PredicateExamples
mod EnvelopeExamples
mod EnvelopeStoreExamples
mod DecoratorExamples
mod DigestExamples
mod AdapterExamples
