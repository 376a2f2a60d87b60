-- ===== src/Tests.antt =====
-- Concrete instances of what the model takes as parameters, and the theorems on concrete inputs.
mod Codec
mod Plain
mod Setup
mod Protocol
mod Serving
mod Systems
mod Installing
mod Living
mod Weaving
mod Building
