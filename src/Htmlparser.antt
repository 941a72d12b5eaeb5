-- ===== src/Htmlparser.antt =====
-- src/htmlparser: the state machine and the JavaScript parser.
pub mod StateMachine
pub mod JsBuffer
pub mod JsParser
