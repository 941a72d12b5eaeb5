-- ===== src/Modifiers.antt =====
-- src/template_modifiers.cc: the built-in modifiers.
pub mod Run
pub mod Markup
pub mod Json
pub mod Url
pub mod Cleanse
pub mod PrefixLine
pub mod Javascript
pub mod Snippet
pub mod Registry
