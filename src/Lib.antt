-- ===== src/Lib.antt =====
-- A verification library for ctemplate, the template engine of this repository.
--
-- The program. A template is parsed into a tree of text, variables, sections and includes, and is
-- expanded with a dictionary. Each variable passes through a chain of modifiers, which escape its
-- value for the place where it stands; in auto-escape mode the HTML parser finds that place and
-- GetModifierForHtmlJs picks the modifiers.
--
-- What models what.
--   Common, Common/Tests, Common/Lists: shared names, byte strings, tests and lemmas on lists.
--   Modifiers/Run: EmitRun and the loop of the escaping modifiers of src/template_modifiers.cc.
--   Modifiers/Markup: HtmlEscape, PreEscape, XmlEscape.
--   Modifiers/Json: JsonEscape. Modifiers/Javascript: UTF8CodeUnit, JavascriptEscape.
--   Modifiers/Url: UrlQueryEscape, CssUrlEscape. Modifiers/Url/Protocol: ValidateUrl.
--   Modifiers/Cleanse: CleanseAttribute, CleanseCss. Modifiers/Cleanse/Number: JavascriptNumber.
--   Modifiers/PrefixLine: PrefixLine. Modifiers/Snippet: SnippetEscape and its set of open tags.
--   Modifiers/Registry: ModifierInfo, FindModifier and AddModifier with the two global vectors as
--   a record; Registry/Builtin: g_modifiers and IsSafeXSSAlternative; Registry/Context:
--   GetModifierForHtmlJs and the other choices of auto-escaping.
--   A name that AddModifier gets is a C string, without a NUL; c_str is written out where a name comes
--   from a template.
--   Htmlparser/StateMachine: src/htmlparser/statemachine.cc. A context holds a value of the layer
--   above in place of a pointer, and an event is a function on the context.
--   The line and the column are C ints there and natural numbers here. StateMachine/Position and
--   StateMachine/Trace: the place in the input, and the calls of the events.
--   Htmlparser/JsBuffer: the ring buffer of src/htmlparser/jsparser.cc. JsBuffer/Refinement,
--   JsBuffer/Operations and JsBuffer/Words: its operations on the list of the characters that it
--   holds. The loop of jsparser_buffer_last_identifier recurs on fuel, the size of the buffer,
--   behind which it reads NUL.
--   Htmlparser/JsParser: the rest of jsparser.cc over the state machine, with the transitions of
--   src/htmlparser/jsparser_fsm.config and the width of the rows of generate_fsm.py.
--   JsParser/Keywords and JsParser/Division: when a slash opens a regular expression.
--   Pathops: src/template_pathops.cc on a system whose separator is `/`; its loop for a word recurs
--   on fuel, the length of the text, of which a round uses one and moves on by two bytes at least.
--   Pathops/Search and Pathops/FullWord: the places of a word in a text. Pathops/Split: a text around
--   a word.
--   Dictionary: src/template_dictionary.cc as a heap, in which an address is the number of a
--   dictionary; an operation takes a heap and gives one. Dictionary/Lookup: what Expand asks a
--   dictionary. Its loops over the parents recur on fuel, the number of dictionaries: a parent has a
--   lower number than its child (Lookup/Chain). Lookup/Values, Lookup/Children and Lookup/Contract:
--   what is found behind the operations. Dictionary/Valid: the shape of the heap, kept by each
--   operation in Valid/Operations and Valid/Globals, and the heaps that a program makes in
--   Valid/Reach.
--   Template: TemplateToken and its modifiers, of src/template.cc; Template/Matching and
--   Template/AutoEscape: FindLongestMatch and UpdateModifier. Template/Nodes: the nodes of a
--   template, the interface of a dictionary, PerExpandData and the annotators of
--   src/template_annotator.cc. Template/Expand: Expand of each node, over a function for included
--   files. Template/ExpandLocked: ExpandLocked of src/template.cc and src/template_cache.cc, which
--   ties that function with fuel for the nesting of includes. What the cache has for a name is a
--   function. Template/Expand/Yields and Total: expansions that end, over an abstract interface.
--   Template/Markers and Template/Tokens: GetNextToken, over a list of the bytes from bufstart to
--   bufend; what is checked of a pragma is a test that is given. Template/Layout: ParseDelimiters and
--   GetIndentation. Template/Tree: AddSubnode and BuildTree outside auto-escape mode. AddSubnode is
--   written over the loop that calls it, which is tied by fuel: twice the number of the bytes and one
--   more are enough, since each token takes a byte or ends the name of a marker (Tree/Progress and
--   Tree/Ends). Tree/Literal, Tree/RoundTrip and Tree/Substitution: templates of texts and variables,
--   from their bytes to their expansion.
--   Template/StripBuffer: StripBuffer, which edits a file's text before BuildTree reads it, and its
--   subroutines. Its loops recur on fuel, the number of the bytes and two more: each line and each
--   marker takes a byte at least, as long as no marker is empty.
--   Template/Headers: WriteHeaderEntries, with the static variables of WriteOneHeaderEntry as a state.
--   Template/Dictionaries: the dictionaries of the heap as that interface; an include leads to a
--   dictionary with a later root, so that the number of dictionaries is fuel enough
--   (Dictionaries/Roots, Ends and Expansion).
--   Tests: runs on inputs of the unit tests, and instances of the theorems.
--
-- How. A string is the list of its bytes. A pair of pointers into the input is the list of the
-- bytes between them and the list of those behind; an emitter is the list of what it was given.
-- A loop over single bytes recurs on the input. PrefixLine, JavascriptEscape and SnippetEscape step
-- over several bytes at once and recur on fuel, the length of the input, of which each round uses
-- one and takes a byte of the input at least.
--
-- Not modelled: auto-escape mode in the parser, pragmas, dumps of templates,
-- MakeCopy and Dump of dictionaries, the cache, the HTML parser (its answers are a record in
-- Registry/Context), memory management, locks, logs, file access and the command-line tools.
pub mod Common
pub mod Dictionary
pub mod Htmlparser
pub mod Modifiers
pub mod Pathops
pub mod Template
mod Tests
