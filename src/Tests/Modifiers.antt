-- ===== src/Tests/Modifiers.antt =====
-- src/template_modifiers.cc: runs of the modifiers, and instances of their theorems.
use ctemplate.Common.{◌<◌, [], ◌∷◌, ◌++◌, ◌≡◌, refl, map, arith, codes, All, length, drop, some}
use ctemplate.Modifiers.Cleanse.Attribute.{AreAt, cleanse_attribute-AreAt}
use ctemplate.Modifiers.Cleanse.Number.{javascript_number}
use ctemplate.Modifiers.Cleanse.{cleanse_attribute, cleanse_css}
use ctemplate.Modifiers.Javascript.Safety.{IsScriptText, javascript_escape-text}
use ctemplate.Modifiers.Javascript.Units.{width_at, unit_image, javascript_escape-cons}
use ctemplate.Modifiers.Javascript.{javascript_escape}
use ctemplate.Modifiers.Json.{
  json_escape, json_read, json_read-json_escape, controls, json_escape-controls,
}
use ctemplate.Modifiers.Markup.RoundTrip.{unescape, html_space, xml_space, unescape-escapes}
use ctemplate.Modifiers.Markup.Safety.{IsInert, IsInertText, IsXmlText, escapes-IsInert}
use ctemplate.Modifiers.Markup.{html_escape, pre_escape, xml_escape}
use ctemplate.Modifiers.PrefixLine.{prefix_line, prefixed, prefix_line-prefixed}
use ctemplate.Modifiers.Snippet.Fragment.{Snippet}
use ctemplate.Modifiers.Snippet.Tags.{Reachable, none_open, added, Reachable-length}
use ctemplate.Modifiers.Snippet.WellFormed.{snippet_escape-Snippet}
use ctemplate.Modifiers.Snippet.{snippet_escape, tag_b, tag_i, maybe_add, has_tag}
use ctemplate.Modifiers.Url.Protocol.{validate_url, validate_url_unknown_scheme}
use ctemplate.Modifiers.Url.Query.{url_decode, url_decode-url_query_escape}
use ctemplate.Modifiers.Url.{url_query_escape}

html_runs : html_escape (codes "<b>a & 'b'\n</b>") ≡ codes "&lt;b&gt;a &amp; &#39;b&#39; &lt;/b&gt;"
unfolding html_escape
html_runs = refl

xml_runs : xml_escape (1 ∷ codes "<\t>") ≡ codes " &lt;\t&gt;"
unfolding xml_escape
xml_runs = refl

snippet_runs :
    (snippet_escape (codes "<b>x <i>y</b> & &{z} <u>")
      ≡ codes "<b>x <i>y</b> & &amp;{z} &lt;u&gt;</i>")
    × (snippet_escape (codes "<b><b></b></b><br>") ≡ codes "<b>&lt;b&gt;</b>&lt;/b&gt;<br>")
    × (snippet_escape (codes "<span dir=rtl>x<span dir=ltr>")
        ≡ codes "<span dir=rtl>x&lt;span dir=ltr&gt;</span>")
unfolding snippet_escape
snippet_runs = (refl, refl, refl)

cleanse_runs :
    (cleanse_attribute (codes "=a=b c=") ≡ codes "_a=b_c_")
    × (cleanse_css (codes "url('a');<") ≡ codes "urla")
unfolding cleanse_attribute cleanse_css
cleanse_runs = (refl, refl)

javascript_runs :
    (javascript_escape (codes "f('<a>\\\n')") ≡ codes "f(\\x27\\x3ca\\x3e\\\\\\n\\x27)")
    × (javascript_escape (0xe2 ∷ 0x80 ∷ 0xa8 ∷ 0xe2 ∷ 0x80 ∷ [])
        ≡ codes "\\u2028" ++ 0xe2 ∷ 0x80 ∷ [])
    × (javascript_escape (0xc0 ∷ 0xbc ∷ []) ≡ codes "\\x3c")
unfolding javascript_escape
javascript_runs = (refl, refl, refl)

number_runs :
    (javascript_number (codes "0x1F") ≡ codes "0x1F")
    × (javascript_number (codes "0x") ≡ codes "null")
    × (javascript_number (codes "-1.5e3") ≡ codes "-1.5e3")
    × (javascript_number (codes "alert(1)") ≡ codes "null")
    × (javascript_number (codes "true") ≡ codes "true")
unfolding javascript_number
number_runs = (refl, refl, refl, refl, refl)

query_runs : url_query_escape (codes "a b&c/~+") ≡ codes "a+b%26c/~%2B"
unfolding url_query_escape
query_runs = refl

json_runs : json_escape (codes "a\"b/\n<") ≡ codes "a\\\"b\\/\\n\\u003C"
unfolding json_escape
json_runs = refl

prefix_runs :
    prefix_line (codes "  ") (codes "a\r\nb\nc\rd\n\r") ≡ codes "a\r\n  b\n  c\r  d\n  \r  "
unfolding prefix_line
prefix_runs = refl

validate_runs :
    (validate_url html_escape (codes "#") (codes "javascript:x") ≡ codes "#")
    × (validate_url html_escape (codes "#") (codes "HTTPS://a?b=<") ≡ codes "HTTPS://a?b=&lt;")
    × (validate_url html_escape (codes "#") (codes "a/b:c") ≡ codes "a/b:c")
unfolding validate_url html_escape
validate_runs = (refl, refl, refl)

json_read-json_escape_example :
    json_read (json_escape (codes "\"</script>\"\\")) ≡ some (codes "\"</script>\"\\")
json_read-json_escape_example = json_read-json_escape (codes "\"</script>\"\\")

snippet_escape-Snippet_example : Snippet [] (snippet_escape (codes "<b>x<i>&y</b>")) []
snippet_escape-Snippet_example = snippet_escape-Snippet (codes "<b>x<i>&y</b>")

two_open : Reachable (tag_b ∷ tag_i ∷ [])
unfolding maybe_add has_tag
two_open = added tag_i (added tag_b none_open refl) refl

Reachable-length_example : length (tag_b ∷ tag_i ∷ []) < 5
Reachable-length_example = Reachable-length (tag_b ∷ tag_i ∷ []) two_open

cleanse_attribute-AreAt_example :
    (length (cleanse_attribute (codes "=a b=")) ≡ length (codes "=a b="))
    × AreAt 0 (length (codes "=a b=")) (cleanse_attribute (codes "=a b="))
cleanse_attribute-AreAt_example = cleanse_attribute-AreAt (codes "=a b=")

javascript_escape-text_example : All IsScriptText (javascript_escape (codes "';</script>"))
javascript_escape-text_example = javascript_escape-text (codes "';</script>") (omega arith)

javascript_escape-cons_example :
    javascript_escape (0xe2 ∷ 0x80 ∷ 0xa8 ∷ b'<' ∷ [])
    ≡ unit_image 0xe2 (0x80 ∷ 0xa8 ∷ b'<' ∷ [])
      ++ javascript_escape
          (drop (width_at 0xe2 (0x80 ∷ 0xa8 ∷ b'<' ∷ [])) (0xe2 ∷ 0x80 ∷ 0xa8 ∷ b'<' ∷ []))
javascript_escape-cons_example = javascript_escape-cons 0xe2 (0x80 ∷ 0xa8 ∷ b'<' ∷ [])

url_decode-url_query_escape_example :
    url_decode (url_query_escape (codes "a b&c+%")) ≡ codes "a b&c+%"
url_decode-url_query_escape_example = url_decode-url_query_escape (codes "a b&c+%") (omega arith)

prefix_line-prefixed_example :
    prefix_line (codes "> ") (codes "a\r\nb\r") ≡ prefixed (codes "> ") (codes "a\r\nb\r")
prefix_line-prefixed_example = prefix_line-prefixed (codes "> ") (codes "a\r\nb\r")

validate_url_unknown_scheme_example :
    validate_url html_escape (codes "#") (codes "JavaScript" ++ b':' ∷ codes "//x")
    ≡ html_escape (codes "#")
validate_url_unknown_scheme_example =
    validate_url_unknown_scheme html_escape (codes "#") (codes "JavaScript") (codes "//x")
      (omega arith, ground arith, ground arith, ground arith)

unescape-escapes_example :
    (unescape (pre_escape (codes "<a\n>")) ≡ codes "<a\n>")
    × (unescape (html_escape (codes "<a\n>")) ≡ map html_space (codes "<a\n>"))
    × (unescape (xml_escape (codes "<a\n>")) ≡ map xml_space (codes "<a\n>"))
unescape-escapes_example = unescape-escapes (codes "<a\n>")

escapes-IsInert_example :
    All IsInertText (html_escape (codes "<a\n>"))
    × All IsInert (pre_escape (codes "<a\n>"))
    × All IsXmlText (xml_escape (codes "<a\n>"))
escapes-IsInert_example = escapes-IsInert (codes "<a\n>")

json_escape-controls_example : controls (json_escape (1 ∷ 10 ∷ codes "/" ++ 11 ∷ [])) ≡ 1 ∷ 11 ∷ []
json_escape-controls_example = json_escape-controls (1 ∷ 10 ∷ codes "/" ++ 11 ∷ [])
