-- ===== src/Workshop/Tests.antt =====
-- Examples for crates/workshop-parse, with the ASCII digits alone.
use magpie.Prelude.{◌≡◌, true, codes, all}
use magpie.Workshop.{escape_html}
use magpie.Workshop.Escape.{is_plain, unescape, unescape-escape_html}

unescape-escape_html_example :
    (unescape 0 (escape_html (codes "a & <b> \"c\" 'd' &amp;")) ≡ codes "a & <b> \"c\" 'd' &amp;")
    × (all is_plain (escape_html (codes "a & <b> \"c\" 'd' &amp;")) ≡ true)
unescape-escape_html_example = unescape-escape_html (codes "a & <b> \"c\" 'd' &amp;")
