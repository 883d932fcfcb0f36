-- ===== src/Storage/Xml/Escape.antt =====
-- `escape_xml` of crates/sqrld/src/storage/xml.rs and of error.rs beside it, which is the same text.
use squirreldb.Base.{Text, lit}
use squirreldb.Base.Strings.{replace_char}

unfoldable pub escape_xml : Text → Text
unfolding replace_char
escape_xml s = replace_char b'"' (lit "&quot;") (
    replace_char b'\'' (lit "&apos;") (
      replace_char b'>' (lit "&gt;")
        (replace_char b'<' (lit "&lt;") (replace_char b'&' (lit "&amp;") s))))
