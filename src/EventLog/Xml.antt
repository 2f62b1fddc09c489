-- ===== src/EventLog/Xml.antt =====
-- Event records and their XML text.
pub mod Escape
pub mod Reading
use iso26430_6_asm_prototype.Base.{
  ℕ, zero, suc, ◌+◌, ◌/◌, ◌%◌, String, List, [], ◌∷◌, ◌++◌, ◌==◌, if◌then◌else◌, Text, codes,
}
use iso26430_6_asm_prototype.Streams.{decimal}

pub data EventSeverity : Type 0 where
  info warning error : EventSeverity

pub record EventRecord : Type 0 where
  pub event_id : ℕ
  pub severity : EventSeverity
  pub timestamp_epoch : ℕ
  pub timestamp_text : Text
  pub summary : Text

unfoldable pub severity_to_string : EventSeverity → String
severity_to_string info = "info"
severity_to_string warning = "warning"
severity_to_string error = "error"

-- What the loop appends for one character.
unfoldable pub escape_char : ℕ → Text
escape_char ch =
    if ch == b'&'
    then codes "&amp;"
    else if ch == b'<'
    then codes "&lt;"
    else if ch == b'>'
    then codes "&gt;"
    else if ch == b'"'
    then codes "&quot;"
    else if ch == b'\''
    then codes "&apos;"
    else ch ∷ []

unfoldable pub escape_xml : Text → Text
escape_xml [] = []
escape_xml (ch ∷ value) = escape_char ch ++ escape_xml value

unfoldable pub render_event_xml : EventRecord → Text
render_event_xml event =
    codes "<LogRecord>"
    ++ (codes "<EventID>"
        ++ (decimal event.event_id
            ++ (codes "</EventID>"
                ++ (codes "<Timestamp>"
                    ++ (escape_xml event.timestamp_text
                        ++ (codes "</Timestamp>"
                            ++ (codes "<Severity>"
                                ++ (escape_xml (codes (severity_to_string event.severity))
                                    ++ (codes "</Severity>"
                                        ++ (codes "<Summary>"
                                            ++ (escape_xml event.summary
                                                ++ (codes "</Summary>"
                                                    ++ codes "</LogRecord>"))))))))))))
