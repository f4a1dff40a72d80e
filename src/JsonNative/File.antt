-- ===== src/JsonNative/File.antt =====
-- `JsonNativeDataParser::parse_inner` of src/ingestion/JsonNativeDataParser.cpp. What the system calls
-- give is a parameter; the callback, which gets each event in order, does not throw. The loop runs on
-- fuel: each round passes a character at least.
pub mod Ends
use back_tester.Prelude.{
  ℕ, zero, suc, ◌+◌, ltb, ◌-◌, Bool, true, false, not, ◌||◌, ◌&&◌, ◌==◌, List, [], ◌∷◌, length,
  Option, none, some, ◌⊎◌, inl, inr, if◌then◌else◌,
}
use back_tester.Event.{MarketDataEvent}
use back_tester.JsonNative.Scan.{Text, skip_while, advance}
use back_tester.JsonNative.Timestamp.{drop}
use back_tester.JsonNative.Fields.{ParseError, Parsed}
use back_tester.JsonNative.Line.{parse_line}

-- What `open`, `fstat` and `mmap` give: is there a descriptor, `st_size`, and the mapped bytes.
pub record OpenedFile : Type 0 where
  pub opens : Bool
  pub st_size : Option ℕ
  pub bytes : Option Text

pub data FileError : Type 0 where
  unsupported_format cannot_open fstat_failed mmap_failed : FileError

-- What happens with a line: its event goes to the callback, or the line is reported as skipped.
pub data Item : Type 0 where
  event : MarketDataEvent → Item
  skipped : ParseError → Item

unfoldable pub is_blank : ℕ → Bool
is_blank c = c == 0x0A || c == 0x0D || c == b' '

abbrev pub not_newline : ℕ → Bool
not_newline c = not (c == 0x0A)

-- Past the newline that `memchr` finds, or to the end.
unfoldable pub past_newline : Text → Text
past_newline q = advance (skip_while not_newline q)

abbrev pub take_item : (Text → List Item) → Parsed → List Item
take_item again (Parsed.ok e q) = Item.event e ∷ again q
take_item again (Parsed.threw why q) = Item.skipped why ∷ again (past_newline q)

abbrev pub take_line : (Text → List Item) → Text → List Item
take_line again [] = []
take_line again (c ∷ p) = take_item again (parse_line (c ∷ p))

unfoldable pub parse_lines : ℕ → Text → List Item
parse_lines zero p = []
parse_lines (suc fuel) p = take_line (parse_lines fuel) (skip_while is_blank p)

same_text : Text → Text → Bool
same_text [] [] = true
same_text (c ∷ p) (d ∷ q) = c == d && same_text p q
same_text _ _ = false

-- `ends_with`
unfoldable pub ends_with : Text → Text → Bool
unfolding same_text drop
ends_with p suffix =
    not (ltb (length p) (length suffix)) && same_text (drop (length p - length suffix) p) suffix

abbrev pub mbo_json : Text
mbo_json = b'.' ∷ b'm' ∷ b'b' ∷ b'o' ∷ b'.' ∷ b'j' ∷ b's' ∷ b'o' ∷ b'n' ∷ []

-- After `open` and `fstat`.
unfoldable pub read_mapped : Option ℕ → Option Text → FileError ⊎ List Item
read_mapped none bytes = inl FileError.fstat_failed
read_mapped (some size) bytes = if size == 0 then inr [] else elim bytes [
  | none ↦ inl FileError.mmap_failed
  | some p ↦ inr (parse_lines (suc (length p)) p)
]

-- `parse_inner`
unfoldable pub parse_inner : Text → OpenedFile → FileError ⊎ List Item
unfolding read_mapped
parse_inner path file =
    if not (ends_with path mbo_json)
    then inl FileError.unsupported_format
    else (if file.opens then read_mapped file.st_size file.bytes else inl FileError.cannot_open)
