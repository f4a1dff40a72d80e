-- ===== src/JsonNative/Print/File.antt =====
-- `parse_inner` of src/ingestion/JsonNativeDataParser.cpp over a printed file.
use back_tester.Prelude.{List, [], ◌∷◌, pos, ◌==ℤ◌, if◌then◌else◌}
use back_tester.JsonNative.Scan.{Text}
use back_tester.JsonNative.Fields.{ParseError}
use back_tester.JsonNative.File.{Item}
use back_tester.JsonNative.Print.{LineField}
use back_tester.JsonNative.Print.Line.{print_line, event_of}

-- Lines, each before a newline.
unfoldable pub print_lines : List (List LineField) → Text
unfolding print_line
print_lines [] = []
print_lines (l ∷ ls) = print_line l (0x0A ∷ print_lines ls)

-- What becomes of a line: its event, or nothing where its ts_recv is missing or 0.
unfoldable pub item_of : List LineField → Item
item_of l =
    if (event_of l).ts_recv ==ℤ pos 0
    then Item.skipped ParseError.missing_ts_recv
    else Item.event (event_of l)
