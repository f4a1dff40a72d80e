-- ===== src/JsonNative.antt =====
-- src/ingestion/JsonNativeDataParser.cpp: the parser of `.mbo.json` files that scans the mapped bytes
-- itself. The pointer `p` into the file is the list of the bytes from it to `end`, the empty list once
-- it has reached or passed `end`.
pub mod Scan
pub mod Numbers
pub mod Timestamp
pub mod Fields
pub mod Line
pub mod File
pub mod Print
