-- ===== src/Http.antt =====
-- tamer/http.hh and tamer/http.tcc: the messages of HTTP and the callbacks that build one from the
-- pieces that the parser delivers. A string is the list of its bytes. The parser itself is a library:
-- the fields of its object that the callbacks read are the argument `hp`.
pub mod Canonical
pub mod Query
pub mod Callbacks
mod Tests
use tamer.Prelude.{
  ℕ, zero, suc, ◌+◌, ◌-◌, Bool, true, false, not, ◌&&◌, ◌||◌, List, [], ◌∷◌, ◌++◌, Option, none,
  some, ltb, leb, ◌==◌, if◌then◌else◌, length, map,
}

-- `http_header`
pub record Header : Type 0 where
  pub name : List ℕ
  pub value : List ℕ

-- `http_message`, without `info_`, a cache of what `make_info` computes from the other fields
pub record Message : Type 0 where
  pub major : ℕ
  pub minor : ℕ
  pub status_code : ℕ
  pub method : ℕ
  pub error : ℕ
  pub upgrade : ℕ
  pub url : List ℕ
  pub status_message : List ℕ
  pub raw_headers : List Header
  pub body : List ℕ

-- The fields of `hp_` that `copy_parser_status` reads.
pub record Status : Type 0 where
  pub http_major : ℕ
  pub http_minor : ℕ
  pub status_code : ℕ
  pub method : ℕ
  pub http_errno : ℕ
  pub upgrade : ℕ

-- `message_data`; `sbuf` is the text of the stream
pub record MessageData : Type 0 where
  pub hm : Message
  pub key : List ℕ
  pub sbuf : List ℕ
  pub done : Bool

abbrev pub is_nil : List ℕ → Bool
is_nil [] = true
is_nil (c ∷ s) = false

abbrev pub lower : ℕ → ℕ
lower c = if leb 65 c && leb c 90 then c - 65 + 97 else c

unfoldable pub canonicalize : List ℕ → List ℕ
canonicalize x = map lower x

-- The loop of `equals_canonical`. A byte from 128 on is negative as a `char`, and no capital letter
-- in either reading.
unfoldable pub equals_loop : List ℕ → List ℕ → Bool
equals_loop [] [] = true
equals_loop [] (y ∷ s2) = true
equals_loop (x ∷ s1) [] = true
equals_loop (x ∷ s1) (y ∷ s2) =
    let rest = equals_loop s1 s2 in
    if not (x == y) && (ltb x 65 || ltb 90 x || not (x - 65 + 97 == y)) then false else rest

unfoldable pub is_canonical : Header → List ℕ → Bool
is_canonical h s = length h.name == length s && equals_loop h.name s

-- `none` is the end iterator.
unfoldable pub find_canonical_header : List Header → List ℕ → Option Header
find_canonical_header [] s = none
find_canonical_header (h ∷ hs) s =
    let rest = find_canonical_header hs s in if is_canonical h s then some h else rest

-- The loop of `canonical_header`, with its variables `result` and `any`.
unfoldable pub header_loop : List Header → List ℕ → List ℕ → Bool → List ℕ
header_loop [] s result any = result
header_loop (h ∷ hs) s result any = elim (is_canonical h s) [
  | true ↦ header_loop hs s (if any then result ++ (44 ∷ 32 ∷ h.value) else h.value) true
  | false ↦ header_loop hs s result any
]

unfoldable pub canonical_header : List Header → List ℕ → List ℕ
canonical_header hs s = header_loop hs s [] false

-- The numbers of HTTP_GET and HPE_OK, from the parser's header.
pub record Codes : Type 0 where
  pub http_get : ℕ
  pub hpe_ok : ℕ

unfoldable pub do_clear : Codes → Message → Message
do_clear codes m = record {
  major = 1;
  minor = 1;
  status_code = 200;
  method = codes.http_get;
  error = codes.hpe_ok;
  upgrade = 0;
  url = [];
  status_message = [];
  raw_headers = [];
  body = [];
}

unfoldable pub add_header : Message → List ℕ → List ℕ → Message
add_header m key value = record m {
  raw_headers = m.raw_headers ++ (record { name = key; value = value } ∷ []);
}

unfoldable pub copy_parser_status : Status → Message → Message
copy_parser_status hp m = record m {
  major = hp.http_major;
  minor = hp.http_minor;
  status_code = hp.status_code;
  method = hp.method;
  error = hp.http_errno;
  upgrade = hp.upgrade;
}

-- `sbuf.clear()` clears the error flags of the stream and leaves its text.
unfoldable pub on_message_begin : Codes → MessageData → MessageData
unfolding do_clear
on_message_begin codes md = record md { hm = do_clear codes md.hm; key = [] }

unfoldable pub on_url : MessageData → List ℕ → MessageData
on_url md s = let m = md.hm in record md { hm = record m { url = m.url ++ s } }

unfoldable pub on_status : Status → MessageData → List ℕ → MessageData
unfolding copy_parser_status
on_status hp md s =
    let m = if md.hm.major == 0 then copy_parser_status hp md.hm else md.hm in
    record md { hm = record m { status_message = m.status_message ++ s } }

unfoldable pub on_header_field : MessageData → List ℕ → MessageData
unfolding add_header
on_header_field md s =
    if not (is_nil md.key)
    then record md { hm = add_header md.hm md.key md.sbuf; key = []; sbuf = s }
    else record md { sbuf = md.sbuf ++ s }

unfoldable pub on_header_value : MessageData → List ℕ → MessageData
on_header_value md s =
    if is_nil md.key
    then record md { key = md.sbuf; sbuf = s }
    else record md { sbuf = md.sbuf ++ s }

unfoldable pub on_headers_complete : Status → MessageData → MessageData
unfolding add_header copy_parser_status
on_headers_complete hp md =
    let added = record md { hm = add_header md.hm md.key md.sbuf; key = md.sbuf; sbuf = [] } in
    let m = if not (is_nil md.key) then added else md in
    record m { hm = copy_parser_status hp m.hm }

unfoldable pub on_body : MessageData → List ℕ → MessageData
on_body md s = record md { sbuf = md.sbuf ++ s }

unfoldable pub on_message_complete : MessageData → MessageData
on_message_complete md =
    let m = md.hm in record md { hm = record m { body = md.sbuf }; done = true }
