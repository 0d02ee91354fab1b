-- ===== src/Http/Tests.antt =====
-- The message `POST /a` with the header `Host: xy` in pieces, and two queries.
use tamer.Prelude.{ℕ, ◌≡◌, refl, true, false, List, [], ◌∷◌, arith}
use tamer.Http.{Header, MessageData, Codes, Status}
use tamer.Http.Callbacks.{Pieces, received, received_lem}
use tamer.Http.Query.{split_query}
use tamer.Http.Query.Print.{IsPair, split_query-print, split_query-escape}

abbrev codes : Codes
codes = record { http_get = 1; hpe_ok = 0 }

abbrev status : Status
status = record {
  http_major = 1;
  http_minor = 1;
  status_code = 0;
  method = 3;
  http_errno = 0;
  upgrade = 0;
}

abbrev blank : MessageData
blank = record {
  hm = record {
    major = 1;
    minor = 1;
    status_code = 0;
    method = 1;
    error = 0;
    upgrade = 0;
    url = [];
    status_message = [];
    raw_headers = [];
    body = [];
  };
  key = [];
  sbuf = [];
  done = false;
}

abbrev url : List (List ℕ)
url = (47 ∷ []) ∷ (97 ∷ []) ∷ []

abbrev body : List (List ℕ)
body = (98 ∷ []) ∷ (99 ∷ []) ∷ []

abbrev host_pieces : Pieces
host_pieces = record {
  name = 72 ∷ 111 ∷ [];
  more_name = (115 ∷ 116 ∷ []) ∷ [];
  value = 120 ∷ [];
  more_value = (121 ∷ []) ∷ [];
}

received_lem_example :
    ((received codes status blank url (host_pieces ∷ []) body).hm.url ≡ 47 ∷ 97 ∷ [])
    × ((received codes status blank url (host_pieces ∷ []) body).hm.raw_headers
        ≡ record { name = 72 ∷ 111 ∷ 115 ∷ 116 ∷ []; value = 120 ∷ 121 ∷ [] } ∷ [])
    × ((received codes status blank url (host_pieces ∷ []) body).hm.body ≡ 98 ∷ 99 ∷ [])
    × ((received codes status blank url (host_pieces ∷ []) body).done ≡ true)
received_lem_example = received_lem codes status blank url (host_pieces ∷ []) body refl (refl, tt)

abbrev one : Header
one = record { name = 97 ∷ []; value = 49 ∷ [] }

one-IsPair : IsPair one
one-IsPair = (
  refl,
  ((ground arith, ground arith, ground arith, ground arith, ground arith), tt),
  ((ground arith, ground arith, ground arith, ground arith, ground arith), tt),
)

-- a=1&a=1
split_query-print_example : split_query (97 ∷ 61 ∷ 49 ∷ 38 ∷ 97 ∷ 61 ∷ 49 ∷ []) ≡ one ∷ one ∷ []
split_query-print_example = split_query-print (one ∷ one ∷ []) (one-IsPair, (one-IsPair, refl))

-- a=1%41
split_query-escape_example : split_query (97 ∷ 61 ∷ 49 ∷ 37 ∷ 52 ∷ 49 ∷ []) ≡ []
split_query-escape_example = split_query-escape (97 ∷ []) (49 ∷ []) 52 49 one-IsPair refl refl
