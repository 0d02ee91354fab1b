-- ===== src/Http/Query.antt =====
-- The loop of `http_message::make_info` in tamer/http.tcc that splits the query of a URL, and the
-- lookups in its result. Where the query stands in the URL is found by the parser's library.
pub mod Print
use tamer.Prelude.{
  ℕ, zero, suc, ◌+◌, ◌-◌, ◌*◌, ◌%◌, Bool, true, false, not, ◌&&◌, ◌||◌, List, [], ◌∷◌, ◌++◌, ltb,
  leb, ◌==◌, if◌then◌else◌,
}
use tamer.Http.{Header, is_nil}

-- The variables of the loop; `pending` is the text from `last` to `s`.
pub record Query : Type 0 where
  pub state : ℕ
  pub pending : List ℕ
  pub name : List ℕ
  pub buf : List ℕ
  pub raw_query : List Header

abbrev pub initial : Query
initial = record { state = 0; pending = []; name = []; buf = []; raw_query = [] }

abbrev pub isxdigit : ℕ → Bool
isxdigit c = (leb 48 c && leb c 57) || (leb 65 c && leb c 70) || (leb 97 c && leb c 102)

abbrev pub xvalue : ℕ → ℕ
xvalue ch = if leb ch 57 then ch - 48 else if leb ch 70 then ch - 65 + 10 else ch - 97 + 10

-- `*s == '&' || *s == ';'`
abbrev pub ends_pair : ℕ → Bool
ends_pair c = c == 38 || c == 59

-- From the label `add_last` on.
unfoldable pub add_last : Query → Query
add_last q =
    let buf = q.buf ++ q.pending in
    let pair : Header =
      if is_nil q.name
      then record { name = buf; value = [] }
      else record { name = q.name; value = buf } in
    record { state = 0; pending = []; name = []; buf = []; raw_query = q.raw_query ++ (pair ∷ []) }

-- One round at a byte that starts no escape.
unfoldable pub round : Query → ℕ → Query
unfolding add_last
round q c =
    let begun = if q.state == 0 then record q { state = 1; pending = [] } else q in
    if q.state == 0 && (ends_pair c || c == 61)
    then record q { pending = [] }
    else if c == 43
    then record begun { buf = begun.buf ++ begun.pending ++ (32 ∷ []); pending = [] }
    else if begun.state == 1 && c == 61
    then record begun { name = begun.buf ++ begun.pending; buf = []; pending = []; state = 2 }
    else if ends_pair c
    then add_last begun
    else record begun { pending = begun.pending ++ (c ∷ []) }

-- One round at an escape with the digits `a` and `b`.
unfoldable pub escape : Query → ℕ → ℕ → Query
escape q a b =
    let begun = if q.state == 0 then record q { state = 1; pending = [] } else q in
    record begun {
      buf = begun.buf ++ begun.pending ++ ((xvalue a * 16 + xvalue b) ∷ []);
      pending = [];
    }

unfoldable pub run : Query → List ℕ → Query
run q [] = q
run q (c ∷ a ∷ b ∷ s) = elim (c == 37 && isxdigit a && isxdigit b) [
  | true ↦ run (escape q a b) s
  | false ↦ run (round q c) (a ∷ b ∷ s)
]
run q (c ∷ s) = run (round q c) s

-- The loop, and the `goto` behind it if `last != s`.
unfoldable pub split_query : List ℕ → List Header
unfolding add_last
split_query s =
    let q = run initial s in
    let more = add_last q in if is_nil q.pending then q.raw_query else more.raw_query
